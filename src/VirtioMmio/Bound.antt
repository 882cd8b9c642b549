-- ===== src/VirtioMmio/Bound.antt =====
-- Every access keeps the registers of the queues and the queues together.
use modvm.Prelude.{
  ℕ, suc, ◌%◌, ◌≤◌, ◌<◌, ◌≡◌, refl, ap, sym, subst, ◌∙◌, inl, inr, Bool, true, false, ◌&&◌, not,
  List, [], ◌∷◌, arith, length, length-set, map, ltb, ltb→lt, ◌==◌, Bool-cases,
}
use modvm.Memory.{MemSpace}
use modvm.Virtqueue.{Virtqueue, disable, reset}
use modvm.Virtio.{VirtioDevice, max_vqs, set_status, set_features}
use modvm.VirtioMmio.{QueueRegs, Mmio, nr_vqs, vq_at, regs_at}
use modvm.VirtioMmio.Write.{set_regs, bind, write_ready, rebound, write_status}
use modvm.VirtioMmio.Regs.{
  Binds, bind-Binds, Pairs, Pairs-get, Pairs-set, Pairs-set_regs, Pairs-set_vq, Pairs-reset,
}

pub record IsSound (mem : MemSpace) (m : Mmio) : Type 0 where
  pub pairs : Pairs mem m.queue_regs m.vdev.vqs
  pub few : length m.vdev.vqs ≤ max_vqs

-- A change of the registers that leaves `ready`.
pub set_regs-IsSound :
    (mem : MemSpace) (m : Mmio) (f : QueueRegs → QueueRegs)
    → ((r : QueueRegs) → (f r).ready ≡ r.ready)
    → IsSound mem m
    → IsSound mem (set_regs m f)
unfolding set_regs
set_regs-IsSound mem m f same h =
    elim (Bool-cases (ltb m.queue_sel (nr_vqs m) && not (regs_at m m.queue_sel).ready)) [
      | inr e ↦ rw (e, set_regs) h
      | inl e ↦
          let (lt, off) = split (ltb m.queue_sel (nr_vqs m)) (regs_at m m.queue_sel).ready e in
          let a =
            Pairs-get mem m.queue_regs m.vdev.vqs m.queue_sel h.pairs (ltb→lt m.queue_sel _ lt) in
          rw (e, set_regs)
            (record {
              pairs =
                  Pairs-set_regs mem m.queue_regs m.vdev.vqs m.queue_sel (f (regs_at m m.queue_sel))
                    h.pairs
                    (record {
                      enabled = same (regs_at m m.queue_sel) ∙ a.enabled;
                      bound = λ k.
                          let clash = sym k ∙ same (regs_at m m.queue_sel) ∙ off in absurd (cc);
                    });
              few = h.few;
            })
    ]
  where
    split : (p q : Bool) → p && not q ≡ true → (p ≡ true) × (q ≡ false)
    split p q e = ground arith

rebound-IsSound :
    (mem : MemSpace) (m : Mmio) (q : ℕ) (x : Virtqueue × Bool)
    → q < nr_vqs m
    → (regs_at m q).ready ≡ false
    → IsSound mem m
    → Binds mem (regs_at m q) (vq_at m q) x
    → IsSound mem (rebound m q x)
rebound-IsSound mem m q (vq, done) lt off h (inl (e, same)) = rw e (record {
  pairs = Pairs-set_vq mem m.queue_regs m.vdev.vqs q vq h.pairs (record {
    enabled = (Pairs-get mem m.queue_regs m.vdev.vqs q h.pairs lt).enabled ∙ sym same;
    bound = λ k. let clash = sym k ∙ off in absurd (cc);
  });
  few = omega (arith, length-set m.vdev.vqs q vq, h.few);
})
rebound-IsSound mem m q (vq, done) lt off h (inr (e, on, b)) = rw e (record {
  pairs = Pairs-set mem m.queue_regs m.vdev.vqs q _ vq h.pairs (record {
    enabled = sym on;
    bound = λ k. record { size = b.size; desc = b.desc; avail = b.avail; used = b.used };
  });
  few = omega (arith, length-set m.vdev.vqs q vq, h.few);
})

write_ready_binds :
    (mem : MemSpace) (m : Mmio) (q val : ℕ)
    → (val == 0) ≡ false
    → not (regs_at m q).ready && val == 1 ≡ true
    → write_ready mem m q val ≡ rebound m q (bind mem (regs_at m q) (vq_at m q))
unfolding write_ready
write_ready_binds mem m q val e f = rw (e, write_ready) (rw (f, write_ready) refl)

pub write_ready-IsSound :
    (mem : MemSpace) (m : Mmio) (q val : ℕ)
    → q < nr_vqs m
    → IsSound mem m
    → IsSound mem (write_ready mem m q val)
unfolding write_ready disable
write_ready-IsSound mem m q val lt h = elim (Bool-cases (val == 0)) [
  | inl e ↦
      rw (e, write_ready)
        (record {
          pairs =
              Pairs-set mem m.queue_regs m.vdev.vqs q _ _ h.pairs
                (record { enabled = refl; bound = λ k. (cc) });
          few = omega (arith, length-set m.vdev.vqs q (disable (vq_at m q)), h.few);
        })
  | inr e ↦ elim (Bool-cases (not (regs_at m q).ready && val == 1)) [
    | inr f ↦ rw (e, write_ready) (rw (f, write_ready) h)
    | inl f ↦ subst (IsSound mem) (sym (write_ready_binds mem m q val e f)) (
        rebound-IsSound mem m q _ lt (ready_off (regs_at m q).ready (val == 1) f) h
          (bind-Binds mem (regs_at m q) (vq_at m q)))
  ]
]
  where
    ready_off : (p q : Bool) → not p && q ≡ true → p ≡ false
    ready_off p q e = ground arith

-- A write that keeps the queues, whatever else it does to the device.
pub same_queues :
    (mem : MemSpace) (m m' : Mmio)
    → m'.queue_regs ≡ m.queue_regs
    → m'.vdev.vqs ≡ m.vdev.vqs
    → IsSound mem m
    → IsSound mem m'
same_queues mem m m' er ev h = record { pairs = rw (er, ev) h.pairs; few = rw ev h.few }

set_status-vqs :
    (offered : ℕ) (dev : VirtioDevice) (status : ℕ)
    → (status == 0) ≡ false
    → (set_status offered dev status).0.vqs ≡ dev.vqs
unfolding set_status
set_status-vqs offered dev status e = rw (e, set_status) refl

pub set_status-reset :
    (offered : ℕ) (dev : VirtioDevice) (status : ℕ)
    → (status == 0) ≡ true
    → (set_status offered dev status).0.vqs ≡ map reset dev.vqs
unfolding set_status
set_status-reset offered dev status e = rw (e, set_status) refl

pub length-map-reset : (vs : List Virtqueue) → length (map reset vs) ≡ length vs
length-map-reset [] = refl
length-map-reset (v ∷ vs) = ap suc (length-map-reset vs)

pub write_status-IsSound :
    (mem : MemSpace) (offered : ℕ) (m : Mmio) (val : ℕ)
    → (val % 256 ≡ 0 → val ≡ 0)
    → IsSound mem m
    → IsSound mem (write_status offered m val).0
unfolding write_status
write_status-IsSound mem offered m val byte h = elim (Bool-cases (val == 0)) [
  | inl e ↦
      let vs = set_status-reset offered m.vdev (val % 256) (ground arith) in
      rw (e, write_status)
        (record {
          pairs = rw vs (Pairs-reset mem max_vqs m.vdev.vqs h.few);
          few = rw (vs, length-map-reset) h.few;
        })
  | inr e ↦
      rw (e, write_status)
        (same_queues mem m _ refl (set_status-vqs offered m.vdev (val % 256) (ground (arith, byte)))
          h)
]

pub set_features-vqs :
    (dev : VirtioDevice) (selector value : ℕ) → (set_features dev selector value).vqs ≡ dev.vqs
unfolding set_features
set_features-vqs dev selector value = ground arith
