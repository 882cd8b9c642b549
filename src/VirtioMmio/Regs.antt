-- ===== src/VirtioMmio/Regs.antt =====
-- The registers of a queue against the queue: ready means enabled, at the size and the addresses
-- in the registers.
use modvm.Prelude.{
  ℕ, zero, suc, ◌+◌, ◌*◌, ◌≤◌, ◌<◌, ◌≡◌, refl, ap, sym, subst, ◌∙◌, ◌⊎◌, inl, inr, Bool, true,
  false, List, [], ◌∷◌, Option, none, some, arith, length, get_or, set, replicate, map, ltb, ◌==◌,
  ◌!=◌, Bool-cases,
}
use modvm.Memory.{MemSpace, map_range}
use modvm.Virtqueue.{Virtqueue, set_size, set_addrs, bind_rings, reset}
use modvm.VirtioMmio.{QueueRegs, no_regs}
use modvm.VirtioMmio.Write.{join, bind}
use modvm.Virtio.{no_queue}

pub record Bound (mem : MemSpace) (r : QueueRegs) (vq : Virtqueue) : Type 0 where
  pub size : vq.queue_size ≡ r.num
  pub desc : vq.desc_table ≡ map_range mem (join r.desc_hi r.desc_lo) (16 * r.num) false
  pub avail : vq.avail_ring ≡ map_range mem (join r.avail_hi r.avail_lo) (6 + 2 * r.num) false
  pub used : vq.used_ring ≡ map_range mem (join r.used_hi r.used_lo) (6 + 8 * r.num) true

pub record Agrees (mem : MemSpace) (r : QueueRegs) (vq : Virtqueue) : Type 0 where
  pub enabled : r.ready ≡ vq.enabled
  pub bound : r.ready ≡ true → Bound mem r vq

set_size_cases :
    (vq : Virtqueue) (n : ℕ)
    → (((set_size vq n).1 != 0) ≡ true) × ((set_size vq n).0 ≡ vq)
      ⊎ (((set_size vq n).1 != 0) ≡ false) × ((set_size vq n).0 ≡ record vq { queue_size = n })
unfolding set_size
set_size_cases vq n = ground arith

bind_rings_cases :
    (vq : Virtqueue) (d a u : Option ℕ)
    → (((bind_rings vq d a u).1 == 0) ≡ false) × ((bind_rings vq d a u).0 ≡ vq)
      ⊎ (((bind_rings vq d a u).1 == 0) ≡ true)
        × ((bind_rings vq d a u).0
            ≡ record vq { desc_table = d; avail_ring = a; used_ring = u; enabled = true })
unfolding bind_rings
bind_rings_cases vq none a u = inl (refl, refl)
bind_rings_cases vq (some d) none u = inl (refl, refl)
bind_rings_cases vq (some d) (some a) none = inl (refl, refl)
bind_rings_cases vq (some d) (some a) (some u) = inr (refl, refl)

set_addrs_cases :
    (mem : MemSpace) (vq : Virtqueue) (desc avail used : ℕ)
    → (((set_addrs mem vq desc avail used).1 == 0) ≡ false)
        × ((set_addrs mem vq desc avail used).0 ≡ vq)
      ⊎ (((set_addrs mem vq desc avail used).1 == 0) ≡ true)
        × ((set_addrs mem vq desc avail used).0 ≡ record vq {
          desc_table = map_range mem desc (16 * vq.queue_size) false;
          avail_ring = map_range mem avail (6 + 2 * vq.queue_size) false;
          used_ring = map_range mem used (6 + 8 * vq.queue_size) true;
          enabled = true;
        })
unfolding set_addrs
set_addrs_cases mem vq desc avail used = ground (
  arith,
  bind_rings_cases vq (map_range mem desc (16 * vq.queue_size) false)
      (map_range mem avail (6 + 2 * vq.queue_size) false)
      (map_range mem used (6 + 8 * vq.queue_size) true),
)

bind_refused :
    (mem : MemSpace) (r : QueueRegs) (vq : Virtqueue)
    → ltb 65535 r.num ≡ true
    → bind mem r vq ≡ (vq, false)
unfolding bind
bind_refused mem r vq e = rw (e, bind) refl

bind_unsized :
    (mem : MemSpace) (r : QueueRegs) (vq : Virtqueue)
    → ltb 65535 r.num ≡ false
    → ((set_size vq r.num).1 != 0) ≡ true
    → bind mem r vq ≡ ((set_size vq r.num).0, false)
unfolding bind
bind_unsized mem r vq e f = rw (e, bind) (rw (f, bind) refl)

abbrev addressed : MemSpace → QueueRegs → Virtqueue → Virtqueue × ℕ
addressed mem r vq =
    set_addrs mem vq (join r.desc_hi r.desc_lo) (join r.avail_hi r.avail_lo)
      (join r.used_hi r.used_lo)

bind_sized :
    (mem : MemSpace) (r : QueueRegs) (vq : Virtqueue)
    → ltb 65535 r.num ≡ false
    → ((set_size vq r.num).1 != 0) ≡ false
    → let bound = addressed mem r (set_size vq r.num).0 in bind mem r vq ≡ (bound.0, bound.1 == 0)
unfolding bind
bind_sized mem r vq e f = rw (e, bind) (rw (f, bind) refl)

-- Binding a queue: either it stays as enabled as it was, or its rings are those of the registers.
abbrev pub Binds : MemSpace → QueueRegs → Virtqueue → Virtqueue × Bool → Type 0
Binds mem r vq x =
    ((x.1 ≡ false) × (x.0.enabled ≡ vq.enabled))
    ⊎ (x.1 ≡ true) × (x.0.enabled ≡ true) × Bound mem r x.0

addressed-Binds :
    (mem : MemSpace) (r : QueueRegs) (vq sized : Virtqueue)
    → sized ≡ record vq { queue_size = r.num }
    → Binds mem r vq ((addressed mem r sized).0, (addressed mem r sized).1 == 0)
addressed-Binds mem r vq sized e =
    elim (set_addrs_cases mem sized (join r.desc_hi r.desc_lo) (join r.avail_hi r.avail_lo)
      (join r.used_hi r.used_lo)) [
        | inl (h, same) ↦ inl (h, ap (λ v. v.enabled) same ∙ ap (λ v. v.enabled) e)
        | inr (h, now) ↦
            let size : sized.queue_size ≡ r.num = ap (λ v. v.queue_size) e in
            inr (
              h,
              ap (λ v. v.enabled) now,
              record {
                size = ap (λ v. v.queue_size) now ∙ size;
                desc =
                    ap (λ v. v.desc_table) now
                    ∙ ap (λ n. map_range mem (join r.desc_hi r.desc_lo) (16 * n) false) size;
                avail =
                    ap (λ v. v.avail_ring) now
                    ∙ ap (λ n. map_range mem (join r.avail_hi r.avail_lo) (6 + 2 * n) false) size;
                used =
                    ap (λ v. v.used_ring) now
                    ∙ ap (λ n. map_range mem (join r.used_hi r.used_lo) (6 + 8 * n) true) size;
              },
            )
      ]

pub bind-Binds : (mem : MemSpace) (r : QueueRegs) (vq : Virtqueue) → Binds mem r vq (bind mem r vq)
bind-Binds mem r vq = elim (Bool-cases (ltb 65535 r.num)) [
  | inl e ↦ subst (Binds mem r vq) (sym (bind_refused mem r vq e)) (inl (refl, refl))
  | inr e ↦ elim (set_size_cases vq r.num) [
    | inl (f, same) ↦
        subst (Binds mem r vq) (sym (bind_unsized mem r vq e f))
          (inl (refl, ap (λ v. v.enabled) same))
    | inr (f, now) ↦
        subst (Binds mem r vq) (sym (bind_sized mem r vq e f))
          (addressed-Binds mem r vq (set_size vq r.num).0 now)
  ]
]

-- Each queue has registers, and agrees with them.
abbrev pub Pairs : MemSpace → List QueueRegs → List Virtqueue → Type 0
Pairs mem [] [] = Unit
Pairs mem (r ∷ rs) [] = Unit
Pairs mem [] (v ∷ vs) = ⊥
Pairs mem (r ∷ rs) (v ∷ vs) = Agrees mem r v × Pairs mem rs vs

module _ (mem : MemSpace) where
  pub Pairs-get :
      (rs : List QueueRegs) (vs : List Virtqueue) (q : ℕ)
      → Pairs mem rs vs
      → q < length vs
      → Agrees mem (get_or rs q no_regs) (get_or vs q no_queue)
  Pairs-get [] [] q p lt = absurd (omega arith)
  Pairs-get (r ∷ rs) [] q p lt = absurd (omega arith)
  Pairs-get [] (v ∷ vs) q p lt = absurd p
  Pairs-get (r ∷ rs) (v ∷ vs) zero p lt = p.0
  Pairs-get (r ∷ rs) (v ∷ vs) (suc q) p lt = Pairs-get rs vs q p.1 (omega arith)

  pub Pairs-set :
      (rs : List QueueRegs) (vs : List Virtqueue) (q : ℕ) (r : QueueRegs) (v : Virtqueue)
      → Pairs mem rs vs
      → Agrees mem r v
      → Pairs mem (set rs q r) (set vs q v)
  Pairs-set [] [] q r v p a = tt
  Pairs-set (x ∷ rs) [] zero r v p a = tt
  Pairs-set (x ∷ rs) [] (suc q) r v p a = tt
  Pairs-set [] (y ∷ vs) q r v p a = absurd p
  Pairs-set (x ∷ rs) (y ∷ vs) zero r v p a = (a, p.1)
  Pairs-set (x ∷ rs) (y ∷ vs) (suc q) r v p a = (p.0, Pairs-set rs vs q r v p.1 a)

  pub Pairs-set_regs :
      (rs : List QueueRegs) (vs : List Virtqueue) (q : ℕ) (r : QueueRegs)
      → Pairs mem rs vs
      → Agrees mem r (get_or vs q no_queue)
      → Pairs mem (set rs q r) vs
  Pairs-set_regs [] [] q r p a = tt
  Pairs-set_regs (x ∷ rs) [] zero r p a = tt
  Pairs-set_regs (x ∷ rs) [] (suc q) r p a = tt
  Pairs-set_regs [] (y ∷ vs) q r p a = absurd p
  Pairs-set_regs (x ∷ rs) (y ∷ vs) zero r p a = (a, p.1)
  Pairs-set_regs (x ∷ rs) (y ∷ vs) (suc q) r p a = (p.0, Pairs-set_regs rs vs q r p.1 a)

  pub Pairs-set_vq :
      (rs : List QueueRegs) (vs : List Virtqueue) (q : ℕ) (v : Virtqueue)
      → Pairs mem rs vs
      → Agrees mem (get_or rs q no_regs) v
      → Pairs mem rs (set vs q v)
  Pairs-set_vq [] [] q v p a = tt
  Pairs-set_vq (x ∷ rs) [] q v p a = tt
  Pairs-set_vq [] (y ∷ vs) q v p a = absurd p
  Pairs-set_vq (x ∷ rs) (y ∷ vs) zero v p a = (a, p.1)
  Pairs-set_vq (x ∷ rs) (y ∷ vs) (suc q) v p a = (p.0, Pairs-set_vq rs vs q v p.1 a)

  -- After a reset nothing is ready.
  pub Pairs-reset :
      (n : ℕ) (vs : List Virtqueue) → length vs ≤ n → Pairs mem (replicate n no_regs) (map reset vs)
  unfolding reset
  Pairs-reset zero [] h = tt
  Pairs-reset (suc n) [] h = tt
  Pairs-reset zero (v ∷ vs) h = absurd (omega arith)
  Pairs-reset (suc n) (v ∷ vs) h =
      (record { enabled = refl; bound = λ e. (cc) }, Pairs-reset n vs (omega arith))
