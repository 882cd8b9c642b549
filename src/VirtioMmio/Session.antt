-- ===== src/VirtioMmio/Session.antt =====
-- Any sequence of accesses by a driver and of calls by the device, on a transport that was just
-- realized.
use modvm.Prelude.{
  ℕ, zero, suc, ◌%◌, ◌^◌, none, ◌≤◌, ◌<◌, ◌≡◌, ◌≢◌, refl, sym, subst, inl, inr, Bool, true, false,
  ◌||◌, List, [], ◌∷◌, All, arith, length, get_or, replicate, map, ltb, leb, ltb→lt, lt→ltb, ◌==◌,
  ◌!=◌, Bool-cases,
}
use modvm.Memory.{MemSpace}
use modvm.Virtqueue.{Virtqueue, reset}
use modvm.Virtio.{VirtioDevice, no_queue, max_vqs, set_status}
use modvm.Virtio
use modvm.VirtioMmio.{
  Mmio, Reg, no_regs, cleared, nr_vqs, vq_at, regs_at, read, read_reg, reg_of, notify_queue, failed,
  stop,
}
use modvm.VirtioMmio.Write.{
  write_status, write_reg, write, with_num, with_desc_lo, with_desc_hi, with_avail_lo,
  with_avail_hi, with_used_lo, with_used_hi,
}
use modvm.VirtioMmio.Regs.{Pairs}
use modvm.VirtioMmio.Bound.{
  IsSound, set_regs-IsSound, write_ready-IsSound, same_queues, write_status-IsSound,
  set_features-vqs, set_status-reset, length-map-reset,
}

write_reg-IsSound :
    (mem : MemSpace) (offered : ℕ) (m : Mmio) (r : Reg) (val : ℕ)
    → (r ≡ Reg.status → val % 256 ≡ 0 → val ≡ 0)
    → IsSound mem m
    → IsSound mem (write_reg mem offered m r val).0
unfolding write_reg
write_reg-IsSound mem offered m Reg.device_features_sel val byte h = same_queues mem m _ refl refl h
write_reg-IsSound mem offered m Reg.driver_features_sel val byte h = same_queues mem m _ refl refl h
write_reg-IsSound mem offered m Reg.driver_features val byte h =
    same_queues mem m _ refl (set_features-vqs m.vdev m.driver_features_sel _) h
write_reg-IsSound mem offered m Reg.queue_sel val byte h = same_queues mem m _ refl refl h
write_reg-IsSound mem offered m Reg.queue_num val byte h =
    set_regs-IsSound mem m (with_num (val % 2 ^ 32)) (λ r. refl) h
write_reg-IsSound mem offered m Reg.desc_low val byte h =
    set_regs-IsSound mem m (with_desc_lo (val % 2 ^ 32)) (λ r. refl) h
write_reg-IsSound mem offered m Reg.desc_high val byte h =
    set_regs-IsSound mem m (with_desc_hi (val % 2 ^ 32)) (λ r. refl) h
write_reg-IsSound mem offered m Reg.avail_low val byte h =
    set_regs-IsSound mem m (with_avail_lo (val % 2 ^ 32)) (λ r. refl) h
write_reg-IsSound mem offered m Reg.avail_high val byte h =
    set_regs-IsSound mem m (with_avail_hi (val % 2 ^ 32)) (λ r. refl) h
write_reg-IsSound mem offered m Reg.used_low val byte h =
    set_regs-IsSound mem m (with_used_lo (val % 2 ^ 32)) (λ r. refl) h
write_reg-IsSound mem offered m Reg.used_high val byte h =
    set_regs-IsSound mem m (with_used_hi (val % 2 ^ 32)) (λ r. refl) h
write_reg-IsSound mem offered m Reg.queue_ready val byte h =
    elim (Bool-cases (ltb m.queue_sel (nr_vqs m))) [
      | inl e ↦ rw e (write_ready-IsSound mem m m.queue_sel val (ltb→lt m.queue_sel (nr_vqs m) e) h)
      | inr e ↦ rw e h
    ]
write_reg-IsSound mem offered m Reg.queue_notify val byte h = h
write_reg-IsSound mem offered m Reg.interrupt_ack val byte h = same_queues mem m _ refl refl h
write_reg-IsSound mem offered m Reg.status val byte h =
    write_status-IsSound mem offered m val (byte refl) h
write_reg-IsSound mem offered m Reg.magic_value val byte h = h
write_reg-IsSound mem offered m Reg.version val byte h = h
write_reg-IsSound mem offered m Reg.device_id val byte h = h
write_reg-IsSound mem offered m Reg.vendor_id val byte h = h
write_reg-IsSound mem offered m Reg.device_features val byte h = h
write_reg-IsSound mem offered m Reg.queue_num_max val byte h = h
write_reg-IsSound mem offered m Reg.interrupt_status val byte h = h
write_reg-IsSound mem offered m Reg.other val byte h = h

-- An access of the driver that writes, or a call of the device or of the VM.
pub data Access : Type 0 where
  writes : ℕ → ℕ → ℕ → Access
  notifies fails stops : Access

unfoldable pub access : MemSpace → Bool → ℕ → Access → Mmio → Mmio
unfolding write notify_queue failed stop
access mem has_config offered (writes offset val size) m =
    (write mem has_config offered m offset val size).0
access mem has_config offered notifies m = (notify_queue m).0
access mem has_config offered fails m = (failed m).0
access mem has_config offered stops m = (stop m).0

unfoldable pub session : MemSpace → Bool → ℕ → List Access → Mmio → Mmio
unfolding access
session mem has_config offered [] m = m
session mem has_config offered (a ∷ made) m =
    session mem has_config offered made (access mem has_config offered a m)

-- A write to STATUS is a byte, or not a multiple of 256.
abbrev pub IsByteStatus : Access → Type 0
IsByteStatus (writes offset val size) = reg_of offset ≡ Reg.status → val % 256 ≡ 0 → val ≡ 0
IsByteStatus notifies = Unit
IsByteStatus fails = Unit
IsByteStatus stops = Unit

write-IsSound :
    (mem : MemSpace) (has_config : Bool) (offered : ℕ) (m : Mmio) (offset val size : ℕ)
    → (reg_of offset ≡ Reg.status → val % 256 ≡ 0 → val ≡ 0)
    → IsSound mem m
    → IsSound mem (write mem has_config offered m offset val size).0
unfolding write
write-IsSound mem has_config offered m offset val size byte h =
    elim (Bool-cases (leb 0x100 offset)) [
      | inl e ↦ rw e h
      | inr e ↦ elim (Bool-cases (size != 4 || offset % 4 != 0)) [
        | inl f ↦ rw (e, write) (rw (f, write) h)
        | inr f ↦
            rw (e, write)
              (rw (f, write) (write_reg-IsSound mem offered m (reg_of offset) val byte h))
      ]
    ]

stop-vqs : (dev : VirtioDevice) → (Virtio.stop dev).0.vqs ≡ dev.vqs
unfolding Virtio.stop
stop-vqs dev = ground arith

access-IsSound :
    (mem : MemSpace) (has_config : Bool) (offered : ℕ) (a : Access) (m : Mmio)
    → IsByteStatus a
    → IsSound mem m
    → IsSound mem (access mem has_config offered a m)
unfolding access notify_queue failed stop
access-IsSound mem has_config offered (writes offset val size) m byte h =
    write-IsSound mem has_config offered m offset val size byte h
access-IsSound mem has_config offered notifies m byte h = same_queues mem m _ refl refl h
access-IsSound mem has_config offered fails m byte h = same_queues mem m _ refl refl h
access-IsSound mem has_config offered stops m byte h = same_queues mem m _ refl (stop-vqs m.vdev) h

session_keeps :
    (mem : MemSpace) (has_config : Bool) (offered : ℕ) (made : List Access) (m : Mmio)
    → All IsByteStatus made
    → IsSound mem m
    → IsSound mem (session mem has_config offered made m)
unfolding session
session_keeps mem has_config offered [] m bytes h = h
session_keeps mem has_config offered (a ∷ made) m bytes h =
    session_keeps mem has_config offered made (access mem has_config offered a m) bytes.1
      (access-IsSound mem has_config offered a m bytes.0 h)

cleared-Pairs :
    (mem : MemSpace) (n : ℕ) (vs : List Virtqueue)
    → All (λ (v : Virtqueue). v.enabled ≡ false) vs
    → length vs ≤ n
    → Pairs mem (replicate n no_regs) vs
cleared-Pairs mem zero [] off h = tt
cleared-Pairs mem (suc n) [] off h = tt
cleared-Pairs mem zero (v ∷ vs) off h = absurd (omega arith)
cleared-Pairs mem (suc n) (v ∷ vs) off h =
    (record { enabled = sym off.0; bound = λ k. (cc) }, cleared-Pairs mem n vs off.1 (omega arith))

-- On a transport whose device has at most eight queues, none of them enabled at first, whatever
-- the driver writes and the device calls, in any order, QUEUE_READY of a queue is set exactly when
-- the queue is enabled, and then the queue has the size of QUEUE_NUM and its three rings are the
-- mappings of the addresses in the registers; provided that no write to STATUS is a multiple of 256
-- other than 0.
pub session-IsSound :
    (mem : MemSpace) (has_config : Bool) (offered : ℕ) (dev : VirtioDevice) (made : List Access)
    → All (λ (v : Virtqueue). v.enabled ≡ false) dev.vqs
    → length dev.vqs ≤ max_vqs
    → All IsByteStatus made
    → IsSound mem (session mem has_config offered made (cleared dev))
session-IsSound mem has_config offered dev made off few bytes =
    session_keeps mem has_config offered made (cleared dev) bytes
      (record { pairs = cleared-Pairs mem max_vqs dev.vqs off few; few = few })

get_or-map-reset :
    (vs : List Virtqueue) (q : ℕ)
    → q < length vs
    → (get_or (map reset vs) q no_queue).enabled ≡ false
unfolding reset
get_or-map-reset [] q lt = absurd (omega arith)
get_or-map-reset (v ∷ vs) zero lt = refl
get_or-map-reset (v ∷ vs) (suc q) lt = get_or-map-reset vs q (omega arith)

-- What such a write does.
write_status_low :
    (offered : ℕ) (m : Mmio) (val : ℕ)
    → val ≢ 0
    → (write_status offered m val).0 ≡ record m { vdev = (set_status offered m.vdev (val % 256)).0 }
unfolding write_status
write_status_low offered m val high =
    let e : (val == 0) ≡ false = ground arith in rw (e, write_status) refl

-- A write of a multiple of 256 other than 0 to STATUS resets the device but not the transport: a
-- queue that was ready reads as ready afterwards, although it is disabled.
pub write-status_unsynced :
    (mem : MemSpace) (has_config : Bool) (id offered : ℕ) (m : Mmio) (val : ℕ)
    → val % 256 ≡ 0
    → val ≢ 0
    → m.queue_sel < nr_vqs m
    → (regs_at m m.queue_sel).ready ≡ true
    → let m' = (write mem has_config offered m 0x070 val 4).0 in
      (read none id offered m' 0x044 4 ≡ 1) × ((vq_at m' m.queue_sel).enabled ≡ false)
unfolding write write_reg read read_reg reg_of
write-status_unsynced mem has_config id offered m val low high lt ready =
    let vs = set_status-reset offered m.vdev (val % 256) (ground arith) in
    let after : (write_status offered m val).0
        ≡ record m { vdev = (set_status offered m.vdev (val % 256)).0 } =
      write_status_low offered m val high in
    let is_in : ltb m.queue_sel (length (map reset m.vdev.vqs)) ≡ true =
      lt→ltb m.queue_sel _ (omega (arith, length-map-reset m.vdev.vqs)) in
    subst
      (λ (n : Mmio). (read none id offered n 0x044 4 ≡ 1) × ((vq_at n m.queue_sel).enabled ≡ false))
      (sym after)
      (rw vs (rw (is_in, ready) refl), rw vs (get_or-map-reset m.vdev.vqs m.queue_sel lt))
