-- ===== src/VirtioMmio/Write.antt =====
-- `virtio_mmio_write`: the registers that the driver sets.
use modvm.Prelude.{
  ℕ, ◌-◌, ◌*◌, ◌%◌, ◌^◌, Bool, true, false, ◌&&◌, ◌||◌, not, List, [], ◌∷◌, set, ltb, leb, ◌==◌,
  ◌!=◌, if◌then◌else◌, bit_and, bit_or,
}
use modvm.Memory.{MemSpace}
use modvm.Virtqueue
use modvm.Virtqueue.{Virtqueue}
use modvm.Virtio.{with_vq, is_ready, set_features, set_status}
use modvm.VirtioMmio.{
  QueueRegs, Mmio, MmioCall, sets_irq, calls, kicks, writes_config, cleared, Reg, reg_of, nr_vqs,
  vq_at, regs_at,
}

abbrev pub with_regs : Mmio → ℕ → QueueRegs → Mmio
with_regs m q r = record m { queue_regs = set m.queue_regs q r }

-- `if (q_sel < vdev->nr_vqs && !ctx->queue_ready[q_sel])`.
unfoldable pub set_regs : Mmio → (QueueRegs → QueueRegs) → Mmio
set_regs m f =
    let q = m.queue_sel in
    if ltb q (nr_vqs m) && not (regs_at m q).ready then with_regs m q (f (regs_at m q)) else m

abbrev pub with_num : ℕ → QueueRegs → QueueRegs
with_num val r = record r { num = val }

abbrev pub with_desc_lo : ℕ → QueueRegs → QueueRegs
with_desc_lo val r = record r { desc_lo = val }

abbrev pub with_desc_hi : ℕ → QueueRegs → QueueRegs
with_desc_hi val r = record r { desc_hi = val }

abbrev pub with_avail_lo : ℕ → QueueRegs → QueueRegs
with_avail_lo val r = record r { avail_lo = val }

abbrev pub with_avail_hi : ℕ → QueueRegs → QueueRegs
with_avail_hi val r = record r { avail_hi = val }

abbrev pub with_used_lo : ℕ → QueueRegs → QueueRegs
with_used_lo val r = record r { used_lo = val }

abbrev pub with_used_hi : ℕ → QueueRegs → QueueRegs
with_used_hi val r = record r { used_hi = val }

-- The two halves of an address.
abbrev pub join : ℕ → ℕ → ℕ
join hi lo = bit_or (hi * 2 ^ 32) lo

-- The queue of a QUEUE_READY that is set: its size, then its rings.
unfoldable pub bind : MemSpace → QueueRegs → Virtqueue → Virtqueue × Bool
bind mem r vq =
    if ltb 65535 r.num
    then (vq, false)
    else (let sized = Virtqueue.set_size vq r.num in
        if sized.1 != 0
        then (sized.0, false)
        else (let bound =
              Virtqueue.set_addrs mem sized.0 (join r.desc_hi r.desc_lo)
                (join r.avail_hi r.avail_lo) (join r.used_hi r.used_lo) in
            (bound.0, bound.1 == 0)))

-- The queue that `bind` leaves, and `ctx->queue_ready[q_sel] = true` if it is done.
abbrev pub rebound : Mmio → ℕ → Virtqueue × Bool → Mmio
rebound m q bound = record m {
  vdev = with_vq m.vdev q bound.0;
  queue_regs =
      if bound.1 then set m.queue_regs q (record (regs_at m q) { ready = true }) else m.queue_regs;
}

-- `case VIRTIO_MMIO_QUEUE_READY` for a queue that the device has.
unfoldable pub write_ready : MemSpace → Mmio → ℕ → ℕ → Mmio
unfolding bind
write_ready mem m q val =
    if val == 0
    then record m {
      vdev = with_vq m.vdev q (Virtqueue.disable (vq_at m q));
      queue_regs = set m.queue_regs q (record (regs_at m q) { ready = false });
    }
    else if not (regs_at m q).ready && val == 1
    then rebound m q (bind mem (regs_at m q) (vq_at m q))
    else m

-- `&= ~val` on a uint32_t, with a 64-bit `val`.
abbrev pub acknowledge : ℕ → ℕ → ℕ
acknowledge pending val = bit_and pending (2 ^ 64 - 1 - val) % 2 ^ 32

-- `case VIRTIO_MMIO_STATUS`: the status that is written is a byte, the test that follows is on all
-- of the value.
unfoldable pub write_status : ℕ → Mmio → ℕ → Mmio × List MmioCall
write_status offered m val =
    let (vdev, made) = set_status offered m.vdev (val % 256) in
    if val == 0
    then (cleared vdev, calls made ∷ sets_irq 0 ∷ [])
    else (record m { vdev = vdev }, calls made ∷ [])

-- The switch of `virtio_mmio_write`.
unfoldable pub write_reg : MemSpace → ℕ → Mmio → Reg → ℕ → Mmio × List MmioCall
unfolding set_regs write_ready write_status
write_reg mem offered m Reg.device_features_sel val =
    (record m { device_features_sel = val % 2 ^ 32 }, [])
write_reg mem offered m Reg.driver_features_sel val =
    (record m { driver_features_sel = val % 2 ^ 32 }, [])
write_reg mem offered m Reg.driver_features val =
    (record m { vdev = set_features m.vdev m.driver_features_sel (val % 2 ^ 32) }, [])
write_reg mem offered m Reg.queue_sel val = (record m { queue_sel = val % 2 ^ 32 }, [])
write_reg mem offered m Reg.queue_num val = (set_regs m (with_num (val % 2 ^ 32)), [])
write_reg mem offered m Reg.desc_low val = (set_regs m (with_desc_lo (val % 2 ^ 32)), [])
write_reg mem offered m Reg.desc_high val = (set_regs m (with_desc_hi (val % 2 ^ 32)), [])
write_reg mem offered m Reg.avail_low val = (set_regs m (with_avail_lo (val % 2 ^ 32)), [])
write_reg mem offered m Reg.avail_high val = (set_regs m (with_avail_hi (val % 2 ^ 32)), [])
write_reg mem offered m Reg.used_low val = (set_regs m (with_used_lo (val % 2 ^ 32)), [])
write_reg mem offered m Reg.used_high val = (set_regs m (with_used_hi (val % 2 ^ 32)), [])
write_reg mem offered m Reg.queue_ready val =
    (if ltb m.queue_sel (nr_vqs m) then write_ready mem m m.queue_sel val else m, [])
write_reg mem offered m Reg.queue_notify val = (
  m,
  if ltb val (nr_vqs m) && ((regs_at m val).ready && is_ready m.vdev)
      then kicks (val % 65536) ∷ []
      else [],
)
write_reg mem offered m Reg.interrupt_ack val =
    let left = acknowledge m.interrupt_status val in
    (record m { interrupt_status = left }, if left == 0 then sets_irq 0 ∷ [] else [])
write_reg mem offered m Reg.status val = write_status offered m val
write_reg mem offered m _ val = (m, [])

-- `has_config` is whether the device has the callback `write_config`.
unfoldable pub write : MemSpace → Bool → ℕ → Mmio → ℕ → ℕ → ℕ → Mmio × List MmioCall
unfolding write_reg reg_of
write mem has_config offered m offset val size =
    if leb 0x100 offset
    then (m, if has_config then writes_config (offset - 0x100) val size ∷ [] else [])
    else if size != 4 || offset % 4 != 0
    then (m, [])
    else write_reg mem offered m (reg_of offset) val
