-- ===== src/VirtioMmio.antt =====
-- src/hw/virtio/virtio_mmio.c: the registers of the memory-mapped transport, over the device of
-- Virtio and its queues.
pub mod Write
pub mod Regs
pub mod Bound
pub mod Session
mod Tests
use modvm.Prelude.{
  ℕ, ◌+◌, ◌-◌, ◌*◌, ◌/◌, ◌%◌, ◌^◌, Bool, true, false, ◌&&◌, ◌||◌, not, List, [], ◌∷◌, ◌++◌, Option,
  none, some, length, get_or, set, replicate, ltb, leb, ◌==◌, ◌!=◌, if◌then◌else◌, bit_and, bit_or,
}
use modvm.Memory.{MemSpace}
use modvm.Virtqueue
use modvm.Virtqueue.{Virtqueue}
use modvm.Virtio
use modvm.Virtio.{
  VirtioDevice, DeviceCall, max_vqs, f_version_1, no_queue, with_vq, is_ready, set_features,
  set_status,
}

-- One place of each array of `struct virtio_mmio_ctx`.
pub record QueueRegs : Type 0 where
  pub desc_lo : ℕ
  pub desc_hi : ℕ
  pub avail_lo : ℕ
  pub avail_hi : ℕ
  pub used_lo : ℕ
  pub used_hi : ℕ
  pub num : ℕ
  pub ready : Bool

-- `struct virtio_mmio_ctx`, with the device that it carries.
pub record Mmio : Type 0 where
  pub vdev : VirtioDevice
  pub device_features_sel : ℕ
  pub driver_features_sel : ℕ
  pub queue_sel : ℕ
  pub interrupt_status : ℕ
  pub queue_regs : List QueueRegs

-- What an access calls: the interrupt line, and the device's own callbacks.
pub data MmioCall : Type 0 where
  sets_irq : ℕ → MmioCall
  calls : List DeviceCall → MmioCall
  kicks : ℕ → MmioCall
  writes_config : ℕ → ℕ → ℕ → MmioCall

abbrev pub no_regs : QueueRegs
no_regs = record {
  desc_lo = 0;
  desc_hi = 0;
  avail_lo = 0;
  avail_hi = 0;
  used_lo = 0;
  used_hi = 0;
  num = 0;
  ready = false;
}

-- The zeroed context, for a device.
abbrev pub cleared : VirtioDevice → Mmio
cleared vdev = record {
  vdev = vdev;
  device_features_sel = 0;
  driver_features_sel = 0;
  queue_sel = 0;
  interrupt_status = 0;
  queue_regs = replicate max_vqs no_regs;
}

-- The registers of virtio_mmio_reg.h that the device has.
pub data Reg : Type 0 where
  magic_value version device_id vendor_id device_features device_features_sel : Reg
  driver_features driver_features_sel queue_sel queue_num_max queue_num queue_ready : Reg
  queue_notify interrupt_status interrupt_ack status : Reg
  desc_low desc_high avail_low avail_high used_low used_high : Reg
  other : Reg

unfoldable pub reg_of : ℕ → Reg
reg_of offset =
    if offset == 0x000
    then Reg.magic_value
    else if offset == 0x004
    then Reg.version
    else if offset == 0x008
    then Reg.device_id
    else if offset == 0x00c
    then Reg.vendor_id
    else if offset == 0x010
    then Reg.device_features
    else if offset == 0x014
    then Reg.device_features_sel
    else if offset == 0x020
    then Reg.driver_features
    else if offset == 0x024
    then Reg.driver_features_sel
    else if offset == 0x030
    then Reg.queue_sel
    else if offset == 0x034
    then Reg.queue_num_max
    else if offset == 0x038
    then Reg.queue_num
    else if offset == 0x044
    then Reg.queue_ready
    else if offset == 0x050
    then Reg.queue_notify
    else if offset == 0x060
    then Reg.interrupt_status
    else if offset == 0x064
    then Reg.interrupt_ack
    else if offset == 0x070
    then Reg.status
    else if offset == 0x080
    then Reg.desc_low
    else if offset == 0x084
    then Reg.desc_high
    else if offset == 0x090
    then Reg.avail_low
    else if offset == 0x094
    then Reg.avail_high
    else if offset == 0x0a0
    then Reg.used_low
    else if offset == 0x0a4
    then Reg.used_high
    else Reg.other

abbrev pub nr_vqs : Mmio → ℕ
nr_vqs m = length m.vdev.vqs

abbrev pub vq_at : Mmio → ℕ → Virtqueue
vq_at m q = get_or m.vdev.vqs q no_queue

abbrev pub regs_at : Mmio → ℕ → QueueRegs
regs_at m q = get_or m.queue_regs q no_regs

-- The switch of `virtio_mmio_read`; `id` is the device's and `offered` what `get_features` returns.
unfoldable pub read_reg : ℕ → ℕ → Mmio → Reg → ℕ
read_reg id offered m Reg.magic_value = 0x74726976
read_reg id offered m Reg.version = 2
read_reg id offered m Reg.device_id = id
read_reg id offered m Reg.vendor_id = 0x554d4551
read_reg id offered m Reg.device_features =
    let features = bit_or offered f_version_1 in
    if m.device_features_sel == 0
    then features % 2 ^ 32
    else if m.device_features_sel == 1
    then features / 2 ^ 32 % 2 ^ 32
    else 0
read_reg id offered m Reg.queue_num_max =
    if ltb m.queue_sel (nr_vqs m) then (vq_at m m.queue_sel).max_size else 0
read_reg id offered m Reg.queue_ready =
    if ltb m.queue_sel (nr_vqs m) && (regs_at m m.queue_sel).ready then 1 else 0
read_reg id offered m Reg.interrupt_status = m.interrupt_status
read_reg id offered m Reg.status = m.vdev.status
read_reg id offered m _ = 0

-- `read_config` is the callback of that name, if the device has one.
unfoldable pub read : Option (ℕ → ℕ → ℕ) → ℕ → ℕ → Mmio → ℕ → ℕ → ℕ
unfolding read_reg reg_of
read read_config id offered m offset size =
    if leb 0x100 offset
    then elim read_config [ none ↦ 0 | some f ↦ f (offset - 0x100) size ]
    else if size != 4 || offset % 4 != 0
    then 0
    else read_reg id offered m (reg_of offset)

-- `virtio_mmio_transport_notify_queue` and `virtio_mmio_failed`.
unfoldable pub notify_queue : Mmio → Mmio × List MmioCall
notify_queue m = (record m { interrupt_status = bit_or m.interrupt_status 1 }, sets_irq 1 ∷ [])

unfoldable pub failed : Mmio → Mmio × List MmioCall
failed m = (record m { interrupt_status = bit_or m.interrupt_status 2 }, sets_irq 1 ∷ [])

unfoldable pub stop : Mmio → Mmio × List MmioCall
stop m =
    let (vdev, made) = Virtio.stop m.vdev in
    (record m { vdev = vdev }, calls made ∷ sets_irq 0 ∷ [])
