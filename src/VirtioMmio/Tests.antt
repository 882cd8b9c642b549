-- ===== src/VirtioMmio/Tests.antt =====
-- A driver sets up the one queue of a device, in RAM that starts at 4096.
use modvm.Prelude.{◌≡◌, refl, true, false, List, [], ◌∷◌, none, arith, All}
use modvm.Memory.{MemSpace, find_region, map_chunk, map_range}
use modvm.Virtqueue.{set_size, set_addrs, bind_rings}
use modvm.Virtio.{VirtioDevice, DeviceState, no_queue}
use modvm.VirtioMmio.{Mmio, cleared, vq_at, read, reg_of}
use modvm.VirtioMmio.Write.{write, write_reg, set_regs, write_ready, bind}
use modvm.VirtioMmio.Bound.{IsSound}
use modvm.VirtioMmio.Session.{
  Access, writes, notifies, access, session, IsByteStatus, session-IsSound, write-status_unsynced,
}

abbrev ram : MemSpace
ram = record {
  regions = record { gpa = 4096; size = 8192; hva = 1048576; flags = 0 } ∷ [];
  total_ram = 8192;
  host_page_size = 4096;
}

abbrev device : VirtioDevice
device = record {
  state = DeviceState.active;
  adopted = true;
  status = 0;
  driver_features = 0;
  vqs = record no_queue { queue_size = 4; max_size = 4 } ∷ [];
}

abbrev set_up : List Access
set_up =
    writes 0x030 0 4
    ∷ writes 0x038 4 4
    ∷ writes 0x080 4096 4
    ∷ writes 0x090 4160 4
    ∷ writes 0x0a0 4176 4
    ∷ writes 0x044 1 4
    ∷ writes 0x038 2 4
    ∷ notifies
    ∷ []

abbrev running : Mmio
running = session ram false 0 set_up (cleared device)

running_ready : read none 2 0 running 0x044 4 ≡ 1
unfolding session access write write_reg reg_of set_regs write_ready bind set_size set_addrs
    bind_rings find_region map_chunk map_range read
running_ready = refl

set_up_bytes : All IsByteStatus set_up
unfolding reg_of
set_up_bytes = ground arith

session-IsSound_example : IsSound ram running
session-IsSound_example =
    session-IsSound ram false 0 device set_up (refl, tt) (omega arith) set_up_bytes

write-status_unsynced_example :
    let m' = (write ram false 0 running 0x070 256 4).0 in
    (read none 2 0 m' 0x044 4 ≡ 1) × ((vq_at m' 0).enabled ≡ false)
unfolding session access write write_reg reg_of set_regs write_ready bind set_size set_addrs
    bind_rings find_region map_chunk map_range
write-status_unsynced_example =
    write-status_unsynced ram false 2 0 running 256 refl (omega arith) (omega arith) refl
