-- ===== src/AddRam/Tests.antt =====
-- A second bank behind one page of RAM.
use modvm.Prelude.{refl, true, false, [], ◌∷◌, some, arith}
use modvm.Prelude.Errno.{ok}
use modvm.AddRam.{VmCtx, building, Host, add_ram}
use modvm.AddRam.Sound.{IsSound, Outcome, add_ram-IsSound, add_ram-Outcome, ram_size}

abbrev vm : VmCtx
vm = record {
  state = building;
  stop_requested = false;
  mem_space = record {
    regions = record { gpa = 0; size = 4096; hva = 65536; flags = 0 } ∷ [];
    total_ram = 4096;
    host_page_size = 4096;
  };
  io_map = record { pio_regions = []; mmio_regions = [] };
  accel = some (record { map_ram = some (λ r. 0) });
}

abbrev host : Host
host = record { calloc = true; page_alloc = ok 131072 }

vm-IsSound : IsSound vm
unfolding ram_size
vm-IsSound = record {
  topology = record {
    ports = record { fit = tt; pairs = tt };
    memory = record { fit = tt; pairs = tt };
    ram_fit = (omega arith, tt);
    ram_pairs = (tt, tt);
    clear = tt;
  };
  total = refl;
  word = omega arith;
}

add_ram-IsSound_example : IsSound (add_ram host 8192 4096 0 vm).0
add_ram-IsSound_example =
    add_ram-IsSound host 8192 4096 0 vm (omega arith) vm-IsSound (λ h e. ground arith)

add_ram-Outcome_example : Outcome host 8192 4096 0 vm (add_ram host 8192 4096 0 vm)
add_ram-Outcome_example = add_ram-Outcome host 8192 4096 0 vm (omega arith) (λ e k. ground arith)
