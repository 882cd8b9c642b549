-- ===== src/IoMap/Tests.antt =====
-- A serial port at 0x3f8, a disabled device beside it, a page of memory-mapped I/O and a bank of RAM.
use modvm.Prelude.{ℕ, ◌≡◌, refl, inl, inr, true, false, List, [], ◌∷◌, some, none, arith}
use modvm.Memory.{MemRegion}
use modvm.IoMap.{
  pio, mmio, IoRegion, IoMap, Device, DeviceOps, all_ones, register_region, regions, read, write,
}
use modvm.IoMap.Topology.{IsTopology}
use modvm.IoMap.Topology.Preserve.{register_region-IsTopology}
use modvm.IoMap.Dispatch.{access-Within, access_outside}

abbrev serial : IoRegion
serial = record { self = 1; dev = 10; base = 0x3f8; size = 8; space = pio; enabled = true }

abbrev dark : IoRegion
dark = record { self = 2; dev = 11; base = 0x400; size = 8; space = pio; enabled = false }

abbrev page : IoRegion
page = record { self = 3; dev = 12; base = 0x10000; size = 0x1000; space = mmio; enabled = true }

abbrev machine : IoMap
machine = record { pio_regions = serial ∷ dark ∷ []; mmio_regions = page ∷ [] }

abbrev ram : List MemRegion
ram = record { gpa = 0; size = 0x10000; hva = 0x40000; flags = 0 } ∷ []

abbrev dev : Device
dev = record {
  self = 13;
  has_ctx = true;
  has_ops = true;
  resources = record { self = 20; resources = []; releasing = false };
}

machine-IsTopology : IsTopology machine ram
machine-IsTopology = record {
  ports = record {
    fit = ((omega arith, omega arith), ((omega arith, omega arith), tt));
    pairs = (((inl (omega arith), omega arith), tt), (tt, tt));
  };
  memory = record { fit = ((omega arith, omega arith), tt); pairs = (tt, tt) };
  ram_fit = (omega arith, tt);
  ram_pairs = (tt, tt);
  clear = ((inr (omega arith), tt), tt);
}

-- The state of the devices is the number of their last call.
abbrev ops : ℕ → DeviceOps ℕ
ops d = record { read = some (λ r offset size s. (offset, d)); write = none }

register_region-IsTopology_example :
    IsTopology (register_region ram (some 4) (some 5) machine mmio 0x20000 0x1000 dev).0 ram
unfolding regions
register_region-IsTopology_example =
    register_region-IsTopology machine ram mmio 0x20000 0x1000 dev (some 4) (some 5) (omega arith)
      machine-IsTopology (λ a e. ground arith)

access-Within_example :
    (read ops machine pio 0x3fd 1 0 ≡ (5, 10)) × (write ops machine pio 0x3fd 7 1 0 ≡ 0)
unfolding regions
access-Within_example =
    access-Within ops machine ram pio serial 0x3fd 1 7 0 machine-IsTopology (inl refl) refl
      (omega arith, omega arith) refl

-- A word that straddles the end of the serial port, and the disabled device.
access_outside_example :
    (read ops machine pio 0x3ff 2 0 ≡ (0, all_ones)) × (write ops machine pio 0x3ff 7 2 0 ≡ 0)
unfolding regions
access_outside_example =
    access_outside ops machine ram pio 0x3ff 2 7 0 machine-IsTopology
      ((λ _ w. omega arith), ((λ e _. ground arith), tt))
