-- ===== src/Pci/Tests.antt =====
-- Two endpoints whose pins share line 0: slot 4 pin A and slot 3 pin B.
use modvm.ResPool
use modvm.Prelude.Errno.{ok}
use modvm.IoMap.{IoMap, IoRegion, Device, relocate_region, set_enabled}
use modvm.Pci.Attached.{attach_bar-IsSound, attached}
use modvm.Pci.Register.{attach_bar, register_bar, place_fuel}
use modvm.Pci.Registered.{BarOutcome, register_bar-BarOutcome}
use modvm.Pci.Window.{find_base}
use modvm.Pci.Window.Lowest.{IsLowest, find_base-IsLowest}
use modvm.Pci.Joined.{IsFresh}
use modvm.Pci.Endpoint.{free_slot, slot_taken, new_bus, register_device}
use modvm.Pci.Session.{Obliging, starts, goes, registers, writes, asserts, Reached-IsSound}
use modvm.Pci.Ports.{port_read, port_write, address, ports-read_config}
use modvm.Pci.Config.{PciDeviceOps, write_config, read_config, bar_region, u32_ones}
use modvm.Pci.Programmed.{ReadsBack, write_config-ReadsBack}
use modvm.Prelude.{
  ℕ, ◌≡◌, refl, true, false, [], ◌∷◌, some, none, arith, get_or, sym, subst, ◌⊎◌, inl, inr,
  Bool-cases, ◌==◌, ◌^◌, ◌/◌, ◌*◌, length, ap, ◌-◌,
}
use mathlib.Core.Option.{some-injective}
use modvm.IoMap.{mmio}
use modvm.IoMap.Topology.{IsTopology}
use modvm.Pci.{PciDevice, PciBus, set_irq, write_header, find_device, any_below}
use modvm.Pci.Sound.{IsSound}
use modvm.Pci.Bars.{Owns}

abbrev disk : PciDevice
disk = record {
  devfn = 32;
  interrupt_pin = 1;
  irq_level = false;
  bars = none ∷ none ∷ none ∷ none ∷ none ∷ none ∷ [];
  probe = λ bar. false;
  config_space = λ off. 0;
}

abbrev net : PciDevice
net = record {
  devfn = 24;
  interrupt_pin = 2;
  irq_level = false;
  bars = [];
  probe = λ bar. false;
  config_space = λ off. 0;
}

abbrev bus : PciBus
bus = record {
  devices = disk ∷ net ∷ [];
  bridge = record { asserted = λ line devfn. false; wired = λ line. true; level = λ line. false };
  io_map = record { pio_regions = []; mmio_regions = [] };
}

abbrev asserting : PciBus
asserting = set_irq bus 32 true

-- Interrupt Disable, while the device asserts its pin.
masked_line :
    (asserting.bridge.level 0 ≡ true)
    × ((write_header asserting 32 4 0x0406 2).bridge.level 0 ≡ false)
unfolding write_header set_irq any_below
masked_line = (refl, refl)

no_bar :
    (bar self : ℕ) → get_or (none ∷ none ∷ none ∷ none ∷ none ∷ none ∷ []) bar none ≡ some self → ⊥
no_bar bar self e = ground arith

found_cases :
    (devfn : ℕ) (o : PciDevice) → find_device bus.devices devfn ≡ some o → (disk ≡ o) ⊎ (net ≡ o)
unfolding find_device
found_cases devfn o e = elim (Bool-cases (32 == devfn)) [
  | inl t ↦ inl (some-injective disk o (ground arith))
  | inr t ↦ elim (Bool-cases (24 == devfn)) [
    | inl u ↦ inr (some-injective net o (ground arith))
    | inr u ↦ absurd (ground arith)
  ]
]

-- No device of the bus has a region yet.
unplaced : (devfn bar self : ℕ) (o : Owns bus devfn bar self) → ⊥
unplaced devfn bar self o = elim (found_cases devfn o.device o.found) [
  | inl d ↦ no_bar bar self (subst (λ c. get_or c.bars bar none ≡ some self) (sym d) o.at_bar)
  | inr n ↦
      let at : none ≡ some self =
        subst (λ c. get_or c.bars bar none ≡ some self) (sym n) o.at_bar in
      absurd (cc)
]

bus-IsSound : IsSound [] bus
unfolding find_device any_below
bus-IsSound = record {
  routed = record { bits = λ line devfn. ground arith; lines = λ line wired. refl };
  topology = record {
    ports = record { fit = tt; pairs = tt };
    memory = record { fit = tt; pairs = tt };
    ram_fit = tt;
    ram_pairs = tt;
    clear = tt;
  };
  placed = record {
    seen = λ devfn bar self o. absurd (unplaced devfn bar self o);
    apart = λ devfn bar devfn' bar' self o o'. absurd (unplaced devfn bar self o);
  };
}

-- A region of 4 KiB at BAR 0 of the disk.
abbrev page : IoRegion
page = record { self = 7; dev = 1; base = 0x10000; size = 0x1000; space = mmio; enabled = true }

abbrev with_page : IoMap
with_page = record { pio_regions = []; mmio_regions = page ∷ [] }

with_page-IsTopology : IsTopology with_page []
with_page-IsTopology = record {
  ports = record { fit = tt; pairs = tt };
  memory = record { fit = ((omega arith, omega arith), tt); pairs = (tt, tt) };
  ram_fit = tt;
  ram_pairs = tt;
  clear = (tt, tt);
}

disk_found : find_device bus.devices disk.devfn ≡ some disk
unfolding find_device
disk_found = refl

abbrev placed : PciBus
placed = attach_bar bus disk 0 0x10000 page with_page

placed-IsSound : IsSound [] placed
placed-IsSound =
    attach_bar-IsSound bus disk 0 0x10000 page disk_found (omega arith) refl refl refl refl
      (omega arith) tt [] with_page-IsTopology bus-IsSound

abbrev no_ops : ℕ → PciDeviceOps
no_ops n = record { read_config = none; write_config = none }

abbrev placed_disk : PciDevice
placed_disk =
    attached bus disk 0 0x10000 page disk_found (omega arith) refl refl refl refl (omega arith) tt

placed_found : find_device placed.devices placed_disk.devfn ≡ some placed_disk
unfolding find_device attach_bar
placed_found = refl

placed_region : bar_region placed.io_map placed_disk 0 ≡ some (record page { enabled = false })
unfolding bar_region attach_bar set_enabled
placed_region = refl

write_config-ReadsBack_example :
    (read_config no_ops (write_config [] no_ops placed 32 0x10 u32_ones 4) 32 0x10 4
      ≡ 2 ^ 32 - 2 ^ 12)
    × ((write_config [] no_ops placed 32 0x10 u32_ones 4).io_map ≡ placed.io_map)
    × ReadsBack no_ops [] 32 0
        (record page { enabled = false })
        (0x20123 / 2 ^ 12 * 2 ^ 12)
        (relocate_region placed.io_map []
          (record page { enabled = false })
          (0x20123 / 2 ^ 12 * 2 ^ 12)).1
        (write_config [] no_ops
          (write_config [] no_ops placed 32 0x10 u32_ones 4)
          32
          0x10
          0x20123
          4)
write_config-ReadsBack_example =
    write_config-ReadsBack no_ops [] placed placed_disk 0 (record page { enabled = false })
      placed_found placed_region placed-IsSound 12 0x20123 refl (omega arith) (omega arith)
      (omega arith)

-- Past the page at the start of the window.
find_base-IsLowest_example :
    IsLowest
      (page ∷ [])
      []
      0x1000
      0x20000
      0x10000
      (find_base (page ∷ []) [] 0x1000 0x20000 place_fuel 0x10000)
find_base-IsLowest_example =
    find_base-IsLowest (page ∷ []) [] 0x1000 0x20000 12 refl (omega arith)
      ((omega arith, omega arith), tt) tt (2 ^ 32) 0x10000 (omega arith)

next_page : find_base (page ∷ []) [] 0x1000 0x20000 place_fuel 0x10000 ≡ some (ok 0x11000)
unfolding find_base
next_page = refl

abbrev owner : Device
owner = record { self = 1; has_ctx = true; has_ops = true; resources = ResPool.init 5 }

disk_six : (d : PciDevice) → find_device bus.devices 32 ≡ some d → length d.bars ≡ 6
unfolding find_device
disk_six d e = ap (λ c. length c.bars) (sym (some-injective disk d e))

register_bar-BarOutcome_example :
    BarOutcome [] 0x10000 0x20000
      (some 7)
      (some 8)
      bus
      bus-IsSound
      (λ a is. tt)
      32
      0
      (register_bar [] 0x10000 0x20000 (some 7) (some 8) bus 32 0 0x1000 none owner)
register_bar-BarOutcome_example =
    register_bar-BarOutcome [] 0x10000 0x20000 (some 7) (some 8) bus bus-IsSound (λ a is. tt) 32 0
      0x1000 none owner (omega arith) disk_six

ports-read_config_example :
    (port_read no_ops
        (port_write no_ops [] (record { config_addr = 0; bus = placed }) 0 (address 32 0x11) 4)
        5
        1
      ≡ read_config no_ops placed 32 0x11 1)
    × ((port_write no_ops []
          (port_write no_ops [] (record { config_addr = 0; bus = placed }) 0 (address 32 0x11) 4)
          5
          0
          1).bus
        ≡ write_config [] no_ops placed 32 0x11 0 1)
ports-read_config_example =
    ports-read_config no_ops [] (record { config_addr = 0; bus = placed }) 32 0x11 0 1 (omega arith)
      (omega arith)

no_callbacks : Obliging [] no_ops
no_callbacks n f b is s offset val size = let clash : none ≡ some f = is in absurd (cc)

disk-IsFresh : IsFresh disk
disk-IsFresh = (refl, λ bar. ground arith)

-- The bus with the disk.
abbrev joined_bus : PciBus
joined_bus =
    (register_device 1 9 true false (some 8) (new_bus with_page (λ line. true)) disk owner).bus

-- The guest enables its memory and its interrupt is raised.
Reached-IsSound_example : IsSound [] (set_irq (write_config [] no_ops joined_bus 32 4 2 2) 32 true)
Reached-IsSound_example =
    Reached-IsSound [] no_ops with_page (λ line. true)
      (set_irq (write_config [] no_ops joined_bus 32 4 2 2) 32 true) no_callbacks
      with_page-IsTopology
      (goes (write_config [] no_ops joined_bus 32 4 2 2)
        (set_irq (write_config [] no_ops joined_bus 32 4 2 2) 32 true)
        (goes joined_bus (write_config [] no_ops joined_bus 32 4 2 2)
          (goes (new_bus with_page (λ line. true)) joined_bus starts
            (registers 1 9 true false (some 8) disk owner disk-IsFresh))
          (writes 32 4 2 2))
        (asserts 32 true))

first_slot : free_slot 31 1 (record disk { devfn = 8 } ∷ net ∷ []) ≡ some 2
unfolding free_slot slot_taken
first_slot = refl
