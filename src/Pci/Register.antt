-- ===== src/Pci/Register.antt =====
-- What src/hw/pci/pci.c registers: the BARs of a device, and the devices of a bus.
use modvm.Prelude.{
  ℕ, ◌+◌, ◌-◌, ◌%◌, ◌^◌, ◌||◌, List, Option, none, some, ltb, leb, ◌!=◌, if◌then◌else◌, bit_and,
  get_or, set,
}
use modvm.Prelude.Errno.{Result, ok, err, einval, eexist}
use modvm.Memory.{MemRegion}
use modvm.IoMap.{IoMap, IoRegion, Device, mmio, register_region, set_enabled}
use modvm.Pci.{PciDevice, PciBus, find_device, update}
use modvm.Pci.Config.{store_bar}
use modvm.Pci.Bars.{memory_on}
use modvm.Pci.Window.{find_base}

-- More rounds than there are addresses below 4 GiB.
abbrev pub place_fuel : ℕ
place_fuel = 2 ^ 32 + 1

-- The stores after the registration.
unfoldable pub attach_bar : PciBus → PciDevice → ℕ → ℕ → IoRegion → IoMap → PciBus
unfolding update
attach_bar bus d index base region m = record bus {
  devices =
      update d.devfn
        (record d {
          bars = set d.bars index (some region.self);
          config_space = store_bar d.config_space index base;
        })
        bus.devices;
  io_map = record m { mmio_regions = set_enabled region.self (memory_on d) m.mmio_regions };
}

unfoldable pub finish_bar :
    PciBus → PciDevice → ℕ → ℕ → IoMap × Device × Result IoRegion → PciBus × Device × ℕ
unfolding attach_bar
finish_bar bus d index base (m, owner, ok region) = (attach_bar bus d index base region m, owner, 0)
finish_bar bus d index base (m, owner, err e) = (record bus { io_map = m }, owner, e)

-- `mmio_base` and `mmio_limit` are the window of the bus; the two callocs are the allocations of
-- the registration, and `owner` is the device that owns the function.
module _ (ram : List MemRegion) (mmio_base mmio_limit : ℕ)
    (calloc_region calloc_action : Option ℕ) where
  -- The base asked for, or the place that the loop finds.
  unfoldable pub bar_base : IoMap → ℕ → Option ℕ → Option (Result ℕ)
  unfolding find_base
  bar_base m size (some base) = some (ok base)
  bar_base m size none = find_base m.mmio_regions ram size mmio_limit place_fuel mmio_base

  unfoldable pub place_bar :
      PciBus → PciDevice → ℕ → ℕ → Device → Option (Result ℕ) → Option (PciBus × Device × ℕ)
  unfolding finish_bar register_region
  place_bar bus d index size owner none = none
  place_bar bus d index size owner (some (err e)) = some (bus, owner, e)
  place_bar bus d index size owner (some (ok base)) =
      if base % size != 0 || ltb (2 ^ 32 - size) base
      then some (bus, owner, einval)
      else some (
          finish_bar bus d index base
            (register_region ram calloc_region calloc_action bus.io_map mmio base size owner))

  -- `pci_register_bar_locked`: `none` is out of fuel, and a device that is not on the bus has no
  -- `bus`.
  unfoldable pub register_bar :
      PciBus → ℕ → ℕ → ℕ → Option ℕ → Device → Option (PciBus × Device × ℕ)
  unfolding find_device bar_base place_bar
  register_bar bus devfn index size requested owner = elim (find_device bus.devices devfn) [
    | none ↦ some (bus, owner, einval)
    | some d ↦
        if leb 6 index || (ltb size 16 || bit_and size (size - 1) != 0)
        then some (bus, owner, einval)
        else elim (get_or d.bars index none) [
          | some self ↦ some (bus, owner, eexist)
          | none ↦ place_bar bus d index size owner (bar_base bus.io_map size requested)
        ]
  ]
