-- ===== src/Pci/Endpoint.antt =====
-- The registration of a device on a bus, of src/hw/pci/pci.c.
use modvm.Prelude.{
  ℕ, zero, suc, ◌+◌, ◌*◌, ◌/◌, Bool, true, false, ◌||◌, not, List, [], ◌∷◌, ◌++◌, Option, none,
  some, ltb, ◌==◌, ◌!=◌, if◌then◌else◌,
}
use modvm.Prelude.Errno.{einval, ebusy, enospc}
use modvm.ResPool
use modvm.IoMap.{IoMap, Device}
use modvm.Pci.{PciDevice, PciBus, set_at}

-- A bus that `pci_bus_init_locked` has set up, in a bridge that was allocated zeroed.
abbrev pub new_bus : IoMap → (ℕ → Bool) → PciBus
new_bus m wired = record {
  devices = [];
  bridge = record { asserted = λ line devfn. false; wired = wired; level = λ line. false };
  io_map = m;
}

-- The number that asks for any free slot.
abbrev pub auto_devfn : ℕ
auto_devfn = 0xff

-- The address of the function `pci_unregister`.
abbrev pub pci_unregister_fn : ℕ
pci_unregister_fn = 2

unfoldable pub slot_taken : ℕ → List PciDevice → Bool
slot_taken slot [] = false
slot_taken slot (d ∷ ds) = d.devfn / 8 == slot || slot_taken slot ds

unfoldable pub devfn_taken : ℕ → List PciDevice → Bool
devfn_taken devfn [] = false
devfn_taken devfn (d ∷ ds) = d.devfn == devfn || devfn_taken devfn ds

-- The loop over the slots: how many are left, and the next.
unfoldable pub free_slot : ℕ → ℕ → List PciDevice → Option ℕ
unfolding slot_taken
free_slot zero slot ds = none
free_slot (suc left) slot ds =
    let rest = free_slot left (slot + 1) ds in if slot_taken slot ds then rest else some slot

-- What a registration leaves. `parent` is what the owner's parent is set to, if it is.
pub record Registration : Type 0 where
  pub bus : PciBus
  pub endpoint : PciDevice
  pub on_bus : Bool
  pub owner : Device
  pub parent : Option ℕ
  pub ret : ℕ

-- The pin and line registers.
abbrev pub with_pin : PciDevice → PciDevice
with_pin p = record p { config_space = set_at (set_at p.config_space 0x3d p.interrupt_pin) 0x3c 0 }

-- `bus_owner` and `self` are the addresses of the bridge's device and of `pci_dev`; `same_vm` is
-- whether the owner and the bridge belong to one VM, and `calloc` the allocation of
-- `res_add_action`.
module _ (bus_owner self : ℕ) (same_vm on_bus : Bool) (calloc : Option ℕ) where
  -- The bus is left, and so is whether the device is on one.
  abbrev pub refused : PciBus → PciDevice → Device → ℕ → Registration
  refused bus p owner ret = record {
    bus = bus;
    endpoint = p;
    on_bus = on_bus;
    owner = owner;
    parent = none;
    ret = ret;
  }

  -- From the collision test on, for a device with a number.
  unfoldable pub join_bus : PciBus → PciDevice → Device → Registration
  unfolding devfn_taken
  join_bus bus p owner =
      if devfn_taken p.devfn bus.devices
      then refused bus p owner ebusy
      else (let (pool, ret) = ResPool.add_action owner.resources pci_unregister_fn self calloc in
          if ret != 0
          then refused bus (with_pin p) (record owner { resources = pool }) ret
          else record {
            bus = record bus { devices = bus.devices ++ with_pin p ∷ [] };
            endpoint = with_pin p;
            on_bus = true;
            owner = record owner { resources = pool };
            parent = (if owner.self == bus_owner then none else some bus_owner);
            ret = 0;
          })

  -- `pci_device_register_locked`.
  unfoldable pub register_device : PciBus → PciDevice → Device → Registration
  unfolding free_slot join_bus
  register_device bus p owner =
      if not same_vm || ltb 4 p.interrupt_pin
      then refused bus p owner einval
      else if on_bus
      then refused bus p owner ebusy
      else if p.devfn == auto_devfn
      then elim (free_slot 31 1 bus.devices) [
        | none ↦ refused bus p owner enospc
        | some slot ↦ join_bus bus (record p { devfn = slot * 8 }) owner
      ]
      else join_bus bus p owner
