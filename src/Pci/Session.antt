-- ===== src/Pci/Session.antt =====
-- A bus under registrations, accesses of the guest and interrupts, in any order.
use modvm.Prelude.{
  ℕ, ◌<◌, ◌≡◌, ◌≢◌, ◌^◌, refl, Bool, List, Option, none, some, All, length, ap, sym, subst, ◌∙◌,
}
use mathlib.Core.Option.{some-injective}
use modvm.Memory.{MemRegion}
use modvm.IoMap.{IoMap, Device}
use modvm.IoMap.Topology.{IsTopology}
use modvm.Pci.{PciDevice, PciBus, find_device, set_irq, any_below}
use modvm.Pci.Config.{PciDeviceOps, write_config}
use modvm.Pci.Register.{register_bar}
use modvm.Pci.Endpoint.{new_bus, register_device}
use modvm.Pci.Routed.{set_irq-IsRouted}
use modvm.Pci.Placed.{set_irq-IsPlaced}
use modvm.Pci.Mapping.{set_irq-io_map}
use modvm.Pci.Registered.{register_bar-BarOutcome}
use modvm.Pci.Sound.{IsSound, write_config-IsSound}
use modvm.Pci.Joined.{IsFresh, register_device-IsSound}

module _ (ram : List MemRegion) where
  set_irq-IsSound :
      (bus : PciBus) (devfn : ℕ) (level : Bool)
      → IsSound ram bus
      → IsSound ram (set_irq bus devfn level)
  set_irq-IsSound bus devfn level v = record {
    routed = set_irq-IsRouted bus devfn level v.routed;
    topology = subst (λ m. IsTopology m ram) (sym (set_irq-io_map ram bus devfn level)) v.topology;
    placed = set_irq-IsPlaced bus devfn level v.placed;
  }

  -- The callbacks of the devices keep a bus sound.
  abbrev pub Obliging : (ℕ → PciDeviceOps) → Type 0
  Obliging ops =
      (n : ℕ) (f : ℕ → ℕ → ℕ → PciBus → PciBus) (b : PciBus)
      → (ops n).write_config ≡ some f
      → IsSound ram b
      → (offset val size : ℕ) → IsSound ram (f offset val size b)

  -- What happens to a bus: a device or a BAR is registered, the guest writes to the configuration
  -- space, or a device changes its interrupt.
  pub data Step (ops : ℕ → PciDeviceOps) (b : PciBus) : PciBus → Type 0 where
    registers :
        (bus_owner self : ℕ) (same_vm on_bus : Bool) (calloc : Option ℕ) (p : PciDevice)
        (owner : Device)
        → IsFresh p
        → Step ops b (register_device bus_owner self same_vm on_bus calloc b p owner).bus
    places :
        (mmio_base mmio_limit devfn index size ret : ℕ) (requested : Option ℕ)
        (calloc_region calloc_action : Option ℕ) (owner owner' : Device) (now : PciBus)
        → size < 2 ^ 32
        → ((a : ℕ) → calloc_region ≡ some a → All (λ q. q.self ≢ a) b.io_map.mmio_regions)
        → ((d : PciDevice) → find_device b.devices devfn ≡ some d → length d.bars ≡ 6)
        → register_bar ram mmio_base mmio_limit calloc_region calloc_action b devfn index size
            requested owner
          ≡ some (now, owner', ret)
        → Step ops b now
    writes : (devfn offset val size : ℕ) → Step ops b (write_config ram ops b devfn offset val size)
    asserts : (devfn : ℕ) (level : Bool) → Step ops b (set_irq b devfn level)

  Step-IsSound :
      (ops : ℕ → PciDeviceOps)
      → Obliging ops
      → (b now : PciBus) → Step ops b now
      → IsSound ram b
      → IsSound ram now
  Step-IsSound ops obliging b now (registers bus_owner self same_vm on_bus calloc p owner fresh) v =
      register_device-IsSound ram bus_owner self same_vm on_bus calloc b p owner fresh v
  Step-IsSound ops obliging b _
        (places mmio_base mmio_limit devfn index size ret requested calloc_region calloc_action
          owner owner' now word fresh six is)
        v =
      let (now', o', ret', e, sound, ends) =
        register_bar-BarOutcome ram mmio_base mmio_limit calloc_region calloc_action b v fresh devfn
          index size requested owner word six in
      subst (IsSound ram) (ap (λ t. t.0) (some-injective _ _ (sym e ∙ is))) sound
  Step-IsSound ops obliging b now (writes devfn offset val size) v =
      write_config-IsSound ram ops b devfn offset val size
        (λ n f c is s. obliging n f c is s offset val size) v
  Step-IsSound ops obliging b now (asserts devfn level) v = set_irq-IsSound b devfn level v

  -- The buses that are reached from one.
  pub data Reached (ops : ℕ → PciDeviceOps) (first : PciBus) : PciBus → Type 0 where
    starts : Reached ops first first
    goes : (b now : PciBus) → Reached ops first b → Step ops b now → Reached ops first now

  new_bus-IsSound :
      (m : IoMap) (wired : ℕ → Bool) → IsTopology m ram → IsSound ram (new_bus m wired)
  unfolding find_device any_below
  new_bus-IsSound m wired t = record {
    routed = record { bits = λ line s. refl; lines = λ line is. refl };
    topology = t;
    placed = record {
      seen = λ devfn bar self o. let clash : none ≡ some o.device = o.found in absurd (cc);
      apart = λ devfn bar devfn' bar' self o o'.
          let clash : none ≡ some o.device = o.found in absurd (cc);
    };
  }

  -- A bus without devices, on a well-formed I/O map, is sound whatever happens to it from then on,
  -- in any order: registrations of devices and of BARs, accepted or not, writes of the guest to any
  -- register of the configuration space, and changes of interrupts. That is, each line is the
  -- disjunction of its devices, regions overlap neither each other nor RAM, and each BAR shows the
  -- base of its own region, which answers exactly while the Memory Space bit of its device is set.
  -- The callbacks of the devices keep a bus sound by hypothesis.
  pub Reached-IsSound :
      (ops : ℕ → PciDeviceOps) (m : IoMap) (wired : ℕ → Bool) (b : PciBus)
      → Obliging ops
      → IsTopology m ram
      → Reached ops (new_bus m wired) b
      → IsSound ram b
  Reached-IsSound ops m wired b obliging t starts = new_bus-IsSound m wired t
  Reached-IsSound ops m wired b obliging t (goes before _ r s) =
      Step-IsSound ops obliging before b s (Reached-IsSound ops m wired before obliging t r)
