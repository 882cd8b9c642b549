-- ===== src/Pci/Bars.antt =====
-- The BARs of the devices of a bus: each shows the base of its own region.
use modvm.Prelude.{
  ℕ, ◌+◌, ◌*◌, ◌/◌, ◌%◌, ◌^◌, ◌≤◌, ◌<◌, ◌≡◌, ◌≢◌, ap, sym, subst, ◌∙◌, ◌⊎◌, inl, inr, Bool, List,
  none, some, arith, get_or, bit_and, ◌!=◌,
}
use native.Mathlib.Decide.{ℕ_discrete}
use modvm.IoMap.{IoMap, IoRegion, mmio}
use mathlib.Core.Option.{some-injective}
use modvm.Pci.{PciDevice, PciBus, Bridge, find_device, update}
use modvm.Pci.Config.{get_region, store_bar}
use modvm.Pci.Devices.{find-update_same, find-update_other}

-- The register of a BAR holds a base.
pub record Shows (f : ℕ → ℕ) (bar base : ℕ) : Type 0 where
  pub byte0 : f (0x10 + bar * 4) ≡ base % 256
  pub byte1 : f (0x10 + bar * 4 + 1) ≡ base / 2 ^ 8 % 256
  pub byte2 : f (0x10 + bar * 4 + 2) ≡ base / 2 ^ 16 % 256
  pub byte3 : f (0x10 + bar * 4 + 3) ≡ base / 2 ^ 24 % 256
  pub small : base < 2 ^ 32

-- The Memory Space bit of the command register.
abbrev pub memory_on : PciDevice → Bool
memory_on d = bit_and (d.config_space 4) 2 != 0

-- The region at a BAR of a device is where the BAR says, and answers if the device lets it.
pub record Seen (rs : List IoRegion) (bar self : ℕ) (d : PciDevice) : Type 0 where
  pub region : IoRegion
  pub found : get_region self rs ≡ some region
  pub space : region.space ≡ mmio
  pub at_bar : bar < 6
  pub shows : Shows d.config_space bar region.base
  pub enabled : region.enabled ≡ memory_on d

-- A device of the bus has a region at a BAR.
pub record Owns (bus : PciBus) (devfn bar self : ℕ) : Type 0 where
  pub device : PciDevice
  pub found : find_device bus.devices devfn ≡ some device
  pub at_bar : get_or device.bars bar none ≡ some self

pub record IsPlaced (bus : PciBus) : Type 0 where
  pub seen :
      (devfn bar self : ℕ) (o : Owns bus devfn bar self)
      → Seen bus.io_map.mmio_regions bar self o.device
  pub apart :
      (devfn bar devfn' bar' self : ℕ)
      → Owns bus devfn bar self
      → Owns bus devfn' bar' self
      → (devfn ≡ devfn') × (bar ≡ bar')

-- Registers away from the BARs.
pub Shows-same :
    (f g : ℕ → ℕ) (bar base : ℕ)
    → bar < 6
    → ((off : ℕ) → 0x10 ≤ off → off < 0x28 → g off ≡ f off)
    → Shows f bar base
    → Shows g bar base
Shows-same f g bar base lt same s = record {
  byte0 = same (0x10 + bar * 4) (omega arith) (omega arith) ∙ s.byte0;
  byte1 = same (0x10 + bar * 4 + 1) (omega arith) (omega arith) ∙ s.byte1;
  byte2 = same (0x10 + bar * 4 + 2) (omega arith) (omega arith) ∙ s.byte2;
  byte3 = same (0x10 + bar * 4 + 3) (omega arith) (omega arith) ∙ s.byte3;
  small = s.small;
}

pub Shows-store_bar :
    (f : ℕ → ℕ) (bar base : ℕ) → base < 2 ^ 32 → Shows (store_bar f bar base) bar base
Shows-store_bar f bar base lt = record {
  byte0 = ground arith;
  byte1 = ground arith;
  byte2 = ground arith;
  byte3 = ground arith;
  small = lt;
}

store_bar_other :
    (f : ℕ → ℕ) (bar bar' base off : ℕ)
    → bar' ≢ bar
    → 0x10 + bar' * 4 ≤ off
    → off < 0x14 + bar' * 4
    → store_bar f bar base off ≡ f off
store_bar_other f bar bar' base off ne lo hi = ground arith

pub store_bar-Shows :
    (f : ℕ → ℕ) (bar bar' base base' : ℕ)
    → bar' ≢ bar
    → Shows f bar' base'
    → Shows (store_bar f bar base) bar' base'
store_bar-Shows f bar bar' base base' ne s = record {
  byte0 = store_bar_other f bar bar' base _ ne (omega arith) (omega arith) ∙ s.byte0;
  byte1 = store_bar_other f bar bar' base _ ne (omega arith) (omega arith) ∙ s.byte1;
  byte2 = store_bar_other f bar bar' base _ ne (omega arith) (omega arith) ∙ s.byte2;
  byte3 = store_bar_other f bar bar' base _ ne (omega arith) (omega arith) ∙ s.byte3;
  small = s.small;
}

-- A store to a device, while its regions and those of the others stay but one of its own.
module _ (bus : PciBus) (devfn : ℕ) (d new : PciDevice) (m : IoMap) (bridge : Bridge)
    (found : find_device bus.devices devfn ≡ some d) (number : new.devfn ≡ devfn)
    (bars : new.bars ≡ d.bars) where
  abbrev stored : PciBus
  stored = record bus { devices = update devfn new bus.devices; io_map = m; bridge = bridge }

  stored_device : (o : PciDevice) → find_device stored.devices devfn ≡ some o → o ≡ new
  stored_device o e =
      some-injective _ _ (sym e ∙ find-update_same bus.devices devfn d new found number)

  Owns-same :
      (bar self : ℕ) (o : Owns stored devfn bar self) → (o.device ≡ new) × Owns bus devfn bar self
  Owns-same bar self o =
      let is_new = stored_device o.device o.found in
      (
        is_new,
        record {
          device = d;
          found = found;
          at_bar =
              ap (λ b. get_or b bar none) (sym bars ∙ ap (λ c. c.bars) (sym is_new)) ∙ o.at_bar;
        },
      )

  Owns-other :
      (devfn' bar self : ℕ)
      → devfn' ≢ devfn
      → (o : Owns stored devfn' bar self) → find_device bus.devices devfn' ≡ some o.device
  Owns-other devfn' bar self ne o =
      sym (find-update_other bus.devices devfn devfn' new number ne) ∙ o.found

  stored-Owns : (devfn' bar self : ℕ) → Owns stored devfn' bar self → Owns bus devfn' bar self
  stored-Owns devfn' bar self o = elim (ℕ_discrete devfn' devfn) [
    | yes e ↦
        subst (λ n. Owns bus n bar self) (sym e)
          (Owns-same bar self (subst (λ n. Owns stored n bar self) e o)).1
    | no ne ↦ record {
      device = o.device;
      found = Owns-other devfn' bar self ne o;
      at_bar = o.at_bar;
    }
  ]

  module _ (placed : IsPlaced bus)
      (own : (bar self : ℕ)
        → get_or d.bars bar none ≡ some self
        → Seen bus.io_map.mmio_regions bar self d
        → Seen m.mmio_regions bar self new)
      (others : (self : ℕ) (r : IoRegion)
        → get_region self bus.io_map.mmio_regions ≡ some r
        → (get_region self m.mmio_regions ≡ some r) ⊎ ((bar : ℕ) × Owns bus devfn bar self)) where
    same-Seen :
        (bar self : ℕ) (o : Owns stored devfn bar self) → Seen m.mmio_regions bar self o.device
    same-Seen bar self o =
        let (is_new, before) = Owns-same bar self o in
        let this : before.device ≡ d = some-injective _ _ (sym before.found ∙ found) in
        subst (Seen m.mmio_regions bar self) (sym is_new) (
          own bar self (ap (λ c. get_or c.bars bar none) (sym this) ∙ before.at_bar) (
            subst (Seen bus.io_map.mmio_regions bar self) this (placed.seen devfn bar self before)))

    at-Seen :
        (devfn' bar self : ℕ)
        → devfn' ≡ devfn
        → (o : Owns stored devfn' bar self) → Seen m.mmio_regions bar self o.device
    at-Seen devfn' bar self e =
        subst (λ n. (o : Owns stored n bar self) → Seen m.mmio_regions bar self o.device) (sym e)
          (same-Seen bar self)

    other-Seen :
        (devfn' bar self : ℕ)
        → devfn' ≢ devfn
        → (o : Owns stored devfn' bar self) → Seen m.mmio_regions bar self o.device
    other-Seen devfn' bar self ne o =
        let before : Owns bus devfn' bar self = record {
          device = o.device;
          found = Owns-other devfn' bar self ne o;
          at_bar = o.at_bar;
        } in
        let s = placed.seen devfn' bar self before in
        elim (others self s.region s.found) [
          | inl e ↦ record {
            region = s.region;
            found = e;
            space = s.space;
            at_bar = s.at_bar;
            shows = s.shows;
            enabled = s.enabled;
          }
          | inr (bar0, its) ↦ absurd (ne (placed.apart devfn' bar devfn bar0 self before its).0)
        ]

    pub stored-IsPlaced : IsPlaced stored
    stored-IsPlaced = record {
      seen = λ devfn' bar self o. elim (ℕ_discrete devfn' devfn) [
        | yes e ↦ at-Seen devfn' bar self e o
        | no ne ↦ other-Seen devfn' bar self ne o
      ];
      apart = λ devfn' bar devfn'' bar'' self o o'.
          placed.apart devfn' bar devfn'' bar'' self (stored-Owns devfn' bar self o)
            (stored-Owns devfn'' bar'' self o');
    }
