-- ===== src/Pci/Programmed.antt =====
-- How a guest programs a BAR: it writes ones and reads the size, then writes a base and reads it
-- back.
use modvm.Prelude.{
  ℕ, ◌-◌, ◌*◌, ◌/◌, ◌^◌, ◌≤◌, ◌<◌, ◌≡◌, ◌≢◌, refl, ◌⊎◌, inl, inr, true, false, List, none, some,
  get_or, ap, sym, ◌∙◌, subst,
}
use modvm.Pci.Regions.{get_region-set_base}
use mathlib.Core.Option.{some-injective}
use modvm.Memory.{MemRegion}
use modvm.IoMap.{IoRegion, mmio, set_base, relocate_region}
use modvm.Pci.{PciDevice, PciBus, find_device, update}
use modvm.Pci.Config.{
  PciDeviceOps, get_region, probed, new_base, bar_region, u32_ones, write_config, read_config,
  relocated, store_bar,
}
use modvm.Pci.Devices.{find-update_same}
use modvm.Pci.Bars.{Shows, Shows-store_bar, Seen}
use modvm.Pci.Relocated.{new_base_lt, bar_region_cases, bar_region-some, relocate_cases}
use modvm.Pci.Sizing.{bar_offset, read_bytes-probed}
use modvm.Pci.Sound.{IsSound, relocated_not, probed-IsSound}
use modvm.Pci.Access.{
  size_mask-power, new_base_word, probed_is, probed_not, read_config-bar, read_config-shown,
  write_config-ones, write_config-value,
}

-- Where the region of a BAR is after a relocation that returned `ret`.
abbrev pub IsMoved : IoRegion → ℕ → ℕ → IoRegion → Type 0
IsMoved r base ret r' = ((ret ≡ 0) × (r' ≡ record r { base = base })) ⊎ ((ret ≢ 0) × (r' ≡ r))

module _ (ops : ℕ → PciDeviceOps) (ram : List MemRegion) (devfn bar : ℕ) where
  -- The BAR of a device reads as the base of its region.
  abbrev pub ReadsBack : IoRegion → ℕ → ℕ → PciBus → Type 0
  ReadsBack r base ret bus =
      (r' : IoRegion) × (get_region r.self bus.io_map.mmio_regions ≡ some r')
      × (read_config ops bus devfn (bar_offset bar) 4 ≡ r'.base)
      × IsMoved r base ret r'

module _ (ops : ℕ → PciDeviceOps) (ram : List MemRegion) (bus : PciBus) (d : PciDevice) (bar : ℕ)
    (r : IoRegion) (e : find_device bus.devices d.devfn ≡ some d)
    (its : bar_region bus.io_map d bar ≡ some r) (v : IsSound ram bus) where
  own_region :
      (get_or d.bars bar none ≡ some r.self) × (get_region r.self bus.io_map.mmio_regions ≡ some r)
  own_region = bar_region_cases bus.io_map d bar r its

  own-Seen : Seen bus.io_map.mmio_regions bar r.self d
  own-Seen =
      v.placed.seen d.devfn bar r.self (record { device = d; found = e; at_bar = own_region.0 })

  own-Shows : Shows d.config_space bar r.base
  own-Shows =
      subst (λ q. Shows d.config_space bar q.base)
        (some-injective own-Seen.region r (sym own-Seen.found ∙ own_region.1)) own-Seen.shows

  own_space : r.space ≡ mmio
  own_space =
      subst (λ q. q.space ≡ mmio)
        (some-injective own-Seen.region r (sym own-Seen.found ∙ own_region.1)) own-Seen.space

  failed-ReadsBack :
      (base ret : ℕ)
      → ret ≢ 0
      → ReadsBack ops ram d.devfn bar r base ret
          (relocated ram bus (probed d bar false) bar base (bus.io_map, ret))
  failed-ReadsBack base ret ne =
      let new = probed d bar false in
      subst (ReadsBack ops ram d.devfn bar r base ret)
        (sym (relocated_not ram bus new bar base bus.io_map ret ne))
        (
          r,
          own_region.1,
          read_config-shown ops (record bus { devices = update d.devfn new bus.devices }) new bar r
              (find-update_same bus.devices d.devfn d new e refl) own-Seen.at_bar
              (bar_region-some bus.io_map new bar r.self own_region.0 ∙ own_region.1)
              (probed_not d bar) own-Shows,
          inr (ne, refl),
        )

  done-ReadsBack :
      (base : ℕ)
      → base < 2 ^ 32
      → let m = record (bus.io_map) {
        mmio_regions = set_base r.self base bus.io_map.mmio_regions;
      } in
        ReadsBack ops ram d.devfn bar r base 0
          (relocated ram bus (probed d bar false) bar base (m, 0))
  unfolding relocated
  done-ReadsBack base small =
      let new = record (probed d bar false) { config_space = store_bar d.config_space bar base } in
      let m = record (bus.io_map) { mmio_regions = set_base r.self base bus.io_map.mmio_regions } in
      let found = get_region-set_base r.self base bus.io_map.mmio_regions r own_region.1 in
      (
        record r { base = base },
        found,
        read_config-shown ops (record bus { devices = update d.devfn new bus.devices; io_map = m })
            new bar (record r { base = base }) (find-update_same bus.devices d.devfn d new e refl)
            own-Seen.at_bar (bar_region-some m new bar r.self own_region.0 ∙ found)
            (probed_not d bar) (Shows-store_bar d.config_space bar base small),
        inl (refl, refl),
      )

  value-ReadsBack :
      (val : ℕ)
      → val ≢ u32_ones
      → let base = new_base r (bar_offset bar) val 4 in
        ReadsBack ops ram d.devfn bar r base
          (relocate_region bus.io_map ram r base).1
          (write_config ram ops bus d.devfn (bar_offset bar) val 4)
  value-ReadsBack val ne =
      let base = new_base r (bar_offset bar) val 4 in
      subst (ReadsBack ops ram d.devfn bar r base (relocate_region bus.io_map ram r base).1)
        (sym (write_config-value ops bus d bar r e own-Seen.at_bar its ram val ne))
        (relocate_cases
          (λ q.
            ReadsBack ops ram d.devfn bar r base q.1
              (relocated ram bus (probed d bar false) bar base q))
          bus.io_map ram r base own_space (failed-ReadsBack base)
          (done-ReadsBack base (new_base_lt r (bar_offset bar) val 4)))

module _ (ops : ℕ → PciDeviceOps) (ram : List MemRegion) (bus : PciBus) (d : PciDevice) (bar : ℕ)
    (r : IoRegion) (e : find_device bus.devices d.devfn ≡ some d)
    (its : bar_region bus.io_map d bar ≡ some r) (v : IsSound ram bus) where
  -- The bus after ones were written to the BAR.
  abbrev sized : PciBus
  sized = record bus { devices = update d.devfn (probed d bar true) bus.devices }

  sized_device : find_device sized.devices d.devfn ≡ some (probed d bar true)
  sized_device = find-update_same bus.devices d.devfn d (probed d bar true) e refl

  sized_region : bar_region bus.io_map (probed d bar true) bar ≡ some r
  sized_region =
      let own = own_region ops ram bus d bar r e its v in
      bar_region-some bus.io_map (probed d bar true) bar r.self own.0 ∙ own.1

  read-sized :
      (k : ℕ)
      → r.size ≡ 2 ^ k
      → k ≤ 32
      → read_config ops sized d.devfn (bar_offset bar) 4 ≡ 2 ^ 32 - 2 ^ k
  read-sized k size le =
      let lt = (own-Seen ops ram bus d bar r e its v).at_bar in
      read_config-bar ops sized (probed d bar true) bar r sized_device lt sized_region
      ∙ read_bytes-probed bus.io_map (probed d bar true) bar lt r sized_region (probed_is d bar)
      ∙ size_mask-power r.size k size le

  -- A guest that programs a BAR of a sound bus whose region has 2 ^ k bytes, with k at most 32:
  -- after a write of ones the BAR reads as 2 ^ 32 - 2 ^ k, and no region has moved; after a write
  -- of any other word it reads as the base that its region then has, which is the word rounded down
  -- to a multiple of the size if `io_map_relocate_region_locked` allows it, and else the old base.
  pub write_config-ReadsBack :
      (k val : ℕ)
      → r.size ≡ 2 ^ k
      → k ≤ 32
      → val < 2 ^ 32
      → val ≢ u32_ones
      → let first = write_config ram ops bus d.devfn (bar_offset bar) u32_ones 4 in
        let base = val / 2 ^ k * 2 ^ k in
        (read_config ops first d.devfn (bar_offset bar) 4 ≡ 2 ^ 32 - 2 ^ k)
        × (first.io_map ≡ bus.io_map)
        × ReadsBack ops ram d.devfn bar r base
            (relocate_region bus.io_map ram r base).1
            (write_config ram ops first d.devfn (bar_offset bar) val 4)
  write_config-ReadsBack k val size le word ne =
      let lt = (own-Seen ops ram bus d bar r e its v).at_bar in
      let first = write_config-ones ops bus d bar r e lt its ram in
      (
        ap (λ b. read_config ops b d.devfn (bar_offset bar) 4) first ∙ read-sized k size le,
        ap (λ b. b.io_map) first,
        subst
            (λ b.
              ReadsBack ops ram d.devfn bar r (val / 2 ^ k * 2 ^ k)
                (relocate_region bus.io_map ram r (val / 2 ^ k * 2 ^ k)).1
                (write_config ram ops b d.devfn (bar_offset bar) val 4))
            (sym first)
            (subst
              (λ base.
                ReadsBack ops ram d.devfn bar r base (relocate_region bus.io_map ram r base).1
                  (write_config ram ops sized d.devfn (bar_offset bar) val 4))
              (new_base_word r bar k val size le word)
              (value-ReadsBack ops ram sized (probed d bar true) bar r sized_device sized_region
                (probed-IsSound ram bus d bar true e v) val ne)),
      )
