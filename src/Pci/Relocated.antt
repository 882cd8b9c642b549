-- ===== src/Pci/Relocated.antt =====
-- A write to a BAR: the region moves with the register, or neither changes.
use modvm.Prelude.{
  ℕ, ◌-◌, ◌^◌, ◌<◌, ◌≡◌, ◌≢◌, refl, inl, inr, false, List, none, some, arith, get_or, ap, sym, ◌∙◌,
  subst, Option-cases, branch_cases, ◌!=◌, bit_and, ltb,
}
use modvm.Prelude.Masks.{bit_and_le}
use modvm.Prelude.Words.{u64_max}
use modvm.Prelude.Errno.{ebusy, eoverflow}
use native.Mathlib.Decide.{ℕ_discrete}
use mathlib.Core.Option.{some-injective}
use modvm.Memory.{MemRegion}
use modvm.IoMap.{
  IoMap, IoRegion, mmio, set_base, relocate_region, with_regions, regions, relocate_conflict,
  ram_blocks,
}
use modvm.Pci.{PciDevice, PciBus, find_device, update}
use modvm.Pci.Config.{get_region, store_bar, probed, new_base, bar_region, size_mask}
use modvm.Pci.Regions.{get_region_self, get_region-set_base, get_region-set_base_other}
use modvm.Pci.Bars.{Shows-store_bar, store_bar-Shows, Seen, IsPlaced, stored-IsPlaced}

pub new_base_lt : (r : IoRegion) (offset val size : ℕ) → new_base r offset val size < 2 ^ 32
unfolding new_base
new_base_lt r offset val size = omega (arith, bit_and_le _ (size_mask r.size))

bar_region-none :
    (m : IoMap) (d : PciDevice) (bar : ℕ)
    → get_or d.bars bar none ≡ none
    → bar_region m d bar ≡ none
unfolding bar_region
bar_region-none m d bar e = rw (e, bar_region) refl

pub bar_region-some :
    (m : IoMap) (d : PciDevice) (bar self : ℕ)
    → get_or d.bars bar none ≡ some self
    → bar_region m d bar ≡ get_region self m.mmio_regions
unfolding bar_region
bar_region-some m d bar self e = rw (e, bar_region) refl

pub bar_region_cases :
    (m : IoMap) (d : PciDevice) (bar : ℕ) (r : IoRegion)
    → bar_region m d bar ≡ some r
    → (get_or d.bars bar none ≡ some r.self) × (get_region r.self m.mmio_regions ≡ some r)
bar_region_cases m d bar r e = elim (Option-cases (get_or d.bars bar none)) [
  | inl at ↦ let clash = sym (bar_region-none m d bar at) ∙ e in absurd (cc)
  | inr (self, at) ↦
      let found : get_region self m.mmio_regions ≡ some r =
        sym (bar_region-some m d bar self at) ∙ e in
      let this = get_region_self self m.mmio_regions r found in
      (at ∙ ap some (sym this), subst (λ x. get_region x m.mmio_regions ≡ some r) (sym this) found)
]

with_memory :
    (m : IoMap) (r : IoRegion) (base : ℕ)
    → with_regions m mmio (set_base r.self base (regions m mmio))
      ≡ record m { mmio_regions = set_base r.self base m.mmio_regions }
unfolding with_regions regions
with_memory m r base = refl

-- A relocation fails and changes nothing, or moves the region.
pub relocate_cases {ℓ} :
    (P : IoMap × ℕ → Type ℓ) (m : IoMap) (ram : List MemRegion) (r : IoRegion) (base : ℕ)
    → r.space ≡ mmio
    → ((ret : ℕ) → ret ≢ 0 → P (m, ret))
    → P (record m { mmio_regions = set_base r.self base m.mmio_regions }, 0)
    → P (relocate_region m ram r base)
unfolding relocate_region
relocate_cases P m ram r base space failed done =
    let moved_to : with_regions m r.space (set_base r.self base (regions m r.space))
        ≡ record m { mmio_regions = set_base r.self base m.mmio_regions } =
      ap (λ s. with_regions m s (set_base r.self base (regions m s))) space
      ∙ with_memory m r base in
    branch_cases P (ltb (u64_max - r.size) base) _ _ (failed eoverflow (omega arith)) (
      branch_cases P (relocate_conflict r.self base r.size (regions m r.space)) _ _
        (failed ebusy (omega arith))
        (branch_cases P (ram_blocks r.space base r.size ram) _ _ (failed ebusy (omega arith))
          (subst (λ m'. P (m', 0)) (sym moved_to) done)))

pub store_bar_below : (f : ℕ → ℕ) (bar base off : ℕ) → off < 0x10 → store_bar f bar base off ≡ f off
store_bar_below f bar base off lt = ground arith

module _ (bus : PciBus) (d : PciDevice) (e : find_device bus.devices d.devfn ≡ some d)
    (bar base : ℕ) (r : IoRegion) (small : base < 2 ^ 32)
    (at : get_or d.bars bar none ≡ some r.self)
    (found : get_region r.self bus.io_map.mmio_regions ≡ some r) where
  abbrev pub rebased : List IoRegion
  rebased = set_base r.self base bus.io_map.mmio_regions

  abbrev pub shown : PciDevice
  shown = record (probed d bar false) { config_space = store_bar d.config_space bar base }

  abbrev pub after : PciBus
  after = record bus {
    devices = update d.devfn shown bus.devices;
    io_map = record (bus.io_map) { mmio_regions = rebased };
  }

  hit-Seen :
      (self : ℕ)
      → self ≡ r.self
      → Seen bus.io_map.mmio_regions bar self d
      → Seen rebased bar self shown
  hit-Seen self t s = record {
    region = record (s.region) { base = base };
    found =
        subst
          (λ x.
            get_region self (set_base x base bus.io_map.mmio_regions)
            ≡ some (record (s.region) { base = base }))
          t (get_region-set_base self base bus.io_map.mmio_regions s.region s.found);
    space = s.space;
    at_bar = s.at_bar;
    shows = Shows-store_bar d.config_space bar base small;
    enabled =
        s.enabled
        ∙ ap (λ c. bit_and c 2 != 0)
            (sym (store_bar_below d.config_space bar base 4 (omega arith)));
  }

  missed-Seen :
      (bar' self : ℕ)
      → bar' ≢ bar
      → self ≢ r.self
      → Seen bus.io_map.mmio_regions bar' self d
      → Seen rebased bar' self shown
  missed-Seen bar' self other ne s = record {
    region = s.region;
    found = get_region-set_base_other self r.self base bus.io_map.mmio_regions ne ∙ s.found;
    space = s.space;
    at_bar = s.at_bar;
    shows = store_bar-Shows d.config_space bar bar' base s.region.base other s.shows;
    enabled =
        s.enabled
        ∙ ap (λ c. bit_and c 2 != 0)
            (sym (store_bar_below d.config_space bar base 4 (omega arith)));
  }

  owned-Seen :
      IsPlaced bus
      → (bar' self : ℕ) → get_or d.bars bar' none ≡ some self
      → Seen bus.io_map.mmio_regions bar' self d
      → Seen rebased bar' self shown
  owned-Seen p bar' self at' s = elim (ℕ_discrete self r.self) [
    | yes t ↦
        let same =
          p.apart d.devfn bar' d.devfn bar self (record { device = d; found = e; at_bar = at' })
            (record { device = d; found = e; at_bar = at ∙ ap some (sym t) }) in
        subst (λ n. Seen bus.io_map.mmio_regions n self d → Seen rebased n self shown) (sym same.1)
          (hit-Seen self t) s
    | no ne ↦
        missed-Seen bar' self
          (λ b. ne (some-injective self r.self (sym at' ∙ ap (λ n. get_or d.bars n none) b ∙ at)))
          ne s
  ]

  pub after-IsPlaced : IsPlaced bus → IsPlaced after
  after-IsPlaced p =
      stored-IsPlaced bus d.devfn d shown after.io_map bus.bridge e refl refl p (owned-Seen p)
        (λ self q k. elim (ℕ_discrete self r.self) [
          | yes t ↦ inr (bar, record { device = d; found = e; at_bar = at ∙ ap some (sym t) })
          | no ne ↦ inl (get_region-set_base_other self r.self base bus.io_map.mmio_regions ne ∙ k)
        ])
