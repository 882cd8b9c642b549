-- ===== src/Pci/Attached.antt =====
-- A region that is new at a BAR: the other BARs keep theirs, and the bus stays sound.
use modvm.Prelude.{
  ℕ, ◌<◌, ◌≡◌, ◌≢◌, ◌^◌, refl, ◌⊎◌, inl, inr, List, [], ◌∷◌, ◌++◌, none, some, arith, All, get_or,
  set, length, get_or-set_self, get_or-set_ne, ap, sym, ◌∙◌, subst, Bool-cases, ◌==◌, ◌!=◌, bit_and,
}
use native.Mathlib.Decide.{ℕ_discrete}
use mathlib.Core.Option.{some-injective}
use modvm.Memory.{MemRegion}
use modvm.IoMap.{IoRegion, mmio, set_enabled}
use modvm.IoMap.Topology.{IsTopology}
use modvm.Pci.{PciDevice, PciBus, find_device, update}
use modvm.Pci.Config.{get_region, store_bar}
use modvm.Pci.Devices.{find-update_same, find-update_other}
use modvm.Pci.Mapping.{enabled-IsTopology}
use modvm.Pci.Regions.{get_region-set_enabled, get_region-set_enabled_other}
use modvm.Pci.Bars.{Shows, Shows-store_bar, store_bar-Shows, Seen, Owns, IsPlaced, memory_on}
use modvm.Pci.Register.{attach_bar}
use modvm.Pci.Relocated.{store_bar_below}
use modvm.Pci.Routed.{unmasked-IsRouted}
use modvm.Pci.Sound.{IsSound}

get_region-append :
    (self : ℕ) (rs ys : List IoRegion) (r : IoRegion)
    → get_region self rs ≡ some r
    → get_region self (rs ++ ys) ≡ some r
unfolding get_region
get_region-append self [] ys r e = absurd (ground arith)
get_region-append self (q ∷ qs) ys r e = ground (arith, get_region-append self qs ys r)

get_region-append_new :
    (rs : List IoRegion) (r : IoRegion)
    → All (λ q. q.self ≢ r.self) rs
    → get_region r.self (rs ++ r ∷ []) ≡ some r
unfolding get_region
get_region-append_new [] r new = ground arith
get_region-append_new (q ∷ qs) r new = ground (arith, get_region-append_new qs r, new.0)

get_region_fresh :
    (self : ℕ) (rs : List IoRegion) (r : IoRegion)
    → All (λ q. q.self ≢ self) rs
    → get_region self rs ≢ some r
unfolding get_region
get_region_fresh self [] r new e = absurd (ground arith)
get_region_fresh self (q ∷ qs) r new e = elim (Bool-cases (q.self == self)) [
  | inl t ↦ new.0 (ground arith)
  | inr t ↦ get_region_fresh self qs r new.1 (ground arith)
]

module _ (bus : PciBus) (d : PciDevice) (index base : ℕ) (r : IoRegion)
    (e : find_device bus.devices d.devfn ≡ some d) (lt : index < 6) (six : length d.bars ≡ 6)
    (vacant : get_or d.bars index none ≡ none) (memory : r.space ≡ mmio) (at : r.base ≡ base)
    (small : base < 2 ^ 32) (new : All (λ q. q.self ≢ r.self) bus.io_map.mmio_regions) where
  abbrev pub attached : PciDevice
  attached = record d {
    bars = set d.bars index (some r.self);
    config_space = store_bar d.config_space index base;
  }

  abbrev pub grown : List IoRegion
  grown = set_enabled r.self (memory_on d) (bus.io_map.mmio_regions ++ r ∷ [])

  abbrev pub joined : PciBus
  joined = record bus {
    devices = update d.devfn attached bus.devices;
    io_map = record (bus.io_map) { mmio_regions = grown };
  }

  same_command : memory_on attached ≡ memory_on d
  same_command =
      ap (λ c. bit_and c 2 != 0) (store_bar_below d.config_space index base 4 (omega arith))

  new-Seen : Seen grown index r.self attached
  new-Seen = record {
    region = record r { enabled = memory_on d };
    found =
        get_region-set_enabled r.self (memory_on d) _ r
          (get_region-append_new bus.io_map.mmio_regions r new);
    space = memory;
    at_bar = lt;
    shows =
        subst (λ b. Shows (store_bar d.config_space index base) index b) (sym at)
          (Shows-store_bar d.config_space index base small);
    enabled = sym same_command;
  }

  -- A region of before is not the new one, and is found as before.
  old_found :
      (self : ℕ) (q : IoRegion)
      → get_region self bus.io_map.mmio_regions ≡ some q
      → (self ≢ r.self) × (get_region self grown ≡ some q)
  old_found self q found =
      let ne : self ≢ r.self = λ s.
        get_region_fresh r.self bus.io_map.mmio_regions q new
          (subst (λ x. get_region x bus.io_map.mmio_regions ≡ some q) s found) in
      (
        ne,
        get_region-set_enabled_other self r.self (memory_on d) _ ne
            ∙ get_region-append self bus.io_map.mmio_regions (r ∷ []) q found,
      )

  kept-Seen :
      (bar self : ℕ)
      → bar ≢ index
      → Seen bus.io_map.mmio_regions bar self d
      → Seen grown bar self attached
  kept-Seen bar self ne s = record {
    region = s.region;
    found = (old_found self s.region s.found).1;
    space = s.space;
    at_bar = s.at_bar;
    shows = store_bar-Shows d.config_space index bar base s.region.base ne s.shows;
    enabled = s.enabled ∙ sym same_command;
  }

  other-Seen :
      (bar self : ℕ) (o : PciDevice)
      → Seen bus.io_map.mmio_regions bar self o
      → Seen grown bar self o
  other-Seen bar self o s = record {
    region = s.region;
    found = (old_found self s.region s.found).1;
    space = s.space;
    at_bar = s.at_bar;
    shows = s.shows;
    enabled = s.enabled;
  }

  -- What a device of the bus has at a BAR it had before, or it is the new region.
  abbrev Before : ℕ → ℕ → ℕ → PciDevice → Type 0
  Before devfn bar self o =
      ((b : Owns bus devfn bar self) × (Seen bus.io_map.mmio_regions bar self b.device
          → Seen grown bar self o))
      ⊎ ((devfn ≡ d.devfn) × (bar ≡ index) × (self ≡ r.self) × Seen grown bar self o)

  at_device : (bar self : ℕ) (o : Owns joined d.devfn bar self) → Before d.devfn bar self o.device
  at_device bar self o =
      let is_new : o.device ≡ attached =
        some-injective _ _ (sym o.found ∙ find-update_same bus.devices d.devfn d attached e refl) in
      let held : get_or (set d.bars index (some r.self)) bar none ≡ some self =
        ap (λ c. get_or c.bars bar none) (sym is_new) ∙ o.at_bar in
      elim (ℕ_discrete bar index) [
        | yes b ↦
            let s : self ≡ r.self = some-injective self r.self (
              sym held
              ∙ ap (λ n. get_or (set d.bars index (some r.self)) n none) b
              ∙ get_or-set_self d.bars index (some r.self) none (omega (arith, six))) in
            inr (
              refl,
              b,
              s,
              subst (λ c. Seen grown bar self c) (sym is_new)
                  (subst (λ n. Seen grown n self attached) (sym b)
                    (subst (λ x. Seen grown index x attached) (sym s) new-Seen)),
            )
        | no ne ↦ inl (
          record {
            device = d;
            found = e;
            at_bar = sym (get_or-set_ne d.bars (some r.self) none (λ i. ne (sym i))) ∙ held;
          },
          λ s. subst (Seen grown bar self) (sym is_new) (kept-Seen bar self ne s),
        )
      ]

  before : (devfn bar self : ℕ) (o : Owns joined devfn bar self) → Before devfn bar self o.device
  before devfn bar self o = elim (ℕ_discrete devfn d.devfn) [
    | yes t ↦
        subst (λ n. (o : Owns joined n bar self) → Before n bar self o.device) (sym t)
          (at_device bar self) o
    | no ne ↦ inl (
      record {
        device = o.device;
        found = sym (find-update_other bus.devices d.devfn devfn attached refl ne) ∙ o.found;
        at_bar = o.at_bar;
      },
      λ s. other-Seen bar self o.device s,
    )
  ]

  -- A region that a BAR had before is not the new one.
  not_new : (devfn bar self : ℕ) → IsPlaced bus → Owns bus devfn bar self → self ≢ r.self
  not_new devfn bar self p b =
      let s = p.seen devfn bar self b in (old_found self s.region s.found).0

  joined-IsPlaced : IsPlaced bus → IsPlaced joined
  joined-IsPlaced p = record {
    seen = λ devfn bar self o. elim (before devfn bar self o) [
      | inl (b, now) ↦ now (p.seen devfn bar self b)
      | inr (n, i, s, seen) ↦ seen
    ];
    apart = λ devfn bar devfn' bar' self o o'. elim (before devfn bar self o) [
      | inl (b, now) ↦ elim (before devfn' bar' self o') [
        | inl (b', now') ↦ p.apart devfn bar devfn' bar' self b b'
        | inr (n, i, s, seen) ↦ absurd (not_new devfn bar self p b s)
      ]
      | inr (n, i, s, seen) ↦ elim (before devfn' bar' self o') [
        | inl (b', now') ↦ absurd (not_new devfn' bar' self p b' s)
        | inr (n', i', s', seen') ↦ (n ∙ sym n', i ∙ sym i')
      ]
    ];
  }

  pub attach_bar-IsSound :
      (ram : List MemRegion)
      → let m = record (bus.io_map) { mmio_regions = bus.io_map.mmio_regions ++ r ∷ [] } in
        IsTopology m ram → IsSound ram bus → IsSound ram (attach_bar bus d index base r m)
  unfolding attach_bar
  attach_bar-IsSound ram t v = record {
    routed =
        (let w =
            unmasked-IsRouted bus d.devfn d attached v.routed e
              (record { devfn = refl; pin = refl; level = refl })
              (store_bar_below d.config_space index base 5 (omega arith)) in
          record { bits = w.bits; lines = w.lines });
    topology = enabled-IsTopology ram r.self (memory_on d) _ t;
    placed = joined-IsPlaced v.placed;
  }

  pub attach_bar-Owns : Owns joined d.devfn index r.self
  attach_bar-Owns = record {
    device = attached;
    found = find-update_same bus.devices d.devfn d attached e refl;
    at_bar = get_or-set_self d.bars index (some r.self) none (omega (arith, six));
  }
