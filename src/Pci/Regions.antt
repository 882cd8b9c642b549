-- ===== src/Pci/Regions.antt =====
-- The regions that pointers designate, after stores through other pointers.
use modvm.Prelude.{
  ℕ, ◌≡◌, ◌≢◌, refl, ◌⊎◌, inl, inr, Bool, List, [], ◌∷◌, Option, none, some, arith, IsIn, get_or,
  zero, suc, ap, sym, ◌∙◌, subst, ◌==◌, Bool-cases,
}
use mathlib.Core.Option.{some-injective}
use native.Mathlib.Decide.{ℕ_discrete}
use modvm.IoMap.{IoMap, IoRegion, set_base, set_enabled}
use modvm.Pci.{enable_bars}
use modvm.Pci.Config.{get_region}

pub get_region_self :
    (self : ℕ) (rs : List IoRegion) (r : IoRegion) → get_region self rs ≡ some r → r.self ≡ self
unfolding get_region
get_region_self self [] r e = absurd (ground arith)
get_region_self self (q ∷ qs) r e = elim (Bool-cases (q.self == self)) [
  | inl t ↦ subst (λ x. x.self ≡ self) (some-injective q r (ground arith)) (ground arith)
  | inr t ↦ get_region_self self qs r (ground arith)
]

pub get_region-IsIn :
    (self : ℕ) (rs : List IoRegion) (r : IoRegion) → get_region self rs ≡ some r → IsIn r rs
unfolding get_region
get_region-IsIn self [] r e = absurd (ground arith)
get_region-IsIn self (q ∷ qs) r e = elim (Bool-cases (q.self == self)) [
  | inl t ↦ inl (some-injective r q (ground arith))
  | inr t ↦ inr (get_region-IsIn self qs r (ground arith))
]

pub get_region-set_base :
    (self base : ℕ) (rs : List IoRegion) (r : IoRegion)
    → get_region self rs ≡ some r
    → get_region self (set_base self base rs) ≡ some (record r { base = base })
unfolding get_region set_base
get_region-set_base self base [] r e = absurd (ground arith)
get_region-set_base self base (q ∷ qs) r e = ground (arith, get_region-set_base self base qs r)

pub get_region-set_base_other :
    (self target base : ℕ) (rs : List IoRegion)
    → self ≢ target
    → get_region self (set_base target base rs) ≡ get_region self rs
unfolding get_region set_base
get_region-set_base_other self target base [] ne = refl
get_region-set_base_other self target base (q ∷ qs) ne =
    ground (arith, get_region-set_base_other self target base qs)

pub get_region-set_enabled :
    (self : ℕ) (on : Bool) (rs : List IoRegion) (r : IoRegion)
    → get_region self rs ≡ some r
    → get_region self (set_enabled self on rs) ≡ some (record r { enabled = on })
unfolding get_region set_enabled
get_region-set_enabled self on [] r e = absurd (ground arith)
get_region-set_enabled self on (q ∷ qs) r e = ground (arith, get_region-set_enabled self on qs r)

pub get_region-set_enabled_other :
    (self target : ℕ) (on : Bool) (rs : List IoRegion)
    → self ≢ target
    → get_region self (set_enabled target on rs) ≡ get_region self rs
unfolding get_region set_enabled
get_region-set_enabled_other self target on [] ne = refl
get_region-set_enabled_other self target on (q ∷ qs) ne =
    ground (arith, get_region-set_enabled_other self target on qs)

-- A region that is as the bit says stays.
enable_bars_as :
    (bars : List (Option ℕ)) (on : Bool) (m : IoMap) (self : ℕ) (r : IoRegion)
    → get_region self m.mmio_regions ≡ some r
    → r.enabled ≡ on
    → get_region self (enable_bars bars on m).mmio_regions ≡ some r
unfolding enable_bars
enable_bars_as [] on m self r e as_on = e
enable_bars_as (none ∷ bars) on m self r e as_on = enable_bars_as bars on m self r e as_on
enable_bars_as (some s ∷ bars) on m self r e as_on =
    enable_bars_as bars on (record m { mmio_regions = set_enabled s on m.mmio_regions }) self r
      (elim (ℕ_discrete self s) [
        | yes t ↦
            subst (λ x. get_region self (set_enabled x on m.mmio_regions) ≡ some r) t
              (get_region-set_enabled self on m.mmio_regions r e
                ∙ ap (λ b. some (record r { enabled = b })) (sym as_on))
        | no ne ↦ get_region-set_enabled_other self s on m.mmio_regions ne ∙ e
      ])
      as_on

pub enable_bars-own :
    (bars : List (Option ℕ)) (on : Bool) (m : IoMap) (bar self : ℕ) (r : IoRegion)
    → get_or bars bar none ≡ some self
    → get_region self m.mmio_regions ≡ some r
    → get_region self (enable_bars bars on m).mmio_regions ≡ some (record r { enabled = on })
unfolding enable_bars
enable_bars-own [] on m bar self r at e = absurd (ground arith)
enable_bars-own (none ∷ bars) on m zero self r at e = absurd (ground arith)
enable_bars-own (none ∷ bars) on m (suc bar) self r at e = enable_bars-own bars on m bar self r at e
enable_bars-own (some s ∷ bars) on m zero self r at e =
    let t : s ≡ self = some-injective s self at in
    enable_bars_as bars on _ self (record r { enabled = on })
      (subst
        (λ x. get_region self (set_enabled x on m.mmio_regions) ≡ some (record r { enabled = on }))
        (sym t) (get_region-set_enabled self on m.mmio_regions r e))
      refl
enable_bars-own (some s ∷ bars) on m (suc bar) self r at e = elim (ℕ_discrete self s) [
  | yes t ↦
      enable_bars-own bars on _ bar self (record r { enabled = on }) at
        (subst
          (λ x.
            get_region self (set_enabled x on m.mmio_regions) ≡ some (record r { enabled = on }))
          t (get_region-set_enabled self on m.mmio_regions r e))
  | no ne ↦
      enable_bars-own bars on _ bar self r at
        (get_region-set_enabled_other self s on m.mmio_regions ne ∙ e)
]

-- A region that is at none of the BARs stays.
pub enable_bars-other :
    (bars : List (Option ℕ)) (on : Bool) (m : IoMap) (self : ℕ) (r : IoRegion)
    → get_region self m.mmio_regions ≡ some r
    → (get_region self (enable_bars bars on m).mmio_regions ≡ some r)
      ⊎ ((bar : ℕ) × (get_or bars bar none ≡ some self))
unfolding enable_bars
enable_bars-other [] on m self r e = inl e
enable_bars-other (none ∷ bars) on m self r e = elim (enable_bars-other bars on m self r e) [
  | inl same ↦ inl same
  | inr (bar, at) ↦ inr (suc bar, at)
]
enable_bars-other (some s ∷ bars) on m self r e = elim (ℕ_discrete self s) [
  | yes t ↦ inr (zero, ap some (sym t))
  | no ne ↦
      elim (enable_bars-other bars on (record m { mmio_regions = set_enabled s on m.mmio_regions })
        self r (get_region-set_enabled_other self s on m.mmio_regions ne ∙ e)) [
          | inl same ↦ inl same
          | inr (bar, at) ↦ inr (suc bar, at)
        ]
]
