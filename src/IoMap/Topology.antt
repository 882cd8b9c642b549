-- ===== src/IoMap/Topology.antt =====
-- The well-formedness of the I/O spaces, on lists of regions: none is empty or wraps, no two have
-- an address in common, and no two are the same structure.
pub mod Update
pub mod Preserve
use modvm.Prelude.{
  ℕ, ◌+◌, ◌-◌, ◌^◌, ◌≤◌, ◌<◌, ◌≡◌, ◌≢◌, refl, ◌⊎◌, inl, inr, Bool, true, false, List, [], ◌∷◌, ◌++◌,
  some, arith, All, All-IsIn, All-append, IsIn, Bool-cases,
}
use modvm.Memory.{MemRegion}
use modvm.Memory.Regions.{Apart}
use modvm.Memory.Regions
use modvm.IoMap.{
  IoRegion, IoMap, IoSpace, pio, mmio, regions, io_conflict, ram_conflict, relocate_conflict,
}

abbrev pub IsFit : IoRegion → Type 0
IsFit r = (0 < r.size) × (r.base + r.size < 2 ^ 64)

-- Another region of the same space, as seen from `r`.
abbrev pub Beside : IoRegion → IoRegion → Type 0
Beside r q = Apart r.base r.size q.base q.size × (r.self ≢ q.self)

abbrev pub Pairs : List IoRegion → Type 0
Pairs [] = Unit
Pairs (r ∷ rs) = All (Beside r) rs × Pairs rs

abbrev pub Clear : List MemRegion → IoRegion → Type 0
Clear ram r = All (λ g. Apart r.base r.size g.gpa g.size) ram

pub record Laid (rs : List IoRegion) : Type 0 where
  pub fit : All IsFit rs
  pub pairs : Pairs rs

pub record IsTopology (m : IoMap) (ram : List MemRegion) : Type 0 where
  pub ports : Laid m.pio_regions
  pub memory : Laid m.mmio_regions
  pub ram_fit : All Regions.IsFit ram
  pub ram_pairs : Regions.Disjoint ram
  pub clear : All (Clear ram) m.mmio_regions

pub io_conflict-Apart :
    (base size : ℕ) (rs : List IoRegion)
    → 0 < size
    → base + size < 2 ^ 64
    → All IsFit rs
    → io_conflict base size rs ≡ false
    → All (λ r. Apart r.base r.size base size) rs
unfolding io_conflict
io_conflict-Apart base size [] pos small fit e = tt
io_conflict-Apart base size (r ∷ rs) pos small fit e =
    (ground arith, io_conflict-Apart base size rs pos small fit.1 (ground arith))

pub ram_conflict-Apart :
    (base size : ℕ) (ram : List MemRegion)
    → 0 < size
    → base + size < 2 ^ 64
    → All Regions.IsFit ram
    → ram_conflict base size ram ≡ false
    → All (λ g. Apart base size g.gpa g.size) ram
unfolding ram_conflict
ram_conflict-Apart base size [] pos small fit e = tt
ram_conflict-Apart base size (g ∷ gs) pos small fit e =
    let f = fit.0 in (ground arith, ram_conflict-Apart base size gs pos small fit.1 (ground arith))

pub relocate_conflict-Apart :
    (self base size : ℕ) (rs : List IoRegion)
    → 0 < size
    → base + size < 2 ^ 64
    → All IsFit rs
    → relocate_conflict self base size rs ≡ false
    → All (λ r. (r.self ≡ self) ⊎ Apart r.base r.size base size) rs
unfolding relocate_conflict
relocate_conflict-Apart self base size [] pos small fit e = tt
relocate_conflict-Apart self base size (r ∷ rs) pos small fit e =
    (ground arith, relocate_conflict-Apart self base size rs pos small fit.1 (ground arith))

pub Pairs-append :
    (rs : List IoRegion) (n : IoRegion) → Pairs rs → All (λ r. Beside r n) rs → Pairs (rs ++ n ∷ [])
Pairs-append [] n p h = (tt, tt)
Pairs-append (r ∷ rs) n p h =
    (All-append (Beside r) rs (n ∷ []) p.0 (h.0, tt), Pairs-append rs n p.1 h.1)
