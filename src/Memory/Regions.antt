-- ===== src/Memory/Regions.antt =====
-- Guest RAM of core/memory.c as a set of disjoint regions, and what `find_region` finds in it.
use modvm.Prelude.{
  ℕ, ◌+◌, ◌^◌, ◌≤◌, ◌<◌, ◌≡◌, ◌⊎◌, inl, inr, List, [], ◌∷◌, some, arith, All, All-IsIn, IsIn,
}
use modvm.Memory.{MemRegion, find_region}

-- Two ranges of addresses have no address in common.
abbrev pub Apart : ℕ → ℕ → ℕ → ℕ → Type 0
Apart b1 s1 b2 s2 = (b1 + s1 ≤ b2) ⊎ (b2 + s2 ≤ b1)

-- A region is not empty, and neither its guest nor its host addresses wrap.
pub record IsFit (r : MemRegion) : Type 0 where
  pub full : 0 < r.size
  pub guest : r.gpa + r.size < 2 ^ 64
  pub host : r.hva + r.size < 2 ^ 64

abbrev pub Disjoint : List MemRegion → Type 0
Disjoint [] = Unit
Disjoint (r ∷ rs) = All (λ q. Apart r.gpa r.size q.gpa q.size) rs × Disjoint rs

abbrev pub Covers : MemRegion → ℕ → Type 0
Covers r addr = (r.gpa ≤ addr) × (addr < r.gpa + r.size)

pub find_region-IsIn :
    (regs : List MemRegion) (addr : ℕ) (r : MemRegion)
    → addr < 2 ^ 64
    → find_region regs addr ≡ some r
    → IsIn r regs × Covers r addr
unfolding find_region
find_region-IsIn [] addr r small e = absurd (ground arith)
find_region-IsIn (q ∷ qs) addr r small e = ground (arith, find_region-IsIn qs addr r small)

pub find_region-hit :
    (regs : List MemRegion) (addr : ℕ) (r : MemRegion)
    → Disjoint regs
    → addr < 2 ^ 64
    → IsIn r regs
    → Covers r addr
    → find_region regs addr ≡ some r
unfolding find_region
find_region-hit [] addr r d small m c = absurd m
find_region-hit (q ∷ qs) addr r d small (inl e) c = ground arith
find_region-hit (q ∷ qs) addr r d small (inr m) c = ground (
  arith,
  find_region-hit qs addr r d.1 small m c,
  All-IsIn (λ p. Apart q.gpa q.size p.gpa p.size) r qs d.0 m,
)
