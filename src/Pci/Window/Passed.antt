-- ===== src/Pci/Window/Passed.antt =====
-- One round over the window: what is in the way is passed, and no free place with it.
use modvm.Prelude.{
  ℕ, ◌+◌, ◌^◌, ◌≤◌, ◌<◌, ◌≡◌, refl, ◌⊎◌, inl, inr, List, [], ◌∷◌, arith, All, All-map, All-IsIn,
  IsIn, subst, ◌∙◌,
}
use modvm.Memory.{MemRegion}
use modvm.Memory.Regions
use modvm.Memory.Regions.{Apart}
use modvm.IoMap.{IoRegion}
use modvm.IoMap.Topology.{IsFit}
use modvm.Pci.Window.{past_one, past_higher, past_regions, past_ram}

-- One region of either kind, at `at` and of `len` bytes.
region_step :
    (start size at len from : ℕ)
    → start + size < 2 ^ 64
    → at + len < 2 ^ 64
    → ((past_one start size at len from ≡ from) × Apart start size at len)
      ⊎ ((at < start + size) × (start < at + len) × (past_one start size at len from ≡ at + len))
region_step start size at len from small fit = ground arith

-- Passed at an end that is beyond the start.
abbrev Passed : ℕ → ℕ → ℕ → ℕ → ℕ → Type 0
Passed start size from at len = Apart start size at len ⊎ ((at + len ≤ from) × (start < from))

ram_step :
    (start size at len from : ℕ)
    → start + size < 2 ^ 64
    → at + len < 2 ^ 64
    → ((past_higher start size at len from ≡ from) × Passed start size from at len)
      ⊎ ((at < start + size) × (start < at + len) × (past_higher start size at len from ≡ at + len))
ram_step start size at len from small fit = ground arith

module _ (regions : List IoRegion) (ram : List MemRegion) (size limit : ℕ) where
  -- No region and no RAM is in the way of a region of this size.
  abbrev pub Free : ℕ → Type 0
  Free base =
      All (λ r. Apart base size r.base r.size) regions × All (λ g. Apart base size g.gpa g.size) ram

  -- A base between the start and the end of something in the way is in its way as well.
  abbrev pub Skips : ℕ → ℕ → Type 0
  Skips start past = (start < past) × ((c : ℕ) → start ≤ c → c < past → ¬ Free c)

  module _ (start : ℕ) (small : start + size < 2 ^ 64) (pos : 0 < size) where
    past_regions-IsIn :
        (rs : List IoRegion) (from : ℕ)
        → All IsFit rs
        → ((past_regions start size rs from ≡ from) × All (λ r. Apart start size r.base r.size) rs)
          ⊎ ((r : IoRegion) × IsIn r rs
              × (r.base < start + size)
              × (start < r.base + r.size)
              × (past_regions start size rs from ≡ r.base + r.size))
    unfolding past_regions
    past_regions-IsIn [] from fit = inl (refl, tt)
    past_regions-IsIn (r ∷ rs) from fit =
        elim (past_regions-IsIn rs (past_one start size r.base r.size from) fit.1) [
          | inl (e, apart) ↦ elim (region_step start size r.base r.size from small fit.0.1) [
            | inl (same, here) ↦ inl (e ∙ same, (here, apart))
            | inr (lo, hi, same) ↦ inr (r, inl refl, lo, hi, e ∙ same)
          ]
          | inr (q, i, lo, hi, e) ↦ inr (q, inr i, lo, hi, e)
        ]

    past_ram-IsIn :
        (gs : List MemRegion) (from : ℕ)
        → All Regions.IsFit gs
        → ((past_ram start size gs from ≡ from) × All (λ g. Passed start size from g.gpa g.size) gs)
          ⊎ ((g : MemRegion) × IsIn g gs
              × (g.gpa < start + size)
              × (start < g.gpa + g.size)
              × (past_ram start size gs from ≡ g.gpa + g.size))
    unfolding past_ram
    past_ram-IsIn [] from fit = inl (refl, tt)
    past_ram-IsIn (g ∷ gs) from fit =
        elim (past_ram-IsIn gs (past_higher start size g.gpa g.size from) fit.1) [
          | inl (e, each) ↦ elim (ram_step start size g.gpa g.size from small fit.0.guest) [
            | inl (same, here) ↦ inl (
              e ∙ same,
              (here, subst (λ n. All (λ g. Passed start size n g.gpa g.size) gs) same each),
            )
            | inr (lo, hi, same) ↦ inr (g, inl refl, lo, hi, e ∙ same)
          ]
          | inr (q, i, lo, hi, e) ↦ inr (q, inr i, lo, hi, e)
        ]

    blocked_region :
        (r : IoRegion) (past : ℕ)
        → IsIn r regions
        → r.base < start + size
        → start < r.base + r.size
        → past ≡ r.base + r.size
        → Skips start past
    blocked_region r past i lo hi e = (
      omega arith,
      λ c from to free.
          let a = All-IsIn (λ r. Apart c size r.base r.size) r regions free.0 i in
          absurd (omega (arith, a)),
    )

    blocked_ram :
        (g : MemRegion) (past : ℕ)
        → IsIn g ram
        → g.gpa < start + size
        → start < g.gpa + g.size
        → past ≡ g.gpa + g.size
        → Skips start past
    blocked_ram g past i lo hi e = (
      omega arith,
      λ c from to free.
          let a = All-IsIn (λ g. Apart c size g.gpa g.size) g ram free.1 i in
          absurd (omega (arith, a)),
    )

    -- The loop stops at a free place, and moves on only past what is in the way.
    pub past-Skips :
        All IsFit regions
        → All Regions.IsFit ram
        → let past = past_ram start size ram (past_regions start size regions start) in
          ((past ≡ start) × Free start) ⊎ Skips start past
    past-Skips fit ram_fit =
        let from = past_regions start size regions start in
        elim (past_regions-IsIn regions start fit) [
          | inl (e, apart) ↦ elim (past_ram-IsIn ram from ram_fit) [
            | inl (e2, each) ↦ inl (
              e2 ∙ e,
              (
                apart,
                All-map (λ g. Passed start size from g.gpa g.size)
                    (λ g. Apart start size g.gpa g.size) (λ g p. omega arith) ram each,
              ),
            )
            | inr (g, i, lo, hi, e2) ↦ inr (blocked_ram g _ i lo hi e2)
          ]
          | inr (r, i, lo, hi, e) ↦ elim (past_ram-IsIn ram from ram_fit) [
            | inl (e2, each) ↦ inr (blocked_region r _ i lo hi (e2 ∙ e))
            | inr (g, j, lo2, hi2, e2) ↦ inr (blocked_ram g _ j lo2 hi2 e2)
          ]
        ]
