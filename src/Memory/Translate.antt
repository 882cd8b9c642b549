-- ===== src/Memory/Translate.antt =====
-- `mem_map_chunk` and `mem_map_range` against a translation of single addresses.
use modvm.Prelude.{
  ℕ, ◌+◌, ◌-◌, ◌^◌, ◌≤◌, ◌<◌, ◌≡◌, ◌⊎◌, inl, inr, Bool, true, false, Option, none, some, arith, All,
  All-IsIn, IsIn, Option-cases, bit_and, ◌==◌, ◌↔◌,
}
use mathlib.Core.Option
use modvm.Memory.{MemRegion, MemSpace, mem_readonly, find_region, map_chunk, map_range}
use modvm.Memory.Regions.{IsFit, Disjoint, Covers, find_region-IsIn, find_region-hit}

pub record IsValid (space : MemSpace) : Type 0 where
  pub fit : All IsFit space.regions
  pub apart : Disjoint space.regions

-- The host address of one guest byte, and whether the guest byte may be written.
pub translate : MemSpace → ℕ → Option ℕ
translate space addr = Option.map (λ r. r.hva + (addr - r.gpa)) (find_region space.regions addr)

pub is_writable : MemSpace → ℕ → Bool
is_writable space addr = elim (find_region space.regions addr) [
  | none ↦ false
  | some r ↦ bit_and r.flags mem_readonly == 0
]

-- What a chunk that is not NULL is: the part of one region from `gpa` on.
pub map_chunk-region :
    (space : MemSpace) (gpa len : ℕ) (write : Bool) {h n : ℕ}
    → IsValid space
    → gpa < 2 ^ 64
    → map_chunk space gpa len write ≡ (some h, n)
    → (r : MemRegion) × (find_region space.regions gpa ≡ some r)
      × IsIn r space.regions
      × Covers r gpa
      × (h ≡ r.hva + (gpa - r.gpa))
      × (gpa + n ≤ r.gpa + r.size)
      × (0 < n)
      × (n ≤ len)
      × ((n ≡ len) ⊎ (gpa + n ≡ r.gpa + r.size))
      × (write ≡ true → bit_and r.flags mem_readonly ≡ 0)
unfolding map_chunk
map_chunk-region space gpa len write {h} {n} v small e =
    elim (Option-cases (find_region space.regions gpa)) [
      | inl miss ↦ absurd (ground arith)
      | inr (r, hit) ↦
          let (m, c) = find_region-IsIn space.regions gpa r small hit in
          let fit = All-IsIn IsFit r space.regions v.fit m in
          (
            r,
            hit,
            m,
            c,
            ground arith,
            ground arith,
            ground arith,
            ground arith,
            ground arith,
            ground arith,
          )
    ]

-- A chunk that `mem_map_chunk` returns stands for its guest bytes one by one: the byte `i` places
-- on from `gpa` has its host address `i` places on from the pointer returned, and may be written if
-- writing was asked for.
pub map_chunk-translate :
    (space : MemSpace) (gpa len i : ℕ) (write : Bool) {h n : ℕ}
    → IsValid space
    → gpa < 2 ^ 64
    → map_chunk space gpa len write ≡ (some h, n)
    → i < n
    → (translate space (gpa + i) ≡ some (h + i))
      × (write ≡ true → is_writable space (gpa + i) ≡ true)
unfolding translate is_writable
map_chunk-translate space gpa len i write v small e lt =
    let (r, _, m, c, at, within, _, _, _, perm) = map_chunk-region space gpa len write v small e in
    let fit = All-IsIn IsFit r space.regions v.fit m in
    let hit = find_region-hit space.regions (gpa + i) r v.apart (omega arith) m (omega arith) in
    (ground (arith, hit), ground (arith, hit))

-- For a length that is not 0 and does not wrap, `mem_map_chunk` returns NULL exactly when the first
-- byte is not mapped, or is to be written and may not be.
pub map_chunk-none :
    (space : MemSpace) (gpa len : ℕ) (write : Bool)
    → IsValid space
    → 0 < len
    → gpa + len < 2 ^ 64
    → (map_chunk space gpa len write).0 ≡ none
      ↔ ((translate space gpa ≡ none) ⊎ ((write ≡ true) × (is_writable space gpa ≡ false)))
unfolding map_chunk translate is_writable
map_chunk-none space gpa len write v pos small =
    elim (Option-cases (find_region space.regions gpa)) [
      | inl miss ↦ ((λ _. inl (ground arith)), λ _. ground arith)
      | inr (r, hit) ↦ ((λ e. inr (ground arith, ground arith)), λ c. ground arith)
    ]

-- One region holds the whole range, and may be written if writing is asked for.
abbrev pub Holds : MemRegion → ℕ → ℕ → Bool → Type 0
Holds r gpa len write =
    (r.gpa ≤ gpa) × (gpa + len ≤ r.gpa + r.size) × (write ≡ true → bit_and r.flags mem_readonly ≡ 0)

map_range-chunk :
    (space : MemSpace) (gpa len : ℕ) (write : Bool) {h : ℕ}
    → 0 < len
    → map_range space gpa len write ≡ some h
    → map_chunk space gpa len write ≡ (some h, len)
unfolding map_range
map_range-chunk space gpa len write pos e = ground arith

-- `mem_map_range` returns a pointer exactly when one region holds the whole range, writable if
-- writing is asked for; the pointer is the host address of the range's first byte.
pub map_range-exact :
    (space : MemSpace) (gpa len h : ℕ) (write : Bool)
    → IsValid space
    → 0 < len
    → gpa + len < 2 ^ 64
    → (map_range space gpa len write ≡ some h) ↔ (
        (r : MemRegion) × IsIn r space.regions
        × Holds r gpa len write
        × (h ≡ r.hva + (gpa - r.gpa)))
unfolding map_range
map_range-exact space gpa len h write v pos small = (
  λ e.
      let (r, hit, m, c, at, within, _, _, _, perm) =
        map_chunk-region space gpa len write v (omega arith)
          (map_range-chunk space gpa len write pos e) in
      (r, m, (c.0, within, perm), at),
  λ (r, m, holds, at).
      let fit = All-IsIn IsFit r space.regions v.fit m in
      let hit = find_region-hit space.regions gpa r v.apart (omega arith) m (omega arith) in
      ground (arith, hit, fit),
)
