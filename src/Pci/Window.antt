-- ===== src/Pci/Window.antt =====
-- Where `pci_register_bar_locked` puts a region that asks for no address: the loop over the window
-- of the bus.
pub mod Aligned
pub mod Passed
pub mod Lowest
use modvm.Prelude.{
  ℕ, zero, suc, ◌+◌, ◌-◌, ◌/◌, ◌*◌, ◌%◌, ◌^◌, ◌≤◌, ◌<◌, ◌≡◌, refl, ◌⊎◌, inl, inr, Bool, true, false,
  ◌&&◌, ◌||◌, List, [], ◌∷◌, Option, none, some, arith, All, All-IsIn, IsIn, ltb, ◌==◌,
  if◌then◌else◌, bit_and, Bool-cases, ap, sym, subst, ◌∙◌,
}
use modvm.Prelude.Errno.{Result, ok, err, enospc}
use modvm.Prelude.Words.{u64_max, add64}
use modvm.Prelude.Masks.{bit_and_down}
use modvm.Memory.{MemRegion}
use modvm.Memory.Regions
use modvm.Memory.Regions.{Apart}
use modvm.IoMap.{IoRegion}
use modvm.IoMap.Topology.{IsFit}

-- The end of a region in the way of one of `size` bytes at `base`, and else `n`.
abbrev pub past_one : ℕ → ℕ → ℕ → ℕ → ℕ → ℕ
past_one base size at len n =
    if ltb base (add64 at len) && ltb at (add64 base size) then add64 at len else n

abbrev pub past_higher : ℕ → ℕ → ℕ → ℕ → ℕ → ℕ
past_higher base size at len n =
    if ltb base (add64 at len) && (ltb at (add64 base size) && ltb n (add64 at len))
    then add64 at len
    else n

-- The end of the last region in the way.
unfoldable pub past_regions : ℕ → ℕ → List IoRegion → ℕ → ℕ
past_regions base size [] n = n
past_regions base size (reg ∷ rest) n =
    past_regions base size rest (past_one base size reg.base reg.size n)

-- Or that of RAM in the way, where it is higher.
unfoldable pub past_ram : ℕ → ℕ → List MemRegion → ℕ → ℕ
past_ram base size [] n = n
past_ram base size (ram ∷ rest) n =
    past_ram base size rest (past_higher base size ram.gpa ram.size n)

-- `(base + size - 1) & ~(uint64_t)(size - 1)`.
abbrev pub round_up : ℕ → ℕ → ℕ
round_up base size = bit_and (base + size - 1) (u64_max - (size - 1))

module _ (regions : List IoRegion) (ram : List MemRegion) (size limit : ℕ) where
  -- The loop: `none` is out of fuel.
  unfoldable pub find_base : ℕ → ℕ → Option (Result ℕ)
  unfolding past_regions past_ram
  find_base zero base = none
  find_base (suc fuel) base =
      let start = round_up base size in
      let past = past_ram start size ram (past_regions start size regions start) in
      let rest = find_base fuel past in
      if ltb (2 ^ 32 - 1 - (size - 1)) base
      then some (err enospc)
      else if ltb limit (add64 start size) || ltb (2 ^ 32) (add64 start size)
      then some (err enospc)
      else if past == start
      then some (ok start)
      else rest
