-- ===== src/Pci/Window/Lowest.antt =====
-- The loop over the window ends, with the lowest place that is free or with none.
use modvm.Prelude.{
  if_cases, ℕ, zero, suc, ◌+◌, ◌-◌, ◌/◌, ◌%◌, ◌^◌, ◌≤◌, ◌<◌, ◌≡◌, refl, ◌⊎◌, inl, inr, true, false,
  ◌||◌, List, Option, some, arith, All, ltb, ◌==◌, sym, subst,
}
use modvm.Prelude.Errno.{Result, ok, err, enospc}
use modvm.Prelude.Words.{add64}
use native.Mathlib.Nat.{div-mul-le_self, mul-mod_left, pow-le-pow_right}
use modvm.Memory.{MemRegion}
use modvm.Memory.Regions
use modvm.IoMap.{IoRegion}
use modvm.IoMap.Topology.{IsFit}
use modvm.Pci.Window.{past_regions, past_ram, round_up, find_base}
use modvm.Pci.Window.Aligned.{up_ge, up_le, round_up-power}
use modvm.Pci.Window.Passed.{Free, Skips, past-Skips}

module _ (regions : List IoRegion) (ram : List MemRegion) (size limit : ℕ) where
  -- A place for the region: aligned, within the window and below 4 GiB.
  abbrev pub Fits : ℕ → Type 0
  Fits base = (base % size ≡ 0) × (base + size ≤ limit) × (base + size ≤ 2 ^ 32)

  -- The lowest place from a base on that is free, or that there is none.
  abbrev pub IsLowest : ℕ → Option (Result ℕ) → Type 0
  IsLowest base o =
      ((b : ℕ) × (o ≡ some (ok b))
        × (base ≤ b)
        × Fits b
        × Free regions ram size limit b
        × ((c : ℕ) → base ≤ c → c < b → Fits c → ¬ Free regions ram size limit c))
      ⊎ ((o ≡ some (err enospc)) × ((c : ℕ) → base ≤ c → Fits c → ¬ Free regions ram size limit c))

  module _ (k : ℕ) (power : size ≡ 2 ^ k) (le : k ≤ 31) (fit : All IsFit regions)
      (ram_fit : All Regions.IsFit ram) where
    split_at : (n c : ℕ) → (c < n) ⊎ (n ≤ c)
    split_at n c = ground arith

    bounds : (0 < size) × (size ≤ 2 ^ 31)
    bounds =
        let upper : 2 ^ k ≤ 2 ^ 31 = pow-le-pow_right {n = 2} (omega arith) le in
        let lower : 2 ^ 0 ≤ 2 ^ k =
          pow-le-pow_right {n = 2} (omega arith) {i = 0} {j = k} (omega arith) in
        (omega (arith, power, lower), omega (arith, power, upper))

    -- What the rounding does to a base in range.
    rounded :
        (base : ℕ)
        → base ≤ 2 ^ 32
        → let start = round_up base size in
          (base ≤ start)
          × (start < base + size)
          × (start % size ≡ 0)
          × ((c : ℕ) → base ≤ c → c % size ≡ 0 → start ≤ c)
    rounded base small =
        let e = round_up-power base size k power (omega arith) small in
        subst
          (λ s.
            (base ≤ s)
            × (s < base + size)
            × (s % size ≡ 0)
            × ((c : ℕ) → base ≤ c → c % size ≡ 0 → s ≤ c))
          (sym e)
          (
            up_ge base size bounds.0,
            omega (arith, bounds.0, div-mul-le_self (base + size - 1) size),
            mul-mod_left ((base + size - 1) / size) size,
            λ c from aligned. up_le base size c bounds.0 from aligned,
          )

    past_end :
        (start c : ℕ)
        → start + size < 2 ^ 64
        → Fits c
        → ltb limit (add64 start size) || ltb (2 ^ 32) (add64 start size) ≡ true
        → start ≤ c
        → ⊥
    past_end start c small fits over le = ground (arith, fits.1, fits.2)

    within_end :
        (start : ℕ)
        → start + size < 2 ^ 64
        → ltb limit (add64 start size) || ltb (2 ^ 32) (add64 start size) ≡ false
        → (start + size ≤ limit) × (start + size ≤ 2 ^ 32)
    within_end start small inside = ground arith

    not_high : (base : ℕ) → base ≤ 2 ^ 32 - size → ltb (2 ^ 32 - 1 - (size - 1)) base ≡ true → ⊥
    not_high base small high = ground (arith, bounds)

    not_low : (base : ℕ) → 2 ^ 32 - size < base → ltb (2 ^ 32 - 1 - (size - 1)) base ≡ false → ⊥
    not_low base high low = ground (arith, bounds)

    not_same : (past start : ℕ) → start < past → past == start ≡ true → ⊥
    not_same past start lt same = ground arith

    not_other : (past start : ℕ) → past ≡ start → past == start ≡ false → ⊥
    not_other past start e other = ground arith

    -- No place from a base on, since the next multiple of the size is past the end.
    full-IsLowest :
        (base : ℕ)
        → base ≤ 2 ^ 32 - size
        → let start = round_up base size in
          ltb limit (add64 start size) || ltb (2 ^ 32) (add64 start size) ≡ true
          → IsLowest base (some (err enospc))
    full-IsLowest base small over =
        let (ge, near, aligned, least) = rounded base (omega arith) in
        inr (
          refl,
          λ c from fits free. absurd (
              past_end (round_up base size) c (omega (arith, near, bounds.1)) fits over
                (least c from fits.0)),
        )

    found-IsLowest :
        (base : ℕ)
        → base ≤ 2 ^ 32 - size
        → let start = round_up base size in
          ltb limit (add64 start size) || ltb (2 ^ 32) (add64 start size) ≡ false
          → Free regions ram size limit start
          → IsLowest base (some (ok start))
    found-IsLowest base small inside free =
        let (ge, near, aligned, least) = rounded base (omega arith) in
        let fits = within_end (round_up base size) (omega (arith, near, bounds.1)) inside in
        inl (
          round_up base size,
          refl,
          ge,
          (aligned, fits.0, fits.1),
          free,
          λ c from lt own blocked. let l = least c from own.0 in absurd (omega (arith, l)),
        )

    -- Nothing is lost by moving on past what is in the way.
    skipped-IsLowest :
        (base past : ℕ) (o : Option (Result ℕ))
        → base ≤ 2 ^ 32 - size
        → Skips regions ram size limit (round_up base size) past
        → IsLowest past o
        → IsLowest base o
    skipped-IsLowest base past o small skips rest =
        let (ge, near, aligned, least) = rounded base (omega arith) in
        let before : (c : ℕ) → base ≤ c → c < past → Fits c → ¬ Free regions ram size limit c =
          λ c from lt fits. skips.1 c (least c from fits.0) lt in
        elim rest [
          | inl (b, e, from, fits, free, none_below) ↦ inl (
            b,
            e,
            omega (arith, ge, skips.0, from),
            fits,
            free,
            λ c lo hi own. elim (split_at past c) [
              | inl lt ↦ before c lo lt own
              | inr beyond ↦ none_below c beyond hi own
            ],
          )
          | inr (e, none_above) ↦ inr (
            e,
            λ c lo own. elim (split_at past c) [
              | inl lt ↦ before c lo lt own
              | inr beyond ↦ none_above c beyond own
            ],
          )
        ]

    -- One round.
    round-IsLowest :
        (fuel base : ℕ)
        → base ≤ 2 ^ 32 - size
        → (let start = round_up base size in
            let past = past_ram start size ram (past_regions start size regions start) in
            base < past → IsLowest past (find_base regions ram size limit fuel past))
        → IsLowest base (find_base regions ram size limit (suc fuel) base)
    unfolding find_base
    round-IsLowest fuel base small rest =
        let start = round_up base size in
        let past = past_ram start size ram (past_regions start size regions start) in
        let (ge, near, aligned, least) = rounded base (omega arith) in
        let skips =
          past-Skips regions ram size limit start (omega (arith, near, bounds.1)) bounds.0 fit
            ram_fit in
        if_cases (IsLowest base) (ltb (2 ^ 32 - 1 - (size - 1)) base) _ _
          (λ high. absurd (not_high base small high))
          (λ low.
            if_cases (IsLowest base)
              (ltb limit (add64 start size) || ltb (2 ^ 32) (add64 start size)) _ _
              (full-IsLowest base small)
              (λ inside.
                if_cases (IsLowest base) (past == start) _ _
                  (λ same. found-IsLowest base small inside (elim skips [
                    | inl (e, free) ↦ free
                    | inr (lt, blocked) ↦ absurd (not_same past start lt same)
                  ]))
                  (λ other. elim skips [
                    | inl (e, free) ↦ absurd (not_other past start e other)
                    | inr skip ↦
                        skipped-IsLowest base past _ small skip (rest (omega (arith, ge, skip.0)))
                  ])))

    high-IsLowest :
        (fuel base : ℕ)
        → 2 ^ 32 - size < base
        → IsLowest base (find_base regions ram size limit (suc fuel) base)
    unfolding find_base
    high-IsLowest fuel base high =
        if_cases (IsLowest base) (ltb (2 ^ 32 - 1 - (size - 1)) base) _ _
          (λ t. inr (refl, λ c from fits free. absurd (omega (arith, fits.2))))
          (λ low. absurd (not_low base high low))

    -- The loop over the window of a bus ends within as many rounds as there are addresses below
    -- 4 GiB. It returns the lowest base from the start of the window on that is a multiple of the
    -- size, a power of two up to 2 GiB, that fits the window, and that has no region and no RAM in
    -- the way; and it returns ENOSPC if there is none.
    pub find_base-IsLowest :
        (fuel base : ℕ)
        → 2 ^ 32 ≤ base + fuel
        → IsLowest base (find_base regions ram size limit (suc fuel) base)
    find_base-IsLowest zero base enough = high-IsLowest zero base (omega (arith, bounds))
    find_base-IsLowest (suc fuel) base enough = elim (split_at (2 ^ 32 - size + 1) base) [
      | inr high ↦ high-IsLowest (suc fuel) base (omega arith)
      | inl low ↦
          round-IsLowest (suc fuel) base (omega arith)
            (λ more. find_base-IsLowest fuel _ (omega arith))
    ]
