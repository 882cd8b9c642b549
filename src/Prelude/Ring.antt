-- ===== src/Prelude/Ring.antt =====
-- A byte ring: an array of `cap` bytes with an index of the oldest byte and a count, as the UART
-- uses three of. `held` reads the bytes of a ring off its array, oldest first.
use Prim.Native.Nat.{ℕ, zero, suc, ◌+◌, ◌-◌, ◌%◌, ◌<◌}
use mathlib.Core.Path.{◌≡◌, refl, ap, ap₂, sym, ◌∙◌}
use mathlib.Core.Logic.{◌≢◌}
use mathlib.Core.List.{List, [], ◌∷◌, ◌++◌}
use native.Mathlib.Omega.{arith}
use native.Mathlib.Nat.{mod-lt, mod-add-mod, mod-mod, mod-eq_of_lt, mod-eq-sub-mod, suc-mod}
use native.Mathlib.Decide.{dec_lt}
use modvm.Prelude.Lists.{length, get_or, set, get_or-set_self, get_or-set_ne}

module _ (cap : ℕ) where
  -- `n` bytes from index `start` on; the index is reduced at each read.
  unfoldable pub held : List ℕ → ℕ → ℕ → List ℕ
  held buf start zero = []
  held buf start (suc n) = get_or buf (start % cap) 0 ∷ held buf (suc start) n

  pub length-held : (buf : List ℕ) (start n : ℕ) → length (held buf start n) ≡ n
  unfolding held
  length-held buf start zero = refl
  length-held buf start (suc n) = ap suc (length-held buf (suc start) n)

  -- Two indices less than `cap` apart are different places.
  slots_ne : (a d : ℕ) → 0 < d → d < cap → a % cap ≢ (a + d) % cap
  slots_ne a d pos lt e = elim (dec_lt (a % cap + d) cap) [
    | yes below ↦ omega (arith, mod-add-mod a cap d, mod-eq_of_lt below)
    | no past ↦ omega (
      arith,
      mod-lt a {m = cap} (omega arith),
      mod-add-mod a cap d,
      mod-eq-sub-mod {n = a % cap + d} {m = cap} (omega arith),
      mod-eq_of_lt {n = a % cap + d - cap} {m = cap}
          (omega (arith, mod-lt a {m = cap} (omega arith))),
    )
  ]

  pub held-mod : (buf : List ℕ) (start n : ℕ) → held buf (start % cap) n ≡ held buf start n
  unfolding held
  held-mod buf start zero = refl
  held-mod buf start (suc n) = ap₂ ◌∷◌ (ap (λ i. get_or buf i 0) (mod-mod start cap)) (
      sym (held-mod buf (suc (start % cap)) n)
      ∙ ap (λ i. held buf i n) (sym (suc-mod start cap))
      ∙ held-mod buf (suc start) n)

  -- A write at the place behind the bytes of a ring that is not full appends one byte.
  pub held-push :
      (buf : List ℕ) (start n v : ℕ)
      → length buf ≡ cap
      → n < cap
      → held (set buf ((start + n) % cap) v) start (suc n) ≡ held buf start n ++ v ∷ []
  unfolding held
  held-push buf start zero v l h =
      let e : start + 0 ≡ start = omega arith in
      ap (λ b. b ∷ [])
        (ap (λ i. get_or (set buf (i % cap) v) (start % cap) 0) e
          ∙ get_or-set_self buf (start % cap) v 0 (omega (arith, mod-lt start {m = cap} h)))
  held-push buf start (suc n) v l h =
      let e : start + suc n ≡ suc start + n = omega arith in
      ap₂ ◌∷◌ (get_or-set_ne buf v 0 (λ k. slots_ne start (suc n) (omega arith) h (sym k))) (
        ap (λ i. held (set buf (i % cap) v) (suc start) (suc n)) e
        ∙ held-push buf (suc start) n v l (omega arith))

  -- The oldest byte of a ring that is not empty, and the rest.
  pub held-pop :
      (buf : List ℕ) (start n : ℕ)
      → start < cap
      → 0 < n
      → held buf start n ≡ get_or buf start 0 ∷ held buf ((start + 1) % cap) (n - 1)
  unfolding held
  held-pop buf start zero h pos = absurd (omega arith)
  held-pop buf start (suc n) h pos = ap₂ ◌∷◌ (ap (λ i. get_or buf i 0) (mod-eq_of_lt h)) (
      ap (λ i. held buf i n) (omega arith)
      ∙ sym (held-mod buf (start + 1) n)
      ∙ ap (held buf ((start + 1) % cap)) (omega arith))
