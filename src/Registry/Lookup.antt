-- ===== src/Registry/Lookup.antt =====
-- What a registration adds to a registry, and when it is refused.
use Prim.Native.String.{String}
use text.Mathlib.Text.{◌==◌ as str_eq}
use text.Mathlib.TextEquality.{eq_iff}
use modvm.Prelude.{
  ◌≤◌, ◌<◌, ◌≡◌, refl, sym, ◌∙◌, ◌≢◌, ◌⊎◌, inl, inr, Bool, true, false, ◌||◌, not, List, [], ◌∷◌,
  ◌++◌, none, some, arith, length, length-append, Bool-cases, Option-cases, ◌==◌,
}
use modvm.Registry.{Registry, find, register, is_taken}

module _ {D : Type 0} (R : Registry D) where
  -- The new description is found by its name, where no other has that name.
  find-append_self :
      (d : D) (ds : List D)
      → find R (R.name d) ds ≡ none
      → find R (R.name d) (ds ++ d ∷ []) ≡ some d
  unfolding find
  find-append_self d [] e = ground (arith, eq_iff (R.name d) (R.name d))
  find-append_self d (x ∷ ds) e = elim (Bool-cases (str_eq (R.name x) (R.name d))) [
    | inl h ↦ let clash = rw (h, find) at e in (cc)
    | inr h ↦ rw (h, find) (find-append_self d ds (rw (h, find) at e))
  ]

  find-append_other :
      (n : String) (d : D) (ds : List D) → R.name d ≢ n → find R n (ds ++ d ∷ []) ≡ find R n ds
  unfolding find
  find-append_other n d [] ne = ground (arith, eq_iff (R.name d) n)
  find-append_other n d (x ∷ ds) ne = elim (Bool-cases (str_eq (R.name x) n)) [
    | inl h ↦ rw (h, find) refl
    | inr h ↦ rw (h, find) (find-append_other n d ds ne)
  ]

  -- On a registry within its capacity, a registration is accepted exactly when the description has
  -- a name and the functions it must have, the name is free and the array has room. Then the name
  -- finds that description, every other name finds what it found before, and the array is not overrun.
  pub register-find :
      (ds : List D) (d : D)
      → length ds ≤ R.capacity
      → ((ds' : List D) × (register R ds d ≡ some ds')
          × (R.name d ≢ "")
          × (R.is_complete d ≡ true)
          × (length ds < R.capacity)
          × (find R (R.name d) ds ≡ none)
          × (find R (R.name d) ds' ≡ some d)
          × ((n : String) → R.name d ≢ n → find R n ds' ≡ find R n ds)
          × (length ds' ≤ R.capacity))
        ⊎ (register R ds d ≡ none)
          × ((R.name d ≡ "")
              ⊎ ((R.is_complete d ≡ false)
                  ⊎ ((find R (R.name d) ds ≢ none) ⊎ (length ds ≡ R.capacity))))
  unfolding register
  register-find ds d room = elim (Bool-cases (str_eq (R.name d) "" || not (R.is_complete d))) [
    | inl h ↦ inr (rw (h, register) refl, no_name d h)
    | inr h ↦ elim (Option-cases (find R (R.name d) ds)) [
      | inr (x, e) ↦
          let taken : is_taken R (R.name d) ds ≡ true = rw (e, is_taken) refl in
          inr (
            rw (h, register) (rw (taken, register) refl),
            inr (inr (inl (λ k. let clash = sym k ∙ e in (cc)))),
          )
      | inl e ↦
          let free_name : is_taken R (R.name d) ds ≡ false = rw (e, is_taken) refl in
          elim (Bool-cases (length ds == R.capacity)) [
            | inl full ↦ inr (
              rw (h, register) (rw (free_name, register) (rw (full, register) refl)),
              inr (inr (inr (ground arith))),
            )
            | inr free ↦ inl (
              ds ++ d ∷ [],
              rw (h, register) (rw (free_name, register) (rw (free, register) refl)),
              (named d h).0,
              (named d h).1,
              ground arith,
              e,
              find-append_self d ds e,
              λ n ne. find-append_other n d ds ne,
              ground (arith, length-append ds (d ∷ [])),
            )
          ]
    ]
  ]
    where
      incomplete : (b : Bool) → false || not b ≡ true → b ≡ false
      incomplete b h = ground arith

      no_name :
          (d : D)
          → str_eq (R.name d) "" || not (R.is_complete d) ≡ true
          → {X : Type 0} → (R.name d ≡ "") ⊎ ((R.is_complete d ≡ false) ⊎ X)
      no_name d h = elim (Bool-cases (str_eq (R.name d) "")) [
        | inl e ↦ inl ((eq_iff (R.name d) "").0 e)
        | inr e ↦ inr (inl (incomplete _ (rw e at h)))
      ]

      complete : (n b : Bool) → n || not b ≡ false → (n ≡ false) × (b ≡ true)
      complete n b h = ground arith

      named :
          (d : D)
          → str_eq (R.name d) "" || not (R.is_complete d) ≡ false
          → (R.name d ≢ "") × (R.is_complete d ≡ true)
      named d h =
          let (n, c) = complete (str_eq (R.name d) "") (R.is_complete d) h in
          (λ e. let clash = sym ((eq_iff (R.name d) "").1 e) ∙ n in (cc), c)
