-- ===== src/Device/Subtree.antt =====
-- The list of devices without those that descend from a device, by one pass, for lists in which
-- each device stands behind its parent.
pub mod Prune
pub mod Search
use mathlib.Core.Path.{fun_ext}
use modvm.Prelude.{
  ℕ, zero, suc, ◌+◌, ◌≤◌, ◌<◌, ◌≡◌, refl, ap, sym, subst, ◌∙◌, ◌≢◌, ◌⊎◌, inl, inr, Bool, true,
  false, ◌||◌, List, [], ◌∷◌, ◌++◌, Option, none, some, arith, length, IsIn, Bool-cases,
  Option-cases, ◌==◌, ==_iff, if◌then◌else◌,
}
use modvm.Device.{Device, Machine, alloc, has_parent, find_child, del_device, get_device}

-- Sets of addresses.
abbrev pub only : ℕ → ℕ → Bool
only a j = j == a

abbrev pub mark : ℕ → (ℕ → Bool) → ℕ → Bool
mark a s j = j == a || s j

abbrev pub union : (ℕ → Bool) → (ℕ → Bool) → ℕ → Bool
union s t j = s j || t j

-- Whether the parent is in a set.
abbrev pub falls : (ℕ → Bool) → Device → Bool
falls s d = elim d.parent [ none ↦ false | some q ↦ s q ]

unfoldable pub keep : (ℕ → Bool) → List Device → List Device
keep s [] = []
keep s (d ∷ ds) = elim (falls s d) [ true ↦ keep (mark d.addr s) ds | false ↦ d ∷ keep s ds ]

-- The list without a device and its descendants.
unfoldable pub without : ℕ → List Device → List Device
unfolding keep
without c [] = []
without c (d ∷ ds) = elim (d.addr == c) [ true ↦ keep (only c) ds | false ↦ d ∷ without c ds ]

-- No two devices have one address, and a device stands behind its parent: `seen` stands before.
abbrev pub IsTree : List ℕ → List Device → Type 0
IsTree seen [] = Unit
IsTree seen (d ∷ ds) =
    ¬ IsIn d.addr seen × ((q : ℕ) → d.parent ≡ some q → IsIn q seen) × IsTree (d.addr ∷ seen) ds

pub keep_gone :
    (s : ℕ → Bool) (d : Device) (ds : List Device)
    → falls s d ≡ true
    → keep s (d ∷ ds) ≡ keep (mark d.addr s) ds
unfolding keep
keep_gone s d ds e = rw (e, keep) refl

pub keep_stays :
    (s : ℕ → Bool) (d : Device) (ds : List Device)
    → falls s d ≡ false
    → keep s (d ∷ ds) ≡ d ∷ keep s ds
unfolding keep
keep_stays s d ds e = rw (e, keep) refl

pub without_here :
    (c : ℕ) (d : Device) (ds : List Device)
    → (d.addr == c) ≡ true
    → without c (d ∷ ds) ≡ keep (only c) ds
unfolding without
without_here c d ds e = rw (e, without) refl

pub without_past :
    (c : ℕ) (d : Device) (ds : List Device)
    → (d.addr == c) ≡ false
    → without c (d ∷ ds) ≡ d ∷ without c ds
unfolding without
without_past c d ds e = rw (e, without) refl

falls-union : (s t : ℕ → Bool) (d : Device) → falls (union s t) d ≡ falls s d || falls t d
falls-union s t d = elim (Option-cases d.parent) [ inl e ↦ rw e refl | inr (q, e) ↦ rw e refl ]

mark_left : (a : ℕ) (s t : ℕ → Bool) → union (mark a s) t ≡ mark a (union s t)
mark_left a s t = fun_ext λ j. ground arith

mark_right : (a : ℕ) (s t : ℕ → Bool) → union s (mark a t) ≡ mark a (union s t)
mark_right a s t = fun_ext λ j. ground arith

either_true : (a b : Bool) → a ≡ true → a || b ≡ true
either_true true b e = refl
either_true false b e = absurd (ground arith)

right_true : (a b : Bool) → b ≡ true → a || b ≡ true
right_true true b e = refl
right_true false b e = e

both_false : (a b : Bool) → a ≡ false → b ≡ false → a || b ≡ false
both_false a b e f = ground arith

-- Two passes are one.
pub keep-keep : (s t : ℕ → Bool) (ds : List Device) → keep s (keep t ds) ≡ keep (union s t) ds
unfolding keep
keep-keep s t [] = refl
keep-keep s t (d ∷ ds) = elim (Bool-cases (falls t d)) [
  | inl e ↦
      ap (keep s) (keep_gone t d ds e)
      ∙ keep-keep s (mark d.addr t) ds
      ∙ ap (λ u. keep u ds) (mark_right d.addr s t)
      ∙ sym (keep_gone (union s t) d ds (falls-union s t d ∙ right_true (falls s d) (falls t d) e))
  | inr e ↦ ap (keep s) (keep_stays t d ds e) ∙ elim (Bool-cases (falls s d)) [
    | inl f ↦
        keep_gone s d (keep t ds) f
        ∙ keep-keep (mark d.addr s) t ds
        ∙ ap (λ u. keep u ds) (mark_left d.addr s t)
        ∙ sym
            (keep_gone (union s t) d ds (falls-union s t d ∙ either_true (falls s d) (falls t d) f))
    | inr f ↦
        keep_stays s d (keep t ds) f
        ∙ ap (λ u. d ∷ u) (keep-keep s t ds)
        ∙ sym (
            keep_stays (union s t) d ds
              (falls-union s t d ∙ both_false (falls s d) (falls t d) f e))
  ]
]

pub length-keep : (s : ℕ → Bool) (ds : List Device) → length (keep s ds) ≤ length ds
unfolding keep
length-keep s [] = omega arith
length-keep s (d ∷ ds) = ground (arith, length-keep s ds, length-keep (mark d.addr s) ds)

-- A search that fails, and one that finds the first device or one behind it.
pub find_child_cases :
    (a : ℕ) (d : Device) (ds : List Device) (o : Option Device)
    → find_child a (d ∷ ds) ≡ o
    → ((has_parent a d ≡ true) × (o ≡ some d)) ⊎ ((has_parent a d ≡ false) × (find_child a ds ≡ o))
unfolding find_child
find_child_cases a d ds o e = elim (Bool-cases (has_parent a d)) [
  | inl h ↦ inl (h, sym (rw (h, find_child) at e))
  | inr h ↦ inr (h, rw (h, find_child) at e)
]

pub keep-only_none : (a : ℕ) (ds : List Device) → find_child a ds ≡ none → keep (only a) ds ≡ ds
unfolding keep
keep-only_none a [] e = refl
keep-only_none a (d ∷ ds) e = elim (find_child_cases a d ds none e) [
  | inl (h, k) ↦ absurd (cc)
  | inr (h, k) ↦ keep_stays (only a) d ds h ∙ ap (λ u. d ∷ u) (keep-only_none a ds k)
]

-- Behind `seen`, no device has an address of it.
pub find_child_unseen :
    (seen : List ℕ) (a : ℕ) (ds : List Device) (c : Device)
    → IsTree seen ds
    → find_child a ds ≡ some c
    → ¬ IsIn c.addr seen
unfolding find_child
find_child_unseen seen a [] c t e = absurd (cc)
find_child_unseen seen a (d ∷ ds) c t e = elim (find_child_cases a d ds (some c) e) [
  | inl (h, k) ↦ λ m. t.0 (subst (λ (x : Device). IsIn x.addr seen) (some_inj k) m)
  | inr (h, k) ↦ λ m. find_child_unseen (d.addr ∷ seen) a ds c t.2 k (inr m)
]
  where
    some_inj : {x y : Device} → some x ≡ some y → x ≡ y
    some_inj e = cc

-- A new device stands last, at an address of its own.
pub append-IsTree :
    (d : Device) (seen : List ℕ) (ds : List Device)
    → d.parent ≡ none
    → get_device d.addr ds ≡ none
    → ¬ IsIn d.addr seen
    → IsTree seen ds
    → IsTree seen (ds ++ d ∷ [])
unfolding get_device
append-IsTree d seen [] p e n t = (n, λ q h. (cc), tt)
append-IsTree d seen (x ∷ ds) p e n t = elim (Bool-cases (x.addr == d.addr)) [
  | inl h ↦ let clash = rw (h, get_device) at e in (cc)
  | inr h ↦ (
    t.0,
    t.1,
    append-IsTree d (x.addr ∷ seen) ds p (rw (h, get_device) at e) (apart d x seen h n) t.2,
  )
]
  where
    apart :
        (d x : Device) (seen : List ℕ)
        → (x.addr == d.addr) ≡ false
        → ¬ IsIn d.addr seen
        → ¬ IsIn d.addr (x.addr ∷ seen)
    apart d x seen h n (inl e) = absurd (ground (arith, ==_iff x.addr d.addr))
    apart d x seen h n (inr m) = n m

pub alloc-IsTree :
    {W : Type 0} (m : Machine W) (class addr : Option ℕ)
    → ((a : ℕ) → addr ≡ some a → get_device a m.devices ≡ none)
    → IsTree [] m.devices
    → IsTree [] (alloc class addr m).0.devices
unfolding alloc
alloc-IsTree m class none new t = t
alloc-IsTree m class (some a) new t = append-IsTree _ [] m.devices refl (new a refl) (λ x. x) t
