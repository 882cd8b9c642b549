-- ===== src/ResPool/Release/Owed.antt =====
-- The obligations of a pool as a list: what an acquisition does to it, and that none stands twice.
use modvm.Prelude.{
  ℕ, ◌≤◌, ◌≡◌, ◌≢◌, refl, sym, ap, ◌∙◌, Bool, false, ◌&&◌, ◌||◌, List, [], ◌∷◌, ◌++◌, Option, none,
  some, arith, Bool-cases, inl, inr, ◌==◌, if◌then◌else◌,
}
use mathlib.Core.List.{append-nil}
use modvm.ResPool.{ResPool, ResNode, is_action, find_action, has_action, add_action}
use modvm.ResPool.Find.{count, has_action-count_pos}
use modvm.ResPool.Ownership.{IsValid}
use modvm.ResPool.Release.{
  obligation, obligations, obligation_none, obligation_some, obligations-append_last,
}

abbrev pub is_owed : ℕ → ℕ → List (ℕ × ℕ) → Bool
is_owed fn arg [] = false
is_owed fn arg ((f, a) ∷ os) = (f == fn && a == arg) || is_owed fn arg os

-- No obligation stands twice.
abbrev pub Once : List (ℕ × ℕ) → Type 0
Once [] = Unit
Once ((f, a) ∷ os) = (is_owed f a os ≡ false) × Once os

-- An acquisition puts the obligation first, unless it is owed or there is no memory for it.
abbrev pub after_add : ℕ → ℕ → Option ℕ → List (ℕ × ℕ) → List (ℕ × ℕ)
after_add fn arg none os = os
after_add fn arg (some a) os = if is_owed fn arg os then os else (fn, arg) ∷ os

is_owed-append_last :
    (fn arg : ℕ) (os : List (ℕ × ℕ)) (f a : ℕ)
    → is_owed fn arg (os ++ (f, a) ∷ []) ≡ is_owed fn arg os || (f == fn && a == arg)
is_owed-append_last fn arg [] f a = ground arith
is_owed-append_last fn arg ((g, b) ∷ os) f a = ground (arith, is_owed-append_last fn arg os f a)

-- The node is that of an obligation or one of memory only.
owed_cons :
    (fn arg : ℕ) (n : ResNode) (os : List (ℕ × ℕ))
    → (fn == 0) ≡ false
    → is_owed fn arg (os ++ obligation n) ≡ is_owed fn arg os || is_action fn arg n
owed_cons fn arg n os z = elim (Bool-cases (n.action == 0)) [
  | inl e ↦
      let other : is_action fn arg n ≡ false = ground arith in
      let same : obligation n ≡ [] = obligation_none n e in
      ap (λ o. is_owed fn arg (os ++ o)) same ∙ rw (append-nil, other) (ground arith)
  | inr e ↦
      ap (λ o. is_owed fn arg (os ++ o)) (obligation_some n e)
      ∙ is_owed-append_last fn arg os n.action n.action_data
]

has_action_cons :
    (fn arg : ℕ) (n : ResNode) (ns : List ResNode)
    → has_action fn arg (n ∷ ns) ≡ has_action fn arg ns || is_action fn arg n
unfolding find_action
has_action_cons fn arg n ns = ground arith

has_action-is_owed :
    (fn arg : ℕ) (ns : List ResNode)
    → (fn == 0) ≡ false
    → has_action fn arg ns ≡ is_owed fn arg (obligations ns)
unfolding find_action obligations
has_action-is_owed fn arg [] z = refl
has_action-is_owed fn arg (n ∷ ns) z =
    has_action_cons fn arg n ns
    ∙ ap (λ b. b || is_action fn arg n) (has_action-is_owed fn arg ns z)
    ∙ sym (owed_cons fn arg n (obligations ns) z)

pub obligations-add_action :
    (p : ResPool) (fn arg : ℕ) (calloc : Option ℕ)
    → (fn == 0) ≡ false
    → p.releasing ≡ false
    → obligations (add_action p fn arg calloc).0.resources
      ≡ after_add fn arg calloc (obligations p.resources)
unfolding add_action
obligations-add_action p fn arg none z idle = ground arith
obligations-add_action p fn arg (some a) z idle =
    let same = has_action-is_owed fn arg p.resources z in
    elim (Bool-cases (has_action fn arg p.resources)) [
      | inl e ↦ rw (z, idle, e, sym same ∙ e) refl
      | inr e ↦
          rw (z, idle, e, sym same ∙ e)
            (obligations-append_last p.resources _
              ∙ ap (λ o. o ++ obligations p.resources)
                  (obligation_some
                    (record { addr = a; pool = p.self; action = fn; action_data = arg }) z))
    ]

Once-append_last :
    (os : List (ℕ × ℕ)) (f a : ℕ) → is_owed f a os ≡ false → Once os → Once (os ++ (f, a) ∷ [])
Once-append_last [] f a e h = (refl, tt)
Once-append_last ((g, b) ∷ os) f a e (apart, h) =
    (is_owed-append_last g b os f a ∙ ground arith, Once-append_last os f a (ground arith) h)

fresh : (fn arg : ℕ) (ns : List ResNode) → count fn arg ns ≤ 0 → has_action fn arg ns ≡ false
fresh fn arg ns le = elim (Bool-cases (has_action fn arg ns)) [
  | inl e ↦ absurd (omega (arith, has_action-count_pos fn arg ns e))
  | inr e ↦ e
]

count_self :
    (n : ResNode) (ns : List ResNode)
    → count n.action n.action_data (n ∷ ns) ≤ 1
    → count n.action n.action_data ns ≤ 0
unfolding count
count_self n ns le = ground arith

count_rest :
    (fn arg : ℕ) (n : ResNode) (ns : List ResNode) → count fn arg (n ∷ ns) ≤ 1 → count fn arg ns ≤ 1
unfolding count
count_rest fn arg n ns le = omega arith

obligations-Once :
    (ns : List ResNode) → ((fn arg : ℕ) → fn ≢ 0 → count fn arg ns ≤ 1) → Once (obligations ns)
unfolding obligations
obligations-Once [] h = tt
obligations-Once (n ∷ ns) h =
    let others = obligations-Once ns (λ fn arg z. count_rest fn arg n ns (h fn arg z)) in
    elim (Bool-cases (n.action == 0)) [
      | inl e ↦ rw (obligation_none n e, append-nil) others
      | inr e ↦
          let none_before =
            fresh n.action n.action_data ns
              (count_self n ns (h n.action n.action_data (λ z. absurd (ground arith)))) in
          rw (obligation_some n e) (
            Once-append_last (obligations ns) n.action n.action_data
              (sym (has_action-is_owed n.action n.action_data ns e) ∙ none_before) others)
    ]

pub IsValid-Once : (p : ResPool) → IsValid p → Once (obligations p.resources)
IsValid-Once p v = obligations-Once p.resources v.once
