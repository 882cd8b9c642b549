-- ===== src/ResPool/Release.antt =====
-- What a pool owes, and what of it is left when nodes are taken away: for `res_release_all` of
-- res_pool.c.
pub mod Loop
pub mod Owed
pub mod Teardown
use modvm.Prelude.{
  ◌⊎◌, subst, ℕ, zero, suc, ◌≤◌, ◌≡◌, refl, ◌≢◌, true, false, List, [], ◌∷◌, ◌++◌, Option, none,
  some, arith, ◌==◌, if◌then◌else◌, All, Bool-cases, inl, inr, length, length-append, ap, ◌∙◌, sym,
}
use mathlib.Core.List.{Sublistᴰ, append-nil, append_assoc}
use modvm.ResPool.{
  init, is_action, ResNode, ResPool, Call, zallocs, adds, cancels, transfers_in, transfers_out,
  releases, zalloc, del_action, add_action, transfer_action, call, calls, split_last, call_action,
  release_loop,
}
use modvm.ResPool.Ownership.{cancel_action_cases}

module _ {ℓ} {A : Type ℓ} where
  Sublist-refl : (xs : List A) → Sublistᴰ xs xs
  Sublist-refl [] = Sublistᴰ.slnil
  Sublist-refl (x ∷ xs) = Sublistᴰ.cons-cons refl (Sublist-refl xs)

  Sublist-trans : {ys zs xs : List A} → Sublistᴰ ys zs → Sublistᴰ xs ys → Sublistᴰ xs zs
  Sublist-trans Sublistᴰ.slnil s = s
  Sublist-trans (Sublistᴰ.cons t) s = Sublistᴰ.cons (Sublist-trans t s)
  Sublist-trans (Sublistᴰ.cons-cons e t) (Sublistᴰ.cons s) = Sublistᴰ.cons (Sublist-trans t s)
  Sublist-trans (Sublistᴰ.cons-cons e t) (Sublistᴰ.cons-cons d s) =
      Sublistᴰ.cons-cons (d ∙ e) (Sublist-trans t s)

  nil-Sublist : (xs : List A) → Sublistᴰ [] xs
  nil-Sublist [] = Sublistᴰ.slnil
  nil-Sublist (x ∷ xs) = Sublistᴰ.cons (nil-Sublist xs)

  Sublist-append :
      {xs ys us vs : List A} → Sublistᴰ xs ys → Sublistᴰ us vs → Sublistᴰ (xs ++ us) (ys ++ vs)
  Sublist-append Sublistᴰ.slnil t = t
  Sublist-append (Sublistᴰ.cons s) t = Sublistᴰ.cons (Sublist-append s t)
  Sublist-append (Sublistᴰ.cons-cons e s) t = Sublistᴰ.cons-cons e (Sublist-append s t)

  Sublist-append_right : {xs ys : List A} → Sublistᴰ xs ys → (zs : List A) → Sublistᴰ xs (ys ++ zs)
  Sublist-append_right Sublistᴰ.slnil zs = nil-Sublist zs
  Sublist-append_right (Sublistᴰ.cons s) zs = Sublistᴰ.cons (Sublist-append_right s zs)
  Sublist-append_right (Sublistᴰ.cons-cons e s) zs =
      Sublistᴰ.cons-cons e (Sublist-append_right s zs)

  length-Sublist : {xs ys : List A} → Sublistᴰ xs ys → length xs ≤ length ys
  length-Sublist Sublistᴰ.slnil = omega arith
  length-Sublist (Sublistᴰ.cons s) = omega (arith, length-Sublist s)
  length-Sublist (Sublistᴰ.cons-cons e s) = omega (arith, length-Sublist s)

pub del-Sublist : (fn arg : ℕ) (ns : List ResNode) → Sublistᴰ (del_action fn arg ns) ns
unfolding del_action
del-Sublist fn arg [] = Sublistᴰ.slnil
del-Sublist fn arg (n ∷ ns) = elim (Bool-cases (is_action fn arg n)) [
  | inl hit ↦ rw hit (Sublistᴰ.cons (Sublist-refl ns))
  | inr miss ↦ rw miss (Sublistᴰ.cons-cons refl (del-Sublist fn arg ns))
]

pub obligation : ResNode → List (ℕ × ℕ)
obligation n = if n.action == 0 then [] else (n.action, n.action_data) ∷ []

pub obligation_none : (n : ResNode) → (n.action == 0) ≡ true → obligation n ≡ []
unfolding obligation
obligation_none n e = rw e refl

pub obligation_some :
    (n : ResNode) → (n.action == 0) ≡ false → obligation n ≡ (n.action, n.action_data) ∷ []
unfolding obligation
obligation_some n e = rw e refl

-- The obligations of the nodes, last first.
pub obligations : List ResNode → List (ℕ × ℕ)
obligations [] = []
obligations (n ∷ ns) = obligations ns ++ obligation n

pub obligations-init :
    (self : ℕ) → (obligations (init self).resources ≡ []) × ((init self).releasing ≡ false)
unfolding obligations init
obligations-init self = (refl, refl)

pub obligations-append_last :
    (ns : List ResNode) (n : ResNode) → obligations (ns ++ n ∷ []) ≡ obligation n ++ obligations ns
unfolding obligations
obligations-append_last [] n = rw append-nil
obligations-append_last (x ∷ ns) n =
    ap (λ o. o ++ obligation x) (obligations-append_last ns n) ∙ append_assoc (obligation n) _ _

pub obligations-Sublist :
    {xs ys : List ResNode} → Sublistᴰ xs ys → Sublistᴰ (obligations xs) (obligations ys)
unfolding obligations
obligations-Sublist Sublistᴰ.slnil = Sublistᴰ.slnil
obligations-Sublist (Sublistᴰ.cons {a = a} s) =
    Sublist-append_right (obligations-Sublist s) (obligation a)
obligations-Sublist (Sublistᴰ.cons-cons {a = a} e s) =
    Sublist-append (obligations-Sublist s)
      (subst (λ b. Sublistᴰ (obligation a) (obligation b)) e (Sublist-refl (obligation a)))

pub All-Sublist :
    (s : ℕ) {xs ys : List ResNode}
    → Sublistᴰ xs ys
    → All (λ n. n.pool ≡ s) ys
    → All (λ n. n.pool ≡ s) xs
All-Sublist s Sublistᴰ.slnil h = tt
All-Sublist s (Sublistᴰ.cons t) h = All-Sublist s t h.1
All-Sublist s (Sublistᴰ.cons-cons e t) h = (ap (λ n. n.pool) e ∙ h.0, All-Sublist s t h.1)

pub split_last-cases :
    (ns : List ResNode)
    → ((ns ≡ []) × (split_last ns ≡ none))
      ⊎ ((init : List ResNode) × (n : ResNode) × (ns ≡ init ++ n ∷ [])
          × (split_last ns ≡ some (init, n)))
unfolding split_last
split_last-cases [] = inl (refl, refl)
split_last-cases (x ∷ ns) = elim (split_last-cases ns) [
  | inl (e, l) ↦ inr ([], x, ap (λ r. x ∷ r) e, rw l)
  | inr (init, n, e, l) ↦ inr (x ∷ init, n, ap (λ r. x ∷ r) e, rw l)
]

pub length-zero {ℓ} : {A : Type ℓ} (xs : List A) → length xs ≤ 0 → xs ≡ []
length-zero [] h = refl
length-zero (x ∷ xs) h = absurd (omega arith)

pub All-append_inv :
    (s : ℕ) (xs ys : List ResNode)
    → All (λ n. n.pool ≡ s) (xs ++ ys)
    → All (λ n. n.pool ≡ s) xs × All (λ n. n.pool ≡ s) ys
All-append_inv s [] ys h = (tt, h)
All-append_inv s (x ∷ xs) ys h = let (a, b) = All-append_inv s xs ys h.1 in ((h.0, a), b)
