-- ===== src/ResPool/Find.antt =====
-- The list loops of res_pool.c, by the number of nodes that hold an obligation.
use mathlib.Core.Option.{some-injective}
use modvm.Prelude.{
  ap, sym, ◌∙◌, Bool-cases, inl, inr, ℕ, ◌+◌, ◌<◌, ◌≡◌, refl, true, false, ◌&&◌, List, [], ◌∷◌,
  ◌++◌, some, arith, ◌==◌, if◌then◌else◌, All,
}
use modvm.ResPool.{ResNode, is_action, find_action, del_action, has_action}

-- How many nodes call `fn` with `arg`.
unfoldable pub count : ℕ → ℕ → List ResNode → ℕ
count fn arg [] = 0
count fn arg (n ∷ ns) = (if is_action fn arg n then 1 else 0) + count fn arg ns

pub count-append :
    (fn arg : ℕ) (xs ys : List ResNode)
    → count fn arg (xs ++ ys) ≡ count fn arg xs + count fn arg ys
unfolding count
count-append fn arg [] ys = omega arith
count-append fn arg (x ∷ xs) ys = omega (arith, count-append fn arg xs ys)

pub has_action-count_pos :
    (fn arg : ℕ) (ns : List ResNode) → has_action fn arg ns ≡ true → 0 < count fn arg ns
unfolding count find_action
has_action-count_pos fn arg [] h = cc
has_action-count_pos fn arg (n ∷ ns) h = ground (arith, has_action-count_pos fn arg ns)

pub has_action-count_zero :
    (fn arg : ℕ) (ns : List ResNode) → has_action fn arg ns ≡ false → count fn arg ns ≡ 0
unfolding count find_action
has_action-count_zero fn arg [] h = refl
has_action-count_zero fn arg (n ∷ ns) h = ground (arith, has_action-count_zero fn arg ns)

-- `list_del` takes away one node that holds the obligation, and no other.
pub count-del :
    (f a fn arg : ℕ) (ns : List ResNode)
    → has_action fn arg ns ≡ true
    → count f a (del_action fn arg ns) + (if fn == f && arg == a then 1 else 0) ≡ count f a ns
unfolding count find_action del_action
count-del f a fn arg [] h = cc
count-del f a fn arg (n ∷ ns) h = ground (arith, count-del f a fn arg ns)

pub All-del {κ} :
    (P : ResNode → Type κ) (fn arg : ℕ) (ns : List ResNode)
    → All P ns
    → All P (del_action fn arg ns)
unfolding del_action
All-del P fn arg [] h = tt
All-del P fn arg (n ∷ ns) h = ground (arith, All-del P fn arg ns h.1)

pub find_action-pool :
    (s fn arg : ℕ) (ns : List ResNode) (n : ResNode)
    → All (λ n. n.pool ≡ s) ns
    → find_action fn arg ns ≡ some n
    → n.pool ≡ s
unfolding find_action
find_action-pool s fn arg [] n h e = absurd (ground arith)
find_action-pool s fn arg (x ∷ ns) n h e = ground (arith, find_action-pool s fn arg ns n h.1)

-- The node found holds the obligation.
pub find_action-key :
    (fn arg : ℕ) (ns : List ResNode) (n : ResNode)
    → find_action fn arg ns ≡ some n
    → (n.action ≡ fn) × (n.action_data ≡ arg)
unfolding find_action
find_action-key fn arg [] n e = absurd (ground arith)
find_action-key fn arg (x ∷ ns) n e = ground (arith, find_action-key fn arg ns n)

split_here :
    (fn arg : ℕ) (x n : ResNode) (ns : List ResNode)
    → is_action fn arg x ≡ true
    → find_action fn arg (x ∷ ns) ≡ some n
    → (x ∷ ns ≡ n ∷ ns) × (del_action fn arg (x ∷ ns) ≡ ns)
unfolding find_action del_action
split_here fn arg x n ns here e =
    (ap (λ v. v ∷ ns) (some-injective x n (rw here at e)), rw here refl)

split_past :
    (fn arg : ℕ) (x : ResNode) (ns : List ResNode)
    → is_action fn arg x ≡ false
    → (find_action fn arg (x ∷ ns) ≡ find_action fn arg ns)
      × (del_action fn arg (x ∷ ns) ≡ x ∷ del_action fn arg ns)
unfolding find_action del_action
split_past fn arg x ns past = (rw past refl, rw past refl)

-- `list_del` keeps the nodes before and after the one found.
pub find_action_splits :
    (fn arg : ℕ) (ns : List ResNode) (n : ResNode)
    → find_action fn arg ns ≡ some n
    → (before : List ResNode) × (after : List ResNode) × (ns ≡ before ++ n ∷ after)
      × (del_action fn arg ns ≡ before ++ after)
unfolding find_action
find_action_splits fn arg [] n e = absurd (ground arith)
find_action_splits fn arg (x ∷ ns) n e = elim (Bool-cases (is_action fn arg x)) [
  | inl here ↦ let (was, gone) = split_here fn arg x n ns here e in ([], ns, was, gone)
  | inr past ↦
      let (found, left) = split_past fn arg x ns past in
      let (before, after, was, gone) = find_action_splits fn arg ns n (sym found ∙ e) in
      (x ∷ before, after, ap (λ l. x ∷ l) was, left ∙ ap (λ l. x ∷ l) gone)
]
