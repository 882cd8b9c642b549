-- ===== src/ResPool/Transfer.antt =====
-- `res_transfer_action`: an obligation goes from one pool to another.
use modvm.Prelude.{
  ap, ◌∙◌, ℕ, ◌+◌, ◌≡◌, refl, ◌≢◌, false, List, [], ◌∷◌, ◌++◌, none, some, arith, inl, inr,
  Option-cases,
}
use modvm.ResPool.{ResNode, ResPool, find_action, del_action, has_action, transfer_action}
use modvm.ResPool.Find.{
  count, count-append, has_action-count_pos, has_action-count_zero, count-del, find_action-key,
  find_action_splits,
}
use modvm.ResPool.Ownership.{IsValid, owed, append-IsValid, del-IsValid}

-- `move` is what a transfer that succeeds between two pools does.
transfer_action_cases {ℓ} :
    (P : ResPool → ResPool → Type ℓ) (from to : ResPool) (fn arg : ℕ)
    → P from to
    → ((n : ResNode)
        → find_action fn arg from.resources ≡ some n
        → has_action fn arg to.resources ≡ false
        → P
            (record from { resources = del_action fn arg from.resources })
            (record to { resources = to.resources ++ record n { pool = to.self } ∷ [] }))
    → P (transfer_action from to fn arg).0 (transfer_action from to fn arg).1
unfolding transfer_action
transfer_action_cases P from to fn arg same move =
    elim (Option-cases (find_action fn arg from.resources)) [
      | inl e ↦ ground arith
      | inr (n, e) ↦ ground (arith, move n)
    ]

-- A transfer, whatever it returns, keeps both pools well formed: the nodes name their pool, and no
-- obligation is held twice in one.
pub transfer_action-IsValid :
    (from to : ResPool) (fn arg : ℕ)
    → IsValid from
    → IsValid to
    → IsValid (transfer_action from to fn arg).0 × IsValid (transfer_action from to fn arg).1
transfer_action-IsValid from to fn arg v w =
    transfer_action_cases (λ f t. IsValid f × IsValid t) from to fn arg (v, w)
      λ n e h. (
        del-IsValid from fn arg v (ground (arith, e)),
        append-IsValid to (record n { pool = to.self }) w refl
            λ _. ground (
              arith,
              find_action-key fn arg from.resources n e,
              has_action-count_zero fn arg to.resources h,
            ),
      )

-- A transfer between two pools neither loses an obligation nor makes one up: each is held in the
-- two pools together as often as before.
owed-transfer_action :
    (from to : ResPool) (fn arg f a : ℕ)
    → let (from', to', _) = transfer_action from to fn arg in
      owed from' f a + owed to' f a ≡ owed from f a + owed to f a
unfolding owed count
owed-transfer_action from to fn arg f a =
    transfer_action_cases
      (λ p q.
        count f a p.resources + count f a q.resources
        ≡ count f a from.resources + count f a to.resources)
      from to fn arg refl
      λ n e h. ground (
        arith,
        find_action-key fn arg from.resources n e,
        count-del f a fn arg from.resources,
        count-append f a to.resources (record n { pool = to.self } ∷ []),
      )

transfer_action_finds :
    (from to : ResPool) (fn arg : ℕ)
    → find_action fn arg from.resources ≡ none
    → (transfer_action from to fn arg).2 ≡ 0
    → ⊥
unfolding transfer_action
transfer_action_finds from to fn arg e ok = absurd (ground arith)

transfer_action_named :
    (from to : ResPool) (fn arg : ℕ) → (transfer_action from to fn arg).2 ≡ 0 → fn ≢ 0
unfolding transfer_action
transfer_action_named from to fn arg ok z = absurd (ground arith)

-- What a transfer that succeeds between two pools leaves, where it finds the node.
transfer_action_leaves :
    (from to : ResPool) (fn arg : ℕ) (n : ResNode)
    → find_action fn arg from.resources ≡ some n
    → from.self ≢ to.self
    → (transfer_action from to fn arg).2 ≡ 0
    → ((transfer_action from to fn arg).0
        ≡ record from { resources = del_action fn arg from.resources })
      × ((transfer_action from to fn arg).1
          ≡ record to { resources = to.resources ++ record n { pool = to.self } ∷ [] })
      × (has_action fn arg to.resources ≡ false)
unfolding transfer_action
transfer_action_leaves from to fn arg n e ne ok = ground arith

moved_counts :
    (from to : ResPool) (fn arg : ℕ) (n : ResNode)
    → IsValid from
    → fn ≢ 0
    → find_action fn arg from.resources ≡ some n
    → has_action fn arg to.resources ≡ false
    → (owed from fn arg ≡ 1)
      × (owed (record from { resources = del_action fn arg from.resources }) fn arg ≡ 0)
      × (owed to fn arg ≡ 0)
      × (owed (record to { resources = to.resources ++ record n { pool = to.self } ∷ [] }) fn arg
          ≡ 1)
unfolding owed count
moved_counts from to fn arg n v some_fn e vacant = ground (
  arith,
  v.once fn arg,
  find_action-key fn arg from.resources n e,
  has_action-count_pos fn arg from.resources,
  has_action-count_zero fn arg to.resources,
  count-del fn arg fn arg from.resources,
  count-append fn arg to.resources (record n { pool = to.self } ∷ []),
)

-- A transfer that returns success between different pools has moved exactly the obligation named:
-- the first pool held it once and loses the node that held it, and keeps every other node as it was
-- and in order; the second pool did not hold it, and has that node after its own nodes, as it was but
-- for the pool that it names.
pub transfer_action-moves :
    (from to : ResPool) (fn arg : ℕ)
    → IsValid from
    → from.self ≢ to.self
    → (transfer_action from to fn arg).2 ≡ 0
    → let (from', to', _) = transfer_action from to fn arg in
      (before : List ResNode) × (after : List ResNode) × (n : ResNode) × (n.action ≡ fn)
      × (n.action_data ≡ arg)
      × (from.resources ≡ before ++ n ∷ after)
      × (from' ≡ record from { resources = before ++ after })
      × (to' ≡ record to { resources = to.resources ++ record n { pool = to.self } ∷ [] })
      × (owed from fn arg ≡ 1)
      × (owed from' fn arg ≡ 0)
      × (owed to fn arg ≡ 0)
      × (owed to' fn arg ≡ 1)
transfer_action-moves from to fn arg v ne ok =
    elim (Option-cases (find_action fn arg from.resources)) [
      | inl e ↦ absurd (transfer_action_finds from to fn arg e ok)
      | inr (n, e) ↦
          let (left, now, vacant) = transfer_action_leaves from to fn arg n e ne ok in
          let (before, after, was, gone) = find_action_splits fn arg from.resources n e in
          let (action, action_data) = find_action-key fn arg from.resources n e in
          let (had, lost, lacked, has) =
            moved_counts from to fn arg n v (transfer_action_named from to fn arg ok) e vacant in
          (
            before,
            after,
            n,
            action,
            action_data,
            was,
            left ∙ ap (λ l. record from { resources = l }) gone,
            now,
            had,
            ap (λ p. owed p fn arg) left ∙ lost,
            lacked,
            ap (λ p. owed p fn arg) now ∙ has,
          )
    ]
