-- ===== src/ResPool/Ownership.antt =====
-- res_pool.c: which pool owns a cleanup obligation. Every operation keeps a pool well formed, and
-- an obligation is never lost, made up or held twice.
use modvm.Prelude.{
  ◌⊎◌, ℕ, ◌≤◌, ◌<◌, ◌≡◌, refl, ◌≢◌, true, false, List, [], ◌∷◌, ◌++◌, Option, none, some, arith,
  All, All-append,
}
use modvm.ResPool.{
  init, ResNode, ResPool, zalloc, del_action, has_action, add_action, add_action_or_reset,
  cancel_action,
}
use modvm.ResPool.Find.{
  count, count-append, has_action-count_pos, has_action-count_zero, count-del, All-del,
}

-- Each node names its pool, and no obligation is held twice.
pub record IsValid (p : ResPool) : Type 0 where
  pub owner : All (λ n. n.pool ≡ p.self) p.resources
  pub once : (fn arg : ℕ) → fn ≢ 0 → count fn arg p.resources ≤ 1

unfoldable pub owed : ResPool → ℕ → ℕ → ℕ
owed p fn arg = count fn arg p.resources

pub init-IsValid : (self : ℕ) → IsValid (init self)
unfolding init count
init-IsValid self = record { owner = tt; once = λ fn arg ne. omega arith }

once_append :
    (ns : List ResNode) (n : ResNode)
    → ((fn arg : ℕ) → fn ≢ 0 → count fn arg ns ≤ 1)
    → (n.action ≢ 0 → count n.action n.action_data ns ≡ 0)
    → (fn arg : ℕ) → fn ≢ 0
    → count fn arg (ns ++ n ∷ []) ≤ 1
unfolding count
once_append ns n h new fn arg ne = ground (arith, count-append fn arg ns (n ∷ []), h fn arg ne, new)

-- A node of the pool's own goes to the end, with an obligation that no other node has.
pub append-IsValid :
    (p : ResPool) (n : ResNode)
    → IsValid p
    → n.pool ≡ p.self
    → (n.action ≢ 0 → count n.action n.action_data p.resources ≡ 0)
    → IsValid (record p { resources = p.resources ++ n ∷ [] })
append-IsValid p n v e new = record {
  owner = All-append _ p.resources (n ∷ []) v.owner (e, tt);
  once = once_append p.resources n v.once new;
}

pub del-IsValid :
    (p : ResPool) (fn arg : ℕ)
    → IsValid p
    → has_action fn arg p.resources ≡ true
    → IsValid (record p { resources = del_action fn arg p.resources })
del-IsValid p fn arg v h = record {
  owner = All-del _ fn arg p.resources v.owner;
  once = λ f a ne. omega (arith, count-del f a fn arg p.resources h, v.once f a ne);
}

pub zalloc_cases {ℓ} :
    (P : ResPool → Type ℓ) (p : ResPool) (size : ℕ) (calloc : Option ℕ)
    → P p
    → ((a : ℕ)
        → P (record p {
          resources =
              p.resources ++ record { addr = a; pool = p.self; action = 0; action_data = 0 } ∷ [];
        }))
    → P (zalloc p size calloc).0
unfolding zalloc
zalloc_cases P p size none same grown = ground arith
zalloc_cases P p size (some a) same grown = ground (arith, grown a)

-- The address is the allocator's.
pub zalloc-some :
    (p : ResPool) (size : ℕ) (calloc : Option ℕ) {a : ℕ}
    → (zalloc p size calloc).1 ≡ some a
    → calloc ≡ some a
unfolding zalloc
zalloc-some p size none e = ground arith
zalloc-some p size (some b) e = ground arith

pub zalloc-IsValid :
    (p : ResPool) (size : ℕ) (calloc : Option ℕ) → IsValid p → IsValid (zalloc p size calloc).0
zalloc-IsValid p size calloc v =
    zalloc_cases IsValid p size calloc v (λ a. append-IsValid p _ v refl (λ ne. absurd (ne refl)))

pub add_action_cases {ℓ} :
    (P : ResPool → Type ℓ) (p : ResPool) (fn arg : ℕ) (calloc : Option ℕ)
    → P p
    → ((a : ℕ)
        → has_action fn arg p.resources ≡ false
        → P (record p {
          resources =
              p.resources
              ++ record { addr = a; pool = p.self; action = fn; action_data = arg } ∷ [];
        }))
    → P (add_action p fn arg calloc).0
unfolding add_action
add_action_cases P p fn arg none same grown = ground arith
add_action_cases P p fn arg (some a) same grown = ground (arith, grown a)

-- Undoing an obligation on the spot leaves the pool as the failed call does.
pub add_action_or_reset-add_action :
    (p : ResPool) (fn arg : ℕ) (calloc : Option ℕ)
    → (add_action_or_reset p fn arg calloc).0 ≡ (add_action p fn arg calloc).0
unfolding add_action_or_reset
add_action_or_reset-add_action p fn arg calloc = refl

-- What an acquisition that succeeds leaves.
pub add_action_adds :
    (p : ResPool) (fn arg : ℕ) (calloc : Option ℕ)
    → (add_action p fn arg calloc).1 ≡ 0
    → (a : ℕ) × ((add_action p fn arg calloc).0 ≡ record p {
      resources =
          p.resources ++ record { addr = a; pool = p.self; action = fn; action_data = arg } ∷ [];
    })
unfolding add_action
add_action_adds p fn arg none ok = absurd (ground arith)
add_action_adds p fn arg (some a) ok = (a, ground arith)

pub add_action_or_reset_ret :
    (p : ResPool) (fn arg : ℕ) (calloc : Option ℕ)
    → (add_action_or_reset p fn arg calloc).1 ≡ (add_action p fn arg calloc).1
unfolding add_action_or_reset
add_action_or_reset_ret p fn arg calloc = refl

pub add_action-IsValid :
    (p : ResPool) (fn arg : ℕ) (calloc : Option ℕ)
    → IsValid p
    → IsValid (add_action p fn arg calloc).0
add_action-IsValid p fn arg calloc v =
    add_action_cases IsValid p fn arg calloc v
      λ a h. append-IsValid p _ v refl (λ _. has_action-count_zero fn arg p.resources h)

pub cancel_action_cases {ℓ} :
    (P : ResPool → Type ℓ) (p : ResPool) (fn arg : ℕ)
    → P p
    → (has_action fn arg p.resources ≡ true
        → P (record p { resources = del_action fn arg p.resources }))
    → P (cancel_action p fn arg).0
unfolding cancel_action
cancel_action_cases P p fn arg same gone = ground arith

pub cancel_action-IsValid :
    (p : ResPool) (fn arg : ℕ) → IsValid p → IsValid (cancel_action p fn arg).0
cancel_action-IsValid p fn arg v = cancel_action_cases IsValid p fn arg v (del-IsValid p fn arg v)

-- Outside a teardown the obligation ends in exactly one place: `fn` is called with `arg` on the
-- spot, or a node of the pool holds the obligation afterwards.
pub add_action_or_reset-once :
    (p : ResPool) (fn arg : ℕ) (calloc : Option ℕ)
    → p.releasing ≡ false
    → fn ≢ 0
    → let (p', _, called) = add_action_or_reset p fn arg calloc in
      ((called ≡ true) × (owed p' fn arg ≡ 0)) ⊎ ((called ≡ false) × (0 < owed p' fn arg))
unfolding owed count add_action_or_reset add_action
add_action_or_reset-once p fn arg none idle ne =
    ground
      (arith, has_action-count_pos fn arg p.resources, has_action-count_zero fn arg p.resources)
add_action_or_reset-once p fn arg (some a) idle ne = ground (
  arith,
  has_action-count_pos fn arg p.resources,
  has_action-count_zero fn arg p.resources,
  count-append fn arg p.resources
      (record { addr = a; pool = p.self; action = fn; action_data = arg } ∷ []),
)
