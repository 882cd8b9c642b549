-- ===== src/ResPool.antt =====
-- src/util/res_pool.c: a pool of resources, each an allocation or a cleanup obligation, released in
-- reverse order. Pointers are numbers and NULL is 0. A list of nodes stands for the intrusive list,
-- oldest first; the outcome of `calloc` is an argument (`none` where it fails).
use modvm.Prelude.{
  ℕ, zero, suc, ◌-◌, Bool, true, false, ◌&&◌, ◌||◌, List, [], ◌∷◌, ◌++◌, Option, none, some, ltb,
  ◌==◌, ◌!=◌, length, if◌then◌else◌,
}
use modvm.Prelude.Errno.{einval, eshutdown, eexist, enomem, enoent}
use modvm.Prelude.Words.{u64_max}
mod Find
pub mod Ownership
pub mod Transfer
pub mod Release
mod Tests

pub record ResNode : Type 0 where
  pub addr : ℕ
  pub pool : ℕ
  pub action : ℕ
  pub action_data : ℕ

pub record ResPool : Type 0 where
  pub self : ℕ
  pub resources : List ResNode
  pub releasing : Bool

-- sizeof(struct res_node): five pointers, padded to the alignment of `data`.
abbrev pub node_size : ℕ
node_size = 48

pub init : ℕ → ResPool
init self = record { self = self; resources = []; releasing = false }

append : ResPool → ResNode → ResPool
append p n = record p { resources = p.resources ++ n ∷ [] }

-- The address returned is that of the node, whose payload the caller uses.
pub zalloc : ResPool → ℕ → Option ℕ → ResPool × Option ℕ
unfolding append
zalloc p size calloc =
    if p.releasing || size == 0 || ltb (u64_max - node_size) size then (p, none) else elim calloc [
      | none ↦ (p, none)
      | some a ↦
          (append p (record { addr = a; pool = p.self; action = 0; action_data = 0 }), some a)
    ]

abbrev pub is_action : ℕ → ℕ → ResNode → Bool
is_action fn arg n = n.action == fn && n.action_data == arg

-- The search loops of the functions below.
pub find_action : ℕ → ℕ → List ResNode → Option ResNode
find_action fn arg [] = none
find_action fn arg (n ∷ ns) = if is_action fn arg n then some n else find_action fn arg ns

-- `list_del` of the node that `find_action` returns.
pub del_action : ℕ → ℕ → List ResNode → List ResNode
del_action fn arg [] = []
del_action fn arg (n ∷ ns) = if is_action fn arg n then ns else n ∷ del_action fn arg ns

abbrev pub has_action : ℕ → ℕ → List ResNode → Bool
has_action fn arg ns = elim (find_action fn arg ns) [ none ↦ false | some _ ↦ true ]

pub add_action : ResPool → ℕ → ℕ → Option ℕ → ResPool × ℕ
unfolding append
add_action p fn arg calloc =
    if fn == 0
    then (p, einval)
    else if p.releasing
    then (p, eshutdown)
    else if has_action fn arg p.resources
    then (p, eexist)
    else elim calloc [
      | none ↦ (p, enomem)
      | some a ↦ (append p (record { addr = a; pool = p.self; action = fn; action_data = arg }), 0)
    ]

-- The last result is whether `fn` was called with `arg` on the spot.
pub add_action_or_reset : ResPool → ℕ → ℕ → Option ℕ → ResPool × ℕ × Bool
add_action_or_reset p fn arg calloc =
    let (p', ret) = add_action p fn arg calloc in (p', ret, ret != 0 && ret != eexist && fn != 0)

-- `from == to` compares the pools' addresses; then both arguments are that pool.
pub transfer_action : ResPool → ResPool → ℕ → ℕ → ResPool × ResPool × ℕ
unfolding append
transfer_action from to fn arg =
    if fn == 0
    then (from, to, einval)
    else if from.releasing || to.releasing
    then (from, to, eshutdown)
    else elim (find_action fn arg from.resources) [
      | none ↦ (from, to, enoent)
      | some found ↦
          if found.pool != from.self
          then (from, to, einval)
          else if from.self == to.self
          then (from, to, 0)
          else if has_action fn arg to.resources
          then (from, to, eexist)
          else (
            record from { resources = del_action fn arg from.resources },
            append to (record found { pool = to.self }),
            0,
          )
    ]

pub cancel_action : ResPool → ℕ → ℕ → ResPool × ℕ
cancel_action p fn arg = if fn == 0 then (p, einval) else elim (find_action fn arg p.resources) [
  | none ↦ (p, enoent)
  | some n ↦
      if n.pool != p.self
      then (p, einval)
      else (record p { resources = del_action fn arg p.resources }, 0)
]

-- What a cleanup callback may do to the pool that is being released.
pub data Call : Type 0 where
  zallocs : ℕ → Option ℕ → Call
  adds : ℕ → ℕ → Option ℕ → Call
  cancels : ℕ → ℕ → Call
  transfers_in transfers_out : ResPool → ℕ → ℕ → Call
  releases : Call

-- A nested `res_release_all` returns at once, since `releasing` is set.
pub call : Call → ResPool → ResPool
call (zallocs size calloc) p = (zalloc p size calloc).0
call (adds fn arg calloc) p = (add_action p fn arg calloc).0
call (cancels fn arg) p = (cancel_action p fn arg).0
call (transfers_in from fn arg) p = (transfer_action from p fn arg).1
call (transfers_out to fn arg) p = (transfer_action p to fn arg).0
call releases p = p

pub calls : List Call → ResPool → ResPool
unfolding call
calls [] p = p
calls (c ∷ cs) p = calls cs (call c p)

-- `list_last_entry`, with the list that is left by `list_del`.
pub split_last : List ResNode → Option (List ResNode × ResNode)
split_last [] = none
split_last (n ∷ ns) = elim (split_last ns) [
  | none ↦ some ([], n)
  | some (init, last) ↦ some (n ∷ init, last)
]

module _ (body : ℕ → ℕ → List Call) where
  -- What the callback of a removed node does to the pool.
  pub call_action : ResNode → ResPool → ResPool
  unfolding calls
  call_action n p = if n.action == 0 then p else calls (body n.action n.action_data) p

  -- The loop of `res_release_all`, with fuel: `body fn arg` is what the callback `fn` does to the
  -- pool when it is called with `arg`, and the list returned is the actions called, in order.
  pub release_loop : ℕ → ResPool → Option (ResPool × List (ℕ × ℕ))
  unfolding split_last call_action
  release_loop zero p = elim p.resources [ [] ↦ some (p, []) | _ ↦ none ]
  release_loop (suc fuel) p = elim (split_last p.resources) [
    | none ↦ some (p, [])
    | some (rest, n) ↦
        if n.pool != p.self
        then none
        else elim (release_loop fuel (call_action n (record p { resources = rest }))) [
          | none ↦ none
          | some (q, run) ↦ some (q, if n.action == 0 then run else (n.action, n.action_data) ∷ run)
        ]
  ]

  -- `none` is a BUG_ON, or too many rounds.
  pub release_all : ResPool → Option (ResPool × List (ℕ × ℕ))
  unfolding release_loop
  release_all p =
      if p.releasing
      then some (p, [])
      else elim (release_loop (length p.resources) (record p { releasing = true })) [
        | none ↦ none
        | some (q, run) ↦ some (record q { releasing = false }, run)
      ]
