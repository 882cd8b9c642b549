-- ===== src/IoCtx.antt =====
-- src/io/ctx.c: the work queue between the threads of the backends, which post, and the one runner
-- that delivers under the device lock. A binding is counted by references. Each function is what
-- one thread does while it holds a lock.
pub mod Heap
pub mod System
pub mod Queue
pub mod Counted
pub mod Runs
mod Tests
use modvm.Prelude.{
  ℕ, zero, suc, ◌+◌, ◌-◌, ◌%◌, ◌^◌, Bool, true, false, ◌&&◌, ◌||◌, not, List, [], ◌∷◌, ◌++◌, Option,
  none, some, ◌==◌, ◌!=◌, if◌then◌else◌,
}
use modvm.Prelude.Errno.{Result, ok, err, einval, enomem, eshutdown}

pub data IoWorkKind : Type 0 where
  io_data io_control : IoWorkKind

-- `struct io_binding` at the address `addr`.
pub record IoBinding : Type 0 where
  pub addr : ℕ
  pub refs : ℕ
  pub is_open : Bool
  pub enabled : Bool

-- `struct io_work`, less the two callbacks, which get `arg`.
pub record IoWork : Type 0 where
  pub binding : ℕ
  pub kind : IoWorkKind
  pub arg : ℕ

-- `struct io_ctx`, less its locks, with the bindings that are allocated. `error` is the first
-- error, 0 for none.
pub record IoCtx : Type 0 where
  pub work : List IoWork
  pub stopped : Bool
  pub error : ℕ
  pub bindings : ℕ
  pub has_fatal : Bool
  pub live : List IoBinding

-- What `io_ctx_create` returns where all its allocations succeed.
abbrev pub created : Bool → IoCtx
created has_fatal = record {
  work = [];
  stopped = false;
  error = 0;
  bindings = 0;
  has_fatal = has_fatal;
  live = [];
}

-- The allocation of the context, of its two locks and of its condition, in this order: each is its
-- error, 0 for success. The list is what is given back: 1 and 2 for the locks, 0 for the context.
unfoldable pub ctx_create : Bool → ℕ → ℕ → ℕ → ℕ → Result IoCtx × List ℕ
ctx_create has_fatal calloc device_lock queue_lock ready =
    if calloc != 0
    then (err enomem, [])
    else if device_lock != 0
    then (err device_lock, 0 ∷ [])
    else if queue_lock != 0
    then (err queue_lock, 1 ∷ 0 ∷ [])
    else if ready != 0
    then (err ready, 2 ∷ 1 ∷ 0 ∷ [])
    else (ok (created has_fatal), [])

-- The object at an address, a write to it and its `free`.
unfoldable pub get : ℕ → List IoBinding → Option IoBinding
get a [] = none
get a (b ∷ bs) = if b.addr == a then some b else get a bs

unfoldable pub put_at : ℕ → (IoBinding → IoBinding) → List IoBinding → List IoBinding
put_at a f [] = []
put_at a f (b ∷ bs) = if b.addr == a then f b ∷ bs else b ∷ put_at a f bs

unfoldable pub free : ℕ → List IoBinding → List IoBinding
free a [] = []
free a (b ∷ bs) = if b.addr == a then bs else b ∷ free a bs

-- `calloc` is the address, if it succeeds.
unfoldable pub binding_create : Option ℕ → IoCtx → IoCtx × Result ℕ
binding_create none io = (io, err enomem)
binding_create (some a) io = if io.stopped then (io, err eshutdown) else (
  record io {
    bindings = io.bindings + 1;
    live = record { addr = a; refs = 1; is_open = true; enabled = true } ∷ io.live;
  },
  ok a,
)

abbrev pub with_refs : ℕ → IoBinding → IoBinding
with_refs n b = record b { refs = n }

-- `none` is the BUG_ON, or an address that is not allocated.
unfoldable pub binding_put : ℕ → IoCtx → Option IoCtx
unfolding get put_at free
binding_put a io = elim (get a io.live) [
  | none ↦ none
  | some b ↦
      if b.refs == 1
      then (if b.is_open
          then none
          else some (record io { bindings = io.bindings - 1; live = free a io.live }))
      else some (record io { live = put_at a (with_refs ((b.refs + 2 ^ 32 - 1) % 2 ^ 32)) io.live })
]

-- The works of a binding, and the others.
unfoldable pub of_binding : ℕ → List IoWork → List IoWork
of_binding a [] = []
of_binding a (w ∷ ws) = if w.binding == a then w ∷ of_binding a ws else of_binding a ws

unfoldable pub not_of_binding : ℕ → List IoWork → List IoWork
not_of_binding a [] = []
not_of_binding a (w ∷ ws) = if w.binding == a then not_of_binding a ws else w ∷ not_of_binding a ws

-- The second loop of `io_binding_close_locked`.
unfoldable pub put_each : ℕ → List IoWork → IoCtx → Option IoCtx
unfolding binding_put
put_each a [] io = some io
put_each a (w ∷ ws) io = elim (binding_put a io) [ none ↦ none | some io' ↦ put_each a ws io' ]

abbrev pub shut : IoBinding → IoBinding
shut b = record b { is_open = false }

-- The list is the works whose `release` is called.
unfoldable pub binding_close : ℕ → IoCtx → Option (IoCtx × List IoWork)
unfolding get put_at of_binding not_of_binding put_each
binding_close a io = elim (get a io.live) [
  | none ↦ none
  | some b ↦
      let cancelled = of_binding a io.work in
      let closed = record io { live = put_at a shut io.live; work = not_of_binding a io.work } in
      elim (put_each a cancelled closed) [ none ↦ none | some io' ↦ some (io', cancelled) ]
]

-- The Boolean is whether the call is over `release` at once. `malloc` is whether it succeeds.
unfoldable pub binding_post : IoWork → Bool → IoCtx → Option (IoCtx × ℕ × Bool)
unfolding get put_at
binding_post w malloc io =
    if not malloc then some (io, enomem, true) else elim (get w.binding io.live) [
      | none ↦ none
      | some b ↦
          if io.stopped || not b.is_open
          then some (io, eshutdown, true)
          else some (
            record io {
              live = put_at w.binding (with_refs ((b.refs + 1) % 2 ^ 32)) io.live;
              work = io.work ++ w ∷ [];
            },
            0,
            false,
          )
    ]

abbrev pub is_control : IoWorkKind → Bool
is_control io_control = true
is_control io_data = false

abbrev pub is_runnable : List IoBinding → IoWork → Bool
is_runnable live w = elim (get w.binding live) [
  | none ↦ false
  | some b ↦ b.enabled || is_control w.kind
]

-- The search loops of `io_ctx_run`, with the list that is left by `list_del`.
unfoldable pub split_runnable : List IoBinding → List IoWork → Option (IoWork × List IoWork)
unfolding get
split_runnable live [] = none
split_runnable live (w ∷ ws) =
    if is_runnable live w
    then some (w, ws)
    else elim (split_runnable live ws) [ none ↦ none | some (x, rest) ↦ some (x, w ∷ rest) ]

-- What the first section of a round finds: to wait for a signal, to return, or to go on.
pub data Poll : Type 0 where
  waits : Poll
  returns : ℕ → Poll
  goes : Poll

unfoldable pub poll : IoCtx → Poll
unfolding split_runnable
poll io =
    if io.stopped
    then returns io.error
    else elim (split_runnable io.live io.work) [ none ↦ waits | some _ ↦ goes ]

abbrev pub binding_is_open : List IoBinding → ℕ → Bool
binding_is_open live a = elim (get a live) [ none ↦ false | some b ↦ b.is_open ]

-- The second section, under both locks: the work that is taken, and whether its binding is open,
-- so that `run` is called.
unfoldable pub run_take : IoCtx → IoCtx × Option (IoWork × Bool)
unfolding split_runnable get
run_take io = if io.stopped then (io, none) else elim (split_runnable io.live io.work) [
  | none ↦ (io, none)
  | some (w, rest) ↦ (record io { work = rest }, some (w, binding_is_open io.live w.binding))
]

-- What a round does with its work after `run`, besides `release`.
abbrev pub run_finish : IoWork → IoCtx → Option IoCtx
run_finish w io = binding_put w.binding io

abbrev pub with_enabled : Bool → IoBinding → IoBinding
with_enabled e b = record b { enabled = e }

unfoldable pub binding_set_enabled : ℕ → Bool → IoCtx → IoCtx
unfolding put_at
binding_set_enabled a enabled io = record io { live = put_at a (with_enabled enabled) io.live }

unfoldable pub ctx_stop : IoCtx → IoCtx
ctx_stop io = record io { stopped = true }

-- `error` is 0 where the code's is not negative. The Boolean is whether `fatal` is called.
unfoldable pub ctx_fail : ℕ → IoCtx → IoCtx × Bool
ctx_fail error io =
    let report = error != 0 && io.error == 0 in
    (
      record io { error = if report then error else io.error; stopped = true },
      report && io.has_fatal,
    )

abbrev pub is_empty : List IoWork → Bool
is_empty [] = true
is_empty (w ∷ ws) = false

-- `none` is the BUG_ON.
unfoldable pub ctx_destroy : IoCtx → Option (Unit {0})
ctx_destroy io = if io.bindings != 0 || not (is_empty io.work) then none else some tt
