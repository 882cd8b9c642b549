-- ===== src/IoCtx/System.antt =====
-- The context with those that use it: the owners of bindings, the producers that post through an
-- owner's reference, and the runner. What they do is a list of events, each atomic under a lock;
-- an event that the rules of binding.h exclude does nothing.
use modvm.Prelude.{
  ℕ, suc, ◌+◌, ◌^◌, Bool, true, false, ◌&&◌, not, List, [], ◌∷◌, ◌++◌, Option, none, some, map, ltb,
  ◌==◌, if◌then◌else◌,
}
use modvm.Prelude.Errno.{Result, ok, err}
use modvm.IoCtx.{
  IoWork, IoCtx, created, get, binding_create, binding_put, binding_close, binding_post, run_finish,
  run_take, binding_set_enabled, ctx_stop, ctx_fail,
}

pub data Event : Type 0 where
  creates : Option ℕ → Event
  posts : IoWork → Bool → Event
  closes puts : ℕ → Event
  enables : ℕ → Bool → Event
  takes finishes stops : Event
  fails : ℕ → Event

-- `owners` has the binding of each owner that has not dropped its reference; `running` is the work
-- that the runner delivers; the last two are the arguments of all works that were posted, and of
-- those whose `release` was called.
pub record System : Type 0 where
  pub io : IoCtx
  pub owners : List ℕ
  pub running : Option IoWork
  pub posted : List ℕ
  pub released : List ℕ

abbrev pub start : Bool → System
start has_fatal = record {
  io = created has_fatal;
  owners = [];
  running = none;
  posted = [];
  released = [];
}

unfoldable pub count : ℕ → List ℕ → ℕ
count a [] = 0
count a (x ∷ xs) = if x == a then suc (count a xs) else count a xs

unfoldable pub forget : ℕ → List ℕ → List ℕ
forget a [] = []
forget a (x ∷ xs) = if x == a then xs else x ∷ forget a xs

abbrev pub is_owner : ℕ → System → Bool
unfolding count
is_owner a s = ltb 0 (count a s.owners)

-- An address that `calloc` may return.
abbrev pub is_unused : Option ℕ → IoCtx → Bool
is_unused none io = true
is_unused (some a) io = elim (get a io.live) [ none ↦ true | some _ ↦ false ]

-- Room for a reference in 32 bits: each takes a work of the heap.
abbrev pub has_room : ℕ → IoCtx → Bool
has_room a io = elim (get a io.live) [ none ↦ true | some b ↦ ltb (b.refs + 1) (2 ^ 32) ]

abbrev pub is_shut : ℕ → IoCtx → Bool
is_shut a io = elim (get a io.live) [ none ↦ false | some b ↦ not b.is_open ]

abbrev pub is_idle : System → Bool
is_idle s = elim s.running [ none ↦ true | some _ ↦ false ]

unfoldable pub allowed : Event → System → Bool
unfolding count get
allowed (creates addr) s = is_unused addr s.io
allowed (posts w malloc) s = is_owner w.binding s && has_room w.binding s.io
allowed (closes a) s = is_owner a s
allowed (puts a) s = is_owner a s && is_shut a s.io
allowed (enables a e) s = is_owner a s
allowed takes s = is_idle s
allowed finishes s = not (is_idle s)
allowed stops s = true
allowed (fails e) s = true

abbrev pub owned : System → IoCtx → Result ℕ → System
owned s io (ok a) = record s { io = io; owners = a ∷ s.owners }
owned s io (err e) = record s { io = io }

abbrev pub noted : System → ℕ → IoCtx → Bool → System
noted s arg io true = record s { io = io; posted = arg ∷ s.posted; released = arg ∷ s.released }
noted s arg io false = record s { io = io; posted = arg ∷ s.posted }

abbrev pub taken : System → IoCtx → Option (IoWork × Bool) → System
taken s io none = record s { io = io }
taken s io (some (w, opened)) = record s { io = io; running = some w }

abbrev pub args : List IoWork → List ℕ
args = map (λ (w : IoWork). w.arg)

-- `none` is a BUG_ON or the use of a binding that is not allocated.
unfoldable pub perform : Event → System → Option System
unfolding binding_create binding_post binding_close binding_put binding_set_enabled run_take forget
    ctx_stop ctx_fail
perform (creates addr) s = some (owned s (binding_create addr s.io).0 (binding_create addr s.io).1)
perform (posts w malloc) s = elim (binding_post w malloc s.io) [
  | none ↦ none
  | some (io, ret, now) ↦ some (noted s w.arg io now)
]
perform (closes a) s = elim (binding_close a s.io) [
  | none ↦ none
  | some (io, cancelled) ↦ some (record s { io = io; released = args cancelled ++ s.released })
]
perform (puts a) s = elim (binding_put a s.io) [
  | none ↦ none
  | some io ↦ some (record s { io = io; owners = forget a s.owners })
]
perform (enables a e) s = some (record s { io = binding_set_enabled a e s.io })
perform takes s = some (taken s (run_take s.io).0 (run_take s.io).1)
perform finishes s = elim s.running [
  | none ↦ some s
  | some w ↦ elim (run_finish w s.io) [
    | none ↦ none
    | some io ↦ some (record s { io = io; running = none; released = w.arg ∷ s.released })
  ]
]
perform stops s = some (record s { io = ctx_stop s.io })
perform (fails e) s = some (record s { io = (ctx_fail e s.io).0 })

unfoldable pub step : Event → System → Option System
unfolding allowed perform
step e s = if allowed e s then perform e s else some s

unfoldable pub run : List Event → System → Option System
unfolding step
run [] s = some s
run (e ∷ es) s = elim (step e s) [ none ↦ none | some s' ↦ run es s' ]
