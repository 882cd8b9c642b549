-- ===== src/IoCtx/Tests.antt =====
-- A binding with two works: the first is delivered and closes the binding, which cancels the second.
use modvm.Prelude.{ℕ, ◌≡◌, refl, Bool, true, false, List, [], ◌∷◌, none, some}
use modvm.IoCtx.{
  IoWork, IoWorkKind, IoCtx, run_take, ctx_destroy, get, put_at, free, binding_create, binding_put,
  binding_close, binding_post, of_binding, not_of_binding, put_each, split_runnable, poll, Poll,
  created, ctx_stop,
}
use modvm.IoCtx.System.{
  Event, creates, posts, closes, puts, takes, finishes, stops, System, start, count, forget,
  allowed, perform, step, run,
}
use modvm.IoCtx.Counted.{IsSound}
use modvm.IoCtx.Runs.{run-IsSound, run-ctx_destroy}

abbrev work_with : ℕ → IoWork
work_with d = record { binding = 10; kind = IoWorkKind.io_data; arg = d }

abbrev delivery : List Event
delivery =
    creates (some 10) ∷ posts (work_with 1) true ∷ posts (work_with 2) true ∷ takes ∷ closes 10 ∷ []

abbrev rest_of_life : List Event
rest_of_life =
    creates (some 10)
    ∷ posts (work_with 1) true
    ∷ posts (work_with 2) true
    ∷ takes
    ∷ closes 10
    ∷ posts (work_with 3) true
    ∷ finishes
    ∷ puts 10
    ∷ stops
    ∷ []

abbrev final : System
final = record {
  io = record (created true) { stopped = true };
  owners = [];
  running = none;
  posted = 3 ∷ 2 ∷ 1 ∷ [];
  released = 1 ∷ 3 ∷ 2 ∷ [];
}

ends : run rest_of_life (start true) ≡ some final
unfolding run step allowed perform count forget get put_at free binding_create binding_put
    binding_close binding_post of_binding not_of_binding put_each split_runnable run_take ctx_stop
ends = refl

-- Data waits while its binding is paused.
paused :
    poll (record (created true) {
      work = work_with 1 ∷ [];
      live = record { addr = 10; refs = 2; is_open = true; enabled = false } ∷ [];
    })
    ≡ Poll.waits
unfolding poll split_runnable get
paused = refl

run-IsSound_example :
    (s : System) × (run delivery (start true) ≡ some s)
    × IsSound s
    × ((io : IoCtx) (w : IoWork) (opened : Bool)
        → run_take s.io ≡ (io, some (w, opened))
        → opened ≡ true)
run-IsSound_example = run-IsSound delivery true

run-ctx_destroy_example :
    (ctx_destroy final.io ≡ some tt)
    × (final.io.live ≡ [])
    × ((d : ℕ) → count d final.posted ≡ count d final.released)
unfolding run step allowed perform count forget get put_at free binding_create binding_put
    binding_close binding_post of_binding not_of_binding put_each split_runnable run_take ctx_stop
run-ctx_destroy_example = run-ctx_destroy rest_of_life true final refl refl refl
