-- ===== src/Vm/Cleaned.antt =====
-- The exit of a run: the request to stop, and the joins of the threads.
use modvm.Prelude.{
  ℕ, ◌≡◌, refl, ap, ◌∙◌, Bool, true, List, [], ◌∷◌, ◌++◌, Option, none, some, length,
}
use mathlib.Core.List.{append_assoc}
use modvm.AddRam.{VmState}
use modvm.Vm.{
  Vm, VmCall, destroys, stops_io, Around, wake, request_shutdown, events, join_loop, run_cleanup,
}
use modvm.Vm.Keeps.{
  created, joined, created-append, joined-append, IsQuiet, Sticks, Sticks-trans, flags_of,
  wake-Keeps, request_shutdown-stops, request_shutdown-Keeps, events-Keeps,
}
use modvm.Vm.Started.{live, live-append_none}

module _ (a : Around) where
  same : (f : Bool × ℕ) → Sticks f f
  same f = record { stop = λ e. e; error = λ z. refl }

  abbrev Joined : List (Option ℕ) → Vm → Vm × List VmCall → Type 0
  Joined ts vm r =
      (live r.0.vcpu_threads ≡ [])
      × (joined r.1 ≡ live ts)
      × (created r.1 ≡ [])
      × Sticks (flags_of vm) (flags_of r.0)

  join_loop-Joined :
      (before ts : List (Option ℕ)) (vm : Vm)
      → live before ≡ []
      → Joined ts vm (join_loop a before ts vm)
  unfolding join_loop
  join_loop-Joined before [] vm e = (e, refl, refl, same _)
  join_loop-Joined before (none ∷ ts) vm e =
      join_loop-Joined (before ++ none ∷ []) ts vm (live-append_none before ∙ e)
  join_loop-Joined before (some t ∷ ts) vm e =
      let now : Vm = record vm { vcpu_threads = before ++ none ∷ ts } in
      let r = events (a.at_join (length before)) now in
      let k = events-Keeps (a.at_join (length before)) now in
      let (l, j, c, f) =
        join_loop-Joined (before ++ none ∷ []) ts r.0 (live-append_none before ∙ e) in
      let more = (join_loop a (before ++ none ∷ []) ts r.0).1 in
      (
        l,
        ap (λ x. t ∷ x)
            (joined-append r.1 (destroys t ∷ more) ∙ ap (λ x. x ++ joined more) k.quiet.1 ∙ j),
        created-append r.1 (destroys t ∷ more) ∙ ap (λ x. x ++ created more) k.quiet.0 ∙ c,
        Sticks-trans (flags_of vm) (flags_of r.0) _ k.flags f,
      )

  pub record Cleaned (vm : Vm) (r : Vm × List VmCall) : Type 0 where
    pub kicked : List VmCall
    pub later : List VmCall
    pub parts : r.1 ≡ kicked ++ stops_io ∷ later
    pub quiet : IsQuiet kicked
    pub joins_all : joined later ≡ live vm.vcpu_threads
    pub creates_none : created later ≡ []
    pub idle : live r.0.vcpu_threads ≡ []
    pub ended : r.0.state ≡ VmState.stopped
    pub stop : r.0.stop_requested ≡ true
    pub flags : Sticks (flags_of vm) (flags_of r.0)

  pub run_cleanup-Cleaned : (vm : Vm) → Cleaned vm (run_cleanup a vm)
  unfolding run_cleanup
  run_cleanup-Cleaned vm =
      let now : Vm = record vm { stop_requested = true } in
      let k = wake-Keeps a.kick now in
      let s = request_shutdown-Keeps a.kick vm in
      let r = request_shutdown a.kick vm in
      let (l, j, c, f) = join_loop-Joined [] r.0.vcpu_threads r.0 refl in
      let more = (join_loop a [] r.0.vcpu_threads r.0).1 in
      record {
        kicked = (wake a.kick now).1;
        later = more;
        parts = append_assoc (wake a.kick now).1 (stops_io ∷ []) more;
        quiet = k.quiet;
        joins_all = j ∙ ap live s.threads;
        creates_none = c;
        idle = l;
        ended = refl;
        stop = f.stop (request_shutdown-stops a.kick vm);
        flags = Sticks-trans (flags_of vm) (flags_of r.0) _ s.flags f;
      }
