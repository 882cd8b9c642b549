-- ===== src/Vm/Stops.antt =====
-- A run of the VM ends with every thread joined.
use modvm.Prelude.{
  ◌≡◌, ◌≢◌, ◌⊎◌, inl, inr, refl, sym, ap, subst, ◌∙◌, true, false, ◌&&◌, List, [], ◌∷◌, ◌++◌, arith,
  Bool-cases, not, ◌||◌,
}
use modvm.Prelude.Errno.{enomem}
use mathlib.Core.List.{append-nil, append_assoc}
use modvm.AddRam.{VmState}
use modvm.Vm.{
  Vm, VmCall, stops_io, Around, Run, first_error, request_shutdown, report_error, start,
  run_cleanup, finish, give_up, run,
}
use modvm.Vm.Keeps.{
  created, joined, created-append, joined-append, append-IsQuiet, Sticks-trans, flags_of, Keeps,
  wake-Keeps, request_shutdown-stops, report_error-Keeps, report_error-error,
}
use modvm.Vm.Started.{live, Started, start-Started}
use modvm.Vm.Recorded.{first_of}
use modvm.Vm.Reported.{run_errors, run_errors_stopped, give_up-Hears, finish-start-Hears}
use modvm.Vm.Cleaned.{Cleaned, run_cleanup-Cleaned}

-- No thread is joined before a stop of the I/O context, and none is created afterwards; those that
-- were created are joined then, each once and in order.
abbrev pub IsOrdered : List VmCall → Type 0
IsOrdered calls =
    (before : List VmCall) × (later : List VmCall) × (calls ≡ before ++ stops_io ∷ later)
    × (joined before ≡ [])
    × (created later ≡ [])
    × (joined later ≡ created before)

module _ (a : Around) where
  finish_order :
      (vm : Vm) (s : Run) (reported : Vm × List VmCall) (cleaned : Vm × List VmCall)
      → Started a vm s
      → Keeps s.vm reported
      → Cleaned a reported.0 cleaned
      → IsOrdered (s.calls ++ (reported.1 ++ cleaned.1))
  finish_order vm s reported cleaned st k c =
      let quiet = append-IsQuiet reported.1 c.kicked k.quiet c.quiet in
      let rest = stops_io ∷ c.later in
      let before = s.calls ++ (reported.1 ++ c.kicked) in
      let all : created before ≡ created s.calls =
        created-append s.calls (reported.1 ++ c.kicked)
        ∙ ap (λ x. created s.calls ++ x) quiet.0
        ∙ append-nil (created s.calls) in
      (
        before,
        c.later,
        ap (λ x. s.calls ++ (reported.1 ++ x)) c.parts
            ∙ ap (λ x. s.calls ++ x) (sym (append_assoc reported.1 c.kicked rest))
            ∙ sym (append_assoc s.calls (reported.1 ++ c.kicked) rest),
        joined-append s.calls (reported.1 ++ c.kicked)
            ∙ ap (λ x. x ++ joined (reported.1 ++ c.kicked)) st.apart
            ∙ quiet.1,
        c.creates_none,
        c.joins_all ∙ ap live k.threads ∙ st.threads ∙ sym all,
      )

  record Finished (vm : Vm) (s : Run) (r : Run) : Type 0 where
    ended : r.vm.state ≡ VmState.stopped
    stop : r.vm.stop_requested ≡ true
    idle : live r.vm.vcpu_threads ≡ []
    order : IsOrdered r.calls
    returns : r.ret ≡ r.vm.run_error
    first : vm.run_error ≢ 0 → r.ret ≡ vm.run_error
    blames : s.ret ≢ 0 → r.ret ≢ 0

  finish-Finished : (vm : Vm) (s : Run) → Started a vm s → Finished vm s (finish a s)
  unfolding finish
  finish-Finished vm s st =
      let r = report_error a.kick s.vm s.ret in
      let k = report_error-Keeps a.kick s.vm s.ret in
      let c = run_cleanup-Cleaned a r.0 in
      let sticks = Sticks-trans (flags_of vm) (flags_of s.vm) _ st.flags (
        Sticks-trans (flags_of s.vm) (flags_of r.0) (flags_of (run_cleanup a r.0).0) k.flags
          c.flags) in
      record {
        ended = c.ended;
        stop = c.stop;
        idle = c.idle;
        order = finish_order vm s r (run_cleanup a r.0) st k c;
        returns = refl;
        first = sticks.error;
        blames = λ n z.
            let some_error = report_error-error a.kick s.vm s.ret n in
            some_error (sym (c.flags.error some_error) ∙ z);
      }

  give_up-Ordered : (vm : Vm) → IsOrdered (give_up a vm).calls
  unfolding give_up report_error request_shutdown
  give_up-Ordered vm =
      let k =
        wake-Keeps a.kick
          (record vm { stop_requested = true; run_error = first_error vm.run_error enomem }) in
      (_, [], refl, k.quiet.1, refl, sym k.quiet.0)

  give_up-Finished :
      (vm : Vm) → live vm.vcpu_threads ≡ [] → Finished vm (give_up a vm) (give_up a vm)
  unfolding give_up
  give_up-Finished vm idle =
      let k = report_error-Keeps a.kick vm enomem in
      record {
        ended = refl;
        stop =
            request_shutdown-stops a.kick
              (record vm { run_error = first_error vm.run_error enomem });
        idle = ap live k.threads ∙ idle;
        order = give_up-Ordered vm;
        returns = refl;
        first = k.flags.error;
        blames = λ n. n;
      }

  give_up-error : (vm : Vm) → (give_up a vm).ret ≢ 0
  unfolding give_up
  give_up-error vm = report_error-error a.kick vm enomem (λ x. (omega arith))

  -- How a run that was ready has ended, the exits before the cleanup is registered included.
  pub record Stopped (vm : Vm) (r : Run) : Type 0 where
    pub ended : r.vm.state ≡ VmState.stopped
    pub stop : r.vm.stop_requested ≡ true
    pub idle : live r.vm.vcpu_threads ≡ []
    pub order : ((vm.stop_requested ≡ true) × (r.calls ≡ [])) ⊎ IsOrdered r.calls
    pub returns : r.ret ≡ r.vm.run_error
    pub first : vm.run_error ≢ 0 → r.ret ≡ vm.run_error
    pub hears : r.ret ≡ first_of (vm.run_error ∷ run_errors a vm)
    pub blames :
        vm.stop_requested ≡ false
        → ((a.calloc && a.action) ≡ false) ⊎ ((start a vm).ret ≢ 0)
        → r.ret ≢ 0

  run_stopped :
      (vm : Vm)
      → vm.state ≡ VmState.ready
      → vm.stop_requested ≡ true
      → run a vm
        ≡ record { vm = record vm { state = VmState.stopped }; ret = vm.run_error; calls = [] }
  unfolding run
  run_stopped vm ready e = rw (ready, run) (rw (e, run) refl)

  run_gives_up :
      (vm : Vm)
      → vm.state ≡ VmState.ready
      → vm.stop_requested ≡ false
      → (a.calloc && a.action) ≡ false
      → run a vm ≡ give_up a vm
  unfolding run
  run_gives_up vm ready e short =
      let no : (not a.calloc || not a.action) ≡ true = ground arith in
      rw (ready, run) (rw (e, run) (rw (no, run) refl))

  run_finishes :
      (vm : Vm)
      → vm.state ≡ VmState.ready
      → vm.stop_requested ≡ false
      → (a.calloc && a.action) ≡ true
      → run a vm ≡ finish a (start a vm)
  unfolding run
  run_finishes vm ready e enough =
      let yes : (not a.calloc || not a.action) ≡ false = ground arith in
      rw (ready, run) (rw (e, run) (rw (yes, run) refl))

  -- A run of a VM that is ready and has no thread ends, whatever the hooks, the creation of threads and
  -- the I/O context return and whatever the other threads do meanwhile. The VM is stopped, and was
  -- asked to stop; no thread is left, for each that was created was joined once and in order, after
  -- the I/O context was stopped and when no more are created. The run returns the first of the errors
  -- in the order of their recording: the one from before the run, and then those that the other
  -- threads record while it starts, boots, creates threads, runs the I/O context and joins, those that
  -- the kicks of running threads return, and that of the part which has failed. It does not return 0
  -- when one of its own parts has failed.
  pub run-Stopped :
      (vm : Vm) → vm.state ≡ VmState.ready → live vm.vcpu_threads ≡ [] → Stopped vm (run a vm)
  run-Stopped vm ready idle = elim (Bool-cases vm.stop_requested) [
    | inl e ↦ subst (Stopped vm) (sym (run_stopped vm ready e)) (record {
      ended = refl;
      stop = e;
      idle = idle;
      order = inl (e, refl);
      returns = refl;
      first = λ n. refl;
      hears = run_errors_stopped a vm e;
      blames = λ f. absurd (cc);
    })
    | inr e ↦ elim (Bool-cases (a.calloc && a.action)) [
      | inl enough ↦
          let f = finish-Finished vm (start a vm) (start-Started a vm idle) in
          subst (Stopped vm) (sym (run_finishes vm ready e enough)) (record {
            ended = f.ended;
            stop = f.stop;
            idle = f.idle;
            order = inr f.order;
            returns = f.returns;
            first = f.first;
            hears = finish-start-Hears a vm e enough;
            blames = λ z w. elim w [ inl short ↦ absurd (cc) | inr n ↦ f.blames n ];
          })
      | inr short ↦
          let f = give_up-Finished vm idle in
          subst (Stopped vm) (sym (run_gives_up vm ready e short)) (record {
            ended = f.ended;
            stop = f.stop;
            idle = f.idle;
            order = inr f.order;
            returns = f.returns;
            first = f.first;
            hears = give_up-Hears a vm e short;
            blames = λ z w. give_up-error vm;
          })
    ]
  ]
