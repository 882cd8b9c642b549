-- ===== src/Vm/Reported.antt =====
-- The errors that are recorded in a whole run, in the order of their recording.
use modvm.Prelude.{
  ℕ, zero, suc, ◌≡◌, refl, ap, ◌∙◌, Bool, true, false, List, [], ◌∷◌, ◌++◌, Option, none, some,
  length, ◌||◌, ◌&&◌, not, arith, if◌then◌else◌,
}
use modvm.Prelude.Errno.{enomem}
use modvm.Vm.{
  Vm, Around, Run, first_error, request_shutdown, report_error, events, join_loop, run_cleanup,
  start, finish, give_up,
}
use modvm.Vm.Keeps.{request_shutdown-Keeps, report_error-Keeps}
use modvm.Vm.Recorded.{
  first_of, Hears, Hears-nil, Hears-append, kick_errors, wake-Hears, events_errors, events-Hears,
}
use modvm.Vm.Launched.{start_errors, start-Hears}

abbrev report_errors : (ℕ → Option ℕ) → List (Option ℕ) → ℕ → List ℕ
report_errors kick ts zero = []
report_errors kick ts (suc e) = suc e ∷ kick_errors kick 0 ts

request_shutdown-Hears :
    (kick : ℕ → Option ℕ) (vm : Vm)
    → Hears (kick_errors kick 0 vm.vcpu_threads) vm.run_error (request_shutdown kick vm).0.run_error
unfolding request_shutdown
request_shutdown-Hears kick vm = wake-Hears kick (record vm { stop_requested = true })

report_error-Hears :
    (kick : ℕ → Option ℕ) (vm : Vm) (e : ℕ)
    → Hears (report_errors kick vm.vcpu_threads e) vm.run_error (report_error kick vm e).0.run_error
unfolding report_error
report_error-Hears kick vm zero = Hears-nil vm.run_error
report_error-Hears kick vm (suc e) =
    let now : Vm = record vm { run_error = first_error vm.run_error (suc e) } in
    Hears-append (suc e ∷ []) (kick_errors kick 0 vm.vcpu_threads) vm.run_error now.run_error
      (request_shutdown kick now).0.run_error refl (request_shutdown-Hears kick now)

last_branch :
    (b c : Bool) (x y : List ℕ) → b ≡ false → c ≡ false → y ≡ (if b then [] else if c then x else y)
last_branch b c x y e f = rw (e, f) refl

module _ (a : Around) where
  -- What the other threads record while one is joined that is out of the array already.
  abbrev join_errors : List (Option ℕ) → List (Option ℕ) → List ℕ
  join_errors before [] = []
  join_errors before (none ∷ ts) = join_errors (before ++ none ∷ []) ts
  join_errors before (some t ∷ ts) =
      events_errors (before ++ none ∷ ts) (a.at_join (length before))
      ++ join_errors (before ++ none ∷ []) ts

  join_loop-Hears :
      (before ts : List (Option ℕ)) (vm : Vm)
      → Hears (join_errors before ts) vm.run_error (join_loop a before ts vm).0.run_error
  unfolding join_loop
  join_loop-Hears before [] vm = Hears-nil vm.run_error
  join_loop-Hears before (none ∷ ts) vm = join_loop-Hears (before ++ none ∷ []) ts vm
  join_loop-Hears before (some t ∷ ts) vm =
      let now : Vm = record vm { vcpu_threads = before ++ none ∷ ts } in
      let next : Vm = (events (a.at_join (length before)) now).0 in
      Hears-append (events_errors now.vcpu_threads (a.at_join (length before)))
        (join_errors (before ++ none ∷ []) ts) vm.run_error next.run_error
        (join_loop a (before ++ none ∷ []) ts next).0.run_error
        (events-Hears (a.at_join (length before)) now)
        (join_loop-Hears (before ++ none ∷ []) ts next)

  abbrev cleanup_errors : List (Option ℕ) → List ℕ
  cleanup_errors ts = kick_errors a.kick 0 ts ++ join_errors [] ts

  run_cleanup-Hears :
      (vm : Vm) → Hears (cleanup_errors vm.vcpu_threads) vm.run_error (run_cleanup a vm).0.run_error
  unfolding run_cleanup
  run_cleanup-Hears vm =
      let now : Vm = (request_shutdown a.kick vm).0 in
      let threads = (request_shutdown-Keeps a.kick vm).threads in
      Hears-append (kick_errors a.kick 0 vm.vcpu_threads) (join_errors [] vm.vcpu_threads)
        vm.run_error now.run_error (join_loop a [] now.vcpu_threads now).0.run_error
        (request_shutdown-Hears a.kick vm)
        (join_loop-Hears [] now.vcpu_threads now
          ∙ ap (λ ts. first_error now.run_error (first_of (join_errors [] ts))) threads)

  -- From the label `out` on.
  abbrev finish_errors : Run → List ℕ
  finish_errors r = report_errors a.kick r.vm.vcpu_threads r.ret ++ cleanup_errors r.vm.vcpu_threads

  -- Of a run: what the other threads record, what their kicks and those of the run return, and the
  -- error of the part of the run that failed.
  abbrev pub run_errors : Vm → List ℕ
  run_errors vm =
      if vm.stop_requested
      then []
      else if not a.calloc || not a.action
      then report_errors a.kick vm.vcpu_threads enomem
      else start_errors a vm ++ finish_errors (start a vm)

  finish-Hears : (r : Run) → Hears (finish_errors r) r.vm.run_error (finish a r).ret
  unfolding finish
  finish-Hears r =
      let now : Vm = (report_error a.kick r.vm r.ret).0 in
      let threads = (report_error-Keeps a.kick r.vm r.ret).threads in
      Hears-append (report_errors a.kick r.vm.vcpu_threads r.ret) (cleanup_errors r.vm.vcpu_threads)
        r.vm.run_error now.run_error (run_cleanup a now).0.run_error
        (report_error-Hears a.kick r.vm r.ret)
        (run_cleanup-Hears now
          ∙ ap (λ ts. first_error now.run_error (first_of (cleanup_errors ts))) threads)

  pub run_errors_stopped :
      (vm : Vm) → vm.stop_requested ≡ true → Hears (run_errors vm) vm.run_error vm.run_error
  run_errors_stopped vm e = rw e (Hears-nil vm.run_error)

  pub give_up-Hears :
      (vm : Vm)
      → vm.stop_requested ≡ false
      → (a.calloc && a.action) ≡ false
      → Hears (run_errors vm) vm.run_error (give_up a vm).ret
  unfolding give_up
  give_up-Hears vm e short =
      let no : (not a.calloc || not a.action) ≡ true = ground arith in
      rw (e, no) (report_error-Hears a.kick vm enomem)

  pub finish-start-Hears :
      (vm : Vm)
      → vm.stop_requested ≡ false
      → (a.calloc && a.action) ≡ true
      → Hears (run_errors vm) vm.run_error (finish a (start a vm)).ret
  finish-start-Hears vm e enough =
      let yes : (not a.calloc || not a.action) ≡ false = ground arith in
      let s : Run = start a vm in
      let all = start_errors a vm ++ finish_errors s in
      Hears-append (start_errors a vm) (finish_errors s) vm.run_error s.vm.run_error
        (finish a s).ret (start-Hears a vm) (finish-Hears s)
      ∙ ap (λ es. first_error vm.run_error (first_of es))
          (last_branch vm.stop_requested (not a.calloc || not a.action)
            (report_errors a.kick vm.vcpu_threads enomem) all e yes)
