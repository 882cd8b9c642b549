-- ===== src/Vm/Launched.antt =====
-- The errors that are recorded up to the exit of a run, in the order of their recording.
use modvm.Vm.Recorded.{
  Hears, Hears-nil, Hears-append, events_errors, flag_errors, is_asked, events-Hears,
  apply_flags-Hears, apply_flags-is_asked, first_of,
}
use modvm.Prelude.{
  ℕ, ◌+◌, ◌≡◌, sym, ap, ◌∙◌, Bool, List, [], ◌∷◌, ◌++◌, Option, none, some, Bool-cases, inl, inr,
  ◌!=◌, if◌then◌else◌,
}
use modvm.Prelude.Errno.{ok, err}
use modvm.AddRam.{VmState}
use modvm.Vm.{Vm, VmCall, first_error, events, apply_flags, Around, spawn, launch, boot_up, start}
use modvm.Vm.Keeps.{flags_of}
use modvm.Vm.Started.{Result-cases}

module _ (a : Around) where
  -- While the threads are started, up to a stop or a creation that fails.
  abbrev spawn_errors : ℕ → List (Option ℕ) → Bool → List ℕ
  spawn_errors i [] stop = []
  spawn_errors i (t ∷ ts) stop =
      let rest = spawn_errors (i + 1) ts (is_asked stop (a.at_spawn i)) in
      flag_errors (a.at_spawn i)
      ++ (if is_asked stop (a.at_spawn i)
          then []
          else elim (a.create i) [ err e ↦ [] | ok h ↦ rest ])

  spawn-Hears :
      (i : ℕ) (ts : List (Option ℕ)) (f : Bool × ℕ)
      → Hears (spawn_errors i ts f.0) f.1 (spawn a i ts f).1.1
  unfolding spawn
  spawn-Hears i [] f = Hears-nil f.1
  spawn-Hears i (t ∷ ts) f =
      let f' : Bool × ℕ = apply_flags (a.at_spawn i) f in
      let asked : f'.0 ≡ is_asked f.0 (a.at_spawn i) = apply_flags-is_asked (a.at_spawn i) f in
      let flags = apply_flags-Hears (a.at_spawn i) f in
      let own = flag_errors (a.at_spawn i) in
      let none_left = Hears-append own [] f.1 f'.1 f'.1 flags (Hears-nil f'.1) in
      elim (Bool-cases f'.0) [
        | inl e ↦ rw (e, sym asked ∙ e) none_left
        | inr e ↦ elim (Result-cases (a.create i)) [
          | inl (x, c) ↦ rw (e, sym asked ∙ e, c) none_left
          | inr (h, c) ↦
              rw (e, sym asked ∙ e, c)
                (Hears-append own (spawn_errors (i + 1) ts (is_asked f.0 (a.at_spawn i))) f.1 f'.1
                  (spawn a (i + 1) ts f').1.1 flags
                  (spawn-Hears (i + 1) ts f'
                    ∙ ap (λ b. first_error f'.1 (first_of (spawn_errors (i + 1) ts b))) asked))
        ]
      ]

  abbrev spawned : Vm → List (Option ℕ) × (Bool × ℕ) × ℕ × List VmCall
  spawned vm = spawn a 0 vm.vcpu_threads (flags_of vm)

  abbrev launched : Vm → Vm
  launched vm =
      let s = spawned vm in
      record vm { stop_requested = s.1.0; run_error = s.1.1; vcpu_threads = s.0 }

  -- The threads are started, and where that succeeded the I/O context runs.
  abbrev launch_errors : Vm → List ℕ
  launch_errors vm =
      spawn_errors 0 vm.vcpu_threads vm.stop_requested
      ++ (if (spawned vm).2 != 0 then [] else events_errors (spawned vm).0 a.at_io)

  launch-Hears : (vm : Vm) → Hears (launch_errors vm) vm.run_error (launch a vm).vm.run_error
  unfolding launch
  launch-Hears vm =
      let own = spawn_errors 0 vm.vcpu_threads vm.stop_requested in
      let now = launched vm in
      let first = spawn-Hears 0 vm.vcpu_threads (flags_of vm) in
      elim (Bool-cases ((spawned vm).2 != 0)) [
        | inl e ↦ rw e (
            Hears-append own [] vm.run_error now.run_error now.run_error first
              (Hears-nil now.run_error))
        | inr e ↦ rw e (
            Hears-append own (events_errors now.vcpu_threads a.at_io) vm.run_error now.run_error
              (events a.at_io now).0.run_error first (events-Hears a.at_io now))
      ]

  abbrev boot_errors : Option ℕ → Vm → List ℕ
  boot_errors none vm = launch_errors vm
  boot_errors (some ret) vm =
      events_errors vm.vcpu_threads a.at_boot
      ++ (if ret != 0 then [] else launch_errors (events a.at_boot vm).0)

  boot_up-Hears :
      (hook : Option ℕ) (vm : Vm)
      → Hears (boot_errors hook vm) vm.run_error (boot_up a hook vm).vm.run_error
  unfolding boot_up
  boot_up-Hears none vm = launch-Hears vm
  boot_up-Hears (some ret) vm =
      let own = events_errors vm.vcpu_threads a.at_boot in
      let now : Vm = (events a.at_boot vm).0 in
      let first = events-Hears a.at_boot vm in
      elim (Bool-cases (ret != 0)) [
        | inl e ↦ rw e (
            Hears-append own [] vm.run_error now.run_error now.run_error first
              (Hears-nil now.run_error))
        | inr e ↦ rw e (
            Hears-append own (launch_errors now) vm.run_error now.run_error
              (launch a now).vm.run_error first (launch-Hears now))
      ]

  abbrev running : Vm → Vm
  running vm = (events a.at_start (record vm { state = VmState.running })).0

  -- Until the label `out`, where a stop that was asked for before leads as well.
  abbrev pub start_errors : Vm → List ℕ
  start_errors vm =
      events_errors vm.vcpu_threads a.at_start
      ++ (if (running vm).stop_requested then [] else boot_errors a.boot (running vm))

  pub start-Hears : (vm : Vm) → Hears (start_errors vm) vm.run_error (start a vm).vm.run_error
  unfolding start
  start-Hears vm =
      let own = events_errors vm.vcpu_threads a.at_start in
      let now = running vm in
      let first = events-Hears a.at_start (record vm { state = VmState.running }) in
      elim (Bool-cases now.stop_requested) [
        | inl e ↦ rw e (
            Hears-append own [] vm.run_error now.run_error now.run_error first
              (Hears-nil now.run_error))
        | inr e ↦ rw e (
            Hears-append own (boot_errors a.boot now) vm.run_error now.run_error
              (boot_up a a.boot now).vm.run_error first (boot_up-Hears a.boot now))
      ]
