-- ===== src/Vm.antt =====
-- src/core/vm.c: the run of a VM. The other threads, which may ask it to stop or report an error at
-- any time, act in steps of their own at the points where `vm_run` can see them.
pub mod Init
pub mod Acquired
pub mod Teardown
pub mod Complete
pub mod Released
pub mod Destroy
pub mod Keeps
pub mod Started
pub mod Cleaned
pub mod Recorded
pub mod Launched
pub mod Reported
pub mod Stops
mod Tests
use modvm.Prelude.{
  ℕ, zero, suc, ◌+◌, Bool, true, false, ◌||◌, not, List, [], ◌∷◌, ◌++◌, Option, none, some, length,
  ◌==◌, ◌!=◌, if◌then◌else◌,
}
use modvm.Prelude.Errno.{einval, enomem, Result, ok, err}
use modvm.AddRam.{VmState}

-- The fields of `struct vm_ctx` for a run; `vcpu_threads` has an entry for each vCPU, and is empty
-- while the array is NULL. An error is its positive number.
pub record Vm : Type 0 where
  pub state : VmState
  pub stop_requested : Bool
  pub run_error : ℕ
  pub vcpu_threads : List (Option ℕ)

-- The calls that leave the VM, with the index of a vCPU and the handle of a thread.
pub data VmCall : Type 0 where
  creates kicks : ℕ → ℕ → VmCall
  joins destroys : ℕ → VmCall
  stops_io : VmCall

-- A step of another thread in `vm_report_error` or `vm_request_shutdown`; `wakes` holds the lock.
pub data Event : Type 0 where
  records : ℕ → Event
  asks_stop : Event
  wakes : (ℕ → Option ℕ) → Event

-- The exchange with an expected 0; an error of 0 is none.
abbrev pub first_error : ℕ → ℕ → ℕ
first_error zero e = e
first_error (suc n) e = suc n

-- The loop of `vm_request_shutdown`: `kick i` is what `kick` returns for vCPU i, `none` without it.
unfoldable pub kick_all : (ℕ → Option ℕ) → ℕ → List (Option ℕ) → ℕ → ℕ × List VmCall
kick_all kick i [] e = (e, [])
kick_all kick i (none ∷ ts) e = kick_all kick (i + 1) ts e
kick_all kick i (some t ∷ ts) e = elim (kick i) [
  | none ↦ kick_all kick (i + 1) ts e
  | some ret ↦
      let (e', made) = kick_all kick (i + 1) ts (first_error e ret) in (e', kicks i t ∷ made)
]

unfoldable pub wake : (ℕ → Option ℕ) → Vm → Vm × List VmCall
unfolding kick_all
wake kick vm =
    let (e, made) = kick_all kick 0 vm.vcpu_threads vm.run_error in
    (record vm { run_error = e }, made)

unfoldable pub request_shutdown : (ℕ → Option ℕ) → Vm → Vm × List VmCall
unfolding wake
request_shutdown kick vm =
    let (vm', made) = wake kick (record vm { stop_requested = true }) in
    (vm', made ++ stops_io ∷ [])

unfoldable pub report_error : (ℕ → Option ℕ) → Vm → ℕ → Vm × List VmCall
unfolding request_shutdown
report_error kick vm zero = (vm, [])
report_error kick vm (suc e) =
    request_shutdown kick (record vm { run_error = first_error vm.run_error (suc e) })

unfoldable pub event : Event → Vm → Vm × List VmCall
unfolding wake
event (records e) vm = (record vm { run_error = first_error vm.run_error e }, [])
event asks_stop vm = (record vm { stop_requested = true }, [])
event (wakes kick) vm = wake kick vm

unfoldable pub events : List Event → Vm → Vm × List VmCall
unfolding event
events [] vm = (vm, [])
events (e ∷ es) vm =
    let (vm', made) = event e vm in let (vm'', more) = events es vm' in (vm'', made ++ more)

-- The steps of other threads that need no lock.
pub data Flag : Type 0 where
  records : ℕ → Flag
  asks_stop : Flag

abbrev pub apply_flag : Flag → Bool × ℕ → Bool × ℕ
apply_flag (Flag.records n) (stop, e) = (stop, first_error e n)
apply_flag Flag.asks_stop (stop, e) = (true, e)

abbrev pub apply_flags : List Flag → Bool × ℕ → Bool × ℕ
apply_flags [] f = f
apply_flags (x ∷ xs) f = apply_flags xs (apply_flag x f)

-- What the code outside the run returns, and what the other threads do meanwhile. `calloc` is the
-- allocation of `run_data` and `action` that of the cleanup's node; `boot` is `none` without the hook;
-- `io_run` is what `io_ctx_run` returns.
pub record Around : Type 0 where
  pub calloc : Bool
  pub action : Bool
  pub boot : Option ℕ
  pub create : ℕ → Result ℕ
  pub io_run : ℕ
  pub kick : ℕ → Option ℕ
  pub at_start : List Event
  pub at_boot : List Event
  pub at_spawn : ℕ → List Flag
  pub at_io : List Event
  pub at_join : ℕ → List Event

-- What a part of the run leaves: the VM, what it returns, and the calls it made.
pub record Run : Type 0 where
  pub vm : Vm
  pub ret : ℕ
  pub calls : List VmCall

module _ (a : Around) where
  -- The loop that starts the threads, from vCPU `i` on, under the lock; the flags are those of the
  -- VM, a stop that is asked for and the first error.
  unfoldable pub spawn :
      ℕ → List (Option ℕ) → Bool × ℕ → List (Option ℕ) × (Bool × ℕ) × ℕ × List VmCall
  spawn i [] f = ([], f, 0, [])
  spawn i (t ∷ ts) f =
      let f' = apply_flags (a.at_spawn i) f in
      let rest = spawn (i + 1) ts f' in
      if f'.0 then (t ∷ ts, f', 0, []) else elim (a.create i) [
        | err e ↦ (none ∷ ts, f', e, [])
        | ok h ↦ (some h ∷ rest.0, rest.1, rest.2, creates i h ∷ rest.3)
      ]

  -- From the lock around that loop up to the label `out`.
  unfoldable pub launch : Vm → Run
  unfolding spawn events
  launch vm =
      let (ts, f, ret, made) = spawn 0 vm.vcpu_threads (vm.stop_requested, vm.run_error) in
      let vm' = record vm { stop_requested = f.0; run_error = f.1; vcpu_threads = ts } in
      let io = events a.at_io vm' in
      if ret != 0
      then record { vm = vm'; ret = ret; calls = made }
      else record { vm = io.0; ret = a.io_run; calls = made ++ io.1 }

  abbrev pub with_calls : List VmCall → Run → Run
  with_calls made r = record r { calls = made ++ r.calls }

  unfoldable pub boot_up : Option ℕ → Vm → Run
  unfolding launch events
  boot_up none vm = launch vm
  boot_up (some ret) vm =
      let (vm', made) = events a.at_boot vm in
      if ret != 0
      then record { vm = vm'; ret = ret; calls = made }
      else with_calls made (launch vm')

  -- From `VM_RUNNING` up to the label `out`.
  unfoldable pub start : Vm → Run
  unfolding boot_up events
  start vm =
      let (vm', made) = events a.at_start (record vm { state = VmState.running }) in
      if vm'.stop_requested
      then record { vm = vm'; ret = 0; calls = made }
      else with_calls made (boot_up a.boot vm')

  -- The loop of `run_cleanup`: `before` are the entries that it has cleared. A join that fails ends
  -- the process, so it is one that succeeds.
  unfoldable pub join_loop : List (Option ℕ) → List (Option ℕ) → Vm → Vm × List VmCall
  unfolding events
  join_loop before [] vm = (record vm { vcpu_threads = before }, [])
  join_loop before (none ∷ ts) vm = join_loop (before ++ none ∷ []) ts vm
  join_loop before (some t ∷ ts) vm =
      let (vm', made) =
        events (a.at_join (length before)) (record vm { vcpu_threads = before ++ none ∷ ts }) in
      let (vm'', more) = join_loop (before ++ none ∷ []) ts vm' in
      (vm'', joins t ∷ (made ++ destroys t ∷ more))

  unfoldable pub run_cleanup : Vm → Vm × List VmCall
  unfolding request_shutdown join_loop
  run_cleanup vm =
      let (vm', made) = request_shutdown a.kick vm in
      let (vm'', more) = join_loop [] vm'.vcpu_threads vm' in
      (record vm'' { state = VmState.stopped }, made ++ more)

  -- From the label `out` on; `run_resources` holds `run_cleanup`.
  unfoldable pub finish : Run → Run
  unfolding report_error run_cleanup
  finish r =
      let (vm, made) = report_error a.kick r.vm r.ret in
      let (vm', more) = run_cleanup vm in
      record { vm = vm'; ret = vm'.run_error; calls = r.calls ++ (made ++ more) }

  -- An exit before the cleanup is registered.
  unfoldable pub give_up : Vm → Run
  unfolding report_error
  give_up vm =
      let (vm', made) = report_error a.kick vm enomem in
      record { vm = record vm' { state = VmState.stopped }; ret = vm'.run_error; calls = made }

  abbrev pub can_run : VmState → Bool
  can_run VmState.ready = true
  can_run _ = false

  -- `vm_run`.
  unfoldable pub run : Vm → Run
  unfolding start finish give_up
  run vm =
      if not (can_run vm.state)
      then record { vm = vm; ret = einval; calls = [] }
      else if vm.stop_requested
      then record { vm = record vm { state = VmState.stopped }; ret = vm.run_error; calls = [] }
      else if not a.calloc || not a.action
      then give_up vm
      else finish (start vm)
