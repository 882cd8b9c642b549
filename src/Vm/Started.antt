-- ===== src/Vm/Started.antt =====
-- A run of the VM up to its exit: the threads that it has created.
use modvm.Prelude.{
  ℕ, ◌+◌, ◌≡◌, ◌⊎◌, inl, inr, refl, sym, ap, subst, ◌∙◌, Bool, true, false, List, [], ◌∷◌, ◌++◌,
  Option, none, some, Bool-cases, ◌!=◌,
}
use modvm.Prelude.Errno.{Result, ok, err}
use mathlib.Core.List.{append-nil}
use modvm.AddRam.{VmState}
use modvm.Vm.{
  Vm, VmCall, Around, Run, events, apply_flags, spawn, launch, boot_up, start, with_calls,
}
use modvm.Vm.Keeps.{
  created, joined, created-append, joined-append, Sticks, Sticks-trans, flags_of, Keeps,
  events-Keeps, apply_flags-Sticks,
}

-- The handles of the threads that are not joined yet.
abbrev pub live : List (Option ℕ) → List ℕ
live [] = []
live (none ∷ ts) = live ts
live (some t ∷ ts) = t ∷ live ts

pub live-append_none : (a : List (Option ℕ)) → live (a ++ none ∷ []) ≡ live a
live-append_none [] = refl
live-append_none (none ∷ a) = live-append_none a
live-append_none (some t ∷ a) = ap (λ x. t ∷ x) (live-append_none a)

live-append_rest : (a ts : List (Option ℕ)) → live a ≡ [] → live (a ++ ts) ≡ live ts
live-append_rest [] ts e = refl
live-append_rest (none ∷ a) ts e = live-append_rest a ts e
live-append_rest (some t ∷ a) ts e = absurd (cc)

pub Result-cases : (r : Result ℕ) → ((e : ℕ) × (r ≡ err e)) ⊎ ((h : ℕ) × (r ≡ ok h))
Result-cases (err e) = inl (e, refl)
Result-cases (ok h) = inr (h, refl)

module _ (a : Around) where
  abbrev Spawned : Bool × ℕ → List (Option ℕ) × (Bool × ℕ) × ℕ × List VmCall → Type 0
  Spawned f r = (live r.0 ≡ created r.3) × (joined r.3 ≡ []) × Sticks f r.1

  spawn-Spawned :
      (i : ℕ) (ts : List (Option ℕ)) (f : Bool × ℕ) → live ts ≡ [] → Spawned f (spawn a i ts f)
  unfolding spawn
  spawn-Spawned i [] f idle = (refl, refl, record { stop = λ e. e; error = λ z. refl })
  spawn-Spawned i (some t ∷ ts) f idle = absurd (cc)
  spawn-Spawned i (none ∷ ts) f idle =
      let f' = apply_flags (a.at_spawn i) f in
      let seen = apply_flags-Sticks (a.at_spawn i) f in
      elim (Bool-cases f'.0) [
        | inl e ↦ rw (e, spawn) (idle, refl, seen)
        | inr e ↦ elim (Result-cases (a.create i)) [
          | inl (x, c) ↦ rw (e, spawn) (rw (c, spawn) (idle, refl, seen))
          | inr (h, c) ↦
              let (l, j, s) = spawn-Spawned (i + 1) ts f' idle in
              rw (e, spawn) (rw (c, spawn) (ap (λ x. h ∷ x) l, j, Sticks-trans f f' _ seen s))
        ]
      ]

  -- A part of the run up to `out`: the handles in the array are those of the threads it created, and
  -- none is joined.
  pub record Started (vm : Vm) (r : Run) : Type 0 where
    pub threads : live r.vm.vcpu_threads ≡ created r.calls
    pub apart : joined r.calls ≡ []
    pub flags : Sticks (flags_of vm) (flags_of r.vm)

  launch_failed :
      (vm : Vm) (ts : List (Option ℕ)) (f : Bool × ℕ) (ret : ℕ) (made : List VmCall)
      → spawn a 0 vm.vcpu_threads (flags_of vm) ≡ (ts, f, ret, made)
      → (ret != 0) ≡ true
      → launch a vm ≡ record {
        vm = record vm { stop_requested = f.0; run_error = f.1; vcpu_threads = ts };
        ret = ret;
        calls = made;
      }
  unfolding launch
  launch_failed vm ts f ret made e bad = rw (e, launch) (rw (bad, launch) refl)

  launch_runs :
      (vm : Vm) (ts : List (Option ℕ)) (f : Bool × ℕ) (ret : ℕ) (made : List VmCall)
      → spawn a 0 vm.vcpu_threads (flags_of vm) ≡ (ts, f, ret, made)
      → (ret != 0) ≡ false
      → (let io =
            events a.at_io
              (record vm { stop_requested = f.0; run_error = f.1; vcpu_threads = ts }) in
          launch a vm ≡ record { vm = io.0; ret = a.io_run; calls = made ++ io.1 })
  unfolding launch
  launch_runs vm ts f ret made e good = rw (e, launch) (rw (good, launch) refl)

  with_events :
      (vm : Vm) (made : List VmCall) (r : Vm × List VmCall) (v : Vm) (ret : ℕ)
      → Started v (record { vm = vm; ret = ret; calls = made })
      → Keeps vm r
      → (n : ℕ) → Started v (record { vm = r.0; ret = n; calls = made ++ r.1 })
  with_events vm made r v ret s k n = record {
    threads =
        ap live k.threads
        ∙ s.threads
        ∙ sym (
            created-append made r.1
            ∙ ap (λ x. created made ++ x) k.quiet.0
            ∙ append-nil (created made));
    apart = joined-append made r.1 ∙ ap (λ x. x ++ joined r.1) s.apart ∙ k.quiet.1;
    flags = Sticks-trans (flags_of v) (flags_of vm) (flags_of r.0) s.flags k.flags;
  }

  launch-Started : (vm : Vm) → live vm.vcpu_threads ≡ [] → Started vm (launch a vm)
  launch-Started vm idle =
      let s = spawn a 0 vm.vcpu_threads (flags_of vm) in
      let (l, j, k) = spawn-Spawned 0 vm.vcpu_threads (flags_of vm) idle in
      elim (Bool-cases (s.2 != 0)) [
        | inl e ↦
            subst (Started vm) (sym (launch_failed vm s.0 s.1 s.2 s.3 refl e))
              (record { threads = l; apart = j; flags = k })
        | inr e ↦ subst (Started vm) (sym (launch_runs vm s.0 s.1 s.2 s.3 refl e)) (
            with_events
              (record vm { stop_requested = s.1.0; run_error = s.1.1; vcpu_threads = s.0 }) s.3 _ vm
              0 (record { threads = l; apart = j; flags = k }) (events-Keeps a.at_io _) a.io_run)
      ]

  -- The steps of other threads before a part of the run.
  with_calls-Started :
      (vm v : Vm) (r : Vm × List VmCall) (s : Run)
      → Sticks (flags_of v) (flags_of vm)
      → Keeps vm r
      → Started r.0 s
      → Started v (with_calls a r.1 s)
  with_calls-Started vm v r s first k st = record {
    threads =
        st.threads ∙ sym (created-append r.1 s.calls ∙ ap (λ x. x ++ created s.calls) k.quiet.0);
    apart = joined-append r.1 s.calls ∙ ap (λ x. x ++ joined s.calls) k.quiet.1 ∙ st.apart;
    flags =
        Sticks-trans (flags_of v) (flags_of vm) (flags_of s.vm) first
          (Sticks-trans (flags_of vm) (flags_of r.0) (flags_of s.vm) k.flags st.flags);
  }

  quiet-Started :
      (vm v : Vm) (r : Vm × List VmCall) (ret : ℕ)
      → Sticks (flags_of v) (flags_of vm)
      → live vm.vcpu_threads ≡ []
      → Keeps vm r
      → Started v (record { vm = r.0; ret = ret; calls = r.1 })
  quiet-Started vm v r ret first idle k = record {
    threads = ap live k.threads ∙ idle ∙ sym k.quiet.0;
    apart = k.quiet.1;
    flags = Sticks-trans (flags_of v) (flags_of vm) (flags_of r.0) first k.flags;
  }

  pub same : (f : Bool × ℕ) → Sticks f f
  same f = record { stop = λ e. e; error = λ z. refl }

  boot_up-Started :
      (hook : Option ℕ) (vm : Vm) → live vm.vcpu_threads ≡ [] → Started vm (boot_up a hook vm)
  unfolding boot_up
  boot_up-Started none vm idle = launch-Started vm idle
  boot_up-Started (some ret) vm idle =
      let k = events-Keeps a.at_boot vm in
      elim (Bool-cases (ret != 0)) [
        | inl e ↦ rw (e, boot_up) (quiet-Started vm vm _ ret (same _) idle k)
        | inr e ↦
            rw (e, boot_up)
              (with_calls-Started vm vm (events a.at_boot vm) (launch a (events a.at_boot vm).0)
                (same _) k (launch-Started _ (ap live k.threads ∙ idle)))
      ]

  pub start-Started : (vm : Vm) → live vm.vcpu_threads ≡ [] → Started vm (start a vm)
  unfolding start
  start-Started vm idle =
      let now : Vm = record vm { state = VmState.running } in
      let k = events-Keeps a.at_start now in
      elim (Bool-cases (events a.at_start now).0.stop_requested) [
        | inl e ↦ rw (e, start) (quiet-Started now vm _ 0 (same _) idle k)
        | inr e ↦
            rw (e, start)
              (with_calls-Started now vm (events a.at_start now)
                (boot_up a a.boot (events a.at_start now).0) (same _) k
                (boot_up-Started a.boot _ (ap live k.threads ∙ idle)))
      ]
