-- ===== src/Vm/Keeps.antt =====
-- What the steps of other threads, and the requests to stop, leave as it is.
use modvm.Prelude.{
  ℕ, zero, suc, ◌+◌, ◌≡◌, ◌≢◌, refl, sym, ap, ◌∙◌, Bool, true, List, [], ◌∷◌, ◌++◌, Option, none,
  some, arith, Option-cases, inl, inr,
}
use modvm.Vm.{
  Vm, VmCall, creates, kicks, joins, destroys, stops_io, Event, records, asks_stop, wakes,
  first_error, kick_all, wake, request_shutdown, report_error, event, events, Flag, apply_flags,
}

-- The threads that calls create, and those that they join, in order.
abbrev pub created : List VmCall → List ℕ
created [] = []
created (creates i t ∷ cs) = t ∷ created cs
created (_ ∷ cs) = created cs

abbrev pub joined : List VmCall → List ℕ
joined [] = []
joined (joins t ∷ cs) = t ∷ joined cs
joined (_ ∷ cs) = joined cs

pub created-append : (a b : List VmCall) → created (a ++ b) ≡ created a ++ created b
created-append [] b = refl
created-append (creates i t ∷ a) b = ap (λ x. t ∷ x) (created-append a b)
created-append (kicks i t ∷ a) b = created-append a b
created-append (joins t ∷ a) b = created-append a b
created-append (destroys t ∷ a) b = created-append a b
created-append (stops_io ∷ a) b = created-append a b

pub joined-append : (a b : List VmCall) → joined (a ++ b) ≡ joined a ++ joined b
joined-append [] b = refl
joined-append (creates i t ∷ a) b = joined-append a b
joined-append (kicks i t ∷ a) b = joined-append a b
joined-append (joins t ∷ a) b = ap (λ x. t ∷ x) (joined-append a b)
joined-append (destroys t ∷ a) b = joined-append a b
joined-append (stops_io ∷ a) b = joined-append a b

-- No thread is created and none is joined.
abbrev pub IsQuiet : List VmCall → Type 0
IsQuiet cs = (created cs ≡ []) × (joined cs ≡ [])

pub append-IsQuiet : (a b : List VmCall) → IsQuiet a → IsQuiet b → IsQuiet (a ++ b)
append-IsQuiet a b (c, j) (c', j') = (
  created-append a b ∙ ap (λ x. x ++ created b) c ∙ c',
  joined-append a b ∙ ap (λ x. x ++ joined b) j ∙ j',
)

-- A request to stop is not taken back, and the first error stays.
pub record Sticks (f g : Bool × ℕ) : Type 0 where
  pub stop : f.0 ≡ true → g.0 ≡ true
  pub error : f.1 ≢ 0 → g.1 ≡ f.1

abbrev pub flags_of : Vm → Bool × ℕ
flags_of vm = (vm.stop_requested, vm.run_error)

pub Sticks-trans : (f g h : Bool × ℕ) → Sticks f g → Sticks g h → Sticks f h
Sticks-trans f g h a b = record {
  stop = λ e. b.stop (a.stop e);
  error = λ n. let same = a.error n in b.error (λ z. n (sym same ∙ z)) ∙ same;
}

pub first_error-Sticks : (s : Bool) (e n : ℕ) → Sticks (s, e) (s, first_error e n)
first_error-Sticks s zero n = record { stop = λ e. e; error = λ z. absurd (z refl) }
first_error-Sticks s (suc e) n = record { stop = λ e. e; error = λ z. refl }

first_error_some : (e n : ℕ) → first_error e (suc n) ≢ 0
first_error_some zero n z = omega arith
first_error_some (suc e) n z = omega arith

pub record Keeps (vm : Vm) (r : Vm × List VmCall) : Type 0 where
  pub threads : r.0.vcpu_threads ≡ vm.vcpu_threads
  pub flags : Sticks (flags_of vm) (flags_of r.0)
  pub quiet : IsQuiet r.1

kick_all-IsQuiet :
    (kick : ℕ → Option ℕ) (i : ℕ) (ts : List (Option ℕ)) (e : ℕ) → IsQuiet (kick_all kick i ts e).1
unfolding kick_all
kick_all-IsQuiet kick i [] e = (refl, refl)
kick_all-IsQuiet kick i (none ∷ ts) e = kick_all-IsQuiet kick (i + 1) ts e
kick_all-IsQuiet kick i (some t ∷ ts) e = elim (Option-cases (kick i)) [
  | inl n ↦ rw (n, kick_all) (kick_all-IsQuiet kick (i + 1) ts e)
  | inr (ret, k) ↦ rw (k, kick_all) (kick_all-IsQuiet kick (i + 1) ts (first_error e ret))
]

kick_all-Sticks :
    (kick : ℕ → Option ℕ) (i : ℕ) (ts : List (Option ℕ)) (s : Bool) (e : ℕ)
    → Sticks (s, e) (s, (kick_all kick i ts e).0)
unfolding kick_all
kick_all-Sticks kick i [] s e = record { stop = λ e. e; error = λ z. refl }
kick_all-Sticks kick i (none ∷ ts) s e = kick_all-Sticks kick (i + 1) ts s e
kick_all-Sticks kick i (some t ∷ ts) s e = elim (Option-cases (kick i)) [
  | inl n ↦ rw (n, kick_all) (kick_all-Sticks kick (i + 1) ts s e)
  | inr (ret, k) ↦
      rw (k, kick_all)
        (Sticks-trans (s, e) (s, first_error e ret) _ (first_error-Sticks s e ret)
          (kick_all-Sticks kick (i + 1) ts s (first_error e ret)))
]

pub wake-Keeps : (kick : ℕ → Option ℕ) (vm : Vm) → Keeps vm (wake kick vm)
unfolding wake
wake-Keeps kick vm = record {
  threads = refl;
  flags = kick_all-Sticks kick 0 vm.vcpu_threads vm.stop_requested vm.run_error;
  quiet = kick_all-IsQuiet kick 0 vm.vcpu_threads vm.run_error;
}

pub request_shutdown-Keeps : (kick : ℕ → Option ℕ) (vm : Vm) → Keeps vm (request_shutdown kick vm)
unfolding request_shutdown
request_shutdown-Keeps kick vm =
    let k = wake-Keeps kick (record vm { stop_requested = true }) in
    record {
      threads = k.threads;
      flags = record { stop = λ e. k.flags.stop refl; error = k.flags.error };
      quiet =
          append-IsQuiet (wake kick (record vm { stop_requested = true })).1 (stops_io ∷ []) k.quiet
            (refl, refl);
    }

pub request_shutdown-stops :
    (kick : ℕ → Option ℕ) (vm : Vm) → (request_shutdown kick vm).0.stop_requested ≡ true
unfolding request_shutdown wake
request_shutdown-stops kick vm = refl

pub report_error-Keeps : (kick : ℕ → Option ℕ) (vm : Vm) (e : ℕ) → Keeps vm (report_error kick vm e)
unfolding report_error
report_error-Keeps kick vm zero = record {
  threads = refl;
  flags = record { stop = λ e. e; error = λ z. refl };
  quiet = (refl, refl);
}
report_error-Keeps kick vm (suc e) =
    let now = record vm { run_error = first_error vm.run_error (suc e) } in
    let k = request_shutdown-Keeps kick now in
    record {
      threads = k.threads;
      flags =
          Sticks-trans (flags_of vm) (flags_of now) _
            (first_error-Sticks vm.stop_requested vm.run_error (suc e)) k.flags;
      quiet = k.quiet;
    }

event-Keeps : (x : Event) (vm : Vm) → Keeps vm (event x vm)
unfolding event
event-Keeps (records e) vm = record {
  threads = refl;
  flags = first_error-Sticks vm.stop_requested vm.run_error e;
  quiet = (refl, refl);
}
event-Keeps asks_stop vm = record {
  threads = refl;
  flags = record { stop = λ e. refl; error = λ z. refl };
  quiet = (refl, refl);
}
event-Keeps (wakes kick) vm = wake-Keeps kick vm

pub events-Keeps : (xs : List Event) (vm : Vm) → Keeps vm (events xs vm)
unfolding events
events-Keeps [] vm = record {
  threads = refl;
  flags = record { stop = λ e. e; error = λ z. refl };
  quiet = (refl, refl);
}
events-Keeps (x ∷ xs) vm =
    let first = event-Keeps x vm in
    let others = events-Keeps xs (event x vm).0 in
    record {
      threads = others.threads ∙ first.threads;
      flags = Sticks-trans (flags_of vm) (flags_of (event x vm).0) _ first.flags others.flags;
      quiet = append-IsQuiet (event x vm).1 (events xs (event x vm).0).1 first.quiet others.quiet;
    }

pub apply_flags-Sticks : (xs : List Flag) (f : Bool × ℕ) → Sticks f (apply_flags xs f)
apply_flags-Sticks [] f = record { stop = λ e. e; error = λ z. refl }
apply_flags-Sticks (Flag.records n ∷ xs) (s, e) =
    Sticks-trans (s, e) (s, first_error e n) _ (first_error-Sticks s e n)
      (apply_flags-Sticks xs (s, first_error e n))
apply_flags-Sticks (Flag.asks_stop ∷ xs) (s, e) =
    Sticks-trans (s, e) (true, e) _ (record { stop = λ e. refl; error = λ z. refl })
      (apply_flags-Sticks xs (true, e))

pub report_error-error :
    (kick : ℕ → Option ℕ) (vm : Vm) (e : ℕ) → e ≢ 0 → (report_error kick vm e).0.run_error ≢ 0
unfolding report_error
report_error-error kick vm zero n z = n refl
report_error-error kick vm (suc e) n z =
    let now = record vm { run_error = first_error vm.run_error (suc e) } in
    let some_error = first_error_some vm.run_error e in
    some_error (sym ((request_shutdown-Keeps kick now).flags.error some_error) ∙ z)
