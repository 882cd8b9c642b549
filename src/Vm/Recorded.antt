-- ===== src/Vm/Recorded.antt =====
-- The errors that the other threads record, in the order of their recording.
use modvm.Prelude.{
  ℕ, zero, suc, ◌+◌, ◌≡◌, refl, sym, ap, ◌∙◌, Bool, true, List, [], ◌∷◌, ◌++◌, Option, none, some,
  Option-cases, inl, inr,
}
use modvm.Vm.{
  Vm, Event, records, asks_stop, wakes, first_error, kick_all, wake, event, events, Flag,
  apply_flags,
}

-- The first that is an error.
abbrev pub first_of : List ℕ → ℕ
first_of [] = 0
first_of (e ∷ es) = first_error e (first_of es)

-- Where these errors are recorded in turn, the first that there is stays.
abbrev pub Hears : List ℕ → ℕ → ℕ → Type 0
Hears es before after = after ≡ first_error before (first_of es)

first_error_none : (e : ℕ) → first_error e 0 ≡ e
first_error_none zero = refl
first_error_none (suc e) = refl

first_error_assoc : (x y z : ℕ) → first_error (first_error x y) z ≡ first_error x (first_error y z)
first_error_assoc zero y z = refl
first_error_assoc (suc x) y z = refl

first_of-append : (xs ys : List ℕ) → first_of (xs ++ ys) ≡ first_error (first_of xs) (first_of ys)
first_of-append [] ys = refl
first_of-append (x ∷ xs) ys =
    ap (first_error x) (first_of-append xs ys)
    ∙ sym (first_error_assoc x (first_of xs) (first_of ys))

pub Hears-nil : (e : ℕ) → Hears [] e e
Hears-nil e = sym (first_error_none e)

pub Hears-append : (xs ys : List ℕ) (a b c : ℕ) → Hears xs a b → Hears ys b c → Hears (xs ++ ys) a c
Hears-append xs ys a b c h k =
    k
    ∙ ap (λ x. first_error x (first_of ys)) h
    ∙ first_error_assoc a (first_of xs) (first_of ys)
    ∙ ap (first_error a) (sym (first_of-append xs ys))

Hears-one : (e n : ℕ) → Hears (n ∷ []) e (first_error e n)
Hears-one e n = ap (first_error e) (sym (first_error_none n))

abbrev kick_error : Option ℕ → List ℕ → List ℕ
kick_error none es = es
kick_error (some ret) es = ret ∷ es

-- What the kicks of the threads that run return.
abbrev pub kick_errors : (ℕ → Option ℕ) → ℕ → List (Option ℕ) → List ℕ
kick_errors kick i [] = []
kick_errors kick i (none ∷ ts) = kick_errors kick (i + 1) ts
kick_errors kick i (some t ∷ ts) = kick_error (kick i) (kick_errors kick (i + 1) ts)

abbrev event_errors : List (Option ℕ) → Event → List ℕ
event_errors ts (records e) = e ∷ []
event_errors ts asks_stop = []
event_errors ts (wakes kick) = kick_errors kick 0 ts

abbrev pub events_errors : List (Option ℕ) → List Event → List ℕ
events_errors ts [] = []
events_errors ts (x ∷ xs) = event_errors ts x ++ events_errors ts xs

abbrev pub flag_errors : List Flag → List ℕ
flag_errors [] = []
flag_errors (Flag.records e ∷ xs) = e ∷ flag_errors xs
flag_errors (Flag.asks_stop ∷ xs) = flag_errors xs

abbrev pub is_asked : Bool → List Flag → Bool
is_asked stop [] = stop
is_asked stop (Flag.records e ∷ xs) = is_asked stop xs
is_asked stop (Flag.asks_stop ∷ xs) = is_asked true xs

pub kick_all-Hears :
    (kick : ℕ → Option ℕ) (i : ℕ) (ts : List (Option ℕ)) (e : ℕ)
    → Hears (kick_errors kick i ts) e (kick_all kick i ts e).0
unfolding kick_all
kick_all-Hears kick i [] e = Hears-nil e
kick_all-Hears kick i (none ∷ ts) e = kick_all-Hears kick (i + 1) ts e
kick_all-Hears kick i (some t ∷ ts) e = elim (Option-cases (kick i)) [
  | inl n ↦ rw (n, kick_all) (kick_all-Hears kick (i + 1) ts e)
  | inr (ret, k) ↦
      rw (k, kick_all)
        (kick_all-Hears kick (i + 1) ts (first_error e ret)
          ∙ first_error_assoc e ret (first_of (kick_errors kick (i + 1) ts)))
]

pub wake-Hears :
    (kick : ℕ → Option ℕ) (vm : Vm)
    → Hears (kick_errors kick 0 vm.vcpu_threads) vm.run_error (wake kick vm).0.run_error
unfolding wake
wake-Hears kick vm = kick_all-Hears kick 0 vm.vcpu_threads vm.run_error

event-Hears :
    (x : Event) (vm : Vm)
    → Hears (event_errors vm.vcpu_threads x) vm.run_error (event x vm).0.run_error
unfolding event
event-Hears (records e) vm = Hears-one vm.run_error e
event-Hears asks_stop vm = Hears-nil vm.run_error
event-Hears (wakes kick) vm = wake-Hears kick vm

event-threads : (x : Event) (vm : Vm) → (event x vm).0.vcpu_threads ≡ vm.vcpu_threads
unfolding event wake
event-threads (records e) vm = refl
event-threads asks_stop vm = refl
event-threads (wakes kick) vm = refl

pub events-Hears :
    (xs : List Event) (vm : Vm)
    → Hears (events_errors vm.vcpu_threads xs) vm.run_error (events xs vm).0.run_error
unfolding events
events-Hears [] vm = Hears-nil vm.run_error
events-Hears (x ∷ xs) vm =
    let next : Vm = (event x vm).0 in
    let same = ap (λ ts. events_errors ts xs) (event-threads x vm) in
    Hears-append (event_errors vm.vcpu_threads x) (events_errors vm.vcpu_threads xs) vm.run_error
      next.run_error (events xs next).0.run_error (event-Hears x vm)
      (events-Hears xs next ∙ ap (λ es. first_error next.run_error (first_of es)) same)

pub apply_flags-Hears :
    (xs : List Flag) (f : Bool × ℕ) → Hears (flag_errors xs) f.1 (apply_flags xs f).1
apply_flags-Hears [] f = Hears-nil f.1
apply_flags-Hears (Flag.records e ∷ xs) (s, n) =
    apply_flags-Hears xs (s, first_error n e) ∙ first_error_assoc n e (first_of (flag_errors xs))
apply_flags-Hears (Flag.asks_stop ∷ xs) (s, n) = apply_flags-Hears xs (true, n)

pub apply_flags-is_asked : (xs : List Flag) (f : Bool × ℕ) → (apply_flags xs f).0 ≡ is_asked f.0 xs
apply_flags-is_asked [] f = refl
apply_flags-is_asked (Flag.records e ∷ xs) (s, n) = apply_flags-is_asked xs (s, first_error n e)
apply_flags-is_asked (Flag.asks_stop ∷ xs) (s, n) = apply_flags-is_asked xs (true, n)
