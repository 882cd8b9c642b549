-- ===== src/Vm/Complete.antt =====
-- What each stage of a construction hands to the pool when it succeeds.
use modvm.Prelude.{
  ℕ, zero, suc, ◌+◌, ◌*◌, ◌≡◌, refl, sym, ap, ◌∙◌, true, false, List, [], ◌∷◌, ◌++◌, Option, none,
  some, arith, length, length-append, Bool-cases, inl, inr, ◌==◌,
}
use mathlib.Core.List.{append_assoc}
use modvm.Prelude.Errno.{Result, ok, err}
use modvm.ResPool.{ResPool, ResNode, zalloc, add_action}
use modvm.ResPool.Ownership.{
  zalloc_cases, zalloc-some, add_action_cases, add_action_adds, add_action_or_reset_ret,
  add_action_or_reset-add_action,
}
use modvm.ResPool.Release.Owed.{after_add, obligations-add_action}
use modvm.ResPool.Release.{obligations, obligation_none, obligation_some, obligations-append_last}
use modvm.Vm.Init.{
  Supply, Stage, Acquire, zallocs, adds, and_then, check, zeroed, copy_strings, copy_array,
  ConfigArray, nr_of, hand_over, acquire, acquire_all, board_init, two_arrays, vcpu_at, add_vcpus,
  vcpu_cleanup,
}
use modvm.Vm.Acquired.{AreOwn}
use modvm.Vm.Teardown.{IsOwn}

abbrev pub owes : ResPool → List (ℕ × ℕ)
owes p = obligations p.resources

-- A stage that succeeds hands the pool just these obligations.
abbrev pub Adds : List (ℕ × ℕ) → Stage → Type 0
Adds own f = (p : ResPool) → (f p).1 ≡ 0 → owes (f p).0 ≡ own ++ owes p

owes-append :
    (p : ResPool) (n : ResNode)
    → (n.action == 0) ≡ false
    → obligations (p.resources ++ n ∷ []) ≡ (n.action, n.action_data) ∷ owes p
owes-append p n e =
    obligations-append_last p.resources n ∙ ap (λ o. o ++ owes p) (obligation_some n e)

owes-append_memory :
    (p : ResPool) (n : ResNode)
    → (n.action == 0) ≡ true
    → obligations (p.resources ++ n ∷ []) ≡ owes p
owes-append_memory p n e =
    obligations-append_last p.resources n ∙ ap (λ o. o ++ owes p) (obligation_none n e)

-- Memory is no obligation.
owes-zalloc : (p : ResPool) (size : ℕ) (calloc : Option ℕ) → owes (zalloc p size calloc).0 ≡ owes p
owes-zalloc p size calloc =
    zalloc_cases (λ q. owes q ≡ owes p) p size calloc refl (λ a. owes-append_memory p _ refl)

pub acquire-Adds :
    (fn arg : ℕ) (calloc : Option ℕ)
    → (fn == 0) ≡ false
    → Adds ((fn, arg) ∷ []) (acquire fn arg calloc)
acquire-Adds fn arg calloc e p done =
    let (a, left) = add_action_adds p fn arg calloc done in
    ap owes left
    ∙ owes-append p (record { addr = a; pool = p.self; action = fn; action_data = arg }) e

-- The object that was made, with its cleanup.
abbrev pub handed : ℕ → Result ℕ → List (ℕ × ℕ)
handed fn (err e) = []
handed fn (ok h) = (fn, h) ∷ []

pub hand_over-Adds :
    (made : Result ℕ) (fn : ℕ) (calloc : Option ℕ)
    → (fn == 0) ≡ false
    → Adds (handed fn made) (hand_over made fn calloc)
hand_over-Adds (err e) fn calloc z p done = refl
hand_over-Adds (ok h) fn calloc z p done =
    ap owes (add_action_or_reset-add_action p fn h calloc)
    ∙ acquire-Adds fn h calloc z p (sym (add_action_or_reset_ret p fn h calloc) ∙ done)

zeroed-Adds : (size : ℕ) (calloc : Option ℕ) → Adds [] (zeroed size calloc)
zeroed-Adds size calloc p done = owes-zalloc p size calloc

-- Two stages, one after the other.
pub and_then_succeeds :
    (r : ResPool × ℕ) (f : Stage)
    → (and_then r f).1 ≡ 0
    → (r.1 ≡ 0) × ((f r.0).1 ≡ 0) × (and_then r f ≡ f r.0)
and_then_succeeds (p, zero) f done = (refl, done, refl)
and_then_succeeds (p, suc e) f done = absurd (omega (arith, done))

and_then-Adds :
    (own before : List (ℕ × ℕ)) (r : ResPool × ℕ) (f : Stage)
    → (r.1 ≡ 0 → owes r.0 ≡ before)
    → Adds own f
    → (and_then r f).1 ≡ 0
    → owes (and_then r f).0 ≡ own ++ before
and_then-Adds own before r f first more done =
    let (here, there, same) = and_then_succeeds r f done in
    ap (λ q. owes q.0) same ∙ more r.0 there ∙ ap (λ o. own ++ o) (first here)

pub copy_strings-Adds :
    (calloc : ℕ → Option ℕ) (n : ℕ) (ss : List (Option ℕ)) → Adds [] (copy_strings calloc n ss)
copy_strings-Adds calloc n [] p done = refl
copy_strings-Adds calloc n (none ∷ ss) p done = copy_strings-Adds calloc (suc n) ss p done
copy_strings-Adds calloc n (some len ∷ ss) p done =
    and_then-Adds [] (owes p) (zeroed (len + 1) (calloc n) p) (copy_strings calloc (suc n) ss)
      (zeroed-Adds (len + 1) (calloc n) p) (copy_strings-Adds calloc (suc n) ss) done

pub copy_array-Adds :
    {A : Type 0} (xs : ConfigArray A) (calloc : Option ℕ) → Adds [] (copy_array xs calloc)
copy_array-Adds xs calloc p done = elim (Bool-cases (nr_of xs == 0)) [
  | inl e ↦ rw e refl
  | inr e ↦ rw e (owes-zalloc p (nr_of xs * 8) calloc)
]

pub two_arrays-Adds : (size : ℕ) (a b : Option ℕ) → Adds [] (two_arrays size a b)
two_arrays-Adds size a b p done = owes-zalloc (zalloc p size a).0 size b ∙ owes-zalloc p size a

-- The obligations after the calls of a hook.
abbrev pub after_hook : List Acquire → List (ℕ × ℕ) → List (ℕ × ℕ)
after_hook [] os = os
after_hook (zallocs size calloc ∷ xs) os = after_hook xs os
after_hook (adds fn arg calloc ∷ xs) os = after_hook xs (after_add fn arg calloc os)

acquire_all_adds :
    (xs : List Acquire) (p : ResPool)
    → AreOwn xs
    → p.releasing ≡ false
    → owes (acquire_all xs p) ≡ after_hook xs (owes p)
acquire_all_adds [] p own idle = refl
acquire_all_adds (zallocs size calloc ∷ xs) p own idle =
    acquire_all_adds xs (zalloc p size calloc).0 own
      (zalloc_cases (λ q. q.releasing ≡ false) p size calloc idle (λ a. idle))
    ∙ ap (after_hook xs) (owes-zalloc p size calloc)
acquire_all_adds (adds fn arg calloc ∷ xs) p (more, own) idle =
    acquire_all_adds xs (add_action p fn arg calloc).0 own
      (add_action_cases (λ q. q.releasing ≡ false) p fn arg calloc idle (λ a h. idle))
    ∙ ap (after_hook xs) (obligations-add_action p fn arg calloc (ground arith) idle)

abbrev pub after_board : Option (Option (List Acquire × ℕ)) → List (ℕ × ℕ) → List (ℕ × ℕ)
after_board (some (some (xs, ret))) os = after_hook xs os
after_board _ os = os

pub board_init_adds :
    (b : Option (Option (List Acquire × ℕ))) (p : ResPool)
    → IsOwn b
    → p.releasing ≡ false
    → owes (board_init b p).0 ≡ after_board b (owes p)
board_init_adds none p own idle = refl
board_init_adds (some none) p own idle = refl
board_init_adds (some (some (xs, ret))) p own idle = acquire_all_adds xs p own idle

-- The vCPUs that were made, last one first.
abbrev pub handed_vcpu : Option ℕ → List (ℕ × ℕ)
handed_vcpu none = []
handed_vcpu (some a) = (vcpu_cleanup, a) ∷ []

abbrev pub handed_vcpus : Supply → ℕ → ℕ → List (ℕ × ℕ)
handed_vcpus s zero i = []
handed_vcpus s (suc n) i = handed_vcpus s n (suc i) ++ handed_vcpu (s.vcpu i)

vcpu_at_adds :
    (s : Supply) (i : ℕ) (r : ResPool × Option ℕ)
    → (vcpu_at s i r).1 ≡ 0
    → (a : ℕ) × (r.1 ≡ some a) × (owes (vcpu_at s i r).0 ≡ (vcpu_cleanup, a) ∷ owes r.0)
vcpu_at_adds s i (p, none) done = absurd (omega (arith, done))
vcpu_at_adds s i (p, some a) done = (
  a,
  refl,
  and_then-Adds [] ((vcpu_cleanup, a) ∷ owes p) (acquire vcpu_cleanup a (s.vcpu_node i) p)
      (check (s.vcpu_init i)) (acquire-Adds vcpu_cleanup a (s.vcpu_node i) refl p) (λ q there. refl)
      done,
)

pub add_vcpus_adds :
    (s : Supply) (n i : ℕ) (p : ResPool)
    → (add_vcpus s n i p).1 ≡ 0
    → (owes (add_vcpus s n i p).0 ≡ handed_vcpus s n i ++ owes p)
      × (length (handed_vcpus s n i) ≡ n)
add_vcpus_adds s zero i p done = (refl, refl)
add_vcpus_adds s (suc n) i p done =
    let z = zalloc p 32 (s.vcpu i) in
    let (here, there, same) = and_then_succeeds (vcpu_at s i z) (add_vcpus s n (suc i)) done in
    let (a, found, one) = vcpu_at_adds s i z here in
    let made : handed_vcpu (s.vcpu i) ≡ (vcpu_cleanup, a) ∷ [] =
      ap handed_vcpu (zalloc-some p 32 (s.vcpu i) found) in
    let (more, many) = add_vcpus_adds s n (suc i) (vcpu_at s i z).0 there in
    let others = handed_vcpus s n (suc i) in
    (
      ap (λ q. owes q.0) same
          ∙ more
          ∙ ap (λ o. others ++ o)
              (one ∙ ap (λ o. (vcpu_cleanup, a) ∷ o) (owes-zalloc p 32 (s.vcpu i)))
          ∙ sym (append_assoc others ((vcpu_cleanup, a) ∷ []) (owes p))
          ∙ ap (λ v. (others ++ v) ++ owes p) (sym made),
      length-append others (handed_vcpu (s.vcpu i)) ∙ omega (arith, many, ap length made),
    )
