-- ===== src/Vm/Acquired.antt =====
-- The order in which the parts of a VM are acquired, and undone.
use modvm.Prelude.{
  inl, inr, ℕ, zero, suc, ◌+◌, ◌*◌, ◌≡◌, ◌≢◌, ◌≤◌, ◌<◌, refl, sym, subst, false, List, [], ◌∷◌,
  ◌++◌, Option, none, some, arith, Bool-cases, leb, ◌==◌, if◌then◌else◌,
}
use modvm.Prelude.Errno.{Result, ok, err}
use modvm.ResPool.{ResPool, ResNode, zalloc, add_action}
use modvm.ResPool.Ownership.{
  IsValid, zalloc_cases, add_action_cases, zalloc-IsValid, add_action-IsValid,
  add_action_or_reset-add_action,
}
use modvm.ResPool.Release.{obligation_none, obligation_some, obligations, obligations-append_last}
use modvm.Vm.Init.{
  Stage, and_then, check, zeroed, copy_strings, copy_array, ConfigArray, hand_over, acquire,
  Acquire, zallocs, adds, acquire_all, Supply, vcpu_at, add_vcpus, vcpu_cleanup, nr_of,
}

-- The place of a cleanup function in the order of construction; those of vm.c are 1 to 5, and the
-- board's come before the vCPUs.
abbrev pub rank : ℕ → ℕ
rank fn = if leb fn 4 then fn else if fn == vcpu_cleanup then 6 else 5

abbrev pub Below : ℕ → List (ℕ × ℕ) → Type 0
Below k [] = Unit
Below k ((fn, arg) ∷ os) = (rank fn ≤ k) × Below k os

-- Each obligation was acquired no earlier than those that follow.
abbrev pub Falls : List (ℕ × ℕ) → Type 0
Falls [] = Unit
Falls ((fn, arg) ∷ os) = Below (rank fn) os × Falls os

pub record Acquired (k : ℕ) (p : ResPool) : Type 0 where
  pub valid : IsValid p
  pub idle : p.releasing ≡ false
  pub below : Below k (obligations p.resources)
  pub falls : Falls (obligations p.resources)

Below-more : (j k : ℕ) (os : List (ℕ × ℕ)) → j ≤ k → Below j os → Below k os
Below-more j k [] le b = tt
Below-more j k ((fn, arg) ∷ os) le (b, bs) = (omega arith, Below-more j k os le bs)

pub Acquired-more : (j k : ℕ) (p : ResPool) → j ≤ k → Acquired j p → Acquired k p
Acquired-more j k p le g = record {
  valid = g.valid;
  idle = g.idle;
  below = Below-more j k (obligations p.resources) le g.below;
  falls = g.falls;
}

-- A node at the end of the pool.
node-Falls :
    (j k : ℕ) (ns : List ResNode) (n : ResNode)
    → j ≤ k
    → (n.action ≢ 0 → rank n.action ≡ k)
    → Below j (obligations ns)
    → Falls (obligations ns)
    → Below k (obligations (ns ++ n ∷ [])) × Falls (obligations (ns ++ n ∷ []))
node-Falls j k ns n le r b f =
    subst (λ os. Below k os × Falls os) (sym (obligations-append_last ns n))
      (elim (Bool-cases (n.action == 0)) [
        | inl e ↦
            subst (λ o. Below k (o ++ obligations ns) × Falls (o ++ obligations ns))
              (sym (obligation_none n e)) (Below-more j k (obligations ns) le b, f)
        | inr e ↦
            let same = r (λ z. absurd (ground arith)) in
            let lower : j ≤ rank n.action = omega (arith, same) in
            subst (λ o. Below k (o ++ obligations ns) × Falls (o ++ obligations ns))
              (sym (obligation_some n e))
              (
                (omega (arith, same), Below-more j k (obligations ns) le b),
                (Below-more j (rank n.action) (obligations ns) lower b, f),
              )
      ])

abbrev Rest : ℕ → ResPool → Type 0
Rest k q =
    (q.releasing ≡ false) × Below k (obligations q.resources) × Falls (obligations q.resources)

abbrev of_rest : (k : ℕ) (q : ResPool) → IsValid q → Rest k q → Acquired k q
of_rest k q v (i, b, f) = record { valid = v; idle = i; below = b; falls = f }

pub zalloc-Acquired :
    (k size : ℕ) (calloc : Option ℕ) (p : ResPool)
    → Acquired k p
    → Acquired k (zalloc p size calloc).0
zalloc-Acquired k size calloc p g = of_rest k _ (zalloc-IsValid p size calloc g.valid) (
    zalloc_cases (Rest k) p size calloc (g.idle, g.below, g.falls)
      (λ a.
        let node : ResNode = record { addr = a; pool = p.self; action = 0; action_data = 0 } in
        let (b, f) =
          node-Falls k k p.resources node (omega arith) (λ n. absurd (n refl)) g.below g.falls in
        (g.idle, b, f)))

pub add_action-Acquired :
    (j k fn arg : ℕ) (calloc : Option ℕ) (p : ResPool)
    → j ≤ k
    → rank fn ≡ k
    → Acquired j p
    → Acquired k (add_action p fn arg calloc).0
add_action-Acquired j k fn arg calloc p le r g =
    of_rest k _ (add_action-IsValid p fn arg calloc g.valid) (
      add_action_cases (Rest k) p fn arg calloc
        (g.idle, Below-more j k (obligations p.resources) le g.below, g.falls)
        (λ a h.
          let node : ResNode = record { addr = a; pool = p.self; action = fn; action_data = arg } in
          let (b, f) = node-Falls j k p.resources node le (λ n. r) g.below g.falls in
          (g.idle, b, f)))

-- A stage that takes a pool of the j-th place to one of the k-th, however it ends.
abbrev pub Leads : ℕ → ℕ → Stage → Type 0
Leads j k f = (p : ResPool) → Acquired j p → Acquired k (f p).0

pub and_then-Acquired :
    (k : ℕ) (r : ResPool × ℕ) (f : Stage)
    → Acquired k r.0
    → Leads k k f
    → Acquired k (and_then r f).0
and_then-Acquired k (p, zero) f g h = h p g
and_then-Acquired k (p, suc e) f g h = g

pub copy_strings-Leads :
    (k : ℕ) (calloc : ℕ → Option ℕ) (n : ℕ) (ss : List (Option ℕ))
    → Leads k k (copy_strings calloc n ss)
copy_strings-Leads k calloc n [] p g = g
copy_strings-Leads k calloc n (none ∷ ss) p g = copy_strings-Leads k calloc (suc n) ss p g
copy_strings-Leads k calloc n (some len ∷ ss) p g =
    and_then-Acquired k (zeroed (len + 1) (calloc n) p) (copy_strings calloc (suc n) ss)
      (zalloc-Acquired k (len + 1) (calloc n) p g) (copy_strings-Leads k calloc (suc n) ss)

pub copy_array-Leads :
    (k : ℕ) {A : Type 0} (xs : ConfigArray A) (calloc : Option ℕ) → Leads k k (copy_array xs calloc)
copy_array-Leads k xs calloc p g = elim (Bool-cases (nr_of xs == 0)) [
  | inl e ↦ rw e g
  | inr e ↦ rw e (zalloc-Acquired k (nr_of xs * 8) calloc p g)
]

pub hand_over-Leads :
    (j k : ℕ) (made : Result ℕ) (fn : ℕ) (calloc : Option ℕ)
    → j ≤ k
    → rank fn ≡ k
    → Leads j k (hand_over made fn calloc)
hand_over-Leads j k (err e) fn calloc le r p g = Acquired-more j k p le g
hand_over-Leads j k (ok h) fn calloc le r p g =
    subst (Acquired k) (sym (add_action_or_reset-add_action p fn h calloc))
      (add_action-Acquired j k fn h calloc p le r g)

-- The cleanup functions that a board brings are its own.
abbrev pub AreOwn : List Acquire → Type 0
AreOwn [] = Unit
AreOwn (zallocs size calloc ∷ xs) = AreOwn xs
AreOwn (adds fn arg calloc ∷ xs) = (vcpu_cleanup < fn) × AreOwn xs

pub acquire_all-Acquired :
    (xs : List Acquire) (p : ResPool) → AreOwn xs → Acquired 5 p → Acquired 5 (acquire_all xs p)
acquire_all-Acquired [] p own g = g
acquire_all-Acquired (zallocs size calloc ∷ xs) p own g =
    acquire_all-Acquired xs _ own (zalloc-Acquired 5 size calloc p g)
acquire_all-Acquired (adds fn arg calloc ∷ xs) p (more, own) g =
    acquire_all-Acquired xs _ own
      (add_action-Acquired 5 5 fn arg calloc p (omega arith) (ground arith) g)

vcpu_at-Acquired :
    (s : Supply) (i : ℕ) (r : ResPool × Option ℕ) → Acquired 6 r.0 → Acquired 6 (vcpu_at s i r).0
vcpu_at-Acquired s i (p, none) g = g
vcpu_at-Acquired s i (p, some a) g =
    and_then-Acquired 6 (acquire vcpu_cleanup a (s.vcpu_node i) p) (check (s.vcpu_init i))
      (add_action-Acquired 6 6 vcpu_cleanup a (s.vcpu_node i) p (omega arith) refl g) (λ q h. h)

pub add_vcpus-Leads : (s : Supply) (n i : ℕ) → Leads 6 6 (add_vcpus s n i)
add_vcpus-Leads s zero i p g = g
add_vcpus-Leads s (suc n) i p g =
    and_then-Acquired 6 (vcpu_at s i (zalloc p 32 (s.vcpu i))) (add_vcpus s n (suc i))
      (vcpu_at-Acquired s i _ (zalloc-Acquired 6 32 (s.vcpu i) p g)) (add_vcpus-Leads s n (suc i))
