-- ===== src/ResPool/Release/Teardown.antt =====
-- What a caller of `res_release_all` may rely on.
use modvm.Prelude.{
  ℕ, zero, suc, ◌≤◌, ◌≡◌, refl, ◌≢◌, true, false, List, [], ◌∷◌, Option, some, arith, All, inl, inr,
  length, length-append, ap, subst, sym, ◌∙◌, Bool-cases, ◌==◌,
}
use mathlib.Core.List.{Sublistᴰ}
use modvm.ResPool.{ResNode, ResPool, Call, cancels, calls, call_action, release_loop, release_all}
use modvm.ResPool.Ownership.{IsValid}
use modvm.ResPool.Release.{
  obligations, obligations-append_last, split_last-cases, length-zero, All-append_inv,
}
use modvm.ResPool.Release.Loop.{
  call-same, release_loop-step, release_loop-last, release_loop-spent, release_loop-Released,
}

release_all-result :
    (body : ℕ → ℕ → List Call) (p q : ResPool) (run : List (ℕ × ℕ))
    → p.releasing ≡ false
    → release_loop body (length p.resources) (record p { releasing = true }) ≡ some (q, run)
    → release_all body p ≡ some (record q { releasing = false }, run)
unfolding release_all
release_all-result body p q run idle e = ground arith

-- Releasing a valid pool comes to an end with the pool empty and usable again, whatever pool
-- operations the callbacks make on it, and each action that was run was owed by a node of its own:
-- the run is a subsequence of the obligations, last acquired first.
pub release_all-empties :
    (body : ℕ → ℕ → List Call) (p : ResPool)
    → IsValid p
    → p.releasing ≡ false
    → (q : ResPool) × (run : List (ℕ × ℕ)) × (release_all body p ≡ some (q, run))
      × (q.resources ≡ [])
      × (q.releasing ≡ false)
      × Sublistᴰ run (obligations p.resources)
release_all-empties body p v idle =
    let busy : ResPool = record p { releasing = true } in
    let r = release_loop-Released body (length p.resources) busy refl (omega arith) v.owner in
    (
      record r.state { releasing = false },
      r.run,
      release_all-result body p r.state r.run idle r.result,
      r.empty,
      refl,
      r.order,
    )

-- The callback makes no cancel.
abbrev pub Keeps : List Call → Type 0
Keeps = All (λ c. (fn arg : ℕ) → c ≢ cancels fn arg)

calls-same : (cs : List Call) (p : ResPool) → p.releasing ≡ true → Keeps cs → calls cs p ≡ p
unfolding calls
calls-same [] p h k = refl
calls-same (c ∷ cs) p h k = rw (call-same c p h k.0) (calls-same cs p h k.1)

nothing_owed :
    (p : ResPool)
    → p.resources ≡ []
    → ◌≡◌ {A = Option (ResPool × List (ℕ × ℕ))}
        (some (p, []))
        (some (record p { resources = [] }, obligations p.resources))
unfolding obligations
nothing_owed p e = ground arith

module _ (body : ℕ → ℕ → List Call) (keeps : (fn arg : ℕ) → Keeps (body fn arg)) where
  call_action-same : (n : ResNode) (p : ResPool) → p.releasing ≡ true → call_action body n p ≡ p
  unfolding call_action
  call_action-same n p h = elim (Bool-cases (n.action == 0)) [
    | inl e ↦ rw e
    | inr e ↦ rw e (calls-same (body n.action n.action_data) p h (keeps n.action n.action_data))
  ]

  release_loop_all :
      (fuel : ℕ) (p : ResPool)
      → p.releasing ≡ true
      → length p.resources ≤ fuel
      → All (λ n. n.pool ≡ p.self) p.resources
      → release_loop body fuel p ≡ some (record p { resources = [] }, obligations p.resources)
  release_loop_all zero p busy enough owner =
      let e = length-zero p.resources enough in release_loop-spent body p e ∙ nothing_owed p e
  release_loop_all (suc fuel) p busy enough owner = elim (split_last-cases p.resources) [
    | inl (e, l) ↦ release_loop-last body fuel p l ∙ nothing_owed p e
    | inr (init, n, e, l) ↦
        let own =
          All-append_inv p.self init (n ∷ []) (subst (All (λ n. n.pool ≡ p.self)) e owner) in
        let short : length init ≤ fuel = omega (arith, ap length e, length-append init (n ∷ [])) in
        let ih = release_loop_all fuel (record p { resources = init }) busy short own.0 in
        release_loop-step body fuel p _ init n (obligations init) l own.1.0 (
          ap (release_loop body fuel) (call_action-same n (record p { resources = init }) busy)
          ∙ ih)
        ∙ ap (λ o. some (record p { resources = [] }, o))
            (sym (ap obligations e ∙ obligations-append_last init n))
  ]

  -- If no callback cancels an obligation, releasing a valid pool runs every obligation exactly
  -- once, last acquired first, whatever else the callbacks attempt on the pool.
  pub release_all-order :
      (p : ResPool)
      → IsValid p
      → p.releasing ≡ false
      → release_all body p ≡ some (record p { resources = [] }, obligations p.resources)
  release_all-order p v idle =
      release_all-result body p _ _ idle (
        release_loop_all (length p.resources) (record p { releasing = true }) refl (omega arith)
          v.owner)
      ∙ ap (λ b. some (record p { resources = []; releasing = b }, obligations p.resources))
          (sym idle)
