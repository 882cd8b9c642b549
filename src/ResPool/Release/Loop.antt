-- ===== src/ResPool/Release/Loop.antt =====
-- The loop of `res_release_all`: it ends, whatever the callbacks do to the pool.
use modvm.Prelude.{
  subst, ℕ, zero, suc, ◌≤◌, ◌≡◌, refl, ◌≢◌, true, List, [], ◌∷◌, ◌++◌, Option, none, some, arith,
  ◌==◌, All, Bool-cases, inl, inr, length, length-append, ap, ◌∙◌, sym,
}
use mathlib.Core.List.{Sublistᴰ}
use modvm.ResPool.{
  init, ResNode, ResPool, Call, zallocs, adds, cancels, transfers_in, transfers_out, releases,
  zalloc, add_action, transfer_action, call, calls, split_last, call_action, release_loop,
}
use modvm.ResPool.Ownership.{cancel_action_cases}
use modvm.ResPool.Release.{
  Sublist-append, nil-Sublist, length-Sublist, Sublist-refl, Sublist-trans, del-Sublist, obligation,
  obligations, obligations-append_last, obligations-Sublist, All-Sublist, split_last-cases,
  length-zero, All-append_inv,
}

-- What a callback can make of the pool that is being released: it can only cancel obligations.
record Shrinks (p q : ResPool) : Type 0 where
  kept : Sublistᴰ q.resources p.resources
  busy : q.releasing ≡ true
  same : q.self ≡ p.self

Shrinks-self : (p : ResPool) → p.releasing ≡ true → Shrinks p p
Shrinks-self p h = record { kept = Sublist-refl p.resources; busy = h; same = refl }

-- A pool that is being released refuses every call but a cancel.
pub call-same :
    (c : Call) (p : ResPool)
    → p.releasing ≡ true
    → ((fn arg : ℕ) → c ≢ cancels fn arg)
    → call c p ≡ p
unfolding call zalloc add_action transfer_action
call-same (zallocs size calloc) p h ne = ground arith
call-same (adds fn arg calloc) p h ne = ground arith
call-same (cancels fn arg) p h ne = absurd (ne fn arg refl)
call-same (transfers_in from fn arg) p h ne = ground arith
call-same (transfers_out to fn arg) p h ne = ground arith
call-same releases p h ne = refl

call-Shrinks : (c : Call) (p : ResPool) → p.releasing ≡ true → Shrinks p (call c p)
unfolding call
call-Shrinks (cancels fn arg) p h =
    cancel_action_cases (Shrinks p) p fn arg (Shrinks-self p h)
      λ _. record { kept = del-Sublist fn arg p.resources; busy = h; same = refl }
call-Shrinks c p h =
    subst (Shrinks p) (sym (call-same c p h (λ fn arg. ground arith))) (Shrinks-self p h)

calls-Shrinks : (cs : List Call) (p : ResPool) → p.releasing ≡ true → Shrinks p (calls cs p)
unfolding calls
calls-Shrinks [] p h = Shrinks-self p h
calls-Shrinks (c ∷ cs) p h =
    let s = call-Shrinks c p h in
    let t = calls-Shrinks cs (call c p) s.busy in
    record { kept = Sublist-trans s.kept t.kept; busy = t.busy; same = t.same ∙ s.same }

module _ (body : ℕ → ℕ → List Call) where
  -- The loop's result: the pool is empty and still marked, and what was run was owed, in the order
  -- last to first.
  pub record Released (p : ResPool) (r : Option (ResPool × List (ℕ × ℕ))) : Type 0 where
    pub state : ResPool
    pub run : List (ℕ × ℕ)
    pub result : r ≡ some (state, run)
    pub empty : state.resources ≡ []
    pub same : state.self ≡ p.self
    pub order : Sublistᴰ run (obligations p.resources)

  call_action-Shrinks :
      (n : ResNode) (p : ResPool) → p.releasing ≡ true → Shrinks p (call_action body n p)
  unfolding call_action
  call_action-Shrinks n p h = elim (Bool-cases (n.action == 0)) [
    | inl e ↦ rw e (Shrinks-self p h)
    | inr e ↦ rw e (calls-Shrinks (body n.action n.action_data) p h)
  ]

  pub release_loop-step :
      (fuel : ℕ) (p q : ResPool) (init : List ResNode) (n : ResNode) (run : List (ℕ × ℕ))
      → split_last p.resources ≡ some (init, n)
      → n.pool ≡ p.self
      → release_loop body fuel (call_action body n (record p { resources = init })) ≡ some (q, run)
      → release_loop body (suc fuel) p ≡ some (q, obligation n ++ run)
  unfolding release_loop obligation
  release_loop-step fuel p q init n run l own r = ground arith

  pub release_loop-last :
      (fuel : ℕ) (p : ResPool)
      → split_last p.resources ≡ none
      → release_loop body (suc fuel) p ≡ some (p, [])
  unfolding release_loop
  release_loop-last fuel p l = ground arith

  pub release_loop-spent : (p : ResPool) → p.resources ≡ [] → release_loop body 0 p ≡ some (p, [])
  unfolding release_loop
  release_loop-spent p e = ground arith

  Released-empty :
      (p : ResPool) (r : Option (ResPool × List (ℕ × ℕ)))
      → r ≡ some (p, [])
      → p.resources ≡ []
      → Released p r
  Released-empty p r e empty = record {
    state = p;
    run = [];
    result = e;
    empty = empty;
    same = refl;
    order = nil-Sublist _;
  }

  pub release_loop-Released :
      (fuel : ℕ) (p : ResPool)
      → p.releasing ≡ true
      → length p.resources ≤ fuel
      → All (λ n. n.pool ≡ p.self) p.resources
      → Released p (release_loop body fuel p)
  release_loop-Released zero p busy enough owner =
      let e = length-zero p.resources enough in Released-empty p _ (release_loop-spent p e) e
  release_loop-Released (suc fuel) p busy enough owner = elim (split_last-cases p.resources) [
    | inl (e, l) ↦ Released-empty p _ (release_loop-last fuel p l) e
    | inr (init, n, e, l) ↦
        let p' : ResPool = record p { resources = init } in
        let own =
          All-append_inv p.self init (n ∷ []) (subst (All (λ n. n.pool ≡ p.self)) e owner) in
        let s = call_action-Shrinks n p' busy in
        let short : length init ≤ fuel = omega (arith, ap length e, length-append init (n ∷ [])) in
        let ih =
          release_loop-Released fuel (call_action body n p') s.busy
            (omega (arith, length-Sublist s.kept))
            (All-Sublist _ s.kept (subst (λ a. All (λ n. n.pool ≡ a) init) (sym s.same) own.0)) in
        record {
          state = ih.state;
          run = obligation n ++ ih.run;
          result = release_loop-step fuel p ih.state init n ih.run l own.1.0 ih.result;
          empty = ih.empty;
          same = ih.same ∙ s.same;
          order =
              subst (Sublistᴰ (obligation n ++ ih.run))
                (sym (ap obligations e ∙ obligations-append_last init n))
                (Sublist-append (Sublist-refl (obligation n))
                  (Sublist-trans (obligations-Sublist s.kept) ih.order));
        }
  ]
