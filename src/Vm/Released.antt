-- ===== src/Vm/Released.antt =====
-- What the release of a VM's pool runs after `vm_init`, in `vm_destroy`.
use modvm.Prelude.{
  ℕ, ◌*◌, ◌≡◌, ◌≢◌, ◌⊎◌, inl, inr, refl, sym, ap, subst, ◌∙◌, false, List, [], ◌∷◌, ◌++◌, some,
  length, Bool-cases, ◌==◌, arith,
}
use mathlib.Core.List.{append-nil}
use modvm.ResPool.{ResPool, init, release_all, Call}
use modvm.ResPool.Release.{obligations, obligations-init}
use modvm.ResPool.Release.Owed.{Once, IsValid-Once}
use modvm.ResPool.Release.Teardown.{release_all-order, Keeps}
use modvm.Vm.Init.{
  VmConfig, Supply, Stage, check, run_stages, config_stages, core_stages, last_stages, vm_init,
  io_cleanup, mutex_cleanup, memory_cleanup, accel_cleanup,
}
use modvm.Vm.Acquired.{Acquired, Falls}
use modvm.Vm.Teardown.{Steps, run_stages-Leads, all_stages-Steps, empty-Acquired, IsOwn}
use modvm.Vm.Complete.{
  owes, Adds, and_then_succeeds, handed, hand_over-Adds, acquire-Adds, copy_strings-Adds,
  copy_array-Adds, two_arrays-Adds, after_board, board_init_adds, handed_vcpus, add_vcpus_adds,
}

-- A run of the stages that succeeds, on a pool with these obligations, ends with ones of `Q`.
record Reaches (fs : List Stage) (before : List (ℕ × ℕ)) (Q : List (ℕ × ℕ) → Type 0) : Type 0 where
  ends :
      (j : ℕ)
      → Steps j fs
      → (p : ResPool) → Acquired j p
      → owes p ≡ before
      → (run_stages fs p).1 ≡ 0
      → Q (owes (run_stages fs p).0)

module _ (Q : List (ℕ × ℕ) → Type 0) (before : List (ℕ × ℕ)) (fs : List Stage) where
  stage_reaches :
      (after : List (ℕ × ℕ)) (f : Stage)
      → ((p : ResPool)
          → p.releasing ≡ false
          → owes p ≡ before
          → (f p).1 ≡ 0
          → (owes (f p).0 ≡ after) × Reaches fs after Q)
      → Reaches (f ∷ fs) before Q
  stage_reaches after f adds = record {
    ends = λ j moves p g e done.
        let (k, le, lead, steps) = moves in
        let (here, there, same) = and_then_succeeds (f p) (run_stages fs) done in
        let (left, more) = adds p g.idle e here in
        subst (λ r. Q (owes r.0)) (sym same) (more.ends k steps (f p).0 (lead p g) left there);
  }

  adds_reaches :
      (own : List (ℕ × ℕ)) (f : Stage)
      → Adds own f
      → Reaches fs (own ++ before) Q
      → Reaches (f ∷ fs) before Q
  adds_reaches own f adds more =
      stage_reaches (own ++ before) f λ p idle e done. (adds p done ∙ ap (λ o. own ++ o) e, more)

  check_reaches : (e : ℕ) → Reaches fs before Q → Reaches (check e ∷ fs) before Q
  check_reaches e more = stage_reaches before (check e) λ p idle same done. (same, more)

-- The parts that a construction which succeeds has handed over, last one first.
abbrev pub everything : VmConfig → Supply → List (ℕ × ℕ)
everything c s =
    handed_vcpus s c.nr_vcpus 0
    ++ after_board c.board (
        (accel_cleanup, s.accel)
        ∷ (memory_cleanup, s.mem_space)
        ∷ (handed mutex_cleanup s.mutex ++ handed io_cleanup s.io_ctx))

-- The vCPU loop handed over as many as the configuration names.
abbrev pub IsComplete : VmConfig → Supply → List (ℕ × ℕ) → Type 0
IsComplete c s os = (os ≡ everything c s) × (length (handed_vcpus s c.nr_vcpus 0) ≡ c.nr_vcpus)

-- What a release runs: each obligation of the pool, once and in the reverse order of construction,
-- and every part after a construction that succeeded.
abbrev pub Undoes : VmConfig → Supply → ResPool × ℕ → List (ℕ × ℕ) → Type 0
Undoes c s (p, ret) order =
    (order ≡ obligations p.resources)
    × Falls order
    × Once order
    × ((ret ≢ 0) ⊎ IsComplete c s order)

module _ (c : VmConfig) (s : Supply) (own : IsOwn c.board) where
  config_reaches :
      (fs : List Stage)
      → Reaches fs [] (IsComplete c s)
      → Reaches (config_stages c s ++ fs) [] (IsComplete c s)
  unfolding config_stages
  config_reaches fs more = check_reaches (IsComplete c s) [] _ _ (
      adds_reaches (IsComplete c s) [] _ [] _
        (copy_strings-Adds s.string 0 (c.accel_name ∷ c.loader_name ∷ c.loader_opts ∷ []))
        (adds_reaches (IsComplete c s) [] _ [] _ (copy_array-Adds c.drives s.drives) (
          adds_reaches (IsComplete c s) [] _ [] _ (copy_array-Adds c.nets s.nets)
            (check_reaches (IsComplete c s) [] _ _ (check_reaches (IsComplete c s) [] _ _ more)))))

  abbrev core_owed : List (ℕ × ℕ)
  core_owed =
      (accel_cleanup, s.accel)
      ∷ (memory_cleanup, s.mem_space)
      ∷ (handed mutex_cleanup s.mutex ++ handed io_cleanup s.io_ctx)

  core_reaches :
      (fs : List Stage)
      → Reaches fs core_owed (IsComplete c s)
      → Reaches (core_stages c s ++ fs) [] (IsComplete c s)
  unfolding core_stages
  core_reaches fs more =
      let io = handed io_cleanup s.io_ctx in
      let locks = handed mutex_cleanup s.mutex ++ io in
      let memory : List (ℕ × ℕ) = (memory_cleanup, s.mem_space) ∷ locks in
      stage_reaches (IsComplete c s) [] _ io _ (λ p idle e done. (
        hand_over-Adds s.io_ctx io_cleanup s.io_node refl p done
            ∙ ap (λ o. io ++ o) e
            ∙ append-nil io,
        adds_reaches (IsComplete c s) io _ (handed mutex_cleanup s.mutex) _
            (hand_over-Adds s.mutex mutex_cleanup s.mutex_node refl)
            (adds_reaches (IsComplete c s) locks _ ((memory_cleanup, s.mem_space) ∷ []) _
              (acquire-Adds memory_cleanup s.mem_space s.memory_node refl)
              (check_reaches (IsComplete c s) memory _ _ (
                adds_reaches (IsComplete c s) memory _ ((accel_cleanup, s.accel) ∷ []) _
                  (acquire-Adds accel_cleanup s.accel s.accel_node refl)
                  (check_reaches (IsComplete c s) core_owed _ _ more)))),
      ))

  last_reaches : Reaches (last_stages c s) core_owed (IsComplete c s)
  unfolding last_stages
  last_reaches =
      let board = after_board c.board core_owed in
      stage_reaches (IsComplete c s) core_owed _ board _ (λ p idle e done. (
        board_init_adds c.board p own idle ∙ ap (after_board c.board) e,
        adds_reaches (IsComplete c s) board _ [] _
            (two_arrays-Adds (c.nr_vcpus * 8) s.vcpus s.vcpu_threads)
            (stage_reaches (IsComplete c s) board _ (everything c s) _ (λ q idle same ready.
              let (left, many) = add_vcpus_adds s c.nr_vcpus 0 q ready in
              (
                left ∙ ap (λ o. handed_vcpus s c.nr_vcpus 0 ++ o) same,
                check_reaches (IsComplete c s) (everything c s) _ _ (
                    check_reaches (IsComplete c s) (everything c s) _ _
                      (record { ends = λ j steps r g is over. (is, many) })),
              ))),
      ))

  pub vm_init-Undoes :
      (self : ℕ) (body : ℕ → ℕ → List Call)
      → ((fn arg : ℕ) → Keeps (body fn arg))
      → let (p, ret, _) = vm_init c s (init self) in
        (order : List (ℕ × ℕ)) × (release_all body p ≡ some (record p { resources = [] }, order))
        × Undoes c s (p, ret) order
  unfolding vm_init
  vm_init-Undoes self body keeps =
      let all = config_stages c s ++ (core_stages c s ++ last_stages c s) in
      let steps = all_stages-Steps c s own in
      let empty = empty-Acquired self in
      let r = run_stages all (init self) in
      let g = run_stages-Leads 0 all steps (init self) empty in
      (
        obligations r.0.resources,
        release_all-order body keeps r.0 g.valid g.idle,
        (
          refl,
          g.falls,
          IsValid-Once r.0 g.valid,
          elim (Bool-cases (r.1 == 0)) [
            | inl e ↦ inr (
                (config_reaches _ (core_reaches _ last_reaches)).ends 0 steps (init self) empty
                  (obligations-init self).0 (ground arith))
            | inr e ↦ inl (λ z. absurd (ground arith))
          ],
        ),
      )
