-- ===== src/Vm/Teardown.antt =====
-- The stages of `vm_init`, in order: each leaves a pool whose obligations were acquired in order.
use modvm.Prelude.{
  ℕ, zero, suc, ◌*◌, ◌≡◌, ◌≤◌, refl, sym, subst, List, [], ◌∷◌, ◌++◌, Option, none, some, arith,
}
use modvm.ResPool.{ResPool, init, zalloc}
use modvm.ResPool.Ownership.{init-IsValid}
use modvm.ResPool.Release.{obligations-init}
use modvm.Vm.Init.{
  VmConfig, Supply, Stage, Acquire, and_then, acquire, check, run_stages, config_stages,
  core_stages, last_stages, check_config, io_cleanup, mutex_cleanup, memory_cleanup, accel_cleanup,
  board_init, two_arrays,
}
use modvm.Vm.Acquired.{
  rank, Acquired, Acquired-more, Leads, Below, Falls, AreOwn, copy_strings-Leads, copy_array-Leads,
  hand_over-Leads, acquire_all-Acquired, add_vcpus-Leads, zalloc-Acquired, add_action-Acquired,
}

-- Stages with the place before each and after the last.
abbrev pub Steps : ℕ → List Stage → Type 0
Steps j [] = j ≤ 6
Steps j (f ∷ fs) = (k : ℕ) × (j ≤ k) × Leads j k f × Steps k fs

Steps-le : (j : ℕ) (fs : List Stage) → Steps j fs → j ≤ 6
Steps-le j [] le = le
Steps-le j (f ∷ fs) (k, le, lead, steps) = omega (arith, Steps-le k fs steps)

next_stage-Acquired :
    (k : ℕ) (r : ResPool × ℕ) (fs : List Stage)
    → k ≤ 6
    → Acquired k r.0
    → Leads k 6 (run_stages fs)
    → Acquired 6 (and_then r (run_stages fs)).0
next_stage-Acquired k (p, zero) fs le g more = more p g
next_stage-Acquired k (p, suc e) fs le g more = Acquired-more k 6 p le g

pub run_stages-Leads : (j : ℕ) (fs : List Stage) → Steps j fs → Leads j 6 (run_stages fs)
run_stages-Leads j [] le p g = Acquired-more j 6 p le g
run_stages-Leads j (f ∷ fs) (k, le, lead, steps) p g =
    next_stage-Acquired k (f p) fs (Steps-le k fs steps) (lead p g) (run_stages-Leads k fs steps)

acquire-Leads :
    (j k fn arg : ℕ) (calloc : Option ℕ) → j ≤ k → rank fn ≡ k → Leads j k (acquire fn arg calloc)
acquire-Leads j k fn arg calloc le r p g = add_action-Acquired j k fn arg calloc p le r g

check-Leads : (k e : ℕ) → Leads k k (check e)
check-Leads k e p g = g

abbrev pub IsOwn : Option (Option (List Acquire × ℕ)) → Type 0
IsOwn (some (some (xs, ret))) = AreOwn xs
IsOwn _ = Unit

board_init-Leads : (b : Option (Option (List Acquire × ℕ))) → IsOwn b → Leads 4 5 (board_init b)
board_init-Leads none own p g = Acquired-more 4 5 p (omega arith) g
board_init-Leads (some none) own p g = Acquired-more 4 5 p (omega arith) g
board_init-Leads (some (some (xs, ret))) own p g =
    acquire_all-Acquired xs p own (Acquired-more 4 5 p (omega arith) g)

two_arrays-Leads : (size : ℕ) (a b : Option ℕ) → Leads 5 6 (two_arrays size a b)
two_arrays-Leads size a b p g =
    Acquired-more 5 6 _ (omega arith)
      (zalloc-Acquired 5 size b (zalloc p size a).0 (zalloc-Acquired 5 size a p g))

pub empty-Acquired : (self : ℕ) → Acquired 0 (init self)
empty-Acquired self =
    let (none_owed, idle) = obligations-init self in
    record {
      valid = init-IsValid self;
      idle = idle;
      below = subst (Below 0) (sym none_owed) tt;
      falls = subst Falls (sym none_owed) tt;
    }

module _ (c : VmConfig) (s : Supply) where
  config_stages-Steps : (fs : List Stage) → Steps 0 fs → Steps 0 (config_stages c s ++ fs)
  unfolding config_stages
  config_stages-Steps fs rest = (
    0,
    omega arith,
    check-Leads 0 (check_config c),
    (
      0,
      omega arith,
      copy_strings-Leads 0 s.string 0 (c.accel_name ∷ c.loader_name ∷ c.loader_opts ∷ []),
      (
        0,
        omega arith,
        copy_array-Leads 0 c.drives s.drives,
        (
          0,
          omega arith,
          copy_array-Leads 0 c.nets s.nets,
          (0, omega arith, λ p g. g, (0, omega arith, λ p g. g, rest)),
        ),
      ),
    ),
  )

  core_stages-Steps : (fs : List Stage) → Steps 4 fs → Steps 0 (core_stages c s ++ fs)
  unfolding core_stages
  core_stages-Steps fs rest = (
    1,
    omega arith,
    hand_over-Leads 0 1 s.io_ctx io_cleanup s.io_node (omega arith) refl,
    (
      2,
      omega arith,
      hand_over-Leads 1 2 s.mutex mutex_cleanup s.mutex_node (omega arith) refl,
      (
        3,
        omega arith,
        acquire-Leads 2 3 memory_cleanup s.mem_space s.memory_node (omega arith) refl,
        (
          3,
          omega arith,
          check-Leads 3 s.space_init,
          (
            4,
            omega arith,
            acquire-Leads 3 4 accel_cleanup s.accel s.accel_node (omega arith) refl,
            (4, omega arith, check-Leads 4 s.accel_init, rest),
          ),
        ),
      ),
    ),
  )

  last_stages-Steps : IsOwn c.board → Steps 4 (last_stages c s)
  unfolding last_stages
  last_stages-Steps own = (
    5,
    omega arith,
    board_init-Leads c.board own,
    (
      6,
      omega arith,
      two_arrays-Leads (c.nr_vcpus * 8) s.vcpus s.vcpu_threads,
      (
        6,
        omega arith,
        add_vcpus-Leads s c.nr_vcpus 0,
        (6, omega arith, λ p g. g, (6, omega arith, check-Leads 6 s.run_error, omega arith)),
      ),
    ),
  )

  pub all_stages-Steps :
      IsOwn c.board → Steps 0 (config_stages c s ++ (core_stages c s ++ last_stages c s))
  all_stages-Steps own = config_stages-Steps _ (core_stages-Steps _ (last_stages-Steps own))
