-- ===== src/Pci/Allocated.antt =====
-- `io_map_register_region_locked` in memory space: it fails and changes nothing, or it appends the
-- region that it allocated.
use modvm.Prelude.{
  branch_cases, if_cases, ℕ, ◌-◌, ◌≡◌, ◌≢◌, refl, ◌||◌, not, List, [], ◌∷◌, ◌++◌, Option, none,
  some, arith, ltb, ◌==◌, if◌then◌else◌,
}
use modvm.Prelude.Errno.{Result, ok, err, einval, eoverflow, ebusy, enomem}
use modvm.Prelude.Words.{u64_max}
use modvm.Memory.{MemRegion}
use modvm.ResPool
use modvm.ResPool.{zalloc}
use modvm.ResPool.Ownership.{zalloc-some}
use modvm.IoMap.{
  IoMap, IoRegion, Device, mmio, regions, with_regions, register_region, register_new,
  io_region_size, io_conflict, ram_blocks, unregister_fn,
}
use modvm.IoMap.Topology.Preserve.{added}

module _ (ram : List MemRegion) (calloc_region calloc_action : Option ℕ) where
  -- The steps after the allocation, on what it returned.
  allocated_cases :
      (P : IoMap × Device × Result IoRegion → Type 0) (m : IoMap) (base size : ℕ) (owner : Device)
      (pool : ResPool.ResPool) (reg : Option ℕ)
      → ((o : Device) (e : ℕ) → e ≢ 0 → P (m, o, err e))
      → ((o : Device) (a : ℕ)
          → reg ≡ some a
          → P (
            record m { mmio_regions = m.mmio_regions ++ added m ram mmio base size owner a ∷ [] },
            o,
            ok (added m ram mmio base size owner a),
          ))
      → P (elim reg [
        | none ↦ (m, record owner { resources = pool }, err enomem)
        | some a ↦
            let (pool', ret) = ResPool.add_action pool unregister_fn a calloc_action in
            if ret == 0
            then (
              with_regions m mmio (regions m mmio ++ added m ram mmio base size owner a ∷ []),
              record owner { resources = pool' },
              ok (added m ram mmio base size owner a),
            )
            else (m, record owner { resources = pool' }, err ret)
      ])
  unfolding with_regions regions
  allocated_cases P m base size owner pool none failed done = failed _ enomem (omega arith)
  allocated_cases P m base size owner pool (some a) failed done =
      if_cases P ((ResPool.add_action pool unregister_fn a calloc_action).1 == 0) _ _
        (λ zero_ret. done _ a refl) (λ t. failed _ _ (ground arith))

  -- A registration fails and changes nothing, or appends the region that it allocated.
  register_new_cases :
      (P : IoMap × Device × Result IoRegion → Type 0) (m : IoMap) (base size : ℕ) (owner : Device)
      → ((o : Device) (e : ℕ) → e ≢ 0 → P (m, o, err e))
      → ((o : Device) (a : ℕ)
          → calloc_region ≡ some a
          → P (
            record m { mmio_regions = m.mmio_regions ++ added m ram mmio base size owner a ∷ [] },
            o,
            ok (added m ram mmio base size owner a),
          ))
      → P (register_new ram calloc_region calloc_action m mmio base size owner)
  unfolding register_new with_regions regions
  register_new_cases P m base size owner failed done =
      allocated_cases P m base size owner (zalloc owner.resources io_region_size calloc_region).0
        (zalloc owner.resources io_region_size calloc_region).1 failed
        (λ o a e. done o a (zalloc-some owner.resources io_region_size calloc_region e))

  pub register_region_cases :
      (P : IoMap × Device × Result IoRegion → Type 0) (m : IoMap) (base size : ℕ) (owner : Device)
      → ((o : Device) (e : ℕ) → e ≢ 0 → P (m, o, err e))
      → ((o : Device) (a : ℕ)
          → calloc_region ≡ some a
          → P (
            record m { mmio_regions = m.mmio_regions ++ added m ram mmio base size owner a ∷ [] },
            o,
            ok (added m ram mmio base size owner a),
          ))
      → P (register_region ram calloc_region calloc_action m mmio base size owner)
  unfolding register_region
  register_region_cases P m base size owner failed done =
      branch_cases P (not owner.has_ctx || not owner.has_ops || size == 0) _ _
        (failed owner einval (omega arith))
        (branch_cases P (ltb (u64_max - size) base) _ _ (failed owner eoverflow (omega arith)) (
          branch_cases P (io_conflict base size (regions m mmio) || ram_blocks mmio base size ram) _
            _ (failed owner ebusy (omega arith))
            (register_new_cases P m base size owner failed done)))
