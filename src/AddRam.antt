-- ===== src/AddRam.antt =====
-- `vm_add_ram` of src/core/memory.c: one bank of guest RAM, added while the VM is built.
pub mod Sound
mod Tests
use modvm.Prelude.{
  ℕ, ◌+◌, ◌-◌, ◌%◌, Bool, true, false, ◌||◌, List, [], ◌∷◌, ◌++◌, Option, none, some, ltb, ◌==◌,
  ◌!=◌, not, if◌then◌else◌,
}
use modvm.Prelude.Errno.{einval, ebusy, enotsup, eoverflow, enomem, Result, ok, err}
use modvm.Prelude.Words.{u64_max}
use modvm.Memory.{MemRegion, MemSpace, region_is_overlap}
use modvm.IoMap.{IoMap, IoRegion}

pub data VmState : Type 0 where
  building ready running stopped : VmState

abbrev pub is_building : VmState → Bool
is_building building = true
is_building _ = false

-- The accelerator's `map_ram`: what it returns for a region.
pub record Accel : Type 0 where
  pub map_ram : Option (MemRegion → ℕ)

-- The fields of `struct vm_ctx` that concern its address spaces; `accel` is `ctx->accel.desc`.
pub record VmCtx : Type 0 where
  pub state : VmState
  pub stop_requested : Bool
  pub mem_space : MemSpace
  pub io_map : IoMap
  pub accel : Option Accel

-- What the host does for the call: whether `calloc` succeeds, and what `host_page_alloc` returns.
pub record Host : Type 0 where
  pub calloc : Bool
  pub page_alloc : Result ℕ

-- The pages taken from the host and given back to it, in order.
pub data PageCall : Type 0 where
  alloc free : ℕ → ℕ → PageCall

unfoldable pub ram_overlap : ℕ → ℕ → List MemRegion → Bool
ram_overlap gpa size [] = false
ram_overlap gpa size (pos ∷ rest) =
    region_is_overlap gpa size pos.gpa pos.size || ram_overlap gpa size rest

unfoldable pub io_overlap : ℕ → ℕ → List IoRegion → Bool
io_overlap gpa size [] = false
io_overlap gpa size (io ∷ rest) =
    region_is_overlap gpa size io.base io.size || io_overlap gpa size rest

module _ (host : Host) (gpa size flags : ℕ) where
  -- From `host_page_alloc` on: map the pages, or give them back.
  unfoldable pub mount : VmCtx → (MemRegion → ℕ) → VmCtx × ℕ × List PageCall
  mount ctx map_ram = elim host.page_alloc [
    | err e ↦ (ctx, e, [])
    | ok hva ↦
        let reg : MemRegion = record { gpa = gpa; size = size; hva = hva; flags = flags } in
        let ret = map_ram reg in
        if ret != 0 then (ctx, ret, alloc hva size ∷ free hva size ∷ []) else (
          record ctx {
            mem_space = record ctx.mem_space {
              regions = ctx.mem_space.regions ++ reg ∷ [];
              total_ram = ctx.mem_space.total_ram + size;
            };
          },
          0,
          alloc hva size ∷ [],
        )
  ]

  -- From the test of `map_ram` on.
  unfoldable pub place : VmCtx → (MemRegion → ℕ) → VmCtx × ℕ × List PageCall
  unfolding ram_overlap io_overlap mount
  place ctx map_ram =
      let space = ctx.mem_space in
      if ltb (u64_max - space.total_ram) size || ltb (u64_max - gpa) size
      then (ctx, eoverflow, [])
      else if gpa % space.host_page_size != 0 || size % space.host_page_size != 0
      then (ctx, einval, [])
      else if ram_overlap gpa size space.regions || io_overlap gpa size ctx.io_map.mmio_regions
      then (ctx, ebusy, [])
      else if not host.calloc
      then (ctx, enomem, [])
      else mount ctx map_ram

  unfoldable pub add_ram : VmCtx → VmCtx × ℕ × List PageCall
  unfolding place
  add_ram ctx =
      if size == 0
      then (ctx, einval, [])
      else if not (is_building ctx.state) || ctx.stop_requested
      then (ctx, ebusy, [])
      else if ctx.mem_space.host_page_size == 0
      then (ctx, einval, [])
      else elim ctx.accel [
        | none ↦ (ctx, einval, [])
        | some accel ↦ elim accel.map_ram [ none ↦ (ctx, enotsup, []) | some f ↦ place ctx f ]
      ]
