-- ===== src/IoMap.antt =====
-- src/core/io_map.c: the device regions of the port and the memory I/O space. Each function runs
-- under the VM I/O lock, which is not modelled: a call is one step.
pub mod Topology
pub mod Dispatch
mod Tests
use modvm.Prelude.{
  ℕ, ◌+◌, ◌-◌, ◌<◌, Bool, true, false, ◌&&◌, ◌||◌, List, [], ◌∷◌, ◌++◌, Option, none, some, ltb,
  leb, ◌==◌, not, ◌!=◌, if◌then◌else◌,
}
use modvm.Prelude.Errno.{einval, eoverflow, ebusy, enomem, Result, ok, err}
use modvm.Prelude.Words.{u64_max, add64, sub64}
use modvm.ResPool
use modvm.ResPool.{ResPool}
use modvm.Memory.{MemRegion}

pub data IoSpace : Type 0 where
  pio mmio : IoSpace

-- `self` is the address of the structure, by which the code tells regions apart.
pub record IoRegion : Type 0 where
  pub self : ℕ
  pub dev : ℕ
  pub base : ℕ
  pub size : ℕ
  pub space : IoSpace
  pub enabled : Bool

pub record IoMap : Type 0 where
  pub pio_regions : List IoRegion
  pub mmio_regions : List IoRegion

-- The fields of `struct device` that a registration reads.
pub record Device : Type 0 where
  pub self : ℕ
  pub has_ctx : Bool
  pub has_ops : Bool
  pub resources : ResPool

-- The address of the function `io_region_unregister`.
abbrev pub unregister_fn : ℕ
unregister_fn = 1

-- sizeof(struct io_region)
abbrev pub io_region_size : ℕ
io_region_size = 48

unfoldable pub regions : IoMap → IoSpace → List IoRegion
regions m pio = m.pio_regions
regions m mmio = m.mmio_regions

unfoldable pub with_regions : IoMap → IoSpace → List IoRegion → IoMap
with_regions m pio rs = record m { pio_regions = rs }
with_regions m mmio rs = record m { mmio_regions = rs }

-- The loop over the regions of one space in `io_map_register_region_locked`.
unfoldable pub io_conflict : ℕ → ℕ → List IoRegion → Bool
io_conflict base size [] = false
io_conflict base size (pos ∷ rest) =
    (ltb base (add64 pos.base pos.size) && ltb pos.base (add64 base size))
    || io_conflict base size rest

-- The loop over RAM, for a region in memory space.
unfoldable pub ram_conflict : ℕ → ℕ → List MemRegion → Bool
ram_conflict base size [] = false
ram_conflict base size (ram ∷ rest) =
    (ltb base (add64 ram.gpa ram.size) && ltb ram.gpa (add64 base size))
    || ram_conflict base size rest

unfoldable pub ram_blocks : IoSpace → ℕ → ℕ → List MemRegion → Bool
unfolding ram_conflict
ram_blocks pio base size ram = false
ram_blocks mmio base size ram = ram_conflict base size ram

-- `calloc_region` and `calloc_action` are the allocations of `res_zalloc` and `res_add_action`.
module _ (ram : List MemRegion) (calloc_region calloc_action : Option ℕ) where
  -- The part after the checks: allocate, append, and owe the removal to the device's pool.
  unfoldable pub register_new : IoMap → IoSpace → ℕ → ℕ → Device → IoMap × Device × Result IoRegion
  unfolding regions with_regions
  register_new m space base size dev =
      let (pool, reg) = ResPool.zalloc dev.resources io_region_size calloc_region in
      elim reg [
        | none ↦ (m, record dev { resources = pool }, err enomem)
        | some a ↦
            let r : IoRegion = record {
              self = a;
              dev = dev.self;
              base = base;
              size = size;
              space = space;
              enabled = true;
            } in
            let (pool', ret) = ResPool.add_action pool unregister_fn a calloc_action in
            if ret == 0
            then (
              with_regions m space (regions m space ++ r ∷ []),
              record dev { resources = pool' },
              ok r,
            )
            else (m, record dev { resources = pool' }, err ret)
      ]

  unfoldable pub register_region :
      IoMap → IoSpace → ℕ → ℕ → Device → IoMap × Device × Result IoRegion
  unfolding regions io_conflict ram_blocks register_new
  register_region m space base size dev =
      if not dev.has_ctx || not dev.has_ops || size == 0
      then (m, dev, err einval)
      else if ltb (u64_max - size) base
      then (m, dev, err eoverflow)
      else if io_conflict base size (regions m space) || ram_blocks space base size ram
      then (m, dev, err ebusy)
      else register_new m space base size dev

-- `list_del` of the region at one address: the cleanup action of a registration.
unfoldable pub del_region : ℕ → List IoRegion → List IoRegion
del_region self [] = []
del_region self (r ∷ rs) = if r.self == self then rs else r ∷ del_region self rs

unfoldable pub unregister : IoMap → IoRegion → IoMap
unfolding regions with_regions del_region
unregister m r = with_regions m r.space (del_region r.self (regions m r.space))

-- Stores through a region pointer.
unfoldable pub set_base : ℕ → ℕ → List IoRegion → List IoRegion
set_base self base [] = []
set_base self base (r ∷ rs) =
    (if r.self == self then record r { base = base } else r) ∷ set_base self base rs

unfoldable pub set_enabled : ℕ → Bool → List IoRegion → List IoRegion
set_enabled self b [] = []
set_enabled self b (r ∷ rs) =
    (if r.self == self then record r { enabled = b } else r) ∷ set_enabled self b rs

unfoldable pub relocate_conflict : ℕ → ℕ → ℕ → List IoRegion → Bool
relocate_conflict self base size [] = false
relocate_conflict self base size (reg ∷ rest) =
    (reg.self != self && (ltb base (add64 reg.base reg.size) && ltb reg.base (add64 base size)))
    || relocate_conflict self base size rest

-- `target` is the region that the pointer designates, with its present fields.
unfoldable pub relocate_region : IoMap → List MemRegion → IoRegion → ℕ → IoMap × ℕ
unfolding regions with_regions relocate_conflict ram_blocks set_base
relocate_region m ram target base =
    if ltb (u64_max - target.size) base
    then (m, eoverflow)
    else if relocate_conflict target.self base target.size (regions m target.space)
    then (m, ebusy)
    else if ram_blocks target.space base target.size ram
    then (m, ebusy)
    else (with_regions m target.space (set_base target.self base (regions m target.space)), 0)

-- A floating bus reads as ones.
abbrev pub all_ones : ℕ
all_ones = u64_max

-- The region that an access is routed to: the first that is enabled and contains the address.
unfoldable pub route : List IoRegion → ℕ → Option IoRegion
route [] addr = none
route (pos ∷ rest) addr =
    if pos.enabled && (leb pos.base addr && ltb addr (add64 pos.base pos.size))
    then some pos
    else route rest addr

-- What a device does on an access, over the state `S` of all devices: `none` is a NULL callback.
pub record DeviceOps (S : Type 0) : Type 0 where
  pub read : Option (IoRegion → ℕ → ℕ → S → S × ℕ)
  pub write : Option (IoRegion → ℕ → ℕ → ℕ → S → S)

abbrev pub is_access_size : ℕ → Bool
is_access_size size = size == 1 || (size == 2 || (size == 4 || size == 8))

-- `ops` gives `pos->dev->ops` for a device.
module _ {S : Type 0} (ops : ℕ → DeviceOps S) where
  unfoldable pub read_locked : IoMap → IoSpace → ℕ → ℕ → S → S × ℕ
  unfolding regions route
  read_locked m space addr size s = elim (route (regions m space) addr) [
    | none ↦ (s, all_ones)
    | some pos ↦
        let offset = sub64 addr pos.base in
        if ltb (sub64 pos.size offset) size
        then (s, all_ones)
        else elim (ops pos.dev).read [ none ↦ (s, all_ones) | some f ↦ f pos offset size s ]
  ]

  unfoldable pub write_locked : IoMap → IoSpace → ℕ → ℕ → ℕ → S → S
  unfolding regions route
  write_locked m space addr val size s = elim (route (regions m space) addr) [
    | none ↦ s
    | some pos ↦
        let offset = sub64 addr pos.base in
        if ltb (sub64 pos.size offset) size
        then s
        else elim (ops pos.dev).write [ none ↦ s | some f ↦ f pos offset val size s ]
  ]

  unfoldable pub read : IoMap → IoSpace → ℕ → ℕ → S → S × ℕ
  unfolding read_locked
  read m space addr size s =
      if is_access_size size then read_locked m space addr size s else (s, all_ones)

  unfoldable pub write : IoMap → IoSpace → ℕ → ℕ → ℕ → S → S
  unfolding write_locked
  write m space addr val size s =
      if is_access_size size then write_locked m space addr val size s else s
