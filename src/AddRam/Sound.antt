-- ===== src/AddRam/Sound.antt =====
-- `vm_add_ram` keeps RAM and memory-mapped I/O apart, and its books in order.
use modvm.Prelude.{
  ℕ, ◌+◌, ◌^◌, ◌<◌, ◌≡◌, ◌≢◌, refl, ◌⊎◌, inl, inr, false, List, [], ◌∷◌, ◌++◌, arith, All,
  All-append, Option-cases, Bool-cases, All-map2, ◌!=◌,
}
use modvm.Prelude.Errno.{ok, err, einval, ebusy, enotsup, eoverflow, enomem, Result-cases}
use modvm.Memory.{MemRegion, region_is_overlap}
use modvm.Memory.Regions
use modvm.Memory.Regions.{Apart, Disjoint}
use modvm.IoMap.{IoRegion}
use modvm.IoMap.Topology.{IsFit, IsTopology, Clear}
use modvm.AddRam.{
  VmCtx, Host, PageCall, alloc, free, ram_overlap, io_overlap, mount, place, add_ram,
}

unfoldable pub ram_size : List MemRegion → ℕ
ram_size [] = 0
ram_size (r ∷ rs) = r.size + ram_size rs

pub record IsSound (ctx : VmCtx) : Type 0 where
  pub topology : IsTopology ctx.io_map ctx.mem_space.regions
  pub total : ctx.mem_space.total_ram ≡ ram_size ctx.mem_space.regions
  pub word : ctx.mem_space.total_ram < 2 ^ 64

ram_overlap-Apart :
    (gpa size : ℕ) (ram : List MemRegion)
    → 0 < size
    → gpa + size < 2 ^ 64
    → All Regions.IsFit ram
    → ram_overlap gpa size ram ≡ false
    → All (λ g. Apart g.gpa g.size gpa size) ram
unfolding ram_overlap region_is_overlap
ram_overlap-Apart gpa size [] pos small fit e = tt
ram_overlap-Apart gpa size (g ∷ gs) pos small fit e =
    let f = fit.0 in (ground arith, ram_overlap-Apart gpa size gs pos small fit.1 (ground arith))

io_overlap-Apart :
    (gpa size : ℕ) (rs : List IoRegion)
    → 0 < size
    → gpa + size < 2 ^ 64
    → All IsFit rs
    → io_overlap gpa size rs ≡ false
    → All (λ r. Apart r.base r.size gpa size) rs
unfolding io_overlap region_is_overlap
io_overlap-Apart gpa size [] pos small fit e = tt
io_overlap-Apart gpa size (r ∷ rs) pos small fit e =
    (ground arith, io_overlap-Apart gpa size rs pos small fit.1 (ground arith))

Disjoint-append :
    (ram : List MemRegion) (n : MemRegion)
    → Disjoint ram
    → All (λ g. Apart g.gpa g.size n.gpa n.size) ram
    → Disjoint (ram ++ n ∷ [])
Disjoint-append [] n d h = (tt, tt)
Disjoint-append (g ∷ gs) n d h = (
  All-append (λ q. Apart g.gpa g.size q.gpa q.size) gs (n ∷ []) d.0 (h.0, tt),
  Disjoint-append gs n d.1 h.1,
)

ram_size-append_last :
    (ram : List MemRegion) (n : MemRegion) → ram_size (ram ++ n ∷ []) ≡ ram_size ram + n.size
unfolding ram_size
ram_size-append_last [] n = omega arith
ram_size-append_last (g ∷ gs) n = omega (arith, ram_size-append_last gs n)

-- What the checks of `vm_add_ram` leave.
abbrev Passed : ℕ → ℕ → VmCtx → Type 0
Passed gpa size ctx =
    (0 < size)
    × (gpa + size < 2 ^ 64)
    × (ctx.mem_space.total_ram + size < 2 ^ 64)
    × (ram_overlap gpa size ctx.mem_space.regions ≡ false)
    × (io_overlap gpa size ctx.io_map.mmio_regions ≡ false)

module _ (host : Host) (gpa size flags : ℕ) (ctx : VmCtx) where
  place_cases :
      (P : VmCtx × ℕ × List PageCall → Type 0) (f : MemRegion → ℕ)
      → size < 2 ^ 64
      → 0 < size
      → ((e : ℕ) → e ≢ 0 → P (ctx, e, []))
      → (Passed gpa size ctx → P (mount host gpa size flags ctx f))
      → P (place host gpa size flags ctx f)
  unfolding place
  place_cases P f word pos fail go = ground (
    arith,
    fail eoverflow (omega arith),
    fail einval (omega arith),
    fail ebusy (omega arith),
    fail enomem (omega arith),
  )

  add_ram_cases :
      (P : VmCtx × ℕ × List PageCall → Type 0)
      → size < 2 ^ 64
      → ((e : ℕ) → e ≢ 0 → P (ctx, e, []))
      → ((f : MemRegion → ℕ) → Passed gpa size ctx → P (mount host gpa size flags ctx f))
      → P (add_ram host gpa size flags ctx)
  unfolding add_ram
  add_ram_cases P word fail go = elim (Option-cases ctx.accel) [
    | inl e ↦ ground (arith, fail ebusy (omega arith), fail einval (omega arith))
    | inr (a, e) ↦ elim (Option-cases a.map_ram) [
      | inl k ↦
          ground
            (arith, fail ebusy (omega arith), fail einval (omega arith), fail enotsup (omega arith))
      | inr (f, k) ↦ ground (
        arith,
        fail ebusy (omega arith),
        fail einval (omega arith),
        λ (pos : 0 < size). place_cases P f word pos fail (go f),
      )
    ]
  ]

  -- The outcomes of a call.
  abbrev pub Outcome : VmCtx × ℕ × List PageCall → Type 0
  Outcome r =
      ((r.1 ≢ 0) × (r.0 ≡ ctx) × ((r.2 ≡ []) ⊎ ((h : ℕ) × (r.2 ≡ alloc h size ∷ free h size ∷ []))))
      ⊎ ((r.1 ≡ 0)
          × (h : ℕ) × (r.2 ≡ alloc h size ∷ [])
          × (r.0.io_map ≡ ctx.io_map)
          × (r.0.mem_space.regions
              ≡ ctx.mem_space.regions
                ++ record { gpa = gpa; size = size; hva = h; flags = flags } ∷ []))

  mount-Outcome :
      (f : MemRegion → ℕ)
      → ((e : ℕ) → host.page_alloc ≡ err e → e ≢ 0)
      → Outcome (mount host gpa size flags ctx f)
  unfolding mount
  mount-Outcome f coded = elim (Result-cases host.page_alloc) [
    | inl (h, e) ↦
        elim (Bool-cases (f (record { gpa = gpa; size = size; hva = h; flags = flags }) != 0)) [
          | inl bad ↦ inl (ground arith, ground arith, inr (h, ground arith))
          | inr good ↦ inr (ground arith, h, ground arith, ground arith, ground arith)
        ]
    | inr (c, e) ↦ inl (ground (arith, coded c e), ground arith, inl (ground arith))
  ]

  -- A call that fails changes nothing in the VM, and gives back to the host any pages that it
  -- took. A call that succeeds adds one region, of the address, size and flags asked for, on the
  -- pages that it took, and leaves the I/O map alone.
  pub add_ram-Outcome :
      size < 2 ^ 64
      → ((e : ℕ) → host.page_alloc ≡ err e → e ≢ 0)
      → Outcome (add_ram host gpa size flags ctx)
  add_ram-Outcome word coded =
      add_ram_cases Outcome word (λ e ne. inl (ne, refl, inl refl)) (λ f _. mount-Outcome f coded)

  mounted-IsTopology :
      (h : ℕ)
      → IsSound ctx
      → Passed gpa size ctx
      → h + size < 2 ^ 64
      → IsTopology ctx.io_map
          (ctx.mem_space.regions ++ record { gpa = gpa; size = size; hva = h; flags = flags } ∷ [])
  mounted-IsTopology h v (pos, small, room, ram_free, io_free) fits =
      let t = v.topology in
      let n : MemRegion = record { gpa = gpa; size = size; hva = h; flags = flags } in
      record {
        ports = t.ports;
        memory = t.memory;
        ram_fit =
            All-append Regions.IsFit ctx.mem_space.regions (n ∷ []) t.ram_fit
              (record { full = pos; guest = small; host = fits }, tt);
        ram_pairs =
            Disjoint-append ctx.mem_space.regions n t.ram_pairs
              (ram_overlap-Apart gpa size ctx.mem_space.regions pos small t.ram_fit ram_free);
        clear =
            All-map2 (Clear ctx.mem_space.regions) (λ r. Apart r.base r.size gpa size)
              (Clear (ctx.mem_space.regions ++ n ∷ []))
              (λ r a b.
                All-append (λ g. Apart r.base r.size g.gpa g.size) ctx.mem_space.regions (n ∷ []) a
                  (b, tt))
              ctx.io_map.mmio_regions t.clear
              (io_overlap-Apart gpa size ctx.io_map.mmio_regions pos small t.memory.fit io_free);
      }

  mount-IsSound :
      (f : MemRegion → ℕ)
      → IsSound ctx
      → Passed gpa size ctx
      → ((h : ℕ) → host.page_alloc ≡ ok h → h + size < 2 ^ 64)
      → IsSound (mount host gpa size flags ctx f).0
  unfolding mount
  mount-IsSound f v passed pages = elim (Result-cases host.page_alloc) [
    | inl (h, e) ↦
        elim (Bool-cases (f (record { gpa = gpa; size = size; hva = h; flags = flags }) != 0)) [
          | inl bad ↦ rw (e, mount, bad) v
          | inr good ↦
              rw (e, mount, good)
                (record {
                  topology = mounted-IsTopology h v passed (pages h e);
                  total = omega (
                    arith,
                    v.total,
                    ram_size-append_last ctx.mem_space.regions
                        (record { gpa = gpa; size = size; hva = h; flags = flags }),
                  );
                  word = passed.2;
                })
        ]
    | inr (c, e) ↦ rw (e, mount) v
  ]

  -- Adding RAM keeps every region apart from every other, RAM from memory-mapped I/O, and
  -- `total_ram` equal to the sum of the regions, if the host's pages do not wrap its address space.
  pub add_ram-IsSound :
      size < 2 ^ 64
      → IsSound ctx
      → ((h : ℕ) → host.page_alloc ≡ ok h → h + size < 2 ^ 64)
      → IsSound (add_ram host gpa size flags ctx).0
  add_ram-IsSound word v pages =
      add_ram_cases (λ r. IsSound r.0) word (λ _ _. v) (λ f passed. mount-IsSound f v passed pages)
