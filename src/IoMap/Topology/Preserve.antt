-- ===== src/IoMap/Topology/Preserve.antt =====
-- Every operation of io_map.c keeps the topology well formed.
use modvm.Prelude.{
  ℕ, ◌+◌, ◌^◌, ◌<◌, ◌≡◌, ◌≢◌, refl, ◌⊎◌, inl, inr, true, false, List, [], ◌∷◌, ◌++◌, Option, some,
  arith, All, All-IsIn, All-append, IsIn, Option-cases, All-map, subst, All-map2, ap, sym, ◌∙◌,
}
use modvm.Memory.{MemRegion}
use modvm.ResPool.{zalloc}
use modvm.ResPool.Ownership.{zalloc-some}
use modvm.Memory.Regions
use modvm.Memory.Regions.{Apart}
use modvm.IoMap.{
  IoRegion, IoMap, IoSpace, Device, pio, mmio, regions, io_conflict, ram_blocks, relocate_conflict,
  register_new, register_region, unregister, relocate_region, io_region_size, set_base,
  with_regions,
}
use modvm.IoMap.Topology.{
  IsFit, Beside, Pairs, Laid, Clear, IsTopology, io_conflict-Apart, ram_conflict-Apart,
  relocate_conflict-Apart, Pairs-append,
}
use modvm.IoMap.Topology.Update.{All-set_base, All-del, del-Laid, set_base-Laid}

pub laid :
    {m : IoMap} {ram : List MemRegion} → IsTopology m ram → (s : IoSpace) → Laid (regions m s)
unfolding regions
laid t pio = t.ports
laid t mmio = t.memory

-- Replacing the regions of one space.
replace-IsTopology :
    (m : IoMap) (ram : List MemRegion) (s : IoSpace) (rs : List IoRegion)
    → IsTopology m ram
    → Laid rs
    → (s ≡ mmio → All (Clear ram) rs)
    → IsTopology (with_regions m s rs) ram
unfolding with_regions
replace-IsTopology m ram pio rs t l c = record {
  ports = l;
  memory = t.memory;
  ram_fit = t.ram_fit;
  ram_pairs = t.ram_pairs;
  clear = t.clear;
}
replace-IsTopology m ram mmio rs t l c = record {
  ports = t.ports;
  memory = l;
  ram_fit = t.ram_fit;
  ram_pairs = t.ram_pairs;
  clear = c refl;
}

clear_of :
    {m : IoMap} {ram : List MemRegion}
    → IsTopology m ram
    → (s : IoSpace) → s ≡ mmio
    → All (Clear ram) (regions m s)
unfolding regions
clear_of t pio e = absurd (ground arith)
clear_of t mmio e = t.clear

-- Removing a region keeps the topology well formed.
pub unregister-IsTopology :
    (m : IoMap) (ram : List MemRegion) (r : IoRegion)
    → IsTopology m ram
    → IsTopology (unregister m r) ram
unfolding unregister
unregister-IsTopology m ram r t =
    replace-IsTopology m ram r.space _ t (del-Laid r.self (regions m r.space) (laid t r.space))
      λ e. All-del (Clear ram) r.self (regions m r.space) (clear_of t r.space e)

append-Laid :
    (rs : List IoRegion) (n : IoRegion)
    → Laid rs
    → 0 < n.size
    → n.base + n.size < 2 ^ 64
    → io_conflict n.base n.size rs ≡ false
    → All (λ r. r.self ≢ n.self) rs
    → Laid (rs ++ n ∷ [])
append-Laid rs n l pos small free new = record {
  fit = All-append IsFit rs (n ∷ []) l.fit ((pos, small), tt);
  pairs = Pairs-append rs n l.pairs (
      All-map2 (λ r. Apart r.base r.size n.base n.size) (λ r. r.self ≢ n.self) (λ r. Beside r n)
        (λ r a b. (a, b)) rs (io_conflict-Apart n.base n.size rs pos small l.fit free) new);
}

ram_blocks-Apart :
    (space : IoSpace) (base size : ℕ) (ram : List MemRegion)
    → 0 < size
    → base + size < 2 ^ 64
    → All Regions.IsFit ram
    → ram_blocks space base size ram ≡ false
    → space ≡ mmio
    → All (λ g. Apart base size g.gpa g.size) ram
unfolding ram_blocks
ram_blocks-Apart space base size ram pos small fit free e =
    ram_conflict-Apart base size ram pos small fit (ground arith)

module _ (m : IoMap) (ram : List MemRegion) (space : IoSpace) (base size : ℕ) (dev : Device) where
  abbrev pub added : ℕ → IoRegion
  added a = record {
    self = a;
    dev = dev.self;
    base = base;
    size = size;
    space = space;
    enabled = true;
  }

  register_new_cases {ℓ} :
      (P : IoMap → Type ℓ) (calloc_region calloc_action : Option ℕ)
      → P m
      → ((a : ℕ)
          → calloc_region ≡ some a
          → P (with_regions m space (regions m space ++ added a ∷ [])))
      → P (register_new ram calloc_region calloc_action m space base size dev).0
  unfolding register_new
  register_new_cases P calloc_region calloc_action same grown =
      elim (Option-cases (zalloc dev.resources io_region_size calloc_region).1) [
        | inl e ↦ ground arith
        | inr (a, e) ↦
            ground (arith, grown a (zalloc-some dev.resources io_region_size calloc_region e))
      ]

  register_region_cases {ℓ} :
      (P : IoMap → Type ℓ) (calloc_region calloc_action : Option ℕ)
      → size < 2 ^ 64
      → P m
      → (0 < size
          → base + size < 2 ^ 64
          → io_conflict base size (regions m space) ≡ false
          → ram_blocks space base size ram ≡ false
          → P (register_new ram calloc_region calloc_action m space base size dev).0)
      → P (register_region ram calloc_region calloc_action m space base size dev).0
  unfolding register_region
  register_region_cases P calloc_region calloc_action word same grown = ground arith

  -- A registration keeps the topology well formed, if the allocator returns an address that no
  -- region of the space has.
  pub register_region-IsTopology :
      (calloc_region calloc_action : Option ℕ)
      → size < 2 ^ 64
      → IsTopology m ram
      → ((a : ℕ) → calloc_region ≡ some a → All (λ r. r.self ≢ a) (regions m space))
      → IsTopology (register_region ram calloc_region calloc_action m space base size dev).0 ram
  register_region-IsTopology calloc_region calloc_action word t fresh =
      register_region_cases (λ q. IsTopology q ram) calloc_region calloc_action word t
        λ pos small io free.
          register_new_cases (λ q. IsTopology q ram) calloc_region calloc_action t
            λ a e.
              replace-IsTopology m ram space _ t
                (append-Laid (regions m space) (added a) (laid t space) pos small io (fresh a e))
                λ s.
                  All-append (Clear ram) (regions m space) (added a ∷ []) (clear_of t space s)
                    (ram_blocks-Apart space base size ram pos small t.ram_fit free s, tt)

-- The region that a pointer designates is the only one at its address.
sized-IsIn :
    (rs : List IoRegion) (target : IoRegion)
    → Pairs rs
    → IsIn target rs
    → All (λ r. r.self ≡ target.self → r.size ≡ target.size) rs
sized-IsIn [] target p i = absurd i
sized-IsIn (r ∷ rs) target p (inl e) = (
  (λ _. ap (λ q. q.size) (sym e)),
  All-map2 (Beside r) (Beside r) (λ q. q.self ≡ target.self → q.size ≡ target.size)
      (λ q a b k. absurd (a.1 (ap (λ t. t.self) (sym e) ∙ sym k))) rs p.0 p.0,
)
sized-IsIn (r ∷ rs) target p (inr i) =
    ((λ k. absurd ((All-IsIn (Beside r) target rs p.0 i).1 k)), sized-IsIn rs target p.1 i)

relocate_region_cases {ℓ} :
    (P : IoMap → Type ℓ) (m : IoMap) (ram : List MemRegion) (target : IoRegion) (base : ℕ)
    → target.size < 2 ^ 64
    → P m
    → (base + target.size < 2 ^ 64
        → relocate_conflict target.self base target.size (regions m target.space) ≡ false
        → ram_blocks target.space base target.size ram ≡ false
        → P (with_regions m target.space (set_base target.self base (regions m target.space))))
    → P (relocate_region m ram target base).0
unfolding relocate_region
relocate_region_cases P m ram target base word same moved = ground arith

-- A relocation keeps the topology well formed.
pub relocate_region-IsTopology :
    (m : IoMap) (ram : List MemRegion) (target : IoRegion) (base : ℕ)
    → IsTopology m ram
    → IsIn target (regions m target.space)
    → IsTopology (relocate_region m ram target base).0 ram
relocate_region-IsTopology m ram target base t i =
    let l = laid t target.space in
    let fit = All-IsIn IsFit target (regions m target.space) l.fit i in
    relocate_region_cases (λ q. IsTopology q ram) m ram target base (omega arith) t
      λ small io free.
        replace-IsTopology m ram target.space _ t
          (set_base-Laid target.self base target.size (regions m target.space) small
            (All-map2 (λ r. r.self ≡ target.self → r.size ≡ target.size)
              (λ r. (r.self ≡ target.self) ⊎ Apart r.base r.size base target.size) _
              (λ r a b. (a, b)) (regions m target.space)
              (sized-IsIn (regions m target.space) target l.pairs i)
              (relocate_conflict-Apart target.self base target.size (regions m target.space) fit.0
                small l.fit io))
            l)
          λ s.
            let there =
              ram_blocks-Apart target.space base target.size ram fit.0 small t.ram_fit free s in
            All-set_base (Clear ram) target.self base (regions m target.space)
              (clear_of t target.space s)
              (All-map (λ r. r.self ≡ target.self → r.size ≡ target.size)
                (λ r. r.self ≡ target.self → Clear ram (record r { base = base }))
                (λ r e k. subst (λ n. All (λ g. Apart base n g.gpa g.size) ram) (sym (e k)) there)
                (regions m target.space) (sized-IsIn (regions m target.space) target l.pairs i))
