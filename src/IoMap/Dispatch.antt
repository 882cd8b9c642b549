-- ===== src/IoMap/Dispatch.antt =====
-- Which device an access of `io_map_read` and `io_map_write` reaches.
use modvm.Prelude.{
  ℕ, ◌+◌, ◌-◌, ◌≤◌, ◌<◌, ◌≡◌, inl, inr, true, false, List, [], ◌∷◌, none, some, arith, All,
  All-IsIn, IsIn, Option-cases, ltb,
}
use modvm.Prelude.Words.{sub64}
use modvm.Memory.{MemRegion}
use modvm.IoMap.{
  IoRegion, IoMap, IoSpace, DeviceOps, regions, route, read_locked, write_locked, read, write,
  is_access_size, all_ones,
}
use modvm.IoMap.Topology.{IsFit, Beside, Laid, IsTopology}
use modvm.IoMap.Topology.Preserve.{laid}

abbrev pub Covers : IoRegion → ℕ → Type 0
Covers r addr = (r.base ≤ addr) × (addr < r.base + r.size)

-- The whole access lies in the region.
abbrev pub Within : IoRegion → ℕ → ℕ → Type 0
Within r addr size = (r.base ≤ addr) × (addr + size ≤ r.base + r.size)

route-IsIn :
    (rs : List IoRegion) (addr : ℕ) (r : IoRegion)
    → All IsFit rs
    → route rs addr ≡ some r
    → IsIn r rs × (r.enabled ≡ true) × Covers r addr
unfolding route
route-IsIn [] addr r fit e = absurd (ground arith)
route-IsIn (q ∷ qs) addr r fit e = let f = fit.0 in ground (arith, route-IsIn qs addr r fit.1)

route-hit :
    (rs : List IoRegion) (addr : ℕ) (r : IoRegion)
    → Laid rs
    → IsIn r rs
    → r.enabled ≡ true
    → Covers r addr
    → route rs addr ≡ some r
unfolding route
route-hit [] addr r l i on c = absurd i
route-hit (q ∷ qs) addr r l (inl e) on c = let f = l.fit.0 in ground arith
route-hit (q ∷ qs) addr r l (inr i) on c =
    let f = l.fit.0 in
    let b = All-IsIn (Beside q) r qs l.pairs.0 i in
    let ih = route-hit qs addr r (record { fit = l.fit.1; pairs = l.pairs.1 }) i on c in
    ground arith

size_pos : (size : ℕ) → is_access_size size ≡ true → 0 < size
size_pos size e = ground arith

offset_eq : (r : IoRegion) (addr : ℕ) → IsFit r → Covers r addr → sub64 addr r.base ≡ addr - r.base
offset_eq r addr f c = omega arith

fits_iff :
    (r : IoRegion) (addr size : ℕ)
    → IsFit r
    → Covers r addr
    → Within r addr size
    → ltb (sub64 r.size (sub64 addr r.base)) size ≡ false
fits_iff r addr size f c w = ground arith

crosses :
    (r : IoRegion) (addr size : ℕ)
    → IsFit r
    → Covers r addr
    → ¬ Within r addr size
    → ltb (sub64 r.size (sub64 addr r.base)) size ≡ true
crosses r addr size f c w = ground (arith, w)

module _ {S : Type 0} (ops : ℕ → DeviceOps S) (m : IoMap) (ram : List MemRegion)
    (space : IoSpace) where
  -- An access of 1, 2, 4 or 8 bytes that lies in an enabled region reaches that region's device,
  -- whatever other regions there are, with the offset from the region's base. A device without the
  -- callback reads as ones and ignores writes.
  pub access-Within :
      (r : IoRegion) (addr size val : ℕ) (s : S)
      → IsTopology m ram
      → IsIn r (regions m space)
      → r.enabled ≡ true
      → Within r addr size
      → is_access_size size ≡ true
      → (read ops m space addr size s
          ≡ elim (ops r.dev).read [ none ↦ (s, all_ones) | some f ↦ f r (addr - r.base) size s ])
        × (write ops m space addr val size s
            ≡ elim (ops r.dev).write [ none ↦ s | some f ↦ f r (addr - r.base) val size s ])
  unfolding read write read_locked write_locked
  access-Within r addr size val s t i on w sz =
      let l = laid t space in
      let f = All-IsIn IsFit r (regions m space) l.fit i in
      let c : Covers r addr = (w.0, omega (arith, size_pos size sz)) in
      let hit = route-hit (regions m space) addr r l i on c in
      let fits = fits_iff r addr size f c w in
      let off = offset_eq r addr f c in (ground arith, ground arith)

  -- An access of any size that lies in no enabled region as a whole reads as ones and writes
  -- nothing: neither reaches a device.
  pub access_outside :
      (addr size val : ℕ) (s : S)
      → IsTopology m ram
      → All (λ r. r.enabled ≡ true → ¬ (Within r addr size)) (regions m space)
      → (read ops m space addr size s ≡ (s, all_ones)) × (write ops m space addr val size s ≡ s)
  unfolding read write read_locked write_locked
  access_outside addr size val s t out = elim (Option-cases (route (regions m space) addr)) [
    | inl miss ↦ (ground arith, ground arith)
    | inr (r, hit) ↦
        let (i, on, c) = route-IsIn (regions m space) addr r (laid t space).fit hit in
        let f = All-IsIn IsFit r (regions m space) (laid t space).fit i in
        let x = crosses r addr size f c (
          All-IsIn (λ q. q.enabled ≡ true → ¬ (Within q addr size)) r (regions m space) out i on) in
        (ground arith, ground arith)
  ]
