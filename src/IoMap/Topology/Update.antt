-- ===== src/IoMap/Topology/Update.antt =====
-- Stores through a region pointer, and `list_del`, on a well-formed list of regions.
use modvm.Prelude.{
  ℕ, ◌+◌, ◌^◌, ◌<◌, ◌≡◌, ◌≢◌, ◌⊎◌, inl, inr, Bool, List, [], ◌∷◌, arith, All, Bool-cases, ◌==◌,
  All-map2, ◌∙◌, sym,
}
use modvm.Memory.Regions.{Apart}
use modvm.IoMap.{IoRegion, set_base, set_enabled, del_region}
use modvm.IoMap.Topology.{IsFit, Beside, Pairs, Laid}

-- What a predicate needs so that it survives a store: it holds of the region stored to.
pub All-set_base {κ} :
    (P : IoRegion → Type κ) (self base : ℕ) (rs : List IoRegion)
    → All P rs
    → All (λ r. r.self ≡ self → P (record r { base = base })) rs
    → All P (set_base self base rs)
unfolding set_base
All-set_base P self base [] h k = tt
All-set_base P self base (r ∷ rs) h k = elim (Bool-cases (r.self == self)) [
  | inl e ↦ rw e (k.0 (ground arith), All-set_base P self base rs h.1 k.1)
  | inr e ↦ rw e (h.0, All-set_base P self base rs h.1 k.1)
]

pub All-set_enabled {κ} :
    (P : IoRegion → Type κ) (self : ℕ) (b : Bool) (rs : List IoRegion)
    → All P rs
    → All (λ r. P (record r { enabled = b })) rs
    → All P (set_enabled self b rs)
unfolding set_enabled
All-set_enabled P self b [] h k = tt
All-set_enabled P self b (r ∷ rs) h k = elim (Bool-cases (r.self == self)) [
  | inl e ↦ rw e (k.0, All-set_enabled P self b rs h.1 k.1)
  | inr e ↦ rw e (h.0, All-set_enabled P self b rs h.1 k.1)
]

pub All-del {κ} :
    (P : IoRegion → Type κ) (self : ℕ) (rs : List IoRegion) → All P rs → All P (del_region self rs)
unfolding del_region
All-del P self [] h = tt
All-del P self (r ∷ rs) h = elim (Bool-cases (r.self == self)) [
  | inl e ↦ rw e h.1
  | inr e ↦ rw e (h.0, All-del P self rs h.1)
]

del-Pairs : (self : ℕ) (rs : List IoRegion) → Pairs rs → Pairs (del_region self rs)
unfolding del_region
del-Pairs self [] p = tt
del-Pairs self (r ∷ rs) p = elim (Bool-cases (r.self == self)) [
  | inl e ↦ rw e p.1
  | inr e ↦ rw e (All-del (Beside r) self rs p.0, del-Pairs self rs p.1)
]

pub del-Laid : (self : ℕ) (rs : List IoRegion) → Laid rs → Laid (del_region self rs)
del-Laid self rs l = record { fit = All-del IsFit self rs l.fit; pairs = del-Pairs self rs l.pairs }

set_enabled-Pairs :
    (self : ℕ) (b : Bool) (rs : List IoRegion) → Pairs rs → Pairs (set_enabled self b rs)
unfolding set_enabled
set_enabled-Pairs self b [] p = tt
set_enabled-Pairs self b (r ∷ rs) p = elim (Bool-cases (r.self == self)) [
  | inl e ↦ rw e (All-set_enabled (Beside r) self b rs p.0 p.0, set_enabled-Pairs self b rs p.1)
  | inr e ↦ rw e (All-set_enabled (Beside r) self b rs p.0 p.0, set_enabled-Pairs self b rs p.1)
]

pub set_enabled-Laid :
    (self : ℕ) (b : Bool) (rs : List IoRegion) → Laid rs → Laid (set_enabled self b rs)
set_enabled-Laid self b rs l = record {
  fit = All-set_enabled IsFit self b rs l.fit l.fit;
  pairs = set_enabled-Pairs self b rs l.pairs;
}

module _ (self base size : ℕ) where
  -- The region that is `self` has the size `size`, and the others are clear of its new place.
  abbrev pub Room : IoRegion → Type 0
  Room r = (r.self ≡ self → r.size ≡ size) × ((r.self ≡ self) ⊎ Apart r.base r.size base size)

  set_base-Beside_moved :
      (r : IoRegion) (rs : List IoRegion)
      → r.self ≡ self
      → r.size ≡ size
      → All Room rs
      → All (Beside r) rs
      → All (Beside (record r { base = base })) (set_base self base rs)
  set_base-Beside_moved r rs e sized room p =
      All-set_base (Beside (record r { base = base })) self base rs
        (All-map2 Room (Beside r) (Beside (record r { base = base })) (λ q a b. (ground arith, b.1))
          rs room p)
        (All-map2 Room (Beside r)
          (λ q. q.self ≡ self → Beside (record r { base = base }) (record q { base = base }))
          (λ q a b k. absurd (b.1 (e ∙ sym k))) rs room p)

  set_base-Beside_kept :
      (r : IoRegion) (rs : List IoRegion)
      → r.self ≢ self
      → Room r
      → All Room rs
      → All (Beside r) rs
      → All (Beside r) (set_base self base rs)
  set_base-Beside_kept r rs e own room p = All-set_base (Beside r) self base rs p (
      All-map2 Room (Beside r) (λ q. q.self ≡ self → Beside r (record q { base = base }))
        (λ q a b k. (ground (arith, a.0 k), b.1)) rs room p)

  set_base-Pairs : (rs : List IoRegion) → All Room rs → Pairs rs → Pairs (set_base self base rs)
  unfolding set_base
  set_base-Pairs [] room p = tt
  set_base-Pairs (r ∷ rs) room p = elim (Bool-cases (r.self == self)) [
    | inl e ↦
        let s : r.self ≡ self = ground arith in
        rw e (set_base-Beside_moved r rs s (room.0.0 s) room.1 p.0, set_base-Pairs rs room.1 p.1)
    | inr e ↦ rw e (
      set_base-Beside_kept r rs (λ s. ground arith) room.0 room.1 p.0,
      set_base-Pairs rs room.1 p.1,
    )
  ]

  pub set_base-Laid :
      (rs : List IoRegion)
      → base + size < 2 ^ 64
      → All Room rs
      → Laid rs
      → Laid (set_base self base rs)
  set_base-Laid rs small room l = record {
    fit = All-set_base IsFit self base rs l.fit (
        All-map2 Room IsFit (λ r. r.self ≡ self → IsFit (record r { base = base }))
          (λ r a b e. (b.0, omega (arith, a.0 e))) rs room l.fit);
    pairs = set_base-Pairs rs room l.pairs;
  }
