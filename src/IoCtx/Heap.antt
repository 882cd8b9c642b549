-- ===== src/IoCtx/Heap.antt =====
-- The bindings that are allocated, by address, and what dropping references does to them.
use modvm.Prelude.{
  ℕ, suc, ◌+◌, ◌-◌, ◌%◌, ◌^◌, ◌<◌, ◌≡◌, refl, ap, ◌∙◌, ◌⊎◌, inl, inr, false, List, [], ◌∷◌, none,
  some, arith, length, Bool-cases, ◌==◌,
}
use modvm.IoCtx.{IoBinding, IoWork, IoCtx, get, put_at, free, with_refs, binding_put, put_each}

-- No two objects have one address.
abbrev pub IsDistinct : List IoBinding → Type 0
IsDistinct [] = Unit
IsDistinct (b ∷ bs) = (get b.addr bs ≡ none) × IsDistinct bs

-- A write leaves the address.
abbrev pub Stays : (IoBinding → IoBinding) → Type 0
Stays f = (b : IoBinding) → (f b).addr ≡ b.addr

pub get-addr : (a : ℕ) (bs : List IoBinding) (b : IoBinding) → get a bs ≡ some b → b.addr ≡ a
unfolding get
get-addr a [] b e = absurd (cc)
get-addr a (x ∷ bs) b e = ground (arith, get-addr a bs b)

pub get-put_at_self :
    (a : ℕ) (f : IoBinding → IoBinding) (bs : List IoBinding) (b : IoBinding)
    → Stays f
    → get a bs ≡ some b
    → get a (put_at a f bs) ≡ some (f b)
unfolding get put_at
get-put_at_self a f [] b h e = absurd (cc)
get-put_at_self a f (x ∷ bs) b h e = ground (arith, h x, get-put_at_self a f bs b h)

pub get-put_at_ne :
    (a k : ℕ) (f : IoBinding → IoBinding) (bs : List IoBinding)
    → Stays f
    → (a == k) ≡ false
    → get k (put_at a f bs) ≡ get k bs
unfolding get put_at
get-put_at_ne a k f [] h ne = refl
get-put_at_ne a k f (x ∷ bs) h ne = ground (arith, h x, get-put_at_ne a k f bs h ne)

pub get-free_ne : (a k : ℕ) (bs : List IoBinding) → (a == k) ≡ false → get k (free a bs) ≡ get k bs
unfolding get free
get-free_ne a k [] ne = refl
get-free_ne a k (x ∷ bs) ne = ground (arith, get-free_ne a k bs ne)

-- What one address misses, a free list misses.
get-free_none : (a k : ℕ) (bs : List IoBinding) → get k bs ≡ none → get k (free a bs) ≡ none
unfolding get free
get-free_none a k [] e = refl
get-free_none a k (x ∷ bs) e = ground (arith, get-free_none a k bs)

pub get-free_self : (a : ℕ) (bs : List IoBinding) → IsDistinct bs → get a (free a bs) ≡ none
unfolding get free
get-free_self a [] d = refl
get-free_self a (x ∷ bs) d = elim (Bool-cases (x.addr == a)) [
  | inl h ↦ rw (h, free) (ap (λ n. get n bs) (ground arith) ∙ d.0)
  | inr h ↦ rw (h, free) (rw (h, get) (get-free_self a bs d.1))
]

pub free-IsDistinct : (a : ℕ) (bs : List IoBinding) → IsDistinct bs → IsDistinct (free a bs)
unfolding free
free-IsDistinct a [] d = tt
free-IsDistinct a (x ∷ bs) d = elim (Bool-cases (x.addr == a)) [
  | inl h ↦ rw (h, free) d.1
  | inr h ↦ rw (h, free) (get-free_none a x.addr bs d.0, free-IsDistinct a bs d.1)
]

get-put_at_none :
    (a k : ℕ) (f : IoBinding → IoBinding) (bs : List IoBinding)
    → Stays f
    → get k bs ≡ none
    → get k (put_at a f bs) ≡ none
unfolding get put_at
get-put_at_none a k f [] h e = refl
get-put_at_none a k f (x ∷ bs) h e = ground (arith, h x, get-put_at_none a k f bs h)

pub put_at-IsDistinct :
    (a : ℕ) (f : IoBinding → IoBinding) (bs : List IoBinding)
    → Stays f
    → IsDistinct bs
    → IsDistinct (put_at a f bs)
unfolding put_at
put_at-IsDistinct a f [] h d = tt
put_at-IsDistinct a f (x ∷ bs) h d = elim (Bool-cases (x.addr == a)) [
  | inl e ↦ rw (e, put_at) (ap (λ n. get n bs) (h x) ∙ d.0, d.1)
  | inr e ↦ rw (e, put_at) (get-put_at_none a x.addr f bs h d.0, put_at-IsDistinct a f bs h d.1)
]

pub length-put_at :
    (a : ℕ) (f : IoBinding → IoBinding) (bs : List IoBinding) → length (put_at a f bs) ≡ length bs
unfolding put_at
length-put_at a f [] = refl
length-put_at a f (x ∷ bs) = ground (arith, length-put_at a f bs)

pub length-free :
    (a : ℕ) (bs : List IoBinding) (b : IoBinding)
    → get a bs ≡ some b
    → length bs ≡ suc (length (free a bs))
unfolding get free
length-free a [] b e = absurd (cc)
length-free a (x ∷ bs) b e = ground (arith, length-free a bs b)

-- `n` references of a binding are gone.
pub record Dropped (a n : ℕ) (b : IoBinding) (io io' : IoCtx) : Type 0 where
  pub distinct : IsDistinct io'.live
  pub total : io.bindings ≡ length io.live → io'.bindings ≡ length io'.live
  pub self :
      ((b.refs ≡ n) × (get a io'.live ≡ none))
      ⊎ (n < b.refs) × (get a io'.live ≡ some (with_refs (b.refs - n) b))
  pub others : (k : ℕ) → (a == k) ≡ false → get k io'.live ≡ get k io.live
  pub same_work : io'.work ≡ io.work
  pub same_stopped : io'.stopped ≡ io.stopped

-- One reference of a binding that is allocated, not the last one of an open binding.
pub binding_put-Dropped :
    (a : ℕ) (io : IoCtx) (b : IoBinding)
    → IsDistinct io.live
    → get a io.live ≡ some b
    → 0 < b.refs
    → b.refs < 2 ^ 32
    → (b.refs ≡ 1 → b.is_open ≡ false)
    → (io' : IoCtx) × (binding_put a io ≡ some io') × Dropped a 1 b io io'
unfolding binding_put
binding_put-Dropped a io b d e pos small last = elim (Bool-cases (b.refs == 1)) [
  | inl h ↦
      let shut = last (ground arith) in
      (
        record io { bindings = io.bindings - 1; live = free a io.live },
        rw (e, binding_put) (rw (h, binding_put) (rw (shut, binding_put) refl)),
        record {
          distinct = free-IsDistinct a io.live d;
          total = λ t. omega (arith, length-free a io.live b e);
          self = inl (ground arith, get-free_self a io.live d);
          others = λ k ne. get-free_ne a k io.live ne;
          same_work = refl;
          same_stopped = refl;
        },
      )
  | inr h ↦
      let n : (b.refs + 2 ^ 32 - 1) % 2 ^ 32 ≡ b.refs - 1 = omega arith in
      let f = with_refs ((b.refs + 2 ^ 32 - 1) % 2 ^ 32) in
      (
        record io { live = put_at a f io.live },
        rw (e, binding_put) (rw (h, binding_put) refl),
        record {
          distinct = put_at-IsDistinct a f io.live (λ x. refl) d;
          total = λ t. omega (arith, length-put_at a f io.live);
          self = inr (
            ground arith,
            get-put_at_self a f io.live b (λ x. refl) e ∙ ap (λ m. some (with_refs m b)) n,
          );
          others = λ k ne. get-put_at_ne a k f io.live (λ x. refl) ne;
          same_work = refl;
          same_stopped = refl;
        },
      )
]

-- As many references as there are works, and not the last one.
pub put_each-Dropped :
    (a : ℕ) (ws : List IoWork) (io : IoCtx) (b : IoBinding)
    → IsDistinct io.live
    → get a io.live ≡ some b
    → length ws < b.refs
    → b.refs < 2 ^ 32
    → (io' : IoCtx) × (put_each a ws io ≡ some io') × Dropped a (length ws) b io io'
unfolding put_each
put_each-Dropped a [] io b d e more small = (
  io,
  refl,
  record {
    distinct = d;
    total = λ t. t;
    self = inr (more, e ∙ ap (λ (n : ℕ). some (with_refs n b)) (omega arith));
    others = λ k ne. refl;
    same_work = refl;
    same_stopped = refl;
  },
)
put_each-Dropped a (w ∷ ws) io b d e more small =
    let (io', r, one) =
      binding_put-Dropped a io b d e (omega arith) small (λ h. absurd (omega arith)) in
    elim one.self [
      | inl (h, gone) ↦ absurd (omega arith)
      | inr (h, left) ↦
          let (io'', r', rest) =
            put_each-Dropped a ws io' (with_refs (b.refs - 1) b) one.distinct left (omega arith)
              (omega arith) in
          (
            io'',
            rw (r, put_each) r',
            record {
              distinct = rest.distinct;
              total = λ t. rest.total (one.total t);
              self = elim rest.self [
                | inl (h', gone) ↦ absurd (omega arith)
                | inr (h', left') ↦ inr (more, left' ∙ ap (λ n. some (with_refs n b)) (omega arith))
              ];
              others = λ k ne. rest.others k ne ∙ one.others k ne;
              same_work = rest.same_work ∙ one.same_work;
              same_stopped = rest.same_stopped ∙ one.same_stopped;
            },
          )
    ]
