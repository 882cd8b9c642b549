-- ===== src/Virtqueue/Copy/Exact.antt =====
-- A copy on a chain touches exactly the bytes of the stream, and never fails within it.
use modvm.Prelude.{
  ℕ, ◌+◌, ◌-◌, ◌^◌, ◌≤◌, ◌<◌, ◌≡◌, refl, inl, inr, Bool, true, false, Option, none, some, List, [],
  ◌∷◌, All, arith, ap, ◌∙◌, subst, Bool-cases, leb, ltb,
}
use native.Mathlib.Decide.{dec_lt}
use modvm.Prelude.Words.{add64}
use modvm.Memory.{MemSpace, map_chunk}
use modvm.Memory.Translate.{
  IsValid, translate, map_chunk-translate, map_chunk-none, map_chunk-region,
}
use modvm.Virtqueue.Pop.{VirtqueueBuf}
use modvm.Virtqueue.Pop.Mapped.{Usable, Mapped-split}
use modvm.Virtqueue.Pop.Chain.{BufUsable, bytes, counts}
use modvm.Virtqueue.Copy.{is_same, map_at}

add64_small : (a b : ℕ) → a + b < 2 ^ 64 → add64 a b ≡ a + b
add64_small a b h = omega arith

-- The guest address of one byte of the stream of a direction.
abbrev pub locate : List VirtqueueBuf → Bool → ℕ → Option ℕ
locate [] write offset = none
locate (b ∷ bs) write offset = elim (is_same b.is_write write) [
  | false ↦ locate bs write offset
  | true ↦ elim (leb b.len offset) [
    | true ↦ locate bs write (offset - b.len)
    | false ↦ some (b.gpa + offset)
  ]
]

-- The host byte that a list of pieces has at a place.
abbrev pub byte_at : List (ℕ × ℕ) → ℕ → Option ℕ
byte_at [] i = none
byte_at (p ∷ ps) i = elim (ltb i p.1) [ true ↦ some (p.0 + i) | false ↦ byte_at ps (i - p.1) ]

-- A host byte is that of the stream at an offset.
abbrev pub Stands : MemSpace → List VirtqueueBuf → Bool → ℕ → ℕ → Type 0
Stands mem bufs write offset h =
    (g : ℕ) × (locate bufs write offset ≡ some g) × (translate mem g ≡ some h)

is_same_refl : {a b : Bool} → a ≡ b → is_same a b ≡ true
is_same_refl {a = true} e = ground arith
is_same_refl {a = false} e = ground arith

is_same-eq : {a b : Bool} → is_same a b ≡ true → a ≡ b
is_same-eq {a = true} e = ground arith
is_same-eq {a = false} e = ground arith

counts-other : (write w : Bool) (n : ℕ) → is_same w write ≡ false → counts write w n ≡ 0
counts-other true true n e = ground arith
counts-other true false n e = refl
counts-other false true n e = refl
counts-other false false n e = ground arith

counts-same : (write w : Bool) (n : ℕ) → is_same w write ≡ true → counts write w n ≡ n
counts-same true true n e = refl
counts-same true false n e = ground arith
counts-same false true n e = ground arith
counts-same false false n e = refl

module _ (mem : MemSpace) (v : IsValid mem) (write : Bool) where
  -- What `virtqueue_map` yields within the stream.
  abbrev Chunk : List VirtqueueBuf → ℕ → Option ℕ × ℕ → Type 0
  Chunk bufs offset r =
      (h : ℕ) × (n : ℕ) × (r ≡ (some h, n))
      × (0 < n)
      × ((i : ℕ) → i < n → Stands mem bufs write (offset + i) (h + i))

  -- The three cases of a buffer, of `map_at` and `locate` alike.
  here :
      (b : VirtqueueBuf) (bs : List VirtqueueBuf) (offset : ℕ)
      → is_same b.is_write write ≡ true
      → offset < b.len
      → (map_at mem (b ∷ bs) write offset
          ≡ map_chunk mem (add64 b.gpa offset) (b.len - offset) write)
        × (locate (b ∷ bs) write offset ≡ some (b.gpa + offset))
  unfolding map_at
  here b bs offset same lt = (ground arith, ground arith)

  later :
      (b : VirtqueueBuf) (bs : List VirtqueueBuf) (offset : ℕ)
      → is_same b.is_write write ≡ true
      → b.len ≤ offset
      → (map_at mem (b ∷ bs) write offset ≡ map_at mem bs write (offset - b.len))
        × (locate (b ∷ bs) write offset ≡ locate bs write (offset - b.len))
  unfolding map_at
  later b bs offset same le = (ground arith, ground arith)

  other :
      (b : VirtqueueBuf) (bs : List VirtqueueBuf) (offset : ℕ)
      → is_same b.is_write write ≡ false
      → (map_at mem (b ∷ bs) write offset ≡ map_at mem bs write offset)
        × (locate (b ∷ bs) write offset ≡ locate bs write offset)
  unfolding map_at
  other b bs offset differ = (ground arith, ground arith)

  buf-Chunk :
      (b : VirtqueueBuf) (bs : List VirtqueueBuf) (offset : ℕ)
      → BufUsable mem b
      → is_same b.is_write write ≡ true
      → offset < b.len
      → Chunk (b ∷ bs) offset (map_chunk mem (b.gpa + offset) (b.len - offset) write)
  buf-Chunk b bs offset (fits, u) same lt =
      let use_byte = subst (λ w. Usable mem w (b.gpa + offset)) (is_same-eq same) (u offset lt) in
      let small : b.gpa + offset + (b.len - offset) < 2 ^ 64 = omega arith in
      elim (Mapped-split mem (b.gpa + offset) (b.len - offset) write) [
        | inl miss ↦ absurd (
            ground (
              arith,
              (map_chunk-none mem (b.gpa + offset) (b.len - offset) write v (omega arith) small).0
                  miss,
              use_byte,
            ))
        | inr (h, hit) ↦
            let n = (map_chunk mem (b.gpa + offset) (b.len - offset) write).1 in
            let (r, _, _, _, _, _, pos, le, _, _) =
              map_chunk-region mem (b.gpa + offset) (b.len - offset) write v (omega arith) hit in
            (
              h,
              n,
              hit,
              pos,
              λ i near.
                  let t =
                    map_chunk-translate mem (b.gpa + offset) (b.len - offset) i write v
                      (omega arith) hit near in
                  (
                    b.gpa + (offset + i),
                    (here b bs (offset + i) same (omega arith)).1,
                    ap (translate mem) (omega arith) ∙ t.0,
                  ),
            )
      ]

  pub map_at-Chunk :
      (bufs : List VirtqueueBuf) (offset : ℕ)
      → All (BufUsable mem) bufs
      → offset < bytes write bufs
      → Chunk bufs offset (map_at mem bufs write offset)
  map_at-Chunk [] offset u lt = absurd (omega arith)
  map_at-Chunk (b ∷ bs) offset u lt = elim (Bool-cases (is_same b.is_write write)) [
    | inr differ ↦
        let (h, n, e, pos, stands) =
          map_at-Chunk bs offset u.1 (omega (arith, counts-other write b.is_write b.len differ)) in
        (
          h,
          n,
          (other b bs offset differ).0 ∙ e,
          pos,
          λ i near.
              let (g, at, t) = stands i near in (g, (other b bs (offset + i) differ).1 ∙ at, t),
        )
    | inl same ↦ elim (dec_lt offset b.len) [
      | yes near ↦
          let (h, n, e, pos, stands) = buf-Chunk b bs offset u.0 same near in
          (
            h,
            n,
            (here b bs offset same near).0
                ∙ ap (λ a. map_chunk mem a (b.len - offset) write)
                    (add64_small b.gpa offset (omega (arith, u.0.0)))
                ∙ e,
            pos,
            stands,
          )
      | no far ↦
          let (h, n, e, pos, stands) =
            map_at-Chunk bs (offset - b.len) u.1
              (omega (arith, counts-same write b.is_write b.len same)) in
          (
            h,
            n,
            (later b bs offset same (omega arith)).0 ∙ e,
            pos,
            λ i near.
                let (g, at, t) = stands i near in
                (
                  g,
                  (later b bs (offset + i) same (omega arith)).1
                      ∙ ap (locate bs write) (omega arith)
                      ∙ at,
                  t,
                ),
          )
    ]
  ]
