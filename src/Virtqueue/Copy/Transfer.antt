-- ===== src/Virtqueue/Copy/Transfer.antt =====
-- `virtqueue_read` and `virtqueue_write` on a chain that `virtqueue_pop` has returned.
use modvm.Prelude.{
  ℕ, ◌⊎◌, inl, inr, zero, suc, ◌+◌, ◌-◌, ◌≤◌, ◌<◌, ◌≡◌, refl, Bool, true, false, Option, some, List,
  [], ◌∷◌, All, arith, ap, ◌∙◌, subst, ◌==◌, if◌then◌else◌,
}
use native.Mathlib.Decide.{dec_lt}
use modvm.Prelude.Errno.{einval}
use modvm.Memory.{MemSpace}
use modvm.Memory.Translate.{IsValid}
use modvm.Virtqueue.Pop.{VirtqueueBuf, VirtqueueChain, total}
use modvm.Virtqueue.Pop.Chain.{IsChain, BufUsable, bytes}
use modvm.Virtqueue.Copy.{map_at, smaller, copy_piece, copy_loop, copy}
use modvm.Virtqueue.Copy.Exact.{Stands, byte_at, map_at-Chunk}

abbrev pub piece_sum : List (ℕ × ℕ) → ℕ
piece_sum [] = 0
piece_sum (p ∷ ps) = p.1 + piece_sum ps

-- The pieces are the bytes of the stream from `offset` on, one by one.
abbrev pub Copies : MemSpace → List VirtqueueBuf → Bool → ℕ → ℕ → List (ℕ × ℕ) → Type 0
Copies mem bufs write offset size pieces =
    (piece_sum pieces ≡ size)
    × ((i : ℕ)
        → i < size
        → (h : ℕ) × (byte_at pieces i ≡ some h) × Stands mem bufs write (offset + i) h)

byte_at-near : (h n i : ℕ) (ps : List (ℕ × ℕ)) → i < n → byte_at ((h, n) ∷ ps) i ≡ some (h + i)
byte_at-near h n i ps lt = ground arith

byte_at-far : (h n i : ℕ) (ps : List (ℕ × ℕ)) → n ≤ i → byte_at ((h, n) ∷ ps) i ≡ byte_at ps (i - n)
byte_at-far h n i ps le = ground arith

piece :
    (size h n chunk : ℕ) (rest : Option (List (ℕ × ℕ) × ℕ)) (ps : List (ℕ × ℕ))
    → 0 < size
    → 0 < n
    → rest ≡ some (ps, 0)
    → (if size == 0 then some ([], 0) else copy_piece (some h) n chunk rest)
      ≡ some ((h, chunk) ∷ ps, 0)
unfolding copy_piece
piece size h n chunk rest ps pos npos e = ground arith

module _ (mem : MemSpace) (v : IsValid mem) (bufs : List VirtqueueBuf) (write : Bool)
    (usable : All (BufUsable mem) bufs) where
  copy_loop-step :
      (fuel offset size h n : ℕ) (ps : List (ℕ × ℕ))
      → 0 < size
      → map_at mem bufs write offset ≡ (some h, n)
      → 0 < n
      → copy_loop mem fuel bufs write (offset + smaller size n) (size - smaller size n)
        ≡ some (ps, 0)
      → copy_loop mem (suc fuel) bufs write offset size ≡ some ((h, smaller size n) ∷ ps, 0)
  unfolding copy_loop copy_piece
  copy_loop-step fuel offset size h n ps pos e npos rest =
      ap
        (λ p.
          if size == 0
          then some ([], 0)
          else copy_piece p.0 p.1 (smaller size p.1)
              (copy_loop mem fuel bufs write (offset + smaller size p.1) (size - smaller size p.1)))
        e
      ∙ piece size h n (smaller size n) _ ps pos npos rest

  copy_loop-zero : (fuel offset : ℕ) → copy_loop mem fuel bufs write offset 0 ≡ some ([], 0)
  unfolding copy_loop
  copy_loop-zero zero offset = refl
  copy_loop-zero (suc fuel) offset = refl

  copy_loop-Copies :
      (fuel offset size : ℕ)
      → size ≤ fuel
      → offset + size ≤ bytes write bufs
      → (pieces : List (ℕ × ℕ)) × (copy_loop mem fuel bufs write offset size ≡ some (pieces, 0))
        × Copies mem bufs write offset size pieces
  copy_loop-Copies fuel offset zero enough within =
      ([], copy_loop-zero fuel offset, (refl, λ i lt. absurd (omega arith)))
  copy_loop-Copies zero offset (suc size) enough within = absurd (omega arith)
  copy_loop-Copies (suc fuel) offset (suc size) enough within =
      let (h, n, e, pos, stands) = map_at-Chunk mem v write bufs offset usable (omega arith) in
      let chunk = smaller (suc size) n in
      let small : chunk ≤ suc size = ground arith in
      let less : chunk ≤ n = ground arith in
      let some_byte : 0 < chunk = ground arith in
      let (ps, rest, (sum, copies)) =
        copy_loop-Copies fuel (offset + chunk) (suc size - chunk) (omega arith) (omega arith) in
      (
        (h, chunk) ∷ ps,
        copy_loop-step fuel offset (suc size) h n ps (omega arith) e pos rest,
        (
          omega (arith, sum),
          λ i lt. elim (dec_lt i chunk) [
            | yes near ↦ (h + i, byte_at-near h chunk i ps near, stands i (omega arith))
            | no far ↦
                let (b, at, place) = copies (i - chunk) (omega arith) in
                (
                  b,
                  byte_at-far h chunk i ps (omega arith) ∙ at,
                  subst (λ k. Stands mem bufs write k b) (omega arith) place,
                )
          ],
        ),
      )

total-bytes :
    (mem : MemSpace) (c : VirtqueueChain) (seen write : Bool)
    → IsChain mem c seen
    → total c write ≡ bytes write c.bufs
total-bytes mem c seen true chain = chain.writable
total-bytes mem c seen false chain = chain.readable

copy_inside :
    (mem : MemSpace) (c : VirtqueueChain) (write : Bool) (offset size : ℕ)
    → offset + size ≤ total c write
    → copy mem c write offset size ≡ copy_loop mem size c.bufs write offset size
unfolding copy
copy_inside mem c write offset size within = ground arith

copy-Copies :
    (mem : MemSpace) (c : VirtqueueChain) (seen write : Bool) (offset size : ℕ)
    → IsValid mem
    → IsChain mem c seen
    → offset + size ≤ total c write
    → (pieces : List (ℕ × ℕ)) × (copy mem c write offset size ≡ some (pieces, 0))
      × Copies mem c.bufs write offset size pieces
copy-Copies mem c seen write offset size v chain within =
    let within' : offset + size ≤ bytes write c.bufs =
      subst (λ t. offset + size ≤ t) (total-bytes mem c seen write chain) within in
    let (ps, e, copies) =
      copy_loop-Copies mem v c.bufs write chain.usable size offset size (omega arith) within' in
    (ps, copy_inside mem c write offset size within ∙ e, copies)

copy_outside :
    (mem : MemSpace) (c : VirtqueueChain) (write : Bool) (offset size : ℕ)
    → total c write < offset + size
    → copy mem c write offset size ≡ some ([], einval)
unfolding copy
copy_outside mem c write offset size out = ground arith

-- On a chain as `virtqueue_pop` returns it, a copy of `size` bytes at `offset` comes to an end and
-- either lies within the total of its direction and succeeds, or is refused and copies nothing. The
-- calls of `memcpy` that a success makes cover `size` bytes in all, and the i-th byte of them is the
-- host byte of the guest address that the chain has at `offset + i`.
pub copy_total :
    (mem : MemSpace) (c : VirtqueueChain) (seen write : Bool) (offset size : ℕ)
    → IsValid mem
    → IsChain mem c seen
    → ((offset + size ≤ total c write)
        × (pieces : List (ℕ × ℕ)) × (copy mem c write offset size ≡ some (pieces, 0))
        × Copies mem c.bufs write offset size pieces)
      ⊎ ((total c write < offset + size) × (copy mem c write offset size ≡ some ([], einval)))
copy_total mem c seen write offset size v chain = elim (dec_lt (total c write) (offset + size)) [
  | yes out ↦ inr (out, copy_outside mem c write offset size out)
  | no within ↦
      let le : offset + size ≤ total c write = omega arith in
      let (ps, e, copies) = copy-Copies mem c seen write offset size v chain le in
      inl (le, ps, e, copies)
]
