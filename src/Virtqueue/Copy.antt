-- ===== src/Virtqueue/Copy.antt =====
-- `virtqueue_map`, `virtqueue_read` and `virtqueue_write`: a chain as two streams of bytes.
pub mod Exact
pub mod Transfer
use modvm.Prelude.{
  ℕ, zero, suc, ◌+◌, ◌-◌, Bool, true, false, ◌||◌, List, [], ◌∷◌, Option, none, some, ltb, leb,
  ◌==◌, if◌then◌else◌,
}
use modvm.Prelude.Errno.{einval, efault}
use modvm.Prelude.Words.{add64}
use modvm.Memory.{MemSpace, map_chunk}
use modvm.Virtqueue.Pop.{VirtqueueBuf, VirtqueueChain, total}

abbrev pub is_same : Bool → Bool → Bool
is_same true b = b
is_same false true = false
is_same false false = true

abbrev pub smaller : ℕ → ℕ → ℕ
smaller size available = if ltb size available then size else available

-- From the test of the pointer on: the piece, and the rest of the loop.
unfoldable pub copy_piece : Option ℕ → ℕ → ℕ → Option (List (ℕ × ℕ) × ℕ) → Option (List (ℕ × ℕ) × ℕ)
copy_piece none available chunk rest = some ([], efault)
copy_piece (some h) available chunk rest =
    if available == 0
    then some ([], efault)
    else elim rest [ none ↦ none | some (pieces, ret) ↦ some ((h, chunk) ∷ pieces, ret) ]

module _ (mem : MemSpace) where
  -- The second result is `*length`.
  unfoldable pub map_at : List VirtqueueBuf → Bool → ℕ → Option ℕ × ℕ
  map_at [] write offset = (none, 0)
  map_at (b ∷ bs) write offset = elim (is_same b.is_write write) [
    | false ↦ map_at bs write offset
    | true ↦ elim (leb b.len offset) [
      | true ↦ map_at bs write (offset - b.len)
      | false ↦ map_chunk mem (add64 b.gpa offset) (b.len - offset) write
    ]
  ]

  -- The loop of `virtqueue_copy`, on fuel; each round copies at least one byte, so the size is
  -- enough, and `none` is out of fuel. The calls of `memcpy` are listed by their address in the
  -- guest's memory and their length; the number is 0, or an error.
  unfoldable pub copy_loop : ℕ → List VirtqueueBuf → Bool → ℕ → ℕ → Option (List (ℕ × ℕ) × ℕ)
  unfolding map_at copy_piece
  copy_loop zero bufs write offset size = if size == 0 then some ([], 0) else none
  copy_loop (suc fuel) bufs write offset size =
      let (hva, available) = map_at bufs write offset in
      let chunk = smaller size available in
      let rest = copy_loop fuel bufs write (offset + chunk) (size - chunk) in
      if size == 0 then some ([], 0) else copy_piece hva available chunk rest

  -- `virtqueue_read` and `virtqueue_write`, by the direction.
  unfoldable pub copy : VirtqueueChain → Bool → ℕ → ℕ → Option (List (ℕ × ℕ) × ℕ)
  unfolding copy_loop
  copy c write offset size =
      let capacity = total c write in
      if ltb capacity offset || ltb (capacity - offset) size
      then some ([], einval)
      else copy_loop size c.bufs write offset size
