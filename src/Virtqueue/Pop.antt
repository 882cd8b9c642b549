-- ===== src/Virtqueue/Pop.antt =====
-- `virtqueue_pop`: one descriptor chain, read from memory that the guest may change at any time.
pub mod Mapped
pub mod Chain
pub mod Outcome
pub mod Served
use modvm.Prelude.{
  ℕ, zero, suc, ◌+◌, ◌-◌, ◌%◌, Bool, true, false, ◌&&◌, ◌||◌, List, [], ◌∷◌, ◌++◌, Option, none,
  some, ltb, leb, ◌==◌, ◌!=◌, not, if◌then◌else◌, bit_and, length,
}
use modvm.Prelude.Errno.{einval, efault, eloop, eio}
use modvm.Prelude.Words.{u64_max, add64}
use modvm.Memory.{MemSpace, map_chunk}
use modvm.Virtqueue.{Virtqueue}

-- `struct vring_desc`, in the byte order of the host.
pub record VringDesc : Type 0 where
  pub addr : ℕ
  pub len : ℕ
  pub flags : ℕ
  pub next : ℕ

pub record VirtqueueBuf : Type 0 where
  pub gpa : ℕ
  pub len : ℕ
  pub is_write : Bool

-- `bufs` are the first `nr_bufs` buffers of the queue's storage.
pub record VirtqueueChain : Type 0 where
  pub bufs : List VirtqueueBuf
  pub head : ℕ
  pub readable : ℕ
  pub writable : ℕ

-- What the loads from the rings return: the available index, an entry of the available ring, and
-- the descriptor at an index when it is fetched as the n-th of the chain. The loads need not agree
-- with each other.
pub record Loads : Type 0 where
  pub avail_idx : ℕ
  pub avail_ring : ℕ → ℕ
  pub desc : ℕ → ℕ → VringDesc

abbrev pub desc_f_next : ℕ
desc_f_next = 1

abbrev pub desc_f_write : ℕ
desc_f_write = 2

abbrev pub empty_chain : VirtqueueChain
empty_chain = record { bufs = []; head = 0; readable = 0; writable = 0 }

-- The bytes of one direction so far.
abbrev pub total : VirtqueueChain → Bool → ℕ
total c true = c.writable
total c false = c.readable

abbrev pub add_buf : VirtqueueChain → VirtqueueBuf → VirtqueueChain
add_buf c b = elim b.is_write [
  | true ↦ record c { bufs = c.bufs ++ b ∷ []; writable = c.writable + b.len }
  | false ↦ record c { bufs = c.bufs ++ b ∷ []; readable = c.readable + b.len }
]

-- How one round of the loop ends.
pub data Round : Type 0 where
  done : VirtqueueChain → Round
  failed : VirtqueueChain → ℕ → Round
  next : VirtqueueChain → Bool → ℕ → Round

module _ (mem : MemSpace) where
  -- The inner loop, on fuel: a chunk has at least one byte, so the length is enough.
  unfoldable pub is_mapped : ℕ → ℕ → ℕ → Bool → Bool
  is_mapped zero gpa length write = length == 0
  is_mapped (suc fuel) gpa length write =
      let (hva, chunk) = map_chunk mem gpa length write in
      let rest = is_mapped fuel (add64 gpa chunk) (length - chunk) write in
      if length == 0
      then true
      else elim hva [ none ↦ false | some h ↦ if chunk == 0 then false else rest ]

  -- From the fetched descriptor on.
  unfoldable pub take_desc : VirtqueueChain → Bool → VringDesc → Round
  unfolding is_mapped
  take_desc c writable desc =
      let write = bit_and desc.flags desc_f_write != 0 in
      if bit_and desc.flags 0xfffc != 0 || (writable && not write)
      then failed c einval
      else if ltb (u64_max - desc.addr) desc.len || ltb (u64_max - total c write) desc.len
      then failed c efault
      else (let c' = add_buf c (record { gpa = desc.addr; len = desc.len; is_write = write }) in
          if not (is_mapped desc.len desc.addr desc.len write)
          then failed c' efault
          else if bit_and desc.flags desc_f_next == 0
          then done c'
          else next c' (writable || write) desc.next)

  module _ (loads : Loads) where
    unfoldable pub round : ℕ → VirtqueueChain → Bool → ℕ → Round
    unfolding take_desc
    round queue_size c writable index =
        if leb queue_size index
        then failed c efault
        else if length c.bufs == queue_size
        then failed c eloop
        else take_desc c writable (loads.desc (length c.bufs) index)

    -- The loop, on fuel; each round adds a buffer or ends, so `queue_size + 1` is enough. `none` is
    -- out of fuel; the number is 0, or an error.
    unfoldable pub walk : ℕ → ℕ → VirtqueueChain → Bool → ℕ → Option (VirtqueueChain × ℕ)
    unfolding round
    walk zero queue_size c writable index = none
    walk (suc fuel) queue_size c writable index = elim (round queue_size c writable index) [
      | done c' ↦ some (c', 0)
      | failed c' error ↦ some (c', error)
      | next c' writable' index' ↦ walk fuel queue_size c' writable' index'
    ]

-- What `virtqueue_pop` returns: 0, 1, or an error.
pub data Popped : Type 0 where
  nothing popped : Popped
  error : ℕ → Popped

module _ (mem : MemSpace) (loads : Loads) where
  -- From the test of the available index on.
  unfoldable pub pop_chain : Virtqueue → Option (Virtqueue × VirtqueueChain × Popped)
  unfolding walk
  pop_chain vq =
      if ltb vq.queue_size ((loads.avail_idx + 65536 - vq.last_avail_idx) % 65536)
      then some (record vq { broken = true }, empty_chain, error efault)
      else (let head = loads.avail_ring (vq.last_avail_idx % vq.queue_size) in
          let start = record empty_chain { head = head } in
          let r = walk mem loads (vq.queue_size + 1) vq.queue_size start false head in
          elim r [
            | none ↦ none
            | some (chain, ret) ↦
                if ret == 0
                then some
                    (record vq { last_avail_idx = (vq.last_avail_idx + 1) % 65536 }, chain, popped)
                else some (record vq { broken = true }, chain, error ret)
          ])

  unfoldable pub pop : Virtqueue → Option (Virtqueue × VirtqueueChain × Popped)
  unfolding pop_chain
  pop vq =
      if not vq.enabled
      then some (vq, empty_chain, nothing)
      else if vq.broken
      then some (vq, empty_chain, error eio)
      else if loads.avail_idx == vq.last_avail_idx
      then some (vq, empty_chain, nothing)
      else pop_chain vq
