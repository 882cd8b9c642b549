-- ===== src/VirtioBlk.antt =====
-- src/hw/virtio/virtio_blk.c: the block device. Each request is a chain of the queue; what the
-- header holds when it is read, and what each call of the backend returns, are arguments.
pub mod Kick
pub mod Config
pub mod Transfer
pub mod Serve
pub mod Requests
pub mod Answered
mod Tests
use modvm.Prelude.{
  ℕ, zero, suc, ◌+◌, ◌-◌, ◌*◌, ◌/◌, ◌%◌, ◌^◌, Bool, true, false, ◌&&◌, ◌||◌, not, List, [], ◌∷◌,
  ◌++◌, take, drop, replicate, Option, none, some, ltb, leb, ◌==◌, ◌!=◌, if◌then◌else◌, bit_or,
}
use modvm.Prelude.Words.{u64_max}
use modvm.Memory.{MemSpace}
use modvm.Virtqueue.{Virtqueue, UsedStore, push}
use modvm.Virtqueue.Pop.{VirtqueueChain, VirtqueueBuf, Loads, Popped, nothing, popped, error, pop}
use modvm.Virtqueue.Copy.{map_at, copy, smaller}
use modvm.Virtio.{VirtioDevice, fail, DeviceCall}

abbrev pub sector_size : ℕ
sector_size = 512

-- sizeof(struct virtio_blk_outhdr).
abbrev pub hdr_size : ℕ
hdr_size = 16

abbrev pub type_in : ℕ
type_in = 0

abbrev pub type_out : ℕ
type_out = 1

abbrev pub type_flush : ℕ
type_flush = 4

abbrev pub type_get_id : ℕ
type_get_id = 8

abbrev pub status_ok : ℕ
status_ok = 0

abbrev pub status_ioerr : ℕ
status_ioerr = 1

abbrev pub status_unsupp : ℕ
status_unsupp = 2

-- `struct virtio_blk_outhdr`, less the field that the device does not read.
pub record OutHdr : Type 0 where
  pub type : ℕ
  pub sector : ℕ

-- The backend during one request: its size, and what the calls return. `transfer done` is the
-- bytes moved by the call at byte `done` of the request, `none` for an error; `flush` is `none`
-- without that callback, and else whether it succeeds.
pub record Backend : Type 0 where
  pub capacity : ℕ
  pub readonly : Bool
  pub flush : Option Bool
  pub transfer : ℕ → Option ℕ

-- A call of `read` or `write` of the backend: the buffer, its length, and the place on the medium.
pub record Call : Type 0 where
  pub hva : ℕ
  pub count : ℕ
  pub offset : ℕ
  pub input : Bool

-- What a request did and answers; `id` is the copies of the identity string.
pub record Response : Type 0 where
  pub calls : List Call
  pub flushed : Bool
  pub id : List (ℕ × ℕ)
  pub status : ℕ
  pub written : ℕ

abbrev pub answer : ℕ → Response
answer status = record { calls = []; flushed = false; id = []; status = status; written = 0 }

-- `if (n > 0 && input) written += n`.
abbrev pub add_written : Bool → ℕ → Option ℕ → ℕ
add_written input written none = written
add_written true written (some n) = (written + n) % 2 ^ 32
add_written false written (some n) = written

abbrev pub is_count : ℕ → Option ℕ → Bool
is_count chunk none = false
is_count chunk (some n) = n == chunk

abbrev pub with_call : Call → Option (List Call × ℕ × ℕ) → Option (List Call × ℕ × ℕ)
with_call call none = none
with_call call (some (calls, written, status)) = some (call ∷ calls, written, status)

-- `offset + done` is a uint64_t.
abbrev pub call_at : Bool → ℕ → ℕ → ℕ → Call
call_at input offset hva count = record { hva = hva; count = count; offset = offset; input = input }

abbrev pub has_flush : Option Bool → Bool
has_flush none = false
has_flush (some r) = true

abbrev pub is_input : OutHdr → Bool
is_input hdr = hdr.type == type_in || hdr.type == type_get_id

abbrev pub total_of : VirtqueueChain → OutHdr → ℕ
total_of c hdr = if is_input hdr then c.writable - 1 else c.readable - hdr_size

module _ (mem : MemSpace) (blk : Backend) where
  -- From the call of the backend on, `rest` being the other rounds.
  unfoldable pub transfer_chunk :
      Bool → ℕ → ℕ → Option ℕ × ℕ → ℕ → ℕ → Option (List Call × ℕ × ℕ) → Option (List Call × ℕ × ℕ)
  transfer_chunk input offset chunk (none, available) done written rest =
      some ([], written, status_ioerr)
  transfer_chunk input offset chunk (some hva, available) done written rest =
      let n = blk.transfer done in
      if available == 0
      then some ([], written, status_ioerr)
      else if is_count chunk n
      then with_call (call_at input ((offset + done) % 2 ^ 64) hva chunk) rest
      else some (
        call_at input ((offset + done) % 2 ^ 64) hva chunk ∷ [],
        add_written input written n,
        status_ioerr,
      )

  -- The loop over the chunks, on fuel; each round moves a byte or ends it, so `total` is enough.
  unfoldable pub transfer_loop :
      ℕ → List VirtqueueBuf → Bool → ℕ → ℕ → ℕ → ℕ → Option (List Call × ℕ × ℕ)
  unfolding transfer_chunk map_at
  transfer_loop zero bufs input offset total done written =
      if leb total done then some ([], written, status_ok) else none
  transfer_loop (suc fuel) bufs input offset total done written =
      let place = map_at mem bufs input (done + (if input then 0 else hdr_size)) in
      let chunk = smaller (total - done) place.1 in
      let rest =
        transfer_loop fuel bufs input offset total (done + chunk)
          (add_written input written (blk.transfer done)) in
      if leb total done
      then some ([], written, status_ok)
      else transfer_chunk input offset chunk place done written rest

  abbrev pub moved : Option (List Call × ℕ × ℕ) → Option Response
  moved none = none
  moved (some (calls, written, status)) =
      some (record (answer status) { calls = calls; written = written })

  -- `case VIRTIO_BLK_T_IN` and `case VIRTIO_BLK_T_OUT`.
  unfoldable pub transfer : VirtqueueChain → OutHdr → Bool → ℕ → Option Response
  unfolding transfer_loop
  transfer c hdr input total =
      if ltb (u64_max / sector_size) hdr.sector || total % sector_size != 0
      then some (answer status_ioerr)
      else (let offset = hdr.sector * sector_size in
          if ltb blk.capacity offset
            || (ltb (blk.capacity - offset) total || (not input && blk.readonly))
          then some (answer status_ioerr)
          else moved (transfer_loop total c.bufs input offset total 0 0))

  abbrev pub flush_status : Option Bool → ℕ
  flush_status none = status_unsupp
  flush_status (some false) = status_ioerr
  flush_status (some true) = status_ok

  -- `case VIRTIO_BLK_T_FLUSH`.
  unfoldable pub flush_all : ℕ → Response
  flush_all total =
      if total != 0
      then answer status_ioerr
      else record (answer (flush_status blk.flush)) { flushed = has_flush blk.flush }

  abbrev pub identified : Option (List (ℕ × ℕ) × ℕ) → Option Response
  identified none = none
  identified (some (pieces, ret)) =
      if ret != 0
      then some (record (answer status_ioerr) { id = pieces })
      else some (record (answer status_ok) { id = pieces; written = 20 })

  -- `case VIRTIO_BLK_T_GET_ID`.
  unfoldable pub get_id : VirtqueueChain → ℕ → Option Response
  unfolding copy
  get_id c total =
      if ltb total 20 then some (answer status_ioerr) else identified (copy mem c true 0 20)

  -- From the header on, up to the label `complete`.
  unfoldable pub serve_type : VirtqueueChain → OutHdr → Option Response
  unfolding transfer flush_all get_id
  serve_type c hdr =
      let input = is_input hdr in
      let total = total_of c hdr in
      if (input && c.readable != hdr_size)
        || ((not input && c.writable != 1) || ltb (2 ^ 32 - 2) total)
      then some (answer status_ioerr)
      else if hdr.type == type_in || hdr.type == type_out
      then transfer c hdr input total
      else if hdr.type == type_flush
      then some (flush_all total)
      else if hdr.type == type_get_id
      then get_id c total
      else some (answer status_unsupp)

  abbrev pub read_header : VirtqueueChain → OutHdr → Option (List (ℕ × ℕ) × ℕ) → Option Response
  unfolding serve_type
  read_header c hdr none = none
  read_header c hdr (some (pieces, ret)) =
      if ret != 0 then some (answer status_ioerr) else serve_type c hdr

  -- A request up to the label `complete`; `hdr` is what the header holds if it can be read.
  unfoldable pub serve : VirtqueueChain → OutHdr → Option Response
  unfolding copy read_header
  serve c hdr = read_header c hdr (copy mem c false 0 hdr_size)

  abbrev pub completed :
      Virtqueue
      → VirtqueueChain
      → ℕ
      → Option (List (ℕ × ℕ) × ℕ)
      → Option (Option (Virtqueue × List UsedStore × ℕ))
  completed vq c length none = none
  completed vq c length (some (pieces, ret)) =
      if ret != 0
      then some none
      else (let (vq', stores) = push vq c.head length in some (some (vq', stores, length)))

  -- From the label `complete` on: the chain that is given back with its length; `some none` is a
  -- device that fails.
  unfoldable pub complete :
      Virtqueue → VirtqueueChain → Response → Option (Option (Virtqueue × List UsedStore × ℕ))
  unfolding copy push
  complete vq c r = completed vq c ((r.written + 1) % 2 ^ 32) (copy mem c true (c.writable - 1) 1)
