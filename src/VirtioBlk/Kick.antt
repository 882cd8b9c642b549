-- ===== src/VirtioBlk/Kick.antt =====
-- `virtio_blk_notify_queue`: the requests of a queue, one after the other.
use modvm.Prelude.{
  ℕ, Bool, true, false, List, [], ◌∷◌, Option, none, some, ◌==◌, if◌then◌else◌, not, ◌||◌, leb,
  length, get_or,
}
use modvm.Memory.{MemSpace}
use modvm.Virtqueue.{Virtqueue, UsedStore}
use modvm.Virtqueue.Pop.{VirtqueueChain, Loads, Popped, nothing, popped, error, pop}
use modvm.Virtio.{VirtioDevice, DeviceCall, fail, is_ready, no_queue, with_vq}
use modvm.VirtioBlk.{OutHdr, Backend, Response, serve, complete}

-- What one round of `virtio_blk_notify_queue` meets: the words that `virtqueue_pop` loads, the header
-- of its request, and the backend.
pub record Request : Type 0 where
  pub loads : Loads
  pub hdr : OutHdr
  pub blk : Backend

-- A chain that was given back, with its length, the request's response and the stores for it.
pub record Done : Type 0 where
  pub chain : VirtqueueChain
  pub response : Response
  pub length : ℕ
  pub stores : List UsedStore

-- How a kick ends: whether `virtio_device_fail_locked` was called, and what was served.
pub record Kick : Type 0 where
  pub vq : Virtqueue
  pub served : List Done
  pub has_failed : Bool

abbrev pub kick_ends : Virtqueue → Bool → Option Kick
kick_ends vq has_failed = some (record { vq = vq; served = []; has_failed = has_failed })

abbrev pub with_done : Done → Option Kick → Option Kick
with_done d none = none
with_done d (some k) = some (record k { served = d ∷ k.served })

module _ (mem : MemSpace) where
  -- From `complete` on, with the other rounds on the queue that is left.
  unfoldable pub give_back :
      VirtqueueChain
      → Response
      → Virtqueue
      → Option (Option (Virtqueue × List UsedStore × ℕ))
      → (Virtqueue → Option Kick)
      → Option Kick
  give_back c r vq none rest = none
  give_back c r vq (some none) rest = kick_ends vq true
  give_back c r vq (some (some (vq', stores, len))) rest =
      with_done (record { chain = c; response = r; length = len; stores = stores }) (rest vq')

  abbrev pub chain_ends :
      Request
      → VirtqueueChain
      → Virtqueue
      → (Virtqueue → Option Kick)
      → Option Response
      → Option Kick
  unfolding complete give_back
  chain_ends q c vq rest none = none
  chain_ends q c vq rest (some r) = give_back c r vq (complete mem q.blk vq c r) rest

  -- A chain that was popped.
  unfoldable pub serve_chain :
      Request → VirtqueueChain → Virtqueue → (Virtqueue → Option Kick) → Option Kick
  unfolding serve chain_ends
  serve_chain q c vq rest =
      if c.writable == 0
      then kick_ends vq true
      else chain_ends q c vq rest (serve mem q.blk c q.hdr)

  unfoldable pub serve_popped :
      Request
      → Option (Virtqueue × VirtqueueChain × Popped)
      → (Virtqueue → Option Kick)
      → Option Kick
  unfolding serve_chain
  serve_popped q none rest = none
  serve_popped q (some (vq, c, nothing)) rest = kick_ends vq false
  serve_popped q (some (vq, c, error e)) rest = kick_ends vq true
  serve_popped q (some (vq, c, popped)) rest = serve_chain q c vq rest

  -- The loop of `virtio_blk_notify_queue`, a request for each round; `none` is too few of them.
  unfoldable pub process : List Request → Virtqueue → Option Kick
  unfolding serve_popped pop
  process [] vq = none
  process (q ∷ qs) vq = serve_popped q (pop mem q.loads vq) (process qs)

-- What `virtio_blk_notify_queue` does besides the requests: the calls of `virtio_device_fail_locked`,
-- then the interrupt if a chain was given back.
pub record Notified : Type 0 where
  pub vdev : VirtioDevice
  pub served : List Done
  pub calls : List DeviceCall
  pub need_irq : Bool

abbrev is_any : List Done → Bool
is_any [] = false
is_any (d ∷ ds) = true

unfoldable pub notified : VirtioDevice → ℕ → Option Kick → Option Notified
unfolding fail
notified dev idx none = none
notified dev idx (some k) =
    let after = with_vq dev idx k.vq in
    let (vdev, calls) = (if k.has_failed then fail after else (after, [])) in
    some (record { vdev = vdev; served = k.served; calls = calls; need_irq = is_any k.served })

-- `virtio_blk_notify_queue`, with what its rounds meet.
unfoldable pub notify_queue : MemSpace → VirtioDevice → ℕ → List Request → Option Notified
unfolding process notified is_ready
notify_queue mem dev idx qs =
    if not (is_ready dev) || leb (length dev.vqs) idx
    then some (record { vdev = dev; served = []; calls = []; need_irq = false })
    else notified dev idx (process mem qs (get_or dev.vqs idx no_queue))
