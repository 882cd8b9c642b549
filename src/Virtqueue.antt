-- ===== src/Virtqueue.antt =====
-- src/hw/virtio/virtqueue.c and virtqueue.h: the ring that a driver and a device share, on the
-- device's side.
pub mod Pop
pub mod Copy
pub mod Lifecycle
mod Tests
use modvm.Prelude.{
  ℕ, ◌+◌, ◌-◌, ◌*◌, ◌%◌, Bool, true, false, ◌||◌, List, [], ◌∷◌, Option, none, some, ltb, ◌==◌,
  ◌!=◌, not, if◌then◌else◌, bit_and,
}
use modvm.Prelude.Errno.{einval, efault}
use modvm.Memory.{MemSpace, map_range}

-- `struct virtqueue`, less its memory space and the buffers of the current chain. The three rings
-- are host addresses.
pub record Virtqueue : Type 0 where
  pub queue_size : ℕ
  pub max_size : ℕ
  pub broken : Bool
  pub enabled : Bool
  pub last_avail_idx : ℕ
  pub last_used_idx : ℕ
  pub desc_table : Option ℕ
  pub avail_ring : Option ℕ
  pub used_ring : Option ℕ

-- The test of a power of two.
abbrev pub is_power : ℕ → Bool
is_power size = bit_and size (size - 1) == 0

-- `allocated` is whether `calloc` succeeds.
unfoldable pub create : ℕ → Bool → Option Virtqueue
create queue_size allocated =
    if queue_size == 0 || not (is_power queue_size) || not allocated
    then none
    else some (record {
      queue_size = queue_size;
      max_size = queue_size;
      broken = false;
      enabled = false;
      last_avail_idx = 0;
      last_used_idx = 0;
      desc_table = none;
      avail_ring = none;
      used_ring = none;
    })

unfoldable pub set_size : Virtqueue → ℕ → Virtqueue × ℕ
set_size vq size =
    if vq.enabled || (size == 0 || (not (is_power size) || ltb vq.max_size size))
    then (vq, einval)
    else (record vq { queue_size = size }, 0)

unfoldable pub reset : Virtqueue → Virtqueue
reset vq = record vq {
  enabled = false;
  broken = false;
  queue_size = vq.max_size;
  last_avail_idx = 0;
  last_used_idx = 0;
  desc_table = none;
  avail_ring = none;
  used_ring = none;
}

-- The three rings, if each can be mapped.
unfoldable pub bind_rings : Virtqueue → Option ℕ → Option ℕ → Option ℕ → Virtqueue × ℕ
bind_rings vq (some desc) (some avail) (some used) = (
  record vq {
    desc_table = some desc;
    avail_ring = some avail;
    used_ring = some used;
    enabled = true;
  },
  0,
)
bind_rings vq none avail used = (vq, efault)
bind_rings vq (some desc) none used = (vq, efault)
bind_rings vq (some desc) (some avail) none = (vq, efault)

unfoldable pub set_addrs : MemSpace → Virtqueue → ℕ → ℕ → ℕ → Virtqueue × ℕ
unfolding bind_rings
set_addrs mem vq desc_gpa avail_gpa used_gpa =
    if bit_and desc_gpa 15 != 0 || (bit_and avail_gpa 1 != 0 || bit_and used_gpa 3 != 0)
    then (vq, einval)
    else bind_rings vq (map_range mem desc_gpa (16 * vq.queue_size) false)
        (map_range mem avail_gpa (6 + 2 * vq.queue_size) false)
        (map_range mem used_gpa (6 + 8 * vq.queue_size) true)

unfoldable pub disable : Virtqueue → Virtqueue
disable vq = record vq { enabled = false }

-- A store to the used ring: one element, or the index that publishes it.
pub data UsedStore : Type 0 where
  element : ℕ → ℕ → ℕ → UsedStore
  index : ℕ → UsedStore

abbrev pub used_is_null : Virtqueue → Bool
used_is_null vq = elim vq.used_ring [ none ↦ true | some a ↦ false ]

-- The stores are listed in order, which the release fence between them keeps.
unfoldable pub push : Virtqueue → ℕ → ℕ → Virtqueue × List UsedStore
push vq desc_idx len =
    if not vq.enabled || used_is_null vq
    then (vq, [])
    else (let next = (vq.last_used_idx + 1) % 65536 in
        (
          record vq { last_used_idx = next },
          element (vq.last_used_idx % vq.queue_size) desc_idx len ∷ index next ∷ [],
        ))
