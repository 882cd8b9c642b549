-- ===== src/Virtio.antt =====
-- src/hw/virtio/virtio.c and include/modvm/hw/virtio/virtio.h: the life of a virtio device and the
-- status protocol between its driver and it.
pub mod Status
pub mod Negotiation
mod Tests
use modvm.Prelude.{
  ℕ, ◌+◌, ◌-◌, ◌*◌, ◌%◌, ◌^◌, Bool, true, false, ◌&&◌, ◌||◌, not, List, [], ◌∷◌, ◌++◌, Option, none,
  some, map, length, set, ltb, ◌==◌, ◌!=◌, if◌then◌else◌, bit_and, bit_or,
}
use modvm.Prelude.Bits.{has, clear, raise}
use modvm.Prelude.Errno.{einval, enomem}
use modvm.Virtqueue.{Virtqueue}
use modvm.Virtqueue

pub data DeviceState : Type 0 where
  fresh initializing active stopped : DeviceState

-- `struct virtio_device`, less its owner, memory and callbacks. `adopted` is `parent_dev != NULL`.
pub record VirtioDevice : Type 0 where
  pub state : DeviceState
  pub adopted : Bool
  pub status : ℕ
  pub driver_features : ℕ
  pub vqs : List Virtqueue

-- What the device calls: its own callbacks, and the transport.
pub data DeviceCall : Type 0 where
  calls_stop calls_reset notifies_config : DeviceCall

abbrev pub max_vqs : ℕ
max_vqs = 8

abbrev pub f_version_1 : ℕ
f_version_1 = 2 ^ 32

abbrev pub status_acknowledge : ℕ
status_acknowledge = 1

abbrev pub status_driver : ℕ
status_driver = 2

abbrev pub status_driver_ok : ℕ
status_driver_ok = 4

abbrev pub status_features_ok : ℕ
status_features_ok = 8

abbrev pub status_needs_reset : ℕ
status_needs_reset = 64

abbrev pub status_failed : ℕ
status_failed = 128

-- The zeroed structure that `virtio_device_alloc` returns.
abbrev pub allocated : VirtioDevice
allocated = record { state = fresh; adopted = false; status = 0; driver_features = 0; vqs = [] }

-- A queue that no index names, and the device with another queue.
abbrev pub no_queue : Virtqueue
no_queue = record {
  queue_size = 0;
  max_size = 0;
  broken = false;
  enabled = false;
  last_avail_idx = 0;
  last_used_idx = 0;
  desc_table = none;
  avail_ring = none;
  used_ring = none;
}

abbrev pub with_vq : VirtioDevice → ℕ → Virtqueue → VirtioDevice
with_vq vdev q vq = record vdev { vqs = set vdev.vqs q vq }

abbrev pub is_state : DeviceState → DeviceState → Bool
is_state fresh fresh = true
is_state initializing initializing = true
is_state active active = true
is_state stopped stopped = true
is_state _ _ = false

-- `calloc` is whether the allocation of the queue succeeds.
unfoldable pub add_queue : VirtioDevice → ℕ → Bool → VirtioDevice × ℕ
add_queue dev size calloc =
    if not (is_state dev.state initializing) || length dev.vqs == max_vqs
    then (dev, einval)
    else elim (Virtqueue.create size calloc) [
      | none ↦ (dev, enomem)
      | some vq ↦ (record dev { vqs = dev.vqs ++ vq ∷ [] }, 0)
    ]

unfoldable pub stop : VirtioDevice → VirtioDevice × List DeviceCall
stop dev =
    if is_state dev.state active || is_state dev.state initializing
    then (record dev { state = stopped }, calls_stop ∷ [])
    else (dev, [])

-- What a `realize` callback does to the device: it adds queues.
unfoldable pub add_queues : VirtioDevice → List (ℕ × Bool) → VirtioDevice
unfolding add_queue
add_queues dev [] = dev
add_queues dev (q ∷ qs) = add_queues (add_queue dev q.0 q.1).0 qs

-- `queues` are those that the callback adds, and `ret` is what it returns.
unfoldable pub realize : VirtioDevice → List (ℕ × Bool) → ℕ → VirtioDevice × ℕ
unfolding add_queues stop
realize dev queues ret =
    if not (is_state dev.state fresh) || not dev.adopted
    then (dev, einval)
    else (let built = add_queues (record dev { state = initializing }) queues in
        (if ret != 0 then (stop built).0 else record built { state = active }, ret))

-- The part of `virtio_device_adopt_locked` that changes the device: `transferred` is what
-- `res_transfer_action` returns.
unfoldable pub adopt : VirtioDevice → ℕ → VirtioDevice × ℕ
adopt dev transferred =
    if dev.adopted || not (is_state dev.state fresh)
    then (dev, einval)
    else if transferred == 0
    then (record dev { adopted = true }, 0)
    else (dev, transferred)

-- `driver_features` has VIRTIO_F_VERSION_1, and no bit that is not offered.
unfoldable pub is_acceptable : ℕ → ℕ → Bool
is_acceptable features offered =
    bit_and features f_version_1 != 0
    && bit_and features (2 ^ 64 - 1 - bit_or offered f_version_1) == 0

-- The rules on the accumulated bits, from the tests on ACKNOWLEDGE to the test on FEATURES_OK.
-- `was_ok` is whether FEATURES_OK was set before.
unfoldable pub settle : ℕ → Bool → Bool → ℕ
unfolding has clear
settle merged was_ok acceptable =
    let a =
      (if has merged status_acknowledge
        then merged
        else clear merged (status_driver + status_features_ok + status_driver_ok)) in
    let b = (if has a status_driver then a else clear a (status_features_ok + status_driver_ok)) in
    let c =
      (if has b status_features_ok && (not was_ok && not acceptable)
        then clear b status_features_ok
        else b) in
    if has c status_features_ok then c else clear c status_driver_ok

-- `offered` is what `get_features` returns.
unfoldable pub set_status : ℕ → VirtioDevice → ℕ → VirtioDevice × List DeviceCall
unfolding settle is_acceptable has
set_status offered dev status =
    if status == 0
    then (
      record dev { status = 0; driver_features = 0; vqs = map Virtqueue.reset dev.vqs },
      calls_reset ∷ [],
    )
    else (let merged = bit_or (bit_and status 0x8f) dev.status % 2 ^ 8 in
        (
          record dev {
            status =
                settle merged (has dev.status status_features_ok)
                  (is_acceptable dev.driver_features offered);
          },
          [],
        ))

-- One half of the features.
unfoldable pub set_features : VirtioDevice → ℕ → ℕ → VirtioDevice
unfolding has
set_features dev selector value =
    if not (is_state dev.state active) || (has dev.status status_features_ok || ltb 1 selector)
    then dev
    else (let shift = selector * 32 in
        record dev {
          driver_features =
              bit_or (bit_and dev.driver_features (2 ^ 64 - 1 - (2 ^ 32 - 1) * 2 ^ shift))
                (value * 2 ^ shift);
        })

unfoldable pub fail : VirtioDevice → VirtioDevice × List DeviceCall
unfolding raise has
fail dev =
    let failed = raise dev.status status_needs_reset in
    (
      record dev { status = failed },
      if has failed status_driver_ok then notifies_config ∷ [] else [],
    )

unfoldable pub is_ready : VirtioDevice → Bool
is_ready dev =
    is_state dev.state active
    && bit_and dev.status (status_driver_ok + status_needs_reset + status_failed)
      == status_driver_ok
