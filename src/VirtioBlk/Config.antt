-- ===== src/VirtioBlk/Config.antt =====
-- The features and the configuration space of the block device.
use modvm.Prelude.{
  ℕ, ◌+◌, ◌-◌, ◌*◌, ◌/◌, ◌%◌, ◌^◌, ◌||◌, List, [], ◌∷◌, ◌++◌, take, drop, replicate, ltb, ◌==◌,
  ◌!=◌, ◌≡◌, ◌<◌, subst, refl, Bool, Option, none, some, arith, ◌∙◌, if◌then◌else◌, bit_or,
}
use modvm.Prelude.Bytes.{to_le, from_le, from_le-to_le}
use modvm.Virtio.{VirtioDevice, add_queue}
use modvm.VirtioBlk.{Backend, sector_size, has_flush}

-- `virtio_blk_get_features`.
unfoldable pub get_features : Backend → ℕ
get_features blk =
    let features = bit_or (2 ^ 6) (2 ^ 4) in
    let a = (if has_flush blk.flush then bit_or features (2 ^ 9) else features) in
    if blk.readonly then bit_or a (2 ^ 5) else a

-- `struct virtio_blk_config` as `virtio_blk_realize` fills it.
unfoldable pub config_bytes : ℕ → List ℕ
unfolding to_le
config_bytes capacity =
    to_le 8 (capacity / sector_size)
    ++ (to_le 4 65536
        ++ (to_le 4 126
            ++ (to_le 2 (capacity / sector_size / (16 * 63) % 2 ^ 16)
                ++ (16 ∷ 63 ∷ (to_le 4 sector_size ++ replicate 12 0)))))

-- sizeof(struct virtio_blk_config).
abbrev pub config_size : ℕ
config_size = 36

unfoldable pub read_config : List ℕ → ℕ → ℕ → ℕ
unfolding from_le
read_config config offset size =
    if size == 0 || (ltb 8 size || (ltb config_size offset || ltb (config_size - offset) size))
    then 0
    else from_le (take size (drop offset config))

abbrev config_result : ℕ → VirtioDevice → List ℕ → VirtioDevice × ℕ × Option (List ℕ)
config_result ret vdev bytes = if ret != 0 then (vdev, ret, none) else (vdev, 0, some bytes)

-- `virtio_blk_realize`: the queue, and on success the configuration.
unfoldable pub blk_realize : VirtioDevice → Bool → Backend → VirtioDevice × ℕ × Option (List ℕ)
unfolding add_queue config_bytes
blk_realize dev calloc blk =
    let (vdev, ret) = add_queue dev 128 calloc in config_result ret vdev (config_bytes blk.capacity)

field_bytes :
    (capacity : ℕ)
    → (read_config (config_bytes capacity) 0 8 ≡ from_le (to_le 8 (capacity / sector_size)))
      × (read_config (config_bytes capacity) 8 4 ≡ from_le (to_le 4 65536))
      × (read_config (config_bytes capacity) 12 4 ≡ from_le (to_le 4 126))
      × (read_config (config_bytes capacity) 16 2
          ≡ from_le (to_le 2 (capacity / sector_size / (16 * 63) % 2 ^ 16)))
      × (read_config (config_bytes capacity) 18 1 ≡ from_le (16 ∷ []))
      × (read_config (config_bytes capacity) 19 1 ≡ from_le (63 ∷ []))
      × (read_config (config_bytes capacity) 20 4 ≡ from_le (to_le 4 sector_size))
      × (read_config (config_bytes capacity) 24 8 ≡ from_le (replicate 8 0))
      × (read_config (config_bytes capacity) 32 4 ≡ from_le (replicate 4 0))
unfolding read_config config_bytes to_le
field_bytes capacity = (refl, refl, refl, refl, refl, refl, refl, refl, refl)

read_config_outside :
    (config : List ℕ) (offset size : ℕ)
    → config_size < offset + size
    → read_config config offset size ≡ 0
unfolding read_config
read_config_outside config offset size h = ground arith

config_of :
    (ret : ℕ) (vdev : VirtioDevice) (bytes config : List ℕ)
    → (config_result ret vdev bytes).2 ≡ some config
    → bytes ≡ config
config_of ret vdev bytes config e = ground arith

realized-config_bytes :
    (dev : VirtioDevice) (calloc : Bool) (blk : Backend) (config : List ℕ)
    → (blk_realize dev calloc blk).2 ≡ some config
    → config_bytes blk.capacity ≡ config
unfolding blk_realize
realized-config_bytes dev calloc blk config e =
    config_of (add_queue dev 128 calloc).1 (add_queue dev 128 calloc).0 (config_bytes blk.capacity)
      config e

-- What the guest reads of a configuration, with the offset and the width of each field.
pub record ReadsAs (config : List ℕ) (capacity : ℕ) : Type 0 where
  pub sectors : read_config config 0 8 ≡ capacity / sector_size
  pub size_max : read_config config 8 4 ≡ 65536
  pub seg_max : read_config config 12 4 ≡ 126
  pub cylinders : read_config config 16 2 ≡ capacity / sector_size / (16 * 63) % 2 ^ 16
  pub heads : read_config config 18 1 ≡ 16
  pub sectors_per_track : read_config config 19 1 ≡ 63
  pub blk_size : read_config config 20 4 ≡ 512
  pub topology : read_config config 24 8 ≡ 0
  pub modes : read_config config 32 4 ≡ 0
  pub outside : (offset size : ℕ) → config_size < offset + size → read_config config offset size ≡ 0

config_bytes-ReadsAs : (capacity : ℕ) → capacity < 2 ^ 64 → ReadsAs (config_bytes capacity) capacity
unfolding from_le
config_bytes-ReadsAs capacity small =
    let (sectors, size_max, seg_max, cylinders, heads, track, size_of, topology, modes) =
      field_bytes capacity in
    record {
      sectors = sectors ∙ from_le-to_le 8 (capacity / sector_size) (omega arith);
      size_max = size_max ∙ from_le-to_le 4 65536 (omega arith);
      seg_max = seg_max ∙ from_le-to_le 4 126 (omega arith);
      cylinders =
          cylinders ∙ from_le-to_le 2 (capacity / sector_size / (16 * 63) % 2 ^ 16) (omega arith);
      heads = heads;
      sectors_per_track = track;
      blk_size = size_of ∙ from_le-to_le 4 sector_size (omega arith);
      topology = topology;
      modes = modes;
      outside = read_config_outside (config_bytes capacity);
    }

-- After a successful realization on a medium of less than 2^64 bytes the guest reads each field of
-- the configuration, at its offset and with its width, as the device model sets it: the capacity in
-- sectors of 512 bytes, segments of at most 65536 bytes and 126 of them, the geometry with the
-- cylinders modulo 2^16, 16 heads and 63 sectors, blocks of 512 bytes, and zeros from there on. A
-- read that runs past the end returns 0.
pub read_config-blk_realize :
    (dev : VirtioDevice) (calloc : Bool) (blk : Backend) (config : List ℕ)
    → blk.capacity < 2 ^ 64
    → (blk_realize dev calloc blk).2 ≡ some config
    → ReadsAs config blk.capacity
read_config-blk_realize dev calloc blk config small e =
    subst (λ b. ReadsAs b blk.capacity) (realized-config_bytes dev calloc blk config e)
      (config_bytes-ReadsAs blk.capacity small)
