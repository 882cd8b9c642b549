-- ===== src/Pci/Config.antt =====
-- The configuration space of src/hw/pci/pci.c: reads, and writes with those to the BARs, which move
-- the regions of the I/O map.
use modvm.Prelude.{
  ℕ, zero, suc, ◌+◌, ◌-◌, ◌*◌, ◌/◌, ◌%◌, ◌^◌, Bool, true, false, ◌&&◌, ◌||◌, List, [], ◌∷◌, Option,
  none, some, get_or, ltb, leb, ◌==◌, ◌!=◌, if◌then◌else◌, bit_and, bit_or,
}
use modvm.Memory.{MemRegion}
use modvm.IoMap.{IoMap, IoRegion, relocate_region}
use modvm.Pci.{PciDevice, PciBus, set_at, find_device, update, write_header}

-- ~0U.
abbrev pub u32_ones : ℕ
u32_ones = 2 ^ 32 - 1

abbrev pub is_config_access : ℕ → ℕ → Bool
is_config_access offset size =
    (size == 1 || (size == 2 || size == 4)) && (offset % size == 0 && leb (offset + size) 256)

-- The region that a pointer designates.
unfoldable pub get_region : ℕ → List IoRegion → Option IoRegion
get_region self [] = none
get_region self (r ∷ rs) = if r.self == self then some r else get_region self rs

abbrev pub is_bar : ℕ → Bool
is_bar off = leb 0x10 off && ltb off 0x28

abbrev pub bar_of : ℕ → ℕ
bar_of off = (off - 0x10) / 4

-- `~(uint32_t)(size - 1)`.
abbrev pub size_mask : ℕ → ℕ
size_mask size = 2 ^ 32 - 1 - (size - 1) % 2 ^ 32

-- A byte of a BAR: of its size mask while it is probed.
abbrev pub bar_byte : PciDevice → ℕ → Option IoRegion → ℕ
bar_byte d off none = d.config_space off
bar_byte d off (some r) =
    if d.probe (bar_of off) then size_mask r.size / 256 ^ (off % 4) % 256 else d.config_space off

-- `pci_dev->bars[bar].region`.
unfoldable pub bar_region : IoMap → PciDevice → ℕ → Option IoRegion
unfolding get_region
bar_region m d bar = elim (get_or d.bars bar none) [
  | none ↦ none
  | some self ↦ get_region self m.mmio_regions
]

unfoldable pub read_byte : IoMap → PciDevice → ℕ → ℕ
unfolding bar_region
read_byte m d off =
    if is_bar off then bar_byte d off (bar_region m d (bar_of off)) else d.config_space off

-- The loop of `pci_bus_read_config_locked`; its bytes do not overlap, so `|=` adds them.
unfoldable pub read_bytes : ℕ → IoMap → PciDevice → ℕ → ℕ
unfolding read_byte
read_bytes zero m d off = 0
read_bytes (suc n) m d off = read_byte m d off + 256 * read_bytes n m d (off + 1)

-- `struct pci_device_ops`: what the callbacks of the device at a number do, where it has them.
pub record PciDeviceOps : Type 0 where
  pub read_config : Option (ℕ → ℕ → ℕ)
  pub write_config : Option (ℕ → ℕ → ℕ → PciBus → PciBus)

module _ (ops : ℕ → PciDeviceOps) where
  -- A read of a device that is there.
  unfoldable pub read_device : IoMap → PciDevice → ℕ → ℕ → ℕ
  unfolding read_bytes
  read_device m d offset size =
      if ltb offset 0x40 then read_bytes size m d offset else elim (ops d.devfn).read_config [
        | none ↦ read_bytes size m d offset
        | some f ↦ f offset size
      ]

  -- `pci_bus_read_config_locked`.
  unfoldable pub read_config : PciBus → ℕ → ℕ → ℕ → ℕ
  unfolding find_device read_device
  read_config bus devfn offset size =
      if is_config_access offset size
      then elim (find_device bus.devices devfn) [
        | none ↦ u32_ones
        | some d ↦ read_device bus.io_map d offset size
      ]
      else u32_ones

-- The four bytes of a BAR's register.
abbrev pub store_bar : (ℕ → ℕ) → ℕ → ℕ → ℕ → ℕ
store_bar f bar base =
    let off = 0x10 + bar * 4 in
    set_at
      (set_at (set_at (set_at f off (base % 256)) (off + 1) (base / 2 ^ 8 % 256)) (off + 2)
        (base / 2 ^ 16 % 256))
      (off + 3) (base / 2 ^ 24 % 256)

-- The base that a write of `size` bytes to a BAR asks for.
unfoldable pub new_base : IoRegion → ℕ → ℕ → ℕ → ℕ
new_base region offset val size =
    let shift = offset % 4 * 8 in
    let mask = u32_ones / 2 ^ (32 - size * 8) in
    let shifted = mask * 2 ^ shift % 2 ^ 32 in
    let base =
      bit_or (bit_and region.base (u32_ones - shifted)) (bit_and val mask * 2 ^ shift % 2 ^ 32) in
    bit_and base (size_mask region.size)

abbrev pub probed : PciDevice → ℕ → Bool → PciDevice
probed d bar on = record d { probe = set_at d.probe bar on }

module _ (ram : List MemRegion) where
  -- From the relocation on.
  unfoldable pub relocated : PciBus → PciDevice → ℕ → ℕ → IoMap × ℕ → PciBus
  unfolding update
  relocated bus d bar base (m, ret) =
      if ret != 0 then record bus { devices = update d.devfn d bus.devices } else record bus {
        devices =
            update d.devfn (record d { config_space = store_bar d.config_space bar base })
              bus.devices;
        io_map = m;
      }

  -- A write to a BAR that has a region.
  unfoldable pub write_bar : PciBus → PciDevice → ℕ → IoRegion → ℕ → ℕ → ℕ → PciBus
  unfolding update new_base relocated relocate_region
  write_bar bus d bar region offset val size =
      if size == 4 && val == u32_ones
      then record bus { devices = update d.devfn (probed d bar true) bus.devices }
      else relocated bus (probed d bar false) bar (new_base region offset val size)
          (relocate_region bus.io_map ram region (new_base region offset val size))

  -- The write to a device that is there.
  unfoldable pub write_device : (ℕ → PciDeviceOps) → PciBus → PciDevice → ℕ → ℕ → ℕ → PciBus
  unfolding bar_region write_bar write_header
  write_device ops bus d offset val size =
      if leb 0x40 offset
      then elim (ops d.devfn).write_config [ none ↦ bus | some f ↦ f offset val size bus ]
      else if is_bar offset
      then elim (bar_region bus.io_map d (bar_of offset)) [
        | none ↦ bus
        | some r ↦ write_bar bus d (bar_of offset) r offset val size
      ]
      else write_header bus d.devfn offset val size

  -- `pci_bus_write_config_locked`.
  unfoldable pub write_config : (ℕ → PciDeviceOps) → PciBus → ℕ → ℕ → ℕ → ℕ → PciBus
  unfolding find_device write_device
  write_config ops bus devfn offset val size =
      if is_config_access offset size
      then elim (find_device bus.devices devfn) [
        | none ↦ bus
        | some d ↦ write_device ops bus d offset val size
      ]
      else bus
