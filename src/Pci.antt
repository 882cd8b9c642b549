-- ===== src/Pci.antt =====
-- The interrupts of src/hw/pci/pci.c and pio_bridge.c: the endpoints of a bus, the command register
-- that masks them, and the four lines that they share.
pub mod Devices
pub mod Lines
pub mod Routed
pub mod Mapping
pub mod Config
pub mod Bars
pub mod Regions
pub mod Placed
pub mod Relocated
pub mod Sound
pub mod Sizing
pub mod Window
pub mod Register
pub mod Attached
pub mod Allocated
pub mod Registered
pub mod Ports
pub mod Endpoint
pub mod Joined
pub mod Session
pub mod Access
pub mod Programmed
mod Tests
use modvm.Prelude.{
  ℕ, zero, suc, ◌+◌, ◌-◌, ◌/◌, ◌%◌, Bool, true, false, ◌&&◌, ◌||◌, not, List, [], ◌∷◌, Option, none,
  some, ltb, ◌==◌, ◌!=◌, if◌then◌else◌, bit_and,
}
use modvm.IoMap.{IoMap, set_enabled}

-- The fields of `struct pci_device` that its interrupt and its command register need. `bars` has
-- the address of each BAR's region, and `probe` is whether its reads return the size mask.
pub record PciDevice : Type 0 where
  pub devfn : ℕ
  pub interrupt_pin : ℕ
  pub irq_level : Bool
  pub bars : List (Option ℕ)
  pub probe : ℕ → Bool
  pub config_space : ℕ → ℕ

-- The fields of `struct pio_bridge_ctx` that route interrupts. `asserted` has a bit for each line
-- and source, `wired` is whether the line has an `irq`, and `level` what it was last set to.
pub record Bridge : Type 0 where
  pub asserted : ℕ → ℕ → Bool
  pub wired : ℕ → Bool
  pub level : ℕ → Bool

pub record PciBus : Type 0 where
  pub devices : List PciDevice
  pub bridge : Bridge
  pub io_map : IoMap

-- A store to an array.
abbrev pub set_at {ℓ} : {A : Type ℓ} → (ℕ → A) → ℕ → A → ℕ → A
set_at f i v j = if j == i then v else f j

unfoldable pub any_below : ℕ → (ℕ → Bool) → Bool
any_below zero f = false
any_below (suc n) f = f n || any_below n f

unfoldable pub find_device : List PciDevice → ℕ → Option PciDevice
find_device [] devfn = none
find_device (d ∷ ds) devfn = if d.devfn == devfn then some d else find_device ds devfn

-- A store through the pointer that `find_device` returns.
unfoldable pub update : ℕ → PciDevice → List PciDevice → List PciDevice
update devfn new [] = []
update devfn new (d ∷ ds) = if d.devfn == devfn then new ∷ ds else d ∷ update devfn new ds

-- The line of a device's pin: `(slot + pin - 1) % 4`.
abbrev pub pirq_of : PciDevice → ℕ
pirq_of d = (d.devfn / 8 + d.interrupt_pin - 1) % 4

abbrev pub has_pin : PciDevice → Bool
has_pin d = not (d.interrupt_pin == 0) && not (ltb 4 d.interrupt_pin)

-- `pio_bridge_set_irq_cb`.
unfoldable pub bridge_set_irq : Bridge → PciDevice → Bool → Bridge
bridge_set_irq b d level =
    if has_pin d
    then (let row = set_at (b.asserted (pirq_of d)) d.devfn level in
        let asserted = set_at b.asserted (pirq_of d) row in
        record b {
          asserted = asserted;
          level =
              (if b.wired (pirq_of d)
                then set_at b.level (pirq_of d) (any_below 256 (asserted (pirq_of d)))
                else b.level);
        })
    else b

-- The Interrupt Disable bit of the command register.
abbrev pub is_masked : PciDevice → Bool
is_masked d = bit_and (d.config_space 5) 4 != 0

-- `pci_device_set_irq_locked`, on the device at `devfn`.
unfoldable pub set_irq : PciBus → ℕ → Bool → PciBus
unfolding find_device update bridge_set_irq
set_irq bus devfn level = elim (find_device bus.devices devfn) [
  | none ↦ bus
  | some d ↦
      let raised = record d { irq_level = level } in
      record bus {
        devices = update devfn raised bus.devices;
        bridge = bridge_set_irq bus.bridge raised (level && not (is_masked raised));
      }
]

-- One byte of a write to the header: only the command register and the interrupt line take it.
unfoldable pub write_byte : PciDevice → ℕ → ℕ → PciDevice
write_byte d off byte =
    if off == 4
    then record d { config_space = set_at d.config_space 4 (bit_and byte 6) }
    else if off == 5
    then record d { config_space = set_at d.config_space 5 (bit_and byte 4) }
    else if off == 0x3c
    then record d { config_space = set_at d.config_space 0x3c byte }
    else d

unfoldable pub write_bytes : ℕ → PciDevice → ℕ → ℕ → PciDevice
unfolding write_byte
write_bytes zero d off val = d
write_bytes (suc n) d off val = write_bytes n (write_byte d off (val % 256)) (off + 1) (val / 256)

-- The regions of the BARs follow the Memory Space bit.
unfoldable pub enable_bars : List (Option ℕ) → Bool → IoMap → IoMap
enable_bars [] on m = m
enable_bars (none ∷ bars) on m = enable_bars bars on m
enable_bars (some self ∷ bars) on m =
    enable_bars bars on (record m { mmio_regions = set_enabled self on m.mmio_regions })

-- `pci_bus_write_config_locked` from the loop on, for an offset below 0x40 and not of a BAR.
unfoldable pub write_header : PciBus → ℕ → ℕ → ℕ → ℕ → PciBus
unfolding find_device update write_bytes enable_bars set_irq
write_header bus devfn offset val size = elim (find_device bus.devices devfn) [
  | none ↦ bus
  | some d ↦
      let written = write_bytes size d offset val in
      let stored = record bus { devices = update devfn written bus.devices } in
      if ltb offset 6 && ltb 4 (offset + size)
      then set_irq
          (record stored {
            io_map =
                enable_bars written.bars (bit_and (written.config_space 4) 2 != 0) stored.io_map;
          })
          devfn written.irq_level
      else stored
]
