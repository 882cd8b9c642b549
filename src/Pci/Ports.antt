-- ===== src/Pci/Ports.antt =====
-- The configuration ports of src/hw/pci/pio_bridge.c: an address at offset 0 and a window onto the
-- register that it names at offset 4.
use modvm.Prelude.{
  ℕ, ◌+◌, ◌-◌, ◌*◌, ◌/◌, ◌%◌, ◌^◌, ◌<◌, ◌≡◌, Bool, true, false, ◌&&◌, List, arith, ap, ◌∙◌, refl,
  ltb, ◌==◌, ◌!=◌, if◌then◌else◌,
}
use modvm.Prelude.Words.{u64_max}
use modvm.Memory.{MemRegion}
use modvm.Pci.{PciBus}
use modvm.Pci.Config.{PciDeviceOps, read_config, write_config}

-- `struct pio_bridge_ctx`, with the lines of its PIRQs in the bus.
pub record PioBridge : Type 0 where
  pub config_addr : ℕ
  pub bus : PciBus

-- The fields of the address: bit 31, the bus, the device and function, and `config_addr & 0xFC`
-- with the offset in the window, in a `uint8_t`.
abbrev pub is_enabled : ℕ → Bool
is_enabled addr = addr / 2 ^ 31 % 2 != 0

abbrev pub bus_num : ℕ → ℕ
bus_num addr = addr / 2 ^ 16 % 256

abbrev pub devfn_of : ℕ → ℕ
devfn_of addr = addr / 2 ^ 8 % 256

abbrev pub reg_of : ℕ → ℕ → ℕ
reg_of addr offset = (addr % 256 / 4 * 4 + (offset - 4)) % 256

module _ (ops : ℕ → PciDeviceOps) where
  -- `pio_bridge_read`.
  unfoldable pub port_read : PioBridge → ℕ → ℕ → ℕ
  unfolding read_config
  port_read b offset size =
      if offset == 0
      then (if size == 4 then b.config_addr else u64_max)
      else if ltb offset 4
      then u64_max
      else if is_enabled b.config_addr && bus_num b.config_addr == 0
      then read_config ops b.bus (devfn_of b.config_addr) (reg_of b.config_addr offset) size
      else u64_max

  -- `pio_bridge_write`.
  unfoldable pub port_write : List MemRegion → PioBridge → ℕ → ℕ → ℕ → PioBridge
  unfolding write_config
  port_write ram b offset val size =
      if offset == 0
      then (if size == 4 then record b { config_addr = val % 2 ^ 32 } else b)
      else if ltb offset 4
      then b
      else if is_enabled b.config_addr && bus_num b.config_addr == 0
      then record b {
        bus =
            write_config ram ops b.bus (devfn_of b.config_addr) (reg_of b.config_addr offset)
              (val % 2 ^ 32) size;
      }
      else b

-- The address of a register of a device of bus 0.
abbrev pub address : ℕ → ℕ → ℕ
address devfn reg = 2 ^ 31 + devfn * 2 ^ 8 + reg / 4 * 4

address-is_enabled :
    (devfn reg : ℕ)
    → devfn < 256
    → reg < 256
    → is_enabled (address devfn reg % 2 ^ 32) && bus_num (address devfn reg % 2 ^ 32) == 0 ≡ true
address-is_enabled devfn reg d r = ground arith

devfn_of-address :
    (devfn reg : ℕ) → devfn < 256 → reg < 256 → devfn_of (address devfn reg % 2 ^ 32) ≡ devfn
devfn_of-address devfn reg d r = omega arith

reg_of-address :
    (devfn reg : ℕ)
    → devfn < 256
    → reg < 256
    → reg_of (address devfn reg % 2 ^ 32) (4 + reg % 4) ≡ reg
reg_of-address devfn reg d r = omega arith

window_test : (reg : ℕ) → ((4 + reg % 4) == 0 ≡ false) × (ltb (4 + reg % 4) 4 ≡ false)
window_test reg = (ground arith, ground arith)

module _ (ops : ℕ → PciDeviceOps) (b : PioBridge) (offset : ℕ) (high : (offset == 0) ≡ false)
    (in_window : ltb offset 4 ≡ false)
    (on : is_enabled b.config_addr && bus_num b.config_addr == 0 ≡ true) where
  port_read-window :
      (size : ℕ)
      → port_read ops b offset size
        ≡ read_config ops b.bus (devfn_of b.config_addr) (reg_of b.config_addr offset) size
  unfolding port_read
  port_read-window size = rw (high, in_window, on) refl

  port_write-window :
      (ram : List MemRegion) (val size : ℕ)
      → port_write ops ram b offset val size ≡ record b {
        bus =
            write_config ram ops b.bus
              (devfn_of b.config_addr)
              (reg_of b.config_addr offset)
              (val % 2 ^ 32)
              size;
      }
  unfolding port_write
  port_write-window ram val size = rw (high, in_window, on) refl

module _ (ops : ℕ → PciDeviceOps) (ram : List MemRegion) (b : PioBridge) where
  latch : (addr : ℕ) → port_write ops ram b 0 addr 4 ≡ record b { config_addr = addr % 2 ^ 32 }
  unfolding port_write
  latch addr = refl

  -- After the address of a register of a device was written to the first port, accesses of the
  -- second port, at the register's place in its word, are accesses of that register, whatever was
  -- written to the ports before.
  pub ports-read_config :
      (devfn reg val size : ℕ)
      → devfn < 256
      → reg < 256
      → let latched = port_write ops ram b 0 (address devfn reg) 4 in
        (port_read ops latched (4 + reg % 4) size ≡ read_config ops b.bus devfn reg size)
        × ((port_write ops ram latched (4 + reg % 4) val size).bus
            ≡ write_config ram ops b.bus devfn reg (val % 2 ^ 32) size)
  ports-read_config devfn reg val size d r =
      let (high, in_window) = window_test reg in
      let at = record b { config_addr = address devfn reg % 2 ^ 32 } in
      let on = address-is_enabled devfn reg d r in
      let number = devfn_of-address devfn reg d r in
      let place = reg_of-address devfn reg d r in
      (
        ap (λ l. port_read ops l (4 + reg % 4) size) (latch (address devfn reg))
            ∙ port_read-window ops at (4 + reg % 4) high in_window on size
            ∙ ap (λ n. read_config ops b.bus n (reg_of at.config_addr (4 + reg % 4)) size) number
            ∙ ap (λ n. read_config ops b.bus devfn n size) place,
        ap (λ l. (port_write ops ram l (4 + reg % 4) val size).bus) (latch (address devfn reg))
            ∙ ap (λ l. l.bus)
                (port_write-window ops at (4 + reg % 4) high in_window on ram val size)
            ∙ ap
                (λ n.
                  write_config ram ops b.bus n (reg_of at.config_addr (4 + reg % 4)) (val % 2 ^ 32)
                    size)
                number
            ∙ ap (λ n. write_config ram ops b.bus devfn n (val % 2 ^ 32) size) place,
      )
