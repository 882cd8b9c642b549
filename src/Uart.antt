-- ===== src/Uart.antt =====
-- src/hw/char/uart_16550a.c and uart_16550a_reg.h: the state of the UART and its registers' bits.
pub mod Fifo
pub mod Interrupt
pub mod Regs
pub mod Io
pub mod Stream
pub mod Flow
pub mod Status
pub mod Transmit
pub mod Timeout
mod Tests
unfoldable pub use modvm.Prelude.Bits.{has, clear, raise}
use modvm.Prelude.{ℕ, ◌-◌, Bool, List, ◌∷◌, ◌!=◌, bit_and, bit_or}

-- What the UART asks of its surroundings: the interrupt line, the console, the VM.
pub data Event : Type 0 where
  irq_level : Bool → Event
  wrote : List ℕ → Event
  paused resumed shutdown : Event
  reported : ℕ → Event

-- How the console answers a call, after the calls made so far: 0, or an error number.
pub record Console : Type 0 where
  pub write : List Event → List ℕ → ℕ
  pub pause : List Event → ℕ
  pub resume : List Event → ℕ

-- `struct uart_16550a_ctx`. `has_console` is `console != NULL`. `log` is not in the source: it
-- lists the calls made so far, newest first.
pub record Uart : Type 0 where
  pub has_console : Bool
  pub reg_shift : ℕ
  pub dll : ℕ
  pub dlm : ℕ
  pub ier : ℕ
  pub fcr : ℕ
  pub lcr : ℕ
  pub mcr : ℕ
  pub lsr : ℕ
  pub msr : ℕ
  pub scr : ℕ
  pub rx_fifo : List ℕ
  pub rx_head : ℕ
  pub rx_tail : ℕ
  pub rx_cnt : ℕ
  pub backlog_fifo : List ℕ
  pub backlog_head : ℕ
  pub backlog_tail : ℕ
  pub backlog_cnt : ℕ
  pub rx_paused : Bool
  pub rx_bound : Bool
  pub tx_fifo : List ℕ
  pub tx_head : ℕ
  pub tx_tail : ℕ
  pub tx_cnt : ℕ
  pub rx_trigger_level : ℕ
  pub rx_timeout : Bool
  pub thre_int_pending : Bool
  pub log : List Event

abbrev pub emit : Event → Uart → Uart
emit e u = record u { log = e ∷ u.log }

abbrev pub fifo_size : ℕ
fifo_size = 16

abbrev pub backlog_size : ℕ
backlog_size = 256

abbrev pub backlog_high_watermark : ℕ
backlog_high_watermark = 192

abbrev pub backlog_low_watermark : ℕ
backlog_low_watermark = 64

-- Interrupt enable bits.
abbrev pub ier_msi : ℕ
ier_msi = 0x08

abbrev pub ier_rlsi : ℕ
ier_rlsi = 0x04

abbrev pub ier_thri : ℕ
ier_thri = 0x02

abbrev pub ier_rdi : ℕ
ier_rdi = 0x01

-- FIFO control bits.
abbrev pub fcr_enable_fifo : ℕ
fcr_enable_fifo = 0x01

abbrev pub fcr_clear_rcvr : ℕ
fcr_clear_rcvr = 0x02

abbrev pub fcr_clear_xmit : ℕ
fcr_clear_xmit = 0x04

-- Line control, modem control and line status bits.
abbrev pub lcr_dlab : ℕ
lcr_dlab = 0x80

abbrev pub lcr_sbc : ℕ
lcr_sbc = 0x40

abbrev pub mcr_loop : ℕ
mcr_loop = 0x10

abbrev pub lsr_dr : ℕ
lsr_dr = 0x01

abbrev pub lsr_oe : ℕ
lsr_oe = 0x02

abbrev pub lsr_bi : ℕ
lsr_bi = 0x10

-- UART_LSR_BRK_ERROR_BITS, and THRE with TEMT.
abbrev pub lsr_brk_error_bits : ℕ
lsr_brk_error_bits = 0x1e

abbrev pub lsr_tx_empty : ℕ
lsr_tx_empty = 0x60

-- UART_MSR_ANY_DELTA, and the lines that have a plain delta bit.
abbrev pub msr_any_delta : ℕ
msr_any_delta = 0x0f

abbrev pub msr_ri : ℕ
msr_ri = 0x40

abbrev pub msr_teri : ℕ
msr_teri = 0x04
