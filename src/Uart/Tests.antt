-- ===== src/Uart/Tests.antt =====
-- A UART after reset, and one with bytes in its rings.
use modvm.Prelude.{◌-◌, ◌≡◌, refl, true, false, [], ◌∷◌, ◌++◌, arith, take, replicate}
use modvm.Uart.{has, Uart, Console, raise, clear, lsr_tx_empty}
use modvm.Uart.Fifo.{refill_test}
use modvm.Uart.Interrupt.{loopback_is_enabled}
use modvm.Uart.Regs.{write_tx, write_fcr, dlab_is_set}
use modvm.Uart.Io.{io_read, io_write, rx_cb}
use modvm.Uart.Stream.{pending}
use modvm.Uart.Stream.Refill.{IsValid}
use modvm.Uart.Stream.Delivery.{rx_cb-pending}
use modvm.Uart.Stream.Reading.{io_read-TakesOldest, TakesOldest}
use modvm.Uart.Flow.{HasRoom, rx_cb_no_loss}
use modvm.Uart.Status.{Drives, line_follows_state, is_pending}
use modvm.Uart.Transmit.{TxValid, Sent, write_tx-Sent}
use modvm.Uart.Timeout.{Stuck, timeout_sticks}

abbrev obliging : Console
obliging = record { write = λ l b. 0; pause = λ l. 0; resume = λ l. 0 }

-- FIFO mode with trigger level 4, one byte in the FIFO and two in the backlog.
abbrev busy : Uart
busy = record {
  has_console = true;
  reg_shift = 0;
  dll = 1;
  dlm = 0;
  ier = 1;
  fcr = 1;
  lcr = 3;
  mcr = 8;
  lsr = 0x61;
  msr = 0xb0;
  scr = 0;
  rx_fifo = 65 ∷ replicate 15 0;
  rx_head = 1;
  rx_tail = 0;
  rx_cnt = 1;
  backlog_fifo = 66 ∷ 67 ∷ replicate 254 0;
  backlog_head = 2;
  backlog_tail = 0;
  backlog_cnt = 2;
  rx_paused = false;
  rx_bound = true;
  tx_fifo = replicate 16 0;
  tx_head = 5;
  tx_tail = 5;
  tx_cnt = 0;
  rx_trigger_level = 4;
  rx_timeout = true;
  thre_int_pending = true;
  log = [];
}

abbrev settled : Uart
settled = record busy { backlog_cnt = 0; backlog_head = 0 }

busy-IsValid : IsValid busy
busy-IsValid = record {
  rx = record { storage = refl; count = omega arith; tail = omega arith; head = refl };
  backlog = record { storage = refl; count = omega arith; tail = omega arith; head = refl };
}

settled-IsValid : IsValid settled
settled-IsValid = record {
  rx = record { storage = refl; count = omega arith; tail = omega arith; head = refl };
  backlog = record { storage = refl; count = omega arith; tail = omega arith; head = refl };
}

rx_cb-pending_example :
    IsValid (rx_cb obliging (68 ∷ []) busy)
    × (pending (rx_cb obliging (68 ∷ []) busy) ≡ pending busy ++ take (256 - 2) (68 ∷ []))
rx_cb-pending_example = rx_cb-pending obliging (68 ∷ []) busy busy-IsValid

io_read-TakesOldest_example :
    let (w, byte) = io_read obliging settled 0 in
    IsValid w × (refill_test w ≡ false) × TakesOldest settled byte w
unfolding refill_test dlab_is_set has
io_read-TakesOldest_example = io_read-TakesOldest obliging settled 0 settled-IsValid refl refl

rx_cb_no_loss_example :
    (pending (rx_cb obliging (68 ∷ 69 ∷ []) busy) ≡ pending busy ++ 68 ∷ 69 ∷ [])
    × HasRoom (rx_cb obliging (68 ∷ 69 ∷ []) busy)
rx_cb_no_loss_example =
    rx_cb_no_loss obliging (68 ∷ 69 ∷ []) busy (λ l. refl) busy-IsValid (λ _. omega arith) refl
      (omega arith)

line_follows_state_example :
    Drives (io_read obliging busy 0).0
    × Drives (io_write obliging busy 0 3)
    × Drives (rx_cb obliging (68 ∷ []) busy)
line_follows_state_example = line_follows_state obliging busy 0 3 68 []

write_tx-Sent_example :
    let w = write_tx obliging busy 72 in
    Sent 72 [] w.log
    × TxValid w
    × (w.thre_int_pending ≡ true)
    × (w.lsr ≡ raise (clear 0x61 lsr_tx_empty) lsr_tx_empty)
unfolding loopback_is_enabled has
write_tx-Sent_example =
    write_tx-Sent obliging busy 72
      (record { storage = refl; count = refl; head = omega arith; synced = λ _. refl }) refl refl

timeout_sticks_example :
    let w = write_fcr settled 3 in
    let (v, byte) = io_read obliging w 0 in
    Stuck w × (is_pending w ≡ true) × Stuck v × (is_pending v ≡ true) × (byte ≡ 0)
unfolding dlab_is_set has
timeout_sticks_example = timeout_sticks obliging settled 3 0 refl refl refl refl refl refl refl
