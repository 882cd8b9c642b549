-- ===== src/Uart/Timeout.antt =====
-- The character timeout of the receiver, and what FIFO resets do with it.
use modvm.Prelude.{sym, subst, ℕ, ◌≡◌, ap, ◌∙◌, true, false, arith, bit_and, ◌/◌, ◌%◌, ◌^◌}
use modvm.Uart.{Uart, Console, has, ier_rdi, fcr_enable_fifo, fcr_clear_rcvr}
use modvm.Uart.Fifo.{
  rx_fifo_refill, refill_loop, update_timeout, release_backpressure, rx_fifo_pop, rx_fifo_clear,
  tx_fifo_clear,
}
use modvm.Uart.Interrupt.{irq_update, trigger_reached}
use modvm.Uart.Regs.{dlab_is_set, write_fcr}
use modvm.Uart.Io.{io_read, reg_idx}
use modvm.Uart.Status.{is_pending}
use modvm.Uart.Stream.Reading.{lowered, io_read_rx}

-- No byte is waiting anywhere, yet the timeout that announces one is on and enabled.
pub record Stuck (u : Uart) : Type 0 where
  pub empty : u.rx_cnt ≡ 0
  pub no_backlog : u.backlog_cnt ≡ 0
  pub timeout : u.rx_timeout ≡ true
  pub enabled : has u.ier ier_rdi ≡ true
  pub data_registers : dlab_is_set u ≡ false

refill-Stuck : (console : Console) (u : Uart) → Stuck u → Stuck (rx_fifo_refill console u)
unfolding rx_fifo_refill refill_loop update_timeout release_backpressure dlab_is_set
refill-Stuck console u s = ground (arith, s)

rx_fifo_pop-Stuck : (u : Uart) → Stuck u → Stuck (rx_fifo_pop u).0 × ((rx_fifo_pop u).1 ≡ 0)
unfolding rx_fifo_pop dlab_is_set
rx_fifo_pop-Stuck u s = ground (arith, s)

irq_update-Stuck : (u : Uart) → Stuck u → Stuck (irq_update u)
unfolding irq_update dlab_is_set
irq_update-Stuck u s = ground (arith, s)

lowered-Stuck : (u : Uart) → Stuck u → Stuck (lowered u)
unfolding dlab_is_set
lowered-Stuck u s = ground (arith, s)

Stuck-is_pending : (u : Uart) → Stuck u → is_pending u ≡ true
unfolding has trigger_reached
Stuck-is_pending u s = ground (arith, s)

-- Clearing the receive FIFO by the FIFO control register leaves the timeout on.
write_fcr-Stuck :
    (u : Uart) (val : ℕ)
    → u.rx_timeout ≡ true
    → u.backlog_cnt ≡ 0
    → has u.ier ier_rdi ≡ true
    → dlab_is_set u ≡ false
    → has (bit_and val 0xcf) fcr_enable_fifo ≡ true
    → has (bit_and val 0xcf) fcr_clear_rcvr ≡ true
    → Stuck (write_fcr u val)
unfolding write_fcr rx_fifo_clear tx_fifo_clear dlab_is_set
write_fcr-Stuck u val timeout backlog rdi d on clr = ground arith

write_fcr-reg_shift : (u : Uart) (val : ℕ) → (write_fcr u val).reg_shift ≡ u.reg_shift
unfolding write_fcr rx_fifo_clear tx_fifo_clear
write_fcr-reg_shift u val = ground arith

-- When the guest clears the receive FIFO while the character timeout is on and no byte waits in
-- the backlog, the timeout's interrupt stays requested although there is nothing to read, and
-- reading the receive register, which yields 0, does not end it: the state stays the same in this.
pub timeout_sticks :
    (console : Console) (u : Uart) (val offset : ℕ)
    → u.rx_timeout ≡ true
    → u.backlog_cnt ≡ 0
    → has u.ier ier_rdi ≡ true
    → dlab_is_set u ≡ false
    → has (bit_and val 0xcf) fcr_enable_fifo ≡ true
    → has (bit_and val 0xcf) fcr_clear_rcvr ≡ true
    → reg_idx u offset ≡ 0
    → let w = write_fcr u val in
      let (v, byte) = io_read console w offset in
      Stuck w × (is_pending w ≡ true) × Stuck v × (is_pending v ≡ true) × (byte ≡ 0)
timeout_sticks console u val offset timeout backlog rdi d on clr e =
    let w = write_fcr u val in
    let s = write_fcr-Stuck u val timeout backlog rdi d on clr in
    let p = rx_fifo_pop-Stuck (lowered w) (lowered-Stuck w s) in
    let same = write_fcr-reg_shift u val in
    let r =
      io_read_rx console w offset (ap (λ k. offset / 2 ^ k % 65536) same ∙ e) s.data_registers in
    let q = (rx_fifo_pop (lowered w)).0 in
    let end = irq_update-Stuck _ (refill-Stuck console (irq_update q) (irq_update-Stuck q p.0)) in
    let after : Stuck (io_read console w offset).0 = subst (λ v. Stuck v.0) (sym r) end in
    (
      s,
      Stuck-is_pending w s,
      after,
      Stuck-is_pending (io_read console w offset).0 after,
      ap (λ v. v.1) r ∙ p.1,
    )
