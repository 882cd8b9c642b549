-- ===== src/Uart/Io.antt =====
-- The entry points of uart_16550a.c: accesses of the guest, bytes and notices of the console.
use modvm.Prelude.{
  ℕ, ◌+◌, ◌/◌, ◌%◌, ◌^◌, Bool, true, false, ◌&&◌, not, List, [], ◌∷◌, leb, ◌==◌, ◌!=◌,
  if◌then◌else◌, set, bit_and, replicate,
}
use modvm.Uart.{
  Uart, Console, irq_level, paused, shutdown, reported, emit, clear, raise, backlog_size,
  backlog_high_watermark, lsr_oe, msr_any_delta,
}
use modvm.Uart.Fifo.{rx_fifo_refill}
use modvm.Uart.Interrupt.{irq_update, msr_update}
use modvm.Uart.Regs.{reg_of, reg_read, reg_write}

-- `uint16_t reg_idx = offset >> ctx->reg_shift`.
abbrev pub reg_idx : Uart → ℕ → ℕ
reg_idx u offset = offset / 2 ^ u.reg_shift % 65536

-- One round of the loop of `uart_rx_cb`.
unfoldable pub backlog_push : Uart → ℕ → Uart
backlog_push u c = record u {
  backlog_fifo = set u.backlog_fifo u.backlog_head c;
  backlog_head = (u.backlog_head + 1) % backlog_size;
  backlog_cnt = (u.backlog_cnt + 1) % 65536;
}

-- The loop: it stops at the first byte that does not fit.
unfoldable pub enqueue : List ℕ → Uart → Uart
unfolding backlog_push
enqueue [] u = u
enqueue (c ∷ buf) u =
    let rest = enqueue buf (backlog_push u c) in
    if leb backlog_size u.backlog_cnt then record u { lsr = raise u.lsr lsr_oe } else rest

module _ (console : Console) where
  unfoldable pub io_read : Uart → ℕ → Uart × ℕ
  unfolding reg_read irq_update rx_fifo_refill
  io_read u offset =
      let idx = reg_idx u offset in
      let a = (if idx == 0 then emit (irq_level false) u else u) in
      let (b, ret) = reg_read a (reg_of idx) in
      (irq_update (rx_fifo_refill console (irq_update b)), ret)

  unfoldable pub io_write : Uart → ℕ → ℕ → Uart
  unfolding reg_write irq_update
  io_write u offset val =
      irq_update (reg_write console u (reg_of (reg_idx u offset)) (bit_and val 0xff))

  -- At the high watermark the console is paused.
  unfoldable pub apply_backpressure : Uart → Uart
  apply_backpressure u =
      if not u.rx_paused && leb backlog_high_watermark u.backlog_cnt
      then (let ret = console.pause u.log in
          let v = emit paused u in
          if ret != 0 then emit (reported ret) v else record v { rx_paused = true })
      else u

  unfoldable pub rx_cb : List ℕ → Uart → Uart
  unfolding enqueue apply_backpressure rx_fifo_refill irq_update
  rx_cb [] u = u
  rx_cb (c ∷ buf) u = irq_update (rx_fifo_refill console (apply_backpressure (enqueue (c ∷ buf) u)))

-- `error` is the notice's error number, 0 at the end of the stream.
unfoldable pub console_notify : ℕ → Uart → Uart
console_notify error u = if error != 0 then emit (reported error) u else emit shutdown u

-- `uart_realize` from the allocation of the zeroed structure on: `bound` is whether a console is
-- there and could be bound.
unfoldable pub realized : ℕ → Bool → Uart
unfolding msr_update
realized reg_shift bound =
    let u = msr_update (record {
      has_console = bound;
      reg_shift = reg_shift;
      dll = 0;
      dlm = 0;
      ier = 0;
      fcr = 0;
      lcr = 0;
      mcr = 0;
      lsr = 0x60;
      msr = 0;
      scr = 0;
      rx_fifo = replicate 16 0;
      rx_head = 0;
      rx_tail = 0;
      rx_cnt = 0;
      backlog_fifo = replicate 256 0;
      backlog_head = 0;
      backlog_tail = 0;
      backlog_cnt = 0;
      rx_paused = false;
      rx_bound = bound;
      tx_fifo = replicate 16 0;
      tx_head = 0;
      tx_tail = 0;
      tx_cnt = 0;
      rx_trigger_level = 0;
      rx_timeout = false;
      thre_int_pending = true;
      log = [];
    }) in
    record u { msr = clear u.msr msr_any_delta }
