-- ===== src/Uart/Fifo.antt =====
-- The receive and transmit FIFOs of uart_16550a.c, and the backlog behind the receive FIFO.
use modvm.Prelude.{
  ℕ, zero, suc, ◌+◌, ◌-◌, ◌%◌, Bool, true, false, ◌&&◌, List, [], ◌∷◌, ltb, leb, ◌==◌, ◌!=◌,
  if◌then◌else◌, get_or, set,
}
use modvm.Uart.{
  Uart, Console, wrote, resumed, reported, emit, has, clear, raise, fifo_size, backlog_size,
  backlog_low_watermark, lsr_dr, lsr_oe, lsr_tx_empty, fcr_enable_fifo,
}

unfoldable pub rx_fifo_clear : Uart → Uart
rx_fifo_clear u = record u {
  rx_head = 0;
  rx_tail = 0;
  rx_cnt = 0;
  lsr = clear u.lsr (lsr_dr + lsr_oe);
}

unfoldable pub tx_fifo_clear : Uart → Uart
tx_fifo_clear u = record u {
  tx_head = 0;
  tx_tail = 0;
  tx_cnt = 0;
  lsr = raise u.lsr lsr_tx_empty;
  thre_int_pending = true;
}

unfoldable pub rx_fifo_push : Uart → ℕ → Uart
rx_fifo_push u c =
    if leb fifo_size u.rx_cnt then record u { lsr = raise u.lsr lsr_oe } else record u {
      rx_fifo = set u.rx_fifo u.rx_head c;
      rx_head = (u.rx_head + 1) % fifo_size;
      rx_cnt = (u.rx_cnt + 1) % 256;
      lsr = raise u.lsr lsr_dr;
    }

-- One round of the loop of `uart_16550a_rx_fifo_refill`.
unfoldable pub refill_step : Uart → Uart
unfolding rx_fifo_push
refill_step u =
    let v = rx_fifo_push u (get_or u.backlog_fifo u.backlog_tail 0) in
    record v { backlog_tail = (v.backlog_tail + 1) % backlog_size; backlog_cnt = v.backlog_cnt - 1 }

unfoldable pub refill_test : Uart → Bool
refill_test u = ltb 0 u.backlog_cnt && ltb u.rx_cnt fifo_size

-- The loop, on fuel; each round takes a byte off the backlog, so its count is enough.
unfoldable pub refill_loop : ℕ → Uart → Bool → Uart × Bool
unfolding refill_step refill_test
refill_loop zero u pushed = (u, pushed)
refill_loop (suc fuel) u pushed = elim (refill_test u) [
  | true ↦ refill_loop fuel (refill_step u) true
  | false ↦ (u, pushed)
]

-- After a push: whether bytes wait below the trigger level.
unfoldable pub update_timeout : Bool → Uart → Uart
update_timeout true u = record u {
  rx_timeout = has u.fcr fcr_enable_fifo && (ltb 0 u.rx_cnt && ltb u.rx_cnt u.rx_trigger_level);
}
update_timeout false u = u

-- The bytes that the loop of `uart_16550a_tx_flush` copies, and the tail that it leaves.
unfoldable pub tx_collect : ℕ → List ℕ → ℕ → List ℕ × ℕ
tx_collect zero fifo tail = ([], tail)
tx_collect (suc n) fifo tail =
    let (rest, tail') = tx_collect n fifo ((tail + 1) % fifo_size) in
    (get_or fifo tail 0 ∷ rest, tail')

module _ (console : Console) where
  -- Below the low watermark a paused console is resumed.
  unfoldable pub release_backpressure : Uart → Uart
  release_backpressure u =
      if u.rx_paused && ltb u.backlog_cnt backlog_low_watermark
      then (let ret = console.resume u.log in
          let v = emit resumed u in
          if ret != 0 then emit (reported ret) v else record v { rx_paused = false })
      else u

  unfoldable pub rx_fifo_refill : Uart → Uart
  unfolding refill_loop release_backpressure update_timeout
  rx_fifo_refill u =
      let (v, pushed) = refill_loop u.backlog_cnt u false in
      update_timeout pushed (release_backpressure v)

  -- Hand the bytes to the console, if there is one.
  unfoldable pub tx_drain : Uart → Uart
  unfolding tx_collect
  tx_drain u =
      if u.has_console
      then (let (buf, tail) = tx_collect u.tx_cnt u.tx_fifo u.tx_tail in
          let ret = console.write u.log buf in
          let v = emit (wrote buf) (record u { tx_tail = tail }) in
          if ret != 0 then emit (reported ret) v else v)
      else u

  unfoldable pub tx_flush : Uart → Uart
  unfolding tx_drain
  tx_flush u =
      let v = (if ltb 0 u.tx_cnt then record (tx_drain u) { tx_cnt = 0 } else u) in
      record v { lsr = raise v.lsr lsr_tx_empty; thre_int_pending = true }

unfoldable pub rx_fifo_pop : Uart → Uart × ℕ
rx_fifo_pop u =
    if u.rx_cnt == 0
    then (u, 0)
    else (let cnt = u.rx_cnt - 1 in
        (
          record u {
            rx_tail = (u.rx_tail + 1) % fifo_size;
            rx_cnt = cnt;
            rx_timeout = false;
            lsr = (if cnt == 0 then clear u.lsr lsr_dr else u.lsr);
          },
          get_or u.rx_fifo u.rx_tail 0,
        ))
