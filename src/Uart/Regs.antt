-- ===== src/Uart/Regs.antt =====
-- `uart_16550a_reg_read` and `uart_16550a_reg_write`: one register access.
use modvm.Prelude.{
  ℕ, zero, suc, ◌+◌, ◌%◌, Bool, true, false, ◌&&◌, not, ◌==◌, if◌then◌else◌, set, bit_and,
}
use modvm.Uart.{
  Uart, Console, has, clear, raise, fifo_size, lcr_dlab, lcr_sbc, lsr_bi, lsr_brk_error_bits,
  lsr_tx_empty, msr_any_delta, ier_thri, fcr_enable_fifo, fcr_clear_rcvr, fcr_clear_xmit,
}
use modvm.Uart.Fifo.{rx_fifo_clear, tx_fifo_clear, rx_fifo_push, rx_fifo_pop, tx_flush}
use modvm.Uart.Interrupt.{iir_get, msr_update, loopback_is_enabled}

unfoldable pub dlab_is_set : Uart → Bool
dlab_is_set u = has u.lcr lcr_dlab

-- Registers by offset. UART_RX and UART_TX, UART_IIR and UART_FCR share one.
pub data Reg : Type 0 where
  rx_tx ier iir_fcr lcr mcr lsr msr scr none : Reg

abbrev pub reg_of : ℕ → Reg
reg_of zero = rx_tx
reg_of (suc zero) = ier
reg_of (suc (suc zero)) = iir_fcr
reg_of (suc (suc (suc zero))) = lcr
reg_of (suc (suc (suc (suc zero)))) = mcr
reg_of (suc (suc (suc (suc (suc zero))))) = lsr
reg_of (suc (suc (suc (suc (suc (suc zero)))))) = msr
reg_of (suc (suc (suc (suc (suc (suc (suc zero))))))) = scr
reg_of (suc (suc (suc (suc (suc (suc (suc (suc n)))))))) = none

unfoldable pub reg_read : Uart → Reg → Uart × ℕ
unfolding dlab_is_set iir_get rx_fifo_pop
reg_read u rx_tx = if dlab_is_set u then (u, u.dll) else rx_fifo_pop u
reg_read u ier = if dlab_is_set u then (u, u.dlm) else (u, u.ier)
reg_read u iir_fcr =
    let val = iir_get u in
    (if bit_and val 0x0e == 0x02 then record u { thre_int_pending = false } else u, val)
reg_read u lcr = (u, u.lcr)
reg_read u mcr = (u, u.mcr)
reg_read u lsr = (record u { lsr = clear u.lsr lsr_brk_error_bits }, clear u.lsr 0x80)
reg_read u msr = (record u { msr = clear u.msr msr_any_delta }, u.msr)
reg_read u scr = (u, u.scr)
reg_read u none = (u, 0xff)

-- The trigger level of bits 6 and 7.
unfoldable pub trigger_level : ℕ → ℕ
trigger_level val =
    let bits = bit_and val 0xc0 in
    if bits == 0x00 then 1 else if bits == 0x40 then 4 else if bits == 0x80 then 8 else 14

unfoldable pub write_ier : Uart → ℕ → Uart
write_ier u val =
    let new = bit_and val 0x0f in
    record u {
      ier = new;
      thre_int_pending =
          (if not (has u.ier ier_thri) && (has new ier_thri && u.tx_cnt == 0)
            then true
            else u.thre_int_pending);
    }

unfoldable pub write_fcr : Uart → ℕ → Uart
unfolding rx_fifo_clear tx_fifo_clear trigger_level
write_fcr u written =
    let val = bit_and written 0xcf in
    if not (has val fcr_enable_fifo)
    then tx_fifo_clear (rx_fifo_clear (record u { fcr = 0; rx_trigger_level = 1 }))
    else (let a = record u { fcr = clear val (fcr_clear_rcvr + fcr_clear_xmit) } in
        let b = (if has val fcr_clear_rcvr then rx_fifo_clear a else a) in
        let c = (if has val fcr_clear_xmit then tx_fifo_clear b else b) in
        record c { rx_trigger_level = trigger_level val })

unfoldable pub write_lcr : Uart → ℕ → Uart
unfolding loopback_is_enabled
write_lcr u val = record u {
  lcr = val;
  lsr =
      (if loopback_is_enabled u
        then (if has val lcr_sbc then raise u.lsr lsr_bi else clear u.lsr lsr_bi)
        else u.lsr);
}

module _ (console : Console) where
  -- A byte for the transmitter: looped back, or queued and flushed at once.
  unfoldable pub write_tx : Uart → ℕ → Uart
  unfolding loopback_is_enabled rx_fifo_push tx_flush
  write_tx u val =
      if loopback_is_enabled u
      then rx_fifo_push u val
      else tx_flush console (record u {
        tx_fifo = set u.tx_fifo u.tx_head val;
        tx_head = (u.tx_head + 1) % fifo_size;
        tx_cnt = (u.tx_cnt + 1) % 256;
        lsr = clear u.lsr lsr_tx_empty;
        thre_int_pending = false;
      })

  unfoldable pub reg_write : Uart → Reg → ℕ → Uart
  unfolding dlab_is_set write_tx write_ier write_fcr write_lcr msr_update
  reg_write u rx_tx val = if dlab_is_set u then record u { dll = val } else write_tx u val
  reg_write u ier val = if dlab_is_set u then record u { dlm = val } else write_ier u val
  reg_write u iir_fcr val = write_fcr u val
  reg_write u lcr val = write_lcr u val
  reg_write u mcr val = msr_update (record u { mcr = bit_and val 0x1f })
  reg_write u lsr val = u
  reg_write u msr val = u
  reg_write u scr val = record u { scr = val }
  reg_write u none val = u
