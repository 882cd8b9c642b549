-- ===== src/Uart/Interrupt.antt =====
-- The interrupt identification, the interrupt line and the modem status of uart_16550a.c.
use modvm.Prelude.{ℕ, ◌/◌, Bool, ◌&&◌, not, ltb, leb, if◌then◌else◌, bit_and, bit_or, bit_xor}
use modvm.Uart.{
  Uart, irq_level, emit, has, ier_msi, ier_rlsi, ier_thri, ier_rdi, fcr_enable_fifo, mcr_loop,
  lsr_brk_error_bits, msr_any_delta, msr_ri, msr_teri,
}

unfoldable pub loopback_is_enabled : Uart → Bool
loopback_is_enabled u = has u.mcr mcr_loop

unfoldable pub trigger_reached : Uart → Bool
trigger_reached u =
    if has u.fcr fcr_enable_fifo then leb u.rx_trigger_level u.rx_cnt else ltb 0 u.rx_cnt

-- Priorities 3 and 4 of `uart_16550a_iir_get`, and no interrupt at all.
unfoldable pub iir_low : Uart → ℕ → ℕ
iir_low u iir =
    if has u.ier ier_thri && u.thre_int_pending
    then bit_or iir 0x02
    else if has u.ier ier_msi && has u.msr msr_any_delta
    then bit_or iir 0x00
    else bit_or iir 0x01

unfoldable pub iir_get : Uart → ℕ
unfolding trigger_reached iir_low
iir_get u =
    let iir : ℕ = (if has u.fcr fcr_enable_fifo then 0xc0 else 0x00) in
    if has u.ier ier_rlsi && has u.lsr lsr_brk_error_bits
    then bit_or iir 0x06
    else if has u.ier ier_rdi && trigger_reached u
    then bit_or iir 0x04
    else if has u.ier ier_rdi && u.rx_timeout
    then bit_or iir 0x0c
    else iir_low u iir

unfoldable pub irq_update : Uart → Uart
unfolding iir_get
irq_update u = emit (irq_level (not (has (iir_get u) 0x01))) u

-- The wiring of the modem lines.
unfoldable pub modem_lines : Uart → ℕ
unfolding loopback_is_enabled
modem_lines u =
    if not (loopback_is_enabled u)
    then 0xb0
    else (let a : ℕ = (if has u.mcr 0x01 then 0x20 else 0) in
        let b = (if has u.mcr 0x02 then bit_or a 0x10 else a) in
        let c = (if has u.mcr 0x04 then bit_or b 0x40 else b) in
        if has u.mcr 0x08 then bit_or c 0x80 else c)

unfoldable pub msr_update : Uart → Uart
unfolding modem_lines
msr_update u =
    let old_msr = u.msr in
    let new_msr = modem_lines u in
    let changed = bit_and (bit_xor old_msr new_msr) 0xb0 / 16 in
    let delta =
      (if has old_msr msr_ri && not (has new_msr msr_ri)
        then bit_or changed msr_teri
        else changed) in
    record u { msr = bit_or (bit_or new_msr (bit_and old_msr msr_any_delta)) delta }
