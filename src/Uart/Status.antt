-- ===== src/Uart/Status.antt =====
-- The interrupt line and the transmitter of the UART, as the guest sees them.
use modvm.Prelude.{
  ℕ, ◌≡◌, refl, ap, ◌∙◌, Bool, true, false, ◌&&◌, ◌||◌, not, List, ◌∷◌, if◌then◌else◌, ◌==◌,
  bit_and, bit_or,
}
use modvm.Uart.{
  Uart, Console, Event, emit, irq_level, has, ier_msi, ier_rlsi, ier_thri, ier_rdi, fcr_enable_fifo,
  lsr_brk_error_bits, msr_any_delta,
}
use modvm.Uart.Fifo.{rx_fifo_refill}
use modvm.Uart.Interrupt.{iir_get, irq_update, trigger_reached}
use modvm.Uart.Regs.{reg_of, reg_read, reg_write}
use modvm.Uart.Io.{apply_backpressure, enqueue, io_read, io_write, rx_cb, reg_idx}

-- Some enabled source of interrupts is active.
abbrev pub is_pending : Uart → Bool
is_pending u =
    (has u.ier ier_rlsi && has u.lsr lsr_brk_error_bits)
    || ((has u.ier ier_rdi && (trigger_reached u || u.rx_timeout))
        || ((has u.ier ier_thri && u.thre_int_pending)
            || (has u.ier ier_msi && has u.msr msr_any_delta)))

-- The interrupt identification by its conditions: FIFO mode, line status, trigger level, timeout,
-- transmitter, modem status.
iir_of : Bool → Bool → Bool → Bool → Bool → Bool → ℕ
iir_of fifo line avail timeout thre modem =
    let iir : ℕ = (if fifo then 0xc0 else 0x00) in
    if line
    then bit_or iir 0x06
    else if avail
    then bit_or iir 0x04
    else if timeout
    then bit_or iir 0x0c
    else if thre
    then bit_or iir 0x02
    else if modem
    then bit_or iir 0x00
    else bit_or iir 0x01

iir_of-pending :
    (fifo line avail timeout thre modem : Bool)
    → not (has (iir_of fifo line avail timeout thre modem) 0x01)
      ≡ line || (avail || (timeout || (thre || modem)))
unfolding iir_of has
iir_of-pending true true d o t m = refl
iir_of-pending false true d o t m = refl
iir_of-pending true false true o t m = refl
iir_of-pending false false true o t m = refl
iir_of-pending true false false true t m = refl
iir_of-pending false false false true t m = refl
iir_of-pending true false false false true m = refl
iir_of-pending false false false false true m = refl
iir_of-pending true false false false false true = refl
iir_of-pending false false false false false true = refl
iir_of-pending true false false false false false = refl
iir_of-pending false false false false false false = refl

or_shape :
    (rdi trigger timeout rest : Bool)
    → (rdi && trigger) || ((rdi && timeout) || rest) ≡ (rdi && (trigger || timeout)) || rest
or_shape true true o r = refl
or_shape true false o r = refl
or_shape false t o r = refl

iir_get-pending : (u : Uart) → not (has (iir_get u) 0x01) ≡ is_pending u
unfolding iir_get iir_of
iir_get-pending u =
    iir_of-pending (has u.fcr fcr_enable_fifo) (has u.ier ier_rlsi && has u.lsr lsr_brk_error_bits)
      (has u.ier ier_rdi && trigger_reached u) (has u.ier ier_rdi && u.rx_timeout)
      (has u.ier ier_thri && u.thre_int_pending) (has u.ier ier_msi && has u.msr msr_any_delta)
    ∙ ap (λ b. (has u.ier ier_rlsi && has u.lsr lsr_brk_error_bits) || b)
        (or_shape (has u.ier ier_rdi) (trigger_reached u) u.rx_timeout _)

-- The line was last driven by this state.
abbrev pub Drives : Uart → Type 0
Drives w = (rest : List Event) × (w.log ≡ irq_level (is_pending w) ∷ rest)

irq_update-Drives : (u : Uart) → Drives (irq_update u)
unfolding irq_update has
irq_update-Drives u = (u.log, ap (λ b. irq_level b ∷ u.log) (iir_get-pending u))

module _ (console : Console) where
  -- After an access of the guest, and after a delivery, the last call on the interrupt line set it
  -- to the level that the new state asks for: high exactly if an enabled source is active.
  pub line_follows_state :
      (u : Uart) (offset val c : ℕ) (buf : List ℕ)
      → Drives (io_read console u offset).0
        × Drives (io_write console u offset val)
        × Drives (rx_cb console (c ∷ buf) u)
  unfolding io_read io_write rx_cb
  line_follows_state u offset val c buf =
      let idx = reg_idx u offset in
      let low = (if idx == 0 then emit (irq_level false) u else u) in
      (
        irq_update-Drives (rx_fifo_refill console (irq_update (reg_read low (reg_of idx)).0)),
        irq_update-Drives (reg_write console u (reg_of idx) (bit_and val 255)),
        irq_update-Drives
            (rx_fifo_refill console (apply_backpressure console (enqueue (c ∷ buf) u))),
      )
