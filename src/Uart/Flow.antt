-- ===== src/Uart/Flow.antt =====
-- Back-pressure of the UART: while the console obeys `char_pause_rx_locked`, no byte is dropped.
use modvm.Prelude.{
  ℕ, zero, suc, ◌-◌, ◌≤◌, ◌<◌, ◌≡◌, refl, ap, sym, ◌∙◌, Bool, true, false, List, [], ◌∷◌, ◌++◌,
  arith, length, inl, inr, Bool-cases, subst, take_all,
}
use modvm.Uart.{Uart, Console, Event}
use modvm.Uart.Fifo.{
  refill_step, refill_test, refill_loop, release_backpressure, update_timeout, rx_fifo_refill,
}
use modvm.Uart.Interrupt.{irq_update}
use modvm.Uart.Io.{enqueue, apply_backpressure, rx_cb}
use modvm.Uart.Stream.{pending}
use modvm.Uart.Stream.Refill.{IsValid, refill_loop-more, refill_loop-done, refill_step-cnt}
use modvm.Uart.Stream.Delivery.{rx_cb-pending}

-- A console that is not paused finds room for the largest delivery that it was bound for:
-- UART_BACKLOG_SIZE - UART_BACKLOG_HIGH_WATERMARK bytes.
abbrev pub HasRoom : Uart → Type 0
HasRoom u = u.rx_paused ≡ false → u.backlog_cnt < 192

-- The backlog shrinks, and the console stays as it is.
record Drains (u w : Uart) : Type 0 where
  paused : w.rx_paused ≡ u.rx_paused
  count : w.backlog_cnt ≤ u.backlog_cnt

refill_step-paused : (u : Uart) → (refill_step u).rx_paused ≡ u.rx_paused
unfolding refill_step
refill_step-paused u = ground arith

refill_loop-spent : (u : Uart) (pushed : Bool) → refill_loop 0 u pushed ≡ (u, pushed)
unfolding refill_loop
refill_loop-spent u pushed = refl

refill_loop-Drains : (fuel : ℕ) (u : Uart) (pushed : Bool) → Drains u (refill_loop fuel u pushed).0
refill_loop-Drains zero u pushed =
    subst (λ p. Drains u p.0) (sym (refill_loop-spent u pushed))
      (record { paused = refl; count = omega arith })
refill_loop-Drains (suc fuel) u pushed = elim (Bool-cases (refill_test u)) [
  | inl t ↦
      let d = refill_loop-Drains fuel (refill_step u) true in
      subst (λ p. Drains u p.0) (sym (refill_loop-more fuel u pushed t))
        (record {
          paused = d.paused ∙ refill_step-paused u;
          count = omega (arith, d.count, refill_step-cnt u t);
        })
  | inr t ↦
      subst (λ p. Drains u p.0) (sym (refill_loop-done fuel u pushed t))
        (record { paused = refl; count = omega arith })
]

update_timeout-HasRoom : (pushed : Bool) (u : Uart) → HasRoom u → HasRoom (update_timeout pushed u)
unfolding update_timeout
update_timeout-HasRoom true u h = h
update_timeout-HasRoom false u h = h

module _ (console : Console) where
  release_backpressure-HasRoom : (u : Uart) → HasRoom u → HasRoom (release_backpressure console u)
  unfolding release_backpressure
  release_backpressure-HasRoom u h e = ground arith

  rx_fifo_refill-HasRoom : (u : Uart) → HasRoom u → HasRoom (rx_fifo_refill console u)
  unfolding rx_fifo_refill
  rx_fifo_refill-HasRoom u h =
      let (l, pushed) = refill_loop u.backlog_cnt u false in
      let d = refill_loop-Drains u.backlog_cnt u false in
      update_timeout-HasRoom pushed (release_backpressure console l)
        (release_backpressure-HasRoom l (λ e. omega (arith, h (sym d.paused ∙ e), d.count)))

  apply_backpressure-HasRoom :
      (u : Uart) → ((l : List Event) → console.pause l ≡ 0) → HasRoom (apply_backpressure console u)
  unfolding apply_backpressure
  apply_backpressure-HasRoom u obeys e = ground (arith, obeys u.log)

  -- Every delivery leaves a console that is not paused with room for another, if pausing succeeds.
  pub rx_cb-HasRoom :
      (buf : List ℕ) (u : Uart)
      → ((l : List Event) → console.pause l ≡ 0)
      → HasRoom u
      → HasRoom (rx_cb console buf u)
  unfolding rx_cb irq_update
  rx_cb-HasRoom [] u obeys h = h
  rx_cb-HasRoom (c ∷ buf) u obeys h =
      rx_fifo_refill-HasRoom (apply_backpressure console (enqueue (c ∷ buf) u))
        (apply_backpressure-HasRoom (enqueue (c ∷ buf) u) obeys)

  -- A delivery of at most 64 bytes to a UART whose console is not paused is taken whole, behind the
  -- bytes that wait, and leaves room for the next one unless the console is then paused.
  pub rx_cb_no_loss :
      (buf : List ℕ) (u : Uart)
      → ((l : List Event) → console.pause l ≡ 0)
      → IsValid u
      → HasRoom u
      → u.rx_paused ≡ false
      → length buf ≤ 64
      → (pending (rx_cb console buf u) ≡ pending u ++ buf) × HasRoom (rx_cb console buf u)
  rx_cb_no_loss buf u obeys v h idle len = (
    (rx_cb-pending console buf u v).1
        ∙ ap (λ t. pending u ++ t) (take_all (256 - u.backlog_cnt) buf (omega (arith, h idle))),
    rx_cb-HasRoom buf u obeys h,
  )
