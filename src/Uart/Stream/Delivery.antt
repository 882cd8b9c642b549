-- ===== src/Uart/Stream/Delivery.antt =====
-- `uart_rx_cb` and the guest's read of the receive register: what goes in comes out, in order.
use modvm.Prelude.{
  ℕ, ◌-◌, ◌<◌, ◌≡◌, ap, sym, ◌∙◌, List, [], ◌∷◌, ◌++◌, arith, inl, inr, Bool-cases, length-set,
  take, take-cons, leb, take_none, take_all,
}
use mathlib.Core.List.{append_assoc, append-nil}
use modvm.Prelude.Ring.{held, held-push}
use modvm.Uart.{Uart, Console, backlog_size, raise, lsr_oe}
use modvm.Uart.Fifo.{rx_fifo_refill}
use modvm.Uart.Interrupt.{irq_update}
use modvm.Uart.Io.{backlog_push, enqueue, apply_backpressure, rx_cb}
use modvm.Uart.Stream.{BacklogValid, rx_held, backlog_held, pending}
use modvm.Uart.Stream.Refill.{
  IsValid, SameRings, SameRings-IsValid, SameRings-pending, rx_fifo_refill-Refilled,
}

backlog_push-BacklogValid :
    (u : Uart) (c : ℕ) → IsValid u → u.backlog_cnt < 256 → BacklogValid (backlog_push u c)
unfolding backlog_push
backlog_push-BacklogValid u c v h = ground (arith, length-set u.backlog_fifo u.backlog_head c)

backlog_push-IsValid :
    (u : Uart) (c : ℕ) → IsValid u → u.backlog_cnt < 256 → IsValid (backlog_push u c)
unfolding backlog_push
backlog_push-IsValid u c v h = record {
  rx = ground arith;
  backlog = backlog_push-BacklogValid u c v h;
}

backlog_held-push :
    (u : Uart) (c : ℕ)
    → IsValid u
    → u.backlog_cnt < 256
    → backlog_held (backlog_push u c) ≡ backlog_held u ++ c ∷ []
unfolding backlog_push backlog_held
backlog_held-push u c v h =
    ground (arith, held-push 256 u.backlog_fifo u.backlog_tail u.backlog_cnt c)

pending-backlog_push :
    (u : Uart) (c : ℕ)
    → IsValid u
    → u.backlog_cnt < 256
    → pending (backlog_push u c) ≡ pending u ++ c ∷ []
unfolding pending rx_held backlog_push
pending-backlog_push u c v h =
    ap (λ b. held 16 u.rx_fifo u.rx_tail u.rx_cnt ++ b) (backlog_held-push u c v h)
    ∙ sym (append_assoc (held 16 u.rx_fifo u.rx_tail u.rx_cnt) (backlog_held u) (c ∷ []))

-- What a delivery makes of the queue.
record Accepted (buf : List ℕ) (u w : Uart) : Type 0 where
  valid : IsValid w
  bytes : pending w ≡ pending u ++ take (256 - u.backlog_cnt) buf

push-take :
    (u : Uart) (c : ℕ) (buf : List ℕ)
    → u.backlog_cnt < 256
    → c ∷ take (256 - (backlog_push u c).backlog_cnt) buf ≡ take (256 - u.backlog_cnt) (c ∷ buf)
unfolding backlog_push
push-take u c buf h =
    ap (λ n. c ∷ take n buf) (omega arith)
    ∙ sym (take-cons (256 - u.backlog_cnt) c buf (omega arith))

enqueue-Accepted : (buf : List ℕ) (u : Uart) → IsValid u → Accepted buf u (enqueue buf u)
unfolding enqueue
enqueue-Accepted [] u v = record {
  valid = v;
  bytes =
      sym (append-nil (pending u))
      ∙ ap (λ t. pending u ++ t) (sym (take_all (256 - u.backlog_cnt) [] (omega arith)));
}
enqueue-Accepted (c ∷ buf) u v = elim (Bool-cases (leb backlog_size u.backlog_cnt)) [
  | inl stop ↦
      let full : u.backlog_cnt ≡ 256 = ground arith in
      let w = record u { lsr = raise u.lsr lsr_oe } in
      rw stop (record {
        valid = SameRings-IsValid u w (ground arith) v;
        bytes =
            SameRings-pending u w (ground arith)
            ∙ sym (append-nil (pending u))
            ∙ ap (λ t. pending u ++ t)
                (sym (take_none (256 - u.backlog_cnt) (c ∷ buf) (omega arith)));
      })
  | inr go ↦
      let room : u.backlog_cnt < 256 = ground arith in
      let ih = enqueue-Accepted buf (backlog_push u c) (backlog_push-IsValid u c v room) in
      rw go (record {
        valid = ih.valid;
        bytes =
            ih.bytes
            ∙ ap (λ p. p ++ take (256 - (backlog_push u c).backlog_cnt) buf)
                (pending-backlog_push u c v room)
            ∙ append_assoc (pending u) (c ∷ []) _
            ∙ ap (λ t. pending u ++ t) (push-take u c buf room);
      })
]

apply_backpressure-SameRings :
    (console : Console) (u : Uart) → SameRings u (apply_backpressure console u)
unfolding apply_backpressure
apply_backpressure-SameRings console u = ground arith

pub irq_update-SameRings : (u : Uart) → SameRings u (irq_update u)
unfolding irq_update
irq_update-SameRings u = ground arith

-- A delivery puts behind the bytes that wait exactly those that the backlog has room for, in
-- order; it leaves the rings well formed.
pub rx_cb-pending :
    (console : Console) (buf : List ℕ) (u : Uart)
    → IsValid u
    → IsValid (rx_cb console buf u)
      × (pending (rx_cb console buf u) ≡ pending u ++ take (256 - u.backlog_cnt) buf)
unfolding rx_cb
rx_cb-pending console [] u v = let a = enqueue-Accepted [] u v in (v, a.bytes)
rx_cb-pending console (c ∷ buf) u v =
    let a = enqueue-Accepted (c ∷ buf) u v in
    let q = enqueue (c ∷ buf) u in
    let b = apply_backpressure console q in
    let r =
      rx_fifo_refill-Refilled console b
        (SameRings-IsValid q b (apply_backpressure-SameRings console q) a.valid) in
    let f = rx_fifo_refill console b in
    (
      SameRings-IsValid f (irq_update f) (irq_update-SameRings f) r.valid,
      SameRings-pending f (irq_update f) (irq_update-SameRings f)
          ∙ r.same
          ∙ SameRings-pending q b (apply_backpressure-SameRings console q)
          ∙ a.bytes,
    )
