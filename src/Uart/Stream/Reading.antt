-- ===== src/Uart/Stream/Reading.antt =====
-- The driver reads the receive register: it takes the oldest of the waiting bytes.
use modvm.Prelude.{
  ◌==◌, ℕ, ◌<◌, ◌≡◌, refl, ap, sym, ◌∙◌, true, false, [], ◌∷◌, ◌++◌, arith, ◌⊎◌, inl, inr,
  Bool-cases, subst,
}
use modvm.Prelude.Ring.{held}
use modvm.Uart.{Uart, Console, emit, irq_level}
use modvm.Uart.Fifo.{refill_test, rx_fifo_refill, rx_fifo_pop}
use modvm.Uart.Interrupt.{irq_update}
use modvm.Uart.Regs.{dlab_is_set}
use modvm.Uart.Io.{io_read, reg_idx}
use modvm.Uart.Stream.{
  BacklogValid, rx_held, backlog_held, pending, rx_held-pop, rx_fifo_pop-RxValid,
}
use modvm.Uart.Stream.Refill.{
  IsValid, SameRings, SameRings-IsValid, SameRings-pending, rx_fifo_refill-Refilled,
}
use modvm.Uart.Stream.Delivery.{irq_update-SameRings}

-- The state in which the guest's read of the receive register finds the FIFO.
abbrev pub lowered : Uart → Uart
lowered u = emit (irq_level false) u

pub io_read_rx :
    (console : Console) (u : Uart) (offset : ℕ)
    → reg_idx u offset ≡ 0
    → dlab_is_set u ≡ false
    → io_read console u offset ≡ (
      irq_update (rx_fifo_refill console (irq_update (rx_fifo_pop (lowered u)).0)),
      (rx_fifo_pop (lowered u)).1,
    )
unfolding io_read
io_read_rx console u offset e d = rw (e, d)

-- What a read of the receive register does to the bytes that wait.
abbrev pub TakesOldest : Uart → ℕ → Uart → Type 0
TakesOldest u byte w =
    ((u.rx_cnt ≡ 0)
      × (byte ≡ 0)
      × (pending w ≡ pending u)
      × ((pending u ≡ []) ⊎ (refill_test u ≡ true)))
    ⊎ ((0 < u.rx_cnt) × (pending u ≡ byte ∷ pending w))

rx_fifo_pop-BacklogValid : (u : Uart) → IsValid u → BacklogValid (rx_fifo_pop u).0
unfolding rx_fifo_pop
rx_fifo_pop-BacklogValid u v = ground arith

backlog_held-pop : (u : Uart) → backlog_held (rx_fifo_pop u).0 ≡ backlog_held u
unfolding rx_fifo_pop backlog_held
backlog_held-pop u = ground arith

rx_fifo_pop-empty : (u : Uart) → u.rx_cnt ≡ 0 → rx_fifo_pop u ≡ (u, 0)
unfolding rx_fifo_pop
rx_fifo_pop-empty u e = ground arith

pending-nil : (u : Uart) → refill_test u ≡ false → u.rx_cnt ≡ 0 → pending u ≡ []
unfolding pending rx_held backlog_held refill_test held
pending-nil u settled e = ground arith

pending-pop :
    (u : Uart)
    → IsValid u
    → 0 < u.rx_cnt
    → pending u ≡ (rx_fifo_pop u).1 ∷ pending (rx_fifo_pop u).0
unfolding pending
pending-pop u v pos =
    ap (λ r. r ++ backlog_held u) (rx_held-pop u v.rx pos)
    ∙ ap (λ b. (rx_fifo_pop u).1 ∷ (rx_held (rx_fifo_pop u).0 ++ b)) (sym (backlog_held-pop u))

nothing_pops : (u : Uart) → u.rx_cnt ≡ 0 → (pending u ≡ []) ⊎ (refill_test u ≡ true)
nothing_pops u e = elim (Bool-cases (refill_test u)) [
  | inl t ↦ inr t
  | inr t ↦ inl (pending-nil u t e)
]

pop-TakesOldest :
    (u : Uart)
    → IsValid u
    → IsValid (rx_fifo_pop u).0 × TakesOldest u (rx_fifo_pop u).1 (rx_fifo_pop u).0
pop-TakesOldest u v = elim (Bool-cases (u.rx_cnt == 0)) [
  | inl t ↦
      let e : u.rx_cnt ≡ 0 = ground arith in
      subst (λ p. IsValid p.0 × TakesOldest u p.1 p.0) (sym (rx_fifo_pop-empty u e))
        (v, inl (e, refl, refl, nothing_pops u e))
  | inr t ↦
      let some_held : 0 < u.rx_cnt = ground arith in
      (
        record { rx = rx_fifo_pop-RxValid u v.rx; backlog = rx_fifo_pop-BacklogValid u v },
        inr (some_held, pending-pop u v some_held),
      )
]

-- The interrupt line does not matter, nor what has been put on it.
TakesOldest-lowered :
    (u p w : Uart) (byte : ℕ)
    → pending (lowered u) ≡ pending u
    → pending w ≡ pending p
    → TakesOldest (lowered u) byte p
    → TakesOldest u byte w
unfolding refill_test
TakesOldest-lowered u p w byte before after (inl (e, b, same, nothing)) =
    inl (e, b, after ∙ same ∙ before, subst (λ l. (l ≡ []) ⊎ (refill_test u ≡ true)) before nothing)
TakesOldest-lowered u p w byte before after (inr (some_held, taken)) =
    inr (some_held, sym before ∙ taken ∙ ap (λ l. byte ∷ l) (sym after))

irq_update-settled : (u : Uart) → refill_test u ≡ false → refill_test (irq_update u) ≡ false
unfolding refill_test irq_update
irq_update-settled u h = h

-- A read of the receive register, so of the register at 0 with DLAB clear, on rings whose indexes
-- and counts are within bounds. When the FIFO holds a byte it returns the oldest byte that waits, in
-- FIFO or backlog, and leaves the others in order. With an empty FIFO it returns 0 and every byte that
-- waits stays: there is none, or the backlog holds bytes that have not been moved to the FIFO, as
-- after an FCR clear. After the read the backlog has been moved as far as the FIFO takes it.
pub io_read-TakesOldest :
    (console : Console) (u : Uart) (offset : ℕ)
    → IsValid u
    → reg_idx u offset ≡ 0
    → dlab_is_set u ≡ false
    → let (w, byte) = io_read console u offset in
      IsValid w × (refill_test w ≡ false) × TakesOldest u byte w
io_read-TakesOldest console u offset v e d =
    let low = lowered u in
    let same : SameRings u low = ground arith in
    let (valid, takes) = pop-TakesOldest low (SameRings-IsValid u low same v) in
    let p = (rx_fifo_pop low).0 in
    let i = irq_update p in
    let r =
      rx_fifo_refill-Refilled console i (SameRings-IsValid p i (irq_update-SameRings p) valid) in
    let f = rx_fifo_refill console i in
    let w = irq_update f in
    let after : pending w ≡ pending p =
      SameRings-pending f w (irq_update-SameRings f)
      ∙ r.same
      ∙ SameRings-pending p i (irq_update-SameRings p) in
    subst (λ q. IsValid q.0 × (refill_test q.0 ≡ false) × TakesOldest u q.1 q.0)
      (sym (io_read_rx console u offset e d))
      (
        SameRings-IsValid f w (irq_update-SameRings f) r.valid,
        irq_update-settled f r.done,
        TakesOldest-lowered u p w (rx_fifo_pop low).1 (SameRings-pending u low same) after takes,
      )
