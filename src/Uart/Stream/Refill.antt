-- ===== src/Uart/Stream/Refill.antt =====
-- `uart_16550a_rx_fifo_refill`: bytes go from the backlog to the FIFO, in order.
use modvm.Prelude.{
  ℕ, zero, suc, ◌≤◌, ◌≡◌, refl, ap, sym, ◌∙◌, Bool, true, false, [], ◌∷◌, ◌++◌, arith, length,
  get_or, inl, inr, Bool-cases, subst, length-set,
}
use mathlib.Core.List.{append_assoc}
use modvm.Prelude.Ring.{held-push, held-pop}
use modvm.Uart.{Uart, Console}
use modvm.Uart.Fifo.{
  refill_step, refill_test, refill_loop, release_backpressure, update_timeout, rx_fifo_refill,
}
use modvm.Uart.Stream.{RxValid, BacklogValid, rx_held, backlog_held, pending}

-- Both rings are well formed.
pub record IsValid (u : Uart) : Type 0 where
  pub rx : RxValid u
  pub backlog : BacklogValid u

refill_step-RxValid : (u : Uart) → IsValid u → refill_test u ≡ true → RxValid (refill_step u)
unfolding refill_step refill_test
refill_step-RxValid u v t =
    ground (arith, length-set u.rx_fifo u.rx_head (get_or u.backlog_fifo u.backlog_tail 0))

refill_step-BacklogValid :
    (u : Uart) → IsValid u → refill_test u ≡ true → BacklogValid (refill_step u)
unfolding refill_step refill_test
refill_step-BacklogValid u v t = ground arith

refill_step-rx_held :
    (u : Uart)
    → IsValid u
    → refill_test u ≡ true
    → rx_held (refill_step u) ≡ rx_held u ++ get_or u.backlog_fifo u.backlog_tail 0 ∷ []
unfolding refill_step refill_test rx_held
refill_step-rx_held u v t =
    ground
      (arith, held-push 16 u.rx_fifo u.rx_tail u.rx_cnt (get_or u.backlog_fifo u.backlog_tail 0))

refill_step-backlog_held :
    (u : Uart)
    → IsValid u
    → refill_test u ≡ true
    → backlog_held u ≡ get_or u.backlog_fifo u.backlog_tail 0 ∷ backlog_held (refill_step u)
unfolding refill_step refill_test backlog_held
refill_step-backlog_held u v t =
    ground (arith, held-pop 256 u.backlog_fifo u.backlog_tail u.backlog_cnt)

refill_step-pending :
    (u : Uart) → IsValid u → refill_test u ≡ true → pending (refill_step u) ≡ pending u
unfolding pending
refill_step-pending u v t =
    ap (λ a. a ++ backlog_held (refill_step u)) (refill_step-rx_held u v t)
    ∙ append_assoc (rx_held u) _ _
    ∙ ap (λ b. rx_held u ++ b) (sym (refill_step-backlog_held u v t))

no_backlog : (u : Uart) → u.backlog_cnt ≡ 0 → refill_test u ≡ false
unfolding refill_test
no_backlog u e = ground arith

pub refill_step-cnt :
    (u : Uart) → refill_test u ≡ true → suc (refill_step u).backlog_cnt ≡ u.backlog_cnt
unfolding refill_step refill_test
refill_step-cnt u t = ground arith

pub refill_loop-more :
    (fuel : ℕ) (u : Uart) (pushed : Bool)
    → refill_test u ≡ true
    → refill_loop (suc fuel) u pushed ≡ refill_loop fuel (refill_step u) true
unfolding refill_loop
refill_loop-more fuel u pushed t = rw (t, refill_loop)

pub refill_loop-done :
    (fuel : ℕ) (u : Uart) (pushed : Bool)
    → refill_test u ≡ false
    → refill_loop (suc fuel) u pushed ≡ (u, pushed)
unfolding refill_loop
refill_loop-done fuel u pushed t = rw (t, refill_loop)

-- What the loop leaves: the same bytes in the same order, in valid rings, and it stops only at a
-- full FIFO or an empty backlog.
pub record Refilled (u w : Uart) : Type 0 where
  pub valid : IsValid w
  pub same : pending w ≡ pending u
  pub done : refill_test w ≡ false

refill_loop-Refilled :
    (fuel : ℕ) (u : Uart) (pushed : Bool)
    → IsValid u
    → u.backlog_cnt ≤ fuel
    → Refilled u (refill_loop fuel u pushed).0
unfolding refill_loop
refill_loop-Refilled zero u pushed v h = record {
  valid = v;
  same = refl;
  done = no_backlog u (omega arith);
}
refill_loop-Refilled (suc fuel) u pushed v h = elim (Bool-cases (refill_test u)) [
  | inl t ↦
      let r =
        refill_loop-Refilled fuel (refill_step u) true
          (record { rx = refill_step-RxValid u v t; backlog = refill_step-BacklogValid u v t })
          (omega (arith, refill_step-cnt u t)) in
      subst (λ p. Refilled u p.0) (sym (refill_loop-more fuel u pushed t))
        (record { valid = r.valid; same = r.same ∙ refill_step-pending u v t; done = r.done })
  | inr t ↦
      subst (λ p. Refilled u p.0) (sym (refill_loop-done fuel u pushed t))
        (record { valid = v; same = refl; done = t })
]

-- A step that touches no ring.
pub record SameRings (u w : Uart) : Type 0 where
  pub rx_fifo : w.rx_fifo ≡ u.rx_fifo
  pub rx_head : w.rx_head ≡ u.rx_head
  pub rx_tail : w.rx_tail ≡ u.rx_tail
  pub rx_cnt : w.rx_cnt ≡ u.rx_cnt
  pub backlog_fifo : w.backlog_fifo ≡ u.backlog_fifo
  pub backlog_head : w.backlog_head ≡ u.backlog_head
  pub backlog_tail : w.backlog_tail ≡ u.backlog_tail
  pub backlog_cnt : w.backlog_cnt ≡ u.backlog_cnt

pub SameRings-IsValid : (u w : Uart) → SameRings u w → IsValid u → IsValid w
SameRings-IsValid u w s v = record {
  rx = ground (arith, ap (length {A = ℕ}) s.rx_fifo);
  backlog = ground (arith, ap (length {A = ℕ}) s.backlog_fifo);
}

pub SameRings-pending : (u w : Uart) → SameRings u w → pending w ≡ pending u
unfolding pending rx_held backlog_held
SameRings-pending u w s = ground arith

SameRings-Refilled : (u v w : Uart) → SameRings v w → Refilled u v → Refilled u w
unfolding refill_test
SameRings-Refilled u v w s r = record {
  valid = SameRings-IsValid v w s r.valid;
  same = SameRings-pending v w s ∙ r.same;
  done = let d = r.done in ground arith;
}

update_timeout-SameRings : (pushed : Bool) (u : Uart) → SameRings u (update_timeout pushed u)
unfolding update_timeout
update_timeout-SameRings true u = ground arith
update_timeout-SameRings false u = ground arith

module _ (console : Console) where
  release_backpressure-SameRings : (u : Uart) → SameRings u (release_backpressure console u)
  unfolding release_backpressure
  release_backpressure-SameRings u = ground arith

  -- Refilling neither loses, makes up nor reorders a byte, and leaves the FIFO full or the backlog
  -- empty.
  pub rx_fifo_refill-Refilled : (u : Uart) → IsValid u → Refilled u (rx_fifo_refill console u)
  unfolding rx_fifo_refill
  rx_fifo_refill-Refilled u v =
      let (l, pushed) = refill_loop u.backlog_cnt u false in
      let r = refill_loop-Refilled u.backlog_cnt u false v (omega arith) in
      let b = release_backpressure console l in
      SameRings-Refilled u b (update_timeout pushed b) (update_timeout-SameRings pushed b)
        (SameRings-Refilled u l b (release_backpressure-SameRings l) r)
