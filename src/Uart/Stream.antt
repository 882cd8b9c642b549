-- ===== src/Uart/Stream.antt =====
-- The receive path of the UART as a queue: the bytes in the FIFO, then those in the backlog.
pub mod Refill
pub mod Delivery
pub mod Reading
use modvm.Prelude.{
  ℕ, zero, suc, ◌+◌, ◌-◌, ◌%◌, ◌≤◌, ◌<◌, ◌≡◌, ◌≢◌, refl, ap, sym, ◌∙◌, Bool, true, false, List, [],
  ◌∷◌, ◌++◌, arith, length, get_or, set, length-set,
}
use modvm.Prelude.Ring.{held, held-mod, held-push, held-pop}
use modvm.Uart.{Uart, Console}
use modvm.Uart.Fifo.{rx_fifo_push, rx_fifo_pop, rx_fifo_clear}

pub record RxValid (u : Uart) : Type 0 where
  pub storage : length u.rx_fifo ≡ 16
  pub count : u.rx_cnt ≤ 16
  pub tail : u.rx_tail < 16
  pub head : u.rx_head ≡ (u.rx_tail + u.rx_cnt) % 16

pub record BacklogValid (u : Uart) : Type 0 where
  pub storage : length u.backlog_fifo ≡ 256
  pub count : u.backlog_cnt ≤ 256
  pub tail : u.backlog_tail < 256
  pub head : u.backlog_head ≡ (u.backlog_tail + u.backlog_cnt) % 256

-- The bytes that the guest will read next, oldest first.
pub rx_held : Uart → List ℕ
rx_held u = held 16 u.rx_fifo u.rx_tail u.rx_cnt

pub backlog_held : Uart → List ℕ
backlog_held u = held 256 u.backlog_fifo u.backlog_tail u.backlog_cnt

unfoldable pub pending : Uart → List ℕ
pending u = rx_held u ++ backlog_held u

pub rx_fifo_push-RxValid : (u : Uart) (c : ℕ) → RxValid u → RxValid (rx_fifo_push u c)
unfolding rx_fifo_push
rx_fifo_push-RxValid u c v = ground (arith, length-set u.rx_fifo u.rx_head c)

-- A byte pushed on a FIFO that has room goes behind the others.
pub rx_held-push :
    (u : Uart) (c : ℕ)
    → RxValid u
    → u.rx_cnt < 16
    → rx_held (rx_fifo_push u c) ≡ rx_held u ++ c ∷ []
unfolding rx_held rx_fifo_push
rx_held-push u c v h = ground (arith, held-push 16 u.rx_fifo u.rx_tail u.rx_cnt c)

pub rx_fifo_pop-RxValid : (u : Uart) → RxValid u → RxValid (rx_fifo_pop u).0
unfolding rx_fifo_pop
rx_fifo_pop-RxValid u v = ground arith

-- A pop returns the oldest byte and leaves the others.
pub rx_held-pop :
    (u : Uart)
    → RxValid u
    → 0 < u.rx_cnt
    → rx_held u ≡ (rx_fifo_pop u).1 ∷ rx_held (rx_fifo_pop u).0
unfolding rx_held rx_fifo_pop
rx_held-pop u v pos = ground (arith, held-pop 16 u.rx_fifo u.rx_tail u.rx_cnt)
