-- ===== src/Uart/Transmit.antt =====
-- The transmitter of the UART, and the character timeout of its receiver.
use modvm.Prelude.{
  ℕ, ◌+◌, ◌%◌, ◌<◌, ◌≡◌, ap, ◌∙◌, true, false, List, [], ◌∷◌, arith, length, ◌⊎◌, set, get_or,
  length-set, get_or-set_self,
}
use modvm.Uart.{Uart, Console, Event, wrote, reported, clear, raise, lsr_tx_empty}
use modvm.Uart.Fifo.{tx_flush, tx_drain, tx_collect}
use modvm.Uart.Interrupt.{loopback_is_enabled}
use modvm.Uart.Regs.{write_tx}

-- Between accesses the transmit FIFO is empty; with a console its two indices agree.
pub record TxValid (u : Uart) : Type 0 where
  pub storage : length u.tx_fifo ≡ 16
  pub count : u.tx_cnt ≡ 0
  pub head : u.tx_head < 16
  pub synced : u.has_console ≡ true → u.tx_tail ≡ u.tx_head

tx_collect-one :
    (n : ℕ) (fifo : List ℕ) (tail : ℕ)
    → n ≡ 1
    → tx_collect n fifo tail ≡ (get_or fifo tail 0 ∷ [], (tail + 1) % 16)
unfolding tx_collect
tx_collect-one n fifo tail e = rw e

abbrev queued : Uart → ℕ → Uart
queued u val = record u {
  tx_fifo = set u.tx_fifo u.tx_head val;
  tx_head = (u.tx_head + 1) % 16;
  tx_cnt = (u.tx_cnt + 1) % 256;
  lsr = clear u.lsr lsr_tx_empty;
  thre_int_pending = false;
}

-- What the console has been given, and how it answered.
abbrev pub Sent : ℕ → List Event → List Event → Type 0
Sent val before after =
    (after ≡ wrote (val ∷ []) ∷ before)
    ⊎ ((e : ℕ) × (after ≡ reported e ∷ wrote (val ∷ []) ∷ before))

-- One queued byte goes to the console; nothing else of the transmitter but its tail moves.
abbrev Drained : ℕ → Uart → Uart → Type 0
Drained val u w =
    Sent val u.log w.log
    × (w.tx_tail ≡ (u.tx_tail + 1) % 16)
    × (w.tx_head ≡ u.tx_head)
    × (w.tx_fifo ≡ u.tx_fifo)
    × (w.lsr ≡ u.lsr)

tx_drain-Drained :
    (console : Console) (u : Uart) (val : ℕ)
    → u.has_console ≡ true
    → u.tx_cnt ≡ 1
    → get_or u.tx_fifo u.tx_tail 0 ≡ val
    → Drained val u (tx_drain console u)
unfolding tx_drain
tx_drain-Drained console u val on one byte =
    let e = tx_collect-one u.tx_cnt u.tx_fifo u.tx_tail one in ground (arith, e)

-- A byte written to an idle transmitter with a console, while loopback is off, is handed to the
-- console at once, whatever that answers: the FIFO is idle again, and the status says that the
-- transmitter is empty.
pub write_tx-Sent :
    (console : Console) (u : Uart) (val : ℕ)
    → TxValid u
    → u.has_console ≡ true
    → loopback_is_enabled u ≡ false
    → let w = write_tx console u val in
      Sent val u.log w.log
      × TxValid w
      × (w.thre_int_pending ≡ true)
      × (w.lsr ≡ raise (clear u.lsr lsr_tx_empty) lsr_tx_empty)
unfolding write_tx tx_flush
write_tx-Sent console u val v on off =
    let q = queued u val in
    let cnt : q.tx_cnt ≡ 1 = omega arith in
    let byte : get_or q.tx_fifo q.tx_tail 0 ≡ val =
      ap (λ t. get_or q.tx_fifo t 0) (v.synced on)
      ∙ get_or-set_self u.tx_fifo u.tx_head val 0 (omega arith) in
    let d = tx_drain-Drained console q val on cnt byte in
    let len = length-set u.tx_fifo u.tx_head val in ground (arith, d, len)
