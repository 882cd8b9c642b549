-- ===== src/Virtqueue/Pop/Served.antt =====
-- A chain that the driver lays out as the standard asks is popped.
use modvm.Prelude.{
  ℕ, zero, suc, ◌+◌, ◌-◌, ◌%◌, ◌^◌, ◌≤◌, ◌<◌, ◌≡◌, ◌≢◌, refl, Bool, true, false, ◌||◌, ◌&&◌, not,
  some, List, [], ◌∷◌, ◌++◌, length, length-append, arith, sym, ap, ◌∙◌, subst, leb, ltb, ◌==◌,
  ◌!=◌, if◌then◌else◌, bit_and,
}
use mathlib.Core.List.{append_assoc}
use modvm.Prelude.Words.{u64_max}
use modvm.Memory.{MemSpace}
use modvm.Memory.Translate.{IsValid}
use modvm.Virtqueue.{Virtqueue}
use modvm.Virtqueue.Pop.{
  VringDesc, VirtqueueBuf, VirtqueueChain, Loads, Round, done, next, add_buf, total, take_desc,
  round, walk, is_mapped, popped, pop_chain, pop, empty_chain, desc_f_next, desc_f_write,
}
use modvm.Virtqueue.Pop.Mapped.{is_mapped-exact}
use modvm.Virtqueue.Pop.Chain.{bytes, BufUsable, add_buf-bufs, add_buf-head}

-- The buffer that a descriptor names.
abbrev pub buf_of : VringDesc → VirtqueueBuf
buf_of d = record { gpa = d.addr; len = d.len; is_write = bit_and d.flags desc_f_write != 0 }

-- A descriptor in order: no flags but NEXT and WRITE, to write once one before it was, and usable.
pub record IsGood (mem : MemSpace) (seen : Bool) (d : VringDesc) : Type 0 where
  pub flags : bit_and d.flags 0xfffc ≡ 0
  pub order : seen ≡ true → (buf_of d).is_write ≡ true
  pub usable : BufUsable mem (buf_of d)

-- The descriptors from the n-th on, the first at `index`, name these buffers.
pub data Follows (mem : MemSpace) (loads : Loads) (queue_size : ℕ)
    : ℕ → Bool → ℕ → List VirtqueueBuf → Type 0 where
  last :
      (n : ℕ) (seen : Bool) (index : ℕ)
      → index < queue_size
      → IsGood mem seen (loads.desc n index)
      → bit_and (loads.desc n index).flags desc_f_next ≡ 0
      → Follows mem loads queue_size n seen index (buf_of (loads.desc n index) ∷ [])
  more :
      (n : ℕ) (seen : Bool) (index : ℕ) (bs : List VirtqueueBuf)
      → index < queue_size
      → IsGood mem seen (loads.desc n index)
      → bit_and (loads.desc n index).flags desc_f_next ≢ 0
      → Follows mem loads queue_size
          (n + 1)
          (seen || (buf_of (loads.desc n index)).is_write)
          (loads.desc n index).next
          bs
      → Follows mem loads queue_size n seen index (buf_of (loads.desc n index) ∷ bs)

through :
    (bad wraps mapped end : Bool) (r1 r2 r3 r4 r5 : Round)
    → bad ≡ false
    → wraps ≡ false
    → mapped ≡ true
    → (if bad then r1 else if wraps then r2 else if not mapped then r3 else if end then r4 else r5)
      ≡ (if end then r4 else r5)
through bad wraps mapped end r1 r2 r3 r4 r5 a b c = rw (a, b, c)

in_order :
    (odd : ℕ) (seen write : Bool)
    → odd ≡ 0
    → (seen ≡ true → write ≡ true)
    → (odd != 0) || (seen && not write) ≡ false
in_order odd seen write e o = ground (arith, o)

no_wrap :
    (addr sum len : ℕ)
    → addr + len < 2 ^ 64
    → sum + len < 2 ^ 64
    → ltb (u64_max - addr) len || ltb (u64_max - sum) len ≡ false
no_wrap addr sum len h k = ground arith

within :
    (a b : Bool) (r1 r2 r3 : Round)
    → a ≡ false
    → b ≡ false
    → (if a then r1 else if b then r2 else r3) ≡ r3
within a b r1 r2 r3 e f = rw (e, f)

neq : (k : ℕ) → k ≢ 0 → (k == 0) ≡ false
neq k h = ground (arith, h)

module _ (mem : MemSpace) (v : IsValid mem) (loads : Loads) (queue_size : ℕ) where
  -- The totals after these buffers are words.
  abbrev Totals : VirtqueueChain → List VirtqueueBuf → Type 0
  Totals c bs = (c.readable + bytes false bs < 2 ^ 64) × (c.writable + bytes true bs < 2 ^ 64)

  abbrev ends : VirtqueueChain → Bool → VringDesc → Round
  ends c seen d =
      if bit_and d.flags desc_f_next == 0
      then done (add_buf c (buf_of d))
      else next (add_buf c (buf_of d)) (seen || (buf_of d).is_write) d.next

  round-good :
      (c : VirtqueueChain) (seen : Bool) (index : ℕ)
      → index < queue_size
      → length c.bufs < queue_size
      → IsGood mem seen (loads.desc (length c.bufs) index)
      → total c (buf_of (loads.desc (length c.bufs) index)).is_write
          + (loads.desc (length c.bufs) index).len
        < 2 ^ 64
      → round mem loads queue_size c seen index ≡ ends c seen (loads.desc (length c.bufs) index)
  unfolding round take_desc
  round-good c seen index inside room good word =
      let d = loads.desc (length c.bufs) index in
      let b = buf_of d in
      let mapped = (is_mapped-exact mem v b.is_write b.gpa b.len good.usable.0).1 good.usable.1 in
      let past : leb queue_size index ≡ false = ground arith in
      let free : (length c.bufs == queue_size) ≡ false = ground arith in
      within (leb queue_size index) (length c.bufs == queue_size) _ _ _ past free
      ∙ through (bit_and d.flags 0xfffc != 0 || (seen && not b.is_write))
          (ltb (u64_max - d.addr) d.len || ltb (u64_max - total c b.is_write) d.len)
          (is_mapped mem d.len d.addr d.len b.is_write) (bit_and d.flags desc_f_next == 0) _ _ _ _ _
          (in_order (bit_and d.flags 0xfffc) seen b.is_write good.flags good.order)
          (no_wrap d.addr (total c b.is_write) d.len good.usable.0 word) mapped

  grown :
      (c : VirtqueueChain) (b : VirtqueueBuf) (bs : List VirtqueueBuf)
      → Totals c (b ∷ bs)
      → Totals (add_buf c b) bs × (total c b.is_write + b.len < 2 ^ 64)
  grown c b bs (r, w) = ground arith

  round-at :
      (c : VirtqueueChain) (seen : Bool) (index n : ℕ)
      → n ≡ length c.bufs
      → index < queue_size
      → length c.bufs < queue_size
      → IsGood mem seen (loads.desc n index)
      → total c (buf_of (loads.desc n index)).is_write + (loads.desc n index).len < 2 ^ 64
      → round mem loads queue_size c seen index ≡ ends c seen (loads.desc n index)
  round-at c seen index n at inside room =
      subst
        (λ k.
          IsGood mem seen (loads.desc k index)
          → total c (buf_of (loads.desc k index)).is_write + (loads.desc k index).len < 2 ^ 64
          → round mem loads queue_size c seen index ≡ ends c seen (loads.desc k index))
        (sym at) (round-good c seen index inside room)

  walk-done :
      (fuel : ℕ) (c c' : VirtqueueChain) (seen : Bool) (index : ℕ)
      → round mem loads queue_size c seen index ≡ done c'
      → walk mem loads (suc fuel) queue_size c seen index ≡ some (c', 0)
  unfolding walk
  walk-done fuel c c' seen index e = rw (e, walk)

  walk-next :
      (fuel : ℕ) (c c' : VirtqueueChain) (seen seen' : Bool) (index index' : ℕ)
      → round mem loads queue_size c seen index ≡ next c' seen' index'
      → walk mem loads (suc fuel) queue_size c seen index
        ≡ walk mem loads fuel queue_size c' seen' index'
  unfolding walk
  walk-next fuel c c' seen seen' index index' e = rw (e, walk)

  ends-done :
      (c : VirtqueueChain) (seen : Bool) (d : VringDesc)
      → bit_and d.flags desc_f_next ≡ 0
      → ends c seen d ≡ done (add_buf c (buf_of d))
  ends-done c seen d e = rw e

  ends-next :
      (c : VirtqueueChain) (seen : Bool) (d : VringDesc)
      → bit_and d.flags desc_f_next ≢ 0
      → ends c seen d ≡ next (add_buf c (buf_of d)) (seen || (buf_of d).is_write) d.next
  ends-next c seen d e = rw (neq (bit_and d.flags desc_f_next) e)

  walk-Follows :
      (fuel : ℕ) (c : VirtqueueChain) (seen : Bool) (index n : ℕ) (bs : List VirtqueueBuf)
      → n ≡ length c.bufs
      → Follows mem loads queue_size n seen index bs
      → length c.bufs + length bs ≤ queue_size
      → length bs ≤ fuel
      → Totals c bs
      → (c' : VirtqueueChain) × (walk mem loads fuel queue_size c seen index ≡ some (c', 0))
        × (c'.bufs ≡ c.bufs ++ bs)
        × (c'.head ≡ c.head)
  walk-Follows zero c seen index n bs at (last _ _ _ inside good stop) room enough words =
      absurd (omega arith)
  walk-Follows zero c seen index n bs at (more _ _ _ bs' inside good go rest) room enough words =
      absurd (omega arith)
  walk-Follows (suc fuel) c seen index n bs at (last _ _ _ inside good stop) room enough words =
      let d = loads.desc n index in
      let (_, word) = grown c (buf_of d) [] words in
      (
        add_buf c (buf_of d),
        walk-done fuel c _ seen index
            (round-at c seen index n at inside (omega arith) good word ∙ ends-done c seen d stop),
        add_buf-bufs c (buf_of d),
        add_buf-head c (buf_of d),
      )
  walk-Follows (suc fuel) c seen index n bs at (more _ _ _ bs' inside good go rest) room enough
        words =
      let d = loads.desc n index in
      let b = buf_of d in
      let (words', word) = grown c b bs' words in
      let len : length (add_buf c b).bufs ≡ length c.bufs + 1 =
        ap length (add_buf-bufs c b) ∙ length-append c.bufs (b ∷ []) in
      let (c', e, bufs, head) =
        walk-Follows fuel (add_buf c b) (seen || b.is_write) d.next (n + 1) bs' (omega arith) rest
          (omega arith) (omega arith) words' in
      (
        c',
        walk-next fuel c _ seen _ index _
              (round-at c seen index n at inside (omega arith) good word ∙ ends-next c seen d go)
            ∙ e,
        bufs ∙ ap (λ t. t ++ bs') (add_buf-bufs c b) ∙ append_assoc c.bufs (b ∷ []) bs',
        head ∙ add_buf-head c b,
      )

-- Liveness: from an enabled queue that is not broken, with no more than `queue_size` chains
-- available and at least one, a chain of at most `queue_size` descriptors in order, whose totals are
-- words, is popped as it stands.
pub pop-Follows :
    (mem : MemSpace) (loads : Loads) (vq : Virtqueue) (bs : List VirtqueueBuf)
    → IsValid mem
    → vq.enabled ≡ true
    → vq.broken ≡ false
    → loads.avail_idx ≢ vq.last_avail_idx
    → (loads.avail_idx + 65536 - vq.last_avail_idx) % 65536 ≤ vq.queue_size
    → Follows mem loads vq.queue_size 0 false
        (loads.avail_ring (vq.last_avail_idx % vq.queue_size))
        bs
    → length bs ≤ vq.queue_size
    → bytes false bs < 2 ^ 64
    → bytes true bs < 2 ^ 64
    → (c : VirtqueueChain) × (pop mem loads vq
        ≡ some (record vq { last_avail_idx = (vq.last_avail_idx + 1) % 65536 }, c, popped))
      × (c.bufs ≡ bs)
unfolding pop pop_chain
pop-Follows mem loads vq bs v on sane avail near f short r w =
    let head = loads.avail_ring (vq.last_avail_idx % vq.queue_size) in
    let start = record empty_chain { head = head } in
    let (c, e, bufs, _) =
      walk-Follows mem v loads vq.queue_size (vq.queue_size + 1) start false head 0 bs refl f
        (omega arith) (omega arith) (omega arith, omega arith) in
    (c, ground (arith, e), bufs)
