-- ===== src/Virtqueue/Pop/Outcome.antt =====
-- `virtqueue_pop` comes to an end on any memory, and what it then has returned.
use modvm.Prelude.{
  ℕ, zero, suc, ◌+◌, ◌-◌, ◌%◌, ◌^◌, ◌≤◌, ◌<◌, ◌≡◌, ◌≢◌, refl, ◌⊎◌, inl, inr, Bool, true, false,
  ◌||◌, Option, some, [], ◌∷◌, length, length-append, arith, ap, ◌∙◌, subst, Bool-cases, leb, ltb,
  ◌==◌, if◌then◌else◌,
}
use modvm.Prelude.Errno.{efault, eio}
use native.Mathlib.Decide.{ℕ_discrete}
use modvm.Memory.{MemSpace}
use modvm.Memory.Translate.{IsValid}
use modvm.Virtqueue.{Virtqueue}
use modvm.Virtqueue.Pop.{
  VirtqueueBuf, VirtqueueChain, Loads, Round, done, failed, next, add_buf, round, walk, Popped,
  nothing, popped, error, pop_chain, pop, empty_chain,
}
use modvm.Virtqueue.Pop.Mapped.{is_mapped-exact}
use modvm.Virtqueue.Pop.Chain.{IsChain, IsChain-add, take_desc_cases, add_buf-bufs, add_buf-head}

-- A chain as the device receives it: well formed, not empty, no longer than the queue, and with the
-- head that was given.
pub record Complete (mem : MemSpace) (queue_size first : ℕ) (c : VirtqueueChain) : Type 0 where
  pub seen : Bool
  pub chain : IsChain mem c seen
  pub short : length c.bufs ≤ queue_size
  pub some_buf : 0 < length c.bufs
  pub head : c.head ≡ first

module _ (mem : MemSpace) (v : IsValid mem) (loads : Loads)
    (words : (n i : ℕ) → (loads.desc n i).addr < 2 ^ 64) where
  -- What a round leaves.
  abbrev After : ℕ → VirtqueueChain → Round → Type 0
  After queue_size c (done c') = Complete mem queue_size c.head c'
  After queue_size c (failed c' e) = e ≢ 0
  After queue_size c (next c' seen index) =
      IsChain mem c' seen
      × (length c'.bufs ≡ length c.bufs + 1)
      × (length c'.bufs ≤ queue_size)
      × (c'.head ≡ c.head)

  guarded :
      (P : Round → Type 0) (a b : Bool) (r1 r2 r3 : Round)
      → P r1
      → P r2
      → (b ≡ false → P r3)
      → P (if a then r1 else if b then r2 else r3)
  guarded P true b r1 r2 r3 p1 p2 p3 = p1
  guarded P false true r1 r2 r3 p1 p2 p3 = p2
  guarded P false false r1 r2 r3 p1 p2 p3 = p3 refl

  length-add_buf :
      (c : VirtqueueChain) (b : VirtqueueBuf) → length (add_buf c b).bufs ≡ length c.bufs + 1
  length-add_buf c b = ap length (add_buf-bufs c b) ∙ length-append c.bufs (b ∷ [])

  round-After :
      (queue_size : ℕ) (c : VirtqueueChain) (seen : Bool) (index : ℕ)
      → IsChain mem c seen
      → length c.bufs ≤ queue_size
      → After queue_size c (round mem loads queue_size c seen index)
  unfolding round
  round-After queue_size c seen index chain short =
      guarded (After queue_size c) (leb queue_size index) (length c.bufs == queue_size) _ _ _
        (omega arith) (omega arith)
        λ room.
          take_desc_cases (After queue_size c) mem c seen (loads.desc (length c.bufs) index)
            (λ c' e ne. ne)
            (λ b fits mapped ordered.
              let usable = (is_mapped-exact mem v b.is_write b.gpa b.len fits).0 mapped in
              let grown = IsChain-add mem c seen b chain (fits, usable) ordered in
              let len = length-add_buf c b in
              let lt : length c.bufs < queue_size = ground arith in
              (
                record {
                  seen = seen || b.is_write;
                  chain = grown;
                  short = omega arith;
                  some_buf = omega arith;
                  head = add_buf-head c b;
                },
                (grown, len, omega arith, add_buf-head c b),
              ))
            (words (length c.bufs) index)

  -- How the loop ends.
  abbrev Walked : ℕ → VirtqueueChain → Option (VirtqueueChain × ℕ) → Type 0
  Walked queue_size c r =
      (c' : VirtqueueChain) × (ret : ℕ) × (r ≡ some (c', ret))
      × (ret ≡ 0 → Complete mem queue_size c.head c')

  walk_round :
      (fuel queue_size : ℕ) (c : VirtqueueChain) (r : Round)
      → After queue_size c r
      → ((c' : VirtqueueChain) (seen : Bool) (index : ℕ)
          → IsChain mem c' seen
          → length c'.bufs ≡ length c.bufs + 1
          → length c'.bufs ≤ queue_size
          → Walked queue_size c' (walk mem loads fuel queue_size c' seen index))
      → Walked queue_size c (elim r [
        | done c' ↦ some (c', 0)
        | failed c' e ↦ some (c', e)
        | next c' seen index ↦ walk mem loads fuel queue_size c' seen index
      ])
  walk_round fuel queue_size c (done c') a ih = (c', 0, refl, λ _. a)
  walk_round fuel queue_size c (failed c' e) a ih = (c', e, refl, λ z. absurd (a z))
  walk_round fuel queue_size c (next c' seen index) (chain, len, short, same) ih =
      let (d, ret, e, complete) = ih c' seen index chain len short in
      (d, ret, e, λ z. subst (λ h. Complete mem queue_size h d) same (complete z))

  -- The loop, with fuel for the buffers that may still come.
  walk-Complete :
      (fuel queue_size : ℕ) (c : VirtqueueChain) (seen : Bool) (index : ℕ)
      → IsChain mem c seen
      → length c.bufs ≤ queue_size
      → queue_size < fuel + length c.bufs
      → Walked queue_size c (walk mem loads fuel queue_size c seen index)
  unfolding walk
  walk-Complete zero queue_size c seen index chain short enough = absurd (omega arith)
  walk-Complete (suc n) queue_size c seen index chain short enough =
      walk_round n queue_size c (round mem loads queue_size c seen index)
        (round-After queue_size c seen index chain short)
        λ c' seen' index' chain' len short'.
          walk-Complete n queue_size c' seen' index' chain' short' (omega arith)

  -- The outcomes of a pop.
  abbrev pub Outcome : Virtqueue → Option (Virtqueue × VirtqueueChain × Popped) → Type 0
  Outcome vq r =
      (r ≡ some (vq, empty_chain, nothing))
      ⊎ ((r ≡ some (vq, empty_chain, error eio)) × (vq.broken ≡ true))
      ⊎ ((c : VirtqueueChain) × (e : ℕ) × (r ≡ some (record vq { broken = true }, c, error e))
          × (e ≢ 0))
      ⊎ ((c : VirtqueueChain) × (r
            ≡ some (record vq { last_avail_idx = (vq.last_avail_idx + 1) % 65536 }, c, popped))
          × Complete mem vq.queue_size (loads.avail_ring (vq.last_avail_idx % vq.queue_size)) c)

  -- Whatever the guest's memory holds and however it changes while it is read, a pop comes to an
  -- end: it finds nothing, or the queue is broken, or it breaks the queue and reports an error, or
  -- it steps the index, modulo 2 ^ 16, and returns a complete chain. A chain has the head from the
  -- available ring and from one to `queue_size` buffers, those to read before those to write; no
  -- buffer wraps, each byte of each is in RAM, writable where the device is to write, and
  -- `readable` and `writable` are the sums of the lengths.
  pub pop-Outcome : (vq : Virtqueue) → Outcome vq (pop mem loads vq)
  unfolding pop pop_chain
  pop-Outcome vq =
      let head = loads.avail_ring (vq.last_avail_idx % vq.queue_size) in
      let start = record empty_chain { head = head } in
      let fresh : IsChain mem start false = record {
        usable = tt;
        readable = refl;
        writable = refl;
        order = ([], [], refl, tt, tt, λ _. refl);
      } in
      let (c, ret, e, complete) =
        walk-Complete (vq.queue_size + 1) vq.queue_size start false head fresh (omega arith)
          (omega arith) in
      let far = ltb vq.queue_size ((loads.avail_idx + 65536 - vq.last_avail_idx) % 65536) in
      elim (Bool-cases vq.enabled) [
        | inr off ↦ inl (ground arith)
        | inl on ↦ elim (Bool-cases vq.broken) [
          | inl broken ↦ inr (inl (ground arith, broken))
          | inr sane ↦ elim (Bool-cases (loads.avail_idx == vq.last_avail_idx)) [
            | inl idle ↦ inl (ground arith)
            | inr more ↦ elim (Bool-cases far) [
              | inl bad ↦ inr (inr (inl (empty_chain, efault, ground arith, omega arith)))
              | inr near ↦ elim (ℕ_discrete ret 0) [
                | yes ok ↦ inr (inr (inr (c, ground (arith, e), complete ok)))
                | no err ↦ inr (inr (inl (c, ret, ground (arith, e), err)))
              ]
            ]
          ]
        ]
      ]
