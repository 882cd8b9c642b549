-- ===== src/VirtioBlk/Answered.antt =====
-- A popped chain from the request to the used ring: the branch with no byte for the status fails the
-- device, and the others give the chain back.
use modvm.Prelude.{
  ℕ, ◌+◌, ◌-◌, ◌%◌, ◌^◌, ◌≤◌, ◌<◌, ◌≡◌, ap, ◌∙◌, ◌⊎◌, inl, inr, refl, Bool-cases, Bool, true, false,
  List, Option, some, arith, ◌==◌,
}
use modvm.Memory.{MemSpace}
use modvm.Memory.Translate.{IsValid}
use modvm.Virtqueue.{Virtqueue, push}
use modvm.Virtqueue.Pop.{VirtqueueChain}
use modvm.Virtqueue.Pop.Chain.{IsChain}
use modvm.Virtqueue.Copy.{copy}
use modvm.Virtqueue.Copy.Transfer.{Copies, copy_total}
use modvm.VirtioBlk.{Backend, Response, serve, complete, completed, total_of}
use modvm.VirtioBlk.Kick.{Request, Kick, kick_ends, with_done, give_back, chain_ends, serve_chain}
use modvm.VirtioBlk.Serve.{Served}
use modvm.VirtioBlk.Requests.{serve-Answers}

module _ (mem : MemSpace) (c : VirtqueueChain) where
  -- The status is the last byte that the chain has for the device.
  abbrev pub HasStatus : Type 0
  HasStatus =
      (pieces : List (ℕ × ℕ)) × (copy mem c true (c.writable - 1) 1 ≡ some (pieces, 0))
      × Copies mem c.bufs true (c.writable - 1) 1 pieces

  status_fits : (seen : Bool) → IsValid mem → IsChain mem c seen → 0 < c.writable → HasStatus
  status_fits seen v chain pos = elim (copy_total mem c seen true (c.writable - 1) 1 v chain) [
    | inl (le, pieces, e, copies) ↦ (pieces, e, copies)
    | inr (out, e) ↦ absurd (omega arith)
  ]

  complete_pushes :
      (blk : Backend) (vq : Virtqueue) (r : Response)
      → HasStatus
      → r.written + 1 < 2 ^ 32
      → complete mem blk vq c r
        ≡ some (
            some (
              (push vq c.head (r.written + 1)).0,
              (push vq c.head (r.written + 1)).1,
              r.written + 1,
            ))
  unfolding complete
  complete_pushes blk vq r (pieces, e, copies) small =
      let whole : (r.written + 1) % 2 ^ 32 ≡ r.written + 1 = omega arith in
      ap (completed mem blk vq c ((r.written + 1) % 2 ^ 32)) e
      ∙ ap (λ n. completed mem blk vq c n (some (pieces, 0))) whole

module _ (mem : MemSpace) (q : Request) (c : VirtqueueChain) (vq : Virtqueue)
    (rest : Virtqueue → Option Kick) where
  abbrev pub given_back : Response → Option Kick
  given_back r =
      with_done
        (record {
          chain = c;
          response = r;
          length = r.written + 1;
          stores = (push vq c.head (r.written + 1)).1;
        })
        (rest (push vq c.head (r.written + 1)).0)

  chain_served :
      (r : Response)
      → 0 < c.writable
      → serve mem q.blk c q.hdr ≡ some r
      → complete mem q.blk vq c r
        ≡ some (
            some (
              (push vq c.head (r.written + 1)).0,
              (push vq c.head (r.written + 1)).1,
              r.written + 1,
            ))
      → serve_chain mem q c vq rest ≡ given_back r
  unfolding serve_chain
  chain_served r pos e done =
      let used : (c.writable == 0) ≡ false = ground arith in
      rw (used, serve_chain)
        (ap (chain_ends mem q c vq rest) e ∙ ap (λ d. give_back mem c r vq d rest) done)

  -- How a chain that was popped ends: the device has failed, and nothing else has happened, for want
  -- of a byte for the status; or the chain was served and given back.
  abbrev pub Ends : Type 0
  Ends =
      ((c.writable ≡ 0) × (serve_chain mem q c vq rest ≡ kick_ends vq true))
      ⊎ ((r : Response) × (0 < c.writable)
          × (serve_chain mem q c vq rest ≡ given_back r)
          × Served mem q.blk c q.hdr r
          × HasStatus mem c)

  unanswered : c.writable ≡ 0 → serve_chain mem q c vq rest ≡ kick_ends vq true
  unfolding serve_chain
  unanswered e =
      let unused : (c.writable == 0) ≡ true = ground arith in rw (unused, serve_chain) refl

  -- A chain that `virtqueue_pop` returned, on a medium below 2^64 bytes and with a backend that moves
  -- no more than the rest of the request. With no writable byte, so with no place for the status, it
  -- is not answered: the device fails and the loop ends. With one it is served and given back,
  -- whatever its header holds. The calls of the backend then follow each other from the header's
  -- sector on, each on the chain's own bytes at its place and none beyond the capacity; there is no
  -- write to a read-only medium; a successful transfer moves the whole request; the length that is
  -- given back counts the status, does not wrap and fits the chain's writable bytes; and the status
  -- goes to the last of them.
  pub serve_chain-Served :
      (seen : Bool)
      → IsValid mem
      → IsChain mem c seen
      → q.blk.capacity < 2 ^ 64
      → ((d k : ℕ) → q.blk.transfer d ≡ some k → d + k ≤ total_of c q.hdr)
      → Ends
  serve_chain-Served seen v chain cap honest = elim (Bool-cases (c.writable == 0)) [
    | inl none_left ↦ let e : c.writable ≡ 0 = ground arith in inl (e, unanswered e)
    | inr some_left ↦
        let pos : 0 < c.writable = ground arith in
        let (r, e, served) = serve-Answers mem q.blk c q.hdr seen v chain pos cap honest in
        let last = status_fits mem c seen v chain pos in
        inr (
          r,
          pos,
          chain_served r pos e (complete_pushes mem c q.blk vq r last served.small),
          served,
          last,
        )
  ]
