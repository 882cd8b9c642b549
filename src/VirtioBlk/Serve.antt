-- ===== src/VirtioBlk/Serve.antt =====
-- A request on a chain as `virtqueue_pop` returns it: what reaches the backend, and the answer.
use modvm.Prelude.Words.{u64_max}
use modvm.Prelude.{
  ◌/◌, ℕ, ◌+◌, ◌-◌, ◌*◌, ◌%◌, ◌^◌, ◌≤◌, ◌<◌, ◌≡◌, ◌≢◌, refl, ap, sym, subst, ◌⊎◌, inl, inr, Bool,
  true, false, ◌&&◌, ◌||◌, not, List, [], Option, some, arith, ltb, ◌!=◌, Bool-cases,
}
use modvm.Memory.{MemSpace}
use modvm.Memory.Translate.{IsValid}
use modvm.Virtqueue.Pop.{VirtqueueChain}
use modvm.Virtqueue.Pop.Chain.{IsChain, bytes}
use modvm.VirtioBlk.{
  OutHdr, Backend, Call, Response, answer, moved, transfer, transfer_loop, is_input, total_of,
  sector_size, type_in, type_out, status_ok, status_ioerr,
}
use modvm.VirtioBlk.Transfer.{Moves, call_sum, base, loop-Ends}

-- What the request reaches: the calls of the backend follow each other from the sector of the
-- header on, within the medium, and write only where that is allowed; the count of bytes written
-- leaves room for the status.
pub record Served (mem : MemSpace) (blk : Backend) (c : VirtqueueChain) (hdr : OutHdr)
    (r : Response) : Type 0 where
  pub moves : Moves mem c.bufs (is_input hdr) (hdr.sector * sector_size) 0 r.calls
  pub within : r.calls ≢ [] → hdr.sector * sector_size + call_sum r.calls ≤ blk.capacity
  pub allowed : r.calls ≢ [] → is_input hdr ≡ false → blk.readonly ≡ false
  pub room : r.written + 1 ≤ c.writable
  pub small : r.written + 1 < 2 ^ 32
  pub whole :
      r.status ≡ status_ok
      → (hdr.type ≡ type_in) ⊎ (hdr.type ≡ type_out)
      → call_sum r.calls ≡ total_of c hdr

module _ (mem : MemSpace) (blk : Backend) (c : VirtqueueChain) (hdr : OutHdr) where
  -- A response, whatever the request is, that calls nothing and writes nothing.
  pub plain-Served :
      (r : Response)
      → 0 < c.writable
      → r.calls ≡ []
      → r.written ≡ 0
      → (r.status ≡ status_ok → (hdr.type ≡ type_in) ⊎ (hdr.type ≡ type_out) → ⊥)
      → Served mem blk c hdr r
  plain-Served r pos e w not_ok = record {
    moves = subst (Moves mem c.bufs (is_input hdr) (hdr.sector * sector_size) 0) (sym e) tt;
    within = λ n. absurd (n e);
    allowed = λ n. absurd (n e);
    room = omega arith;
    small = omega arith;
    whole = λ ok t. absurd (not_ok ok t);
  }

  abbrev pub Answers : Option Response → Type 0
  Answers o = (r : Response) × (o ≡ some r) × Served mem blk c hdr r

  pub failed-Answers : 0 < c.writable → Answers (some (answer status_ioerr))
  failed-Answers pos = (
    answer status_ioerr,
    refl,
    plain-Served (answer status_ioerr) pos refl refl (λ e t. (omega arith)),
  )

  abbrev far : Bool
  far =
      let offset = hdr.sector * sector_size in
      ltb blk.capacity offset
      || (ltb (blk.capacity - offset) (total_of c hdr) || (not (is_input hdr) && blk.readonly))

  abbrev odd : Bool
  odd = ltb (u64_max / sector_size) hdr.sector || total_of c hdr % sector_size != 0

  transfer_odd :
      odd ≡ true
      → transfer mem blk c hdr (is_input hdr) (total_of c hdr) ≡ some (answer status_ioerr)
  unfolding transfer
  transfer_odd e = rw (e, transfer) refl

  transfer_far :
      odd ≡ false
      → far ≡ true
      → transfer mem blk c hdr (is_input hdr) (total_of c hdr) ≡ some (answer status_ioerr)
  unfolding transfer
  transfer_far e f = rw (e, transfer) (rw (f, transfer) refl)

  abbrev loop : Option (List Call × ℕ × ℕ)
  loop =
      transfer_loop mem blk (total_of c hdr) c.bufs (is_input hdr) (hdr.sector * sector_size)
        (total_of c hdr) 0 0

  transfer_near :
      odd ≡ false
      → far ≡ false
      → transfer mem blk c hdr (is_input hdr) (total_of c hdr) ≡ moved mem blk loop
  unfolding transfer
  transfer_near e f = rw (e, transfer) (rw (f, transfer) refl)

  no_write : (a b p q : Bool) → a || (b || (not p && q)) ≡ false → p ≡ false → q ≡ false
  no_write a b p q e f = ground arith

  near-in : far ≡ false → hdr.sector * sector_size + total_of c hdr ≤ blk.capacity
  near-in f = ground arith

  fits_status :
      (count : ℕ) (input : Bool)
      → 0 < c.writable
      → (input ≡ true → total_of c hdr + 1 ≤ c.writable)
      → count ≤ total_of c hdr
      → (input ≡ false → count ≡ 0)
      → count + 1 ≤ c.writable
  fits_status count input pos fits le none_read = elim (Bool-cases input) [
    | inl i ↦ omega (arith, fits i)
    | inr i ↦ omega (arith, none_read i)
  ]

  -- The two transfers.
  pub transfer-Answers :
      (seen : Bool)
      → IsValid mem
      → IsChain mem c seen
      → 0 < c.writable
      → blk.capacity < 2 ^ 64
      → ((d k : ℕ) → blk.transfer d ≡ some k → d + k ≤ total_of c hdr)
      → total_of c hdr + base (is_input hdr) ≤ bytes (is_input hdr) c.bufs
      → (is_input hdr ≡ true → total_of c hdr + 1 ≤ c.writable)
      → total_of c hdr < 2 ^ 32 - 1
      → Answers (transfer mem blk c hdr (is_input hdr) (total_of c hdr))
  transfer-Answers seen v chain pos cap honest room fits small = elim (Bool-cases odd) [
    | inl e ↦ subst Answers (sym (transfer_odd e)) (failed-Answers pos)
    | inr e ↦ elim (Bool-cases far) [
      | inl f ↦ subst Answers (sym (transfer_far e f)) (failed-Answers pos)
      | inr f ↦
          let inside = near-in f in
          let r =
            loop-Ends mem blk c.bufs (is_input hdr) (hdr.sector * sector_size) (total_of c hdr) v
              chain.usable room (omega arith) (omega arith) honest (total_of c hdr) 0 0
              (omega arith) (omega arith) (omega arith) in
          subst Answers (sym (transfer_near e f)) (
            record (answer r.status) { calls = r.calls; written = r.count },
            ap (moved mem blk) r.returns,
            record {
              moves = r.moves;
              within = λ n. omega (arith, r.within);
              allowed = λ n i. no_write _ _ (is_input hdr) blk.readonly f i;
              room =
                  fits_status r.count (is_input hdr) pos (λ i. fits i) (omega (arith, r.few))
                    r.unread;
              small = omega (arith, r.few);
              whole = λ ok t. elim r.outcome [
                | inl (k, sum, exact) ↦ omega arith
                | inr bad ↦ absurd (omega arith)
              ];
            },
          )
    ]
  ]
