-- ===== src/VirtioBlk/Transfer.antt =====
-- The loop over the chunks of a request: what it hands to the backend, and when it ends.
use modvm.Prelude.{
  ℕ, zero, suc, ◌+◌, ◌-◌, ◌%◌, ◌^◌, ◌≤◌, ◌<◌, ◌≡◌, refl, ap, sym, subst, ◌∙◌, ◌⊎◌, inl, inr, Bool,
  true, false, List, [], ◌∷◌, Option, none, some, All, arith, leb, leb→le, ==_iff, Bool-cases,
  if◌then◌else◌,
}
use modvm.Memory.{MemSpace}
use modvm.Memory.Translate.{IsValid}
use modvm.Virtqueue.Pop.{VirtqueueBuf}
use modvm.Virtqueue.Pop.Chain.{BufUsable, bytes}
use modvm.Virtqueue.Copy.{map_at, smaller}
use modvm.Virtqueue.Copy.Exact.{Stands, map_at-Chunk}
use modvm.VirtioBlk.{
  Backend, Call, call_at, add_written, is_count, with_call, transfer_chunk, transfer_loop, hdr_size,
  status_ok, status_ioerr,
}

-- The place in the chain where the data begins.
abbrev pub base : Bool → ℕ
base input = if input then 0 else hdr_size

-- Calls that follow each other from byte `done` of a request, each with a buffer that holds the
-- bytes of the chain at its place.
abbrev pub Moves : MemSpace → List VirtqueueBuf → Bool → ℕ → ℕ → List Call → Type 0
Moves mem bufs input offset done [] = Unit
Moves mem bufs input offset done (c ∷ cs) =
    (c.input ≡ input)
    × (c.offset ≡ offset + done)
    × (0 < c.count)
    × ((i : ℕ) → i < c.count → Stands mem bufs input (done + base input + i) (c.hva + i))
    × Moves mem bufs input offset (done + c.count) cs

abbrev pub call_sum : List Call → ℕ
call_sum [] = 0
call_sum (c ∷ cs) = c.count + call_sum cs

module _ (mem : MemSpace) (blk : Backend) (bufs : List VirtqueueBuf) (input : Bool)
    (offset total : ℕ) where
  -- How the loop ends from byte `done` on, with `written` counted so far.
  pub record Ends (done written : ℕ) (r : Option (List Call × ℕ × ℕ)) : Type 0 where
    pub calls : List Call
    pub count : ℕ
    pub status : ℕ
    pub returns : r ≡ some (calls, count, status)
    pub moves : Moves mem bufs input offset done calls
    pub within : done + call_sum calls ≤ total
    pub few : count + done ≤ written + total
    pub unread : input ≡ false → count ≡ written
    pub outcome :
        ((status ≡ status_ok)
          × (done + call_sum calls ≡ total)
          × (input ≡ true → count + done ≡ written + total))
        ⊎ (status ≡ status_ioerr)

  loop_done :
      (fuel done written : ℕ)
      → leb total done ≡ true
      → transfer_loop mem blk fuel bufs input offset total done written
        ≡ some ([], written, status_ok)
  unfolding transfer_loop
  loop_done zero done written e = rw (e, transfer_loop) refl
  loop_done (suc fuel) done written e = rw (e, transfer_loop) refl

  abbrev later : ℕ → ℕ → ℕ → ℕ → Option (List Call × ℕ × ℕ)
  later fuel done written chunk =
      transfer_loop mem blk fuel bufs input offset total (done + chunk)
        (add_written input written (blk.transfer done))

  loop_step :
      (fuel done written h n : ℕ)
      → leb total done ≡ false
      → map_at mem bufs input (done + base input) ≡ (some h, n)
      → transfer_loop mem blk (suc fuel) bufs input offset total done written
        ≡ transfer_chunk mem blk input offset
            (smaller (total - done) n)
            (some h, n)
            done
            written
            (later fuel done written (smaller (total - done) n))
  unfolding transfer_loop
  loop_step fuel done written h n e at =
      rw (e, transfer_loop)
        (ap
          (λ p.
            transfer_chunk mem blk input offset (smaller (total - done) p.1) p done written
              (later fuel done written (smaller (total - done) p.1)))
          at)

  chunk_moved :
      (chunk done written h n : ℕ) (rest : Option (List Call × ℕ × ℕ))
      → 0 < n
      → is_count chunk (blk.transfer done) ≡ true
      → transfer_chunk mem blk input offset chunk (some h, n) done written rest
        ≡ with_call (call_at input ((offset + done) % 2 ^ 64) h chunk) rest
  unfolding transfer_chunk
  chunk_moved chunk done written h n rest pos e = ground arith

  chunk_short :
      (chunk done written h n : ℕ) (rest : Option (List Call × ℕ × ℕ))
      → 0 < n
      → is_count chunk (blk.transfer done) ≡ false
      → transfer_chunk mem blk input offset chunk (some h, n) done written rest
        ≡ some (
          call_at input ((offset + done) % 2 ^ 64) h chunk ∷ [],
          add_written input written (blk.transfer done),
          status_ioerr,
        )
  unfolding transfer_chunk
  chunk_short chunk done written h n rest pos e = ground arith

  -- `written` counts no more than the backend returned.
  add_written-le :
      (written done most : ℕ) (n : Option ℕ)
      → ((k : ℕ) → n ≡ some k → k ≤ most)
      → add_written input written n ≤ written + most
  add_written-le written done most none h = omega arith
  add_written-le written done most (some k) h = elim (Bool-cases input) [
    | inl e ↦ rw e (omega (arith, h k refl))
    | inr e ↦ rw e (omega arith)
  ]

  add_written_all :
      (written chunk : ℕ) (n : Option ℕ)
      → is_count chunk n ≡ true
      → written + chunk < 2 ^ 32
      → input ≡ true
      → add_written input written n ≡ written + chunk
  add_written_all written chunk none e small i = absurd (cc)
  add_written_all written chunk (some k) e small i =
      let same : k ≡ chunk = (==_iff k chunk).0 e in rw i (omega arith)

  add_written_none :
      (written : ℕ) (n : Option ℕ) → input ≡ false → add_written input written n ≡ written
  add_written_none written none i = refl
  add_written_none written (some k) i = rw i refl

  is_count-some :
      (chunk : ℕ) (n : Option ℕ) → is_count chunk n ≡ true → (k : ℕ) → n ≡ some k → k ≤ chunk
  is_count-some chunk none e k h = absurd (cc)
  is_count-some chunk (some m) e k h =
      let same : m ≡ chunk = (==_iff m chunk).0 e in let this : m ≡ k = cc in omega arith

  module _ (v : IsValid mem) (usable : All (BufUsable mem) bufs)
      (room : total + base input ≤ bytes input bufs) (no_wrap : offset + total < 2 ^ 64)
      (few_bytes : total < 2 ^ 32)
      (honest : (d k : ℕ) → blk.transfer d ≡ some k → d + k ≤ total) where
    -- A round whose chunk is moved as a whole, before the others.
    moved-Ends :
        (done written h n chunk : ℕ) (rest : Option (List Call × ℕ × ℕ))
        → written ≤ done
        → 0 < n
        → 0 < chunk
        → done + chunk ≤ total
        → ((i : ℕ) → i < chunk → Stands mem bufs input (done + base input + i) (h + i))
        → is_count chunk (blk.transfer done) ≡ true
        → Ends (done + chunk) (add_written input written (blk.transfer done)) rest
        → Ends done written
            (transfer_chunk mem blk input offset chunk (some h, n) done written rest)
    moved-Ends done written h n chunk rest le pos some_byte fits stands all r =
        let more =
          add_written-le written done chunk (blk.transfer done)
            (is_count-some chunk (blk.transfer done) all) in
        record {
          calls = call_at input ((offset + done) % 2 ^ 64) h chunk ∷ r.calls;
          count = r.count;
          status = r.status;
          returns =
              chunk_moved chunk done written h n rest pos all
              ∙ ap (with_call (call_at input ((offset + done) % 2 ^ 64) h chunk)) r.returns;
          moves = (refl, omega arith, some_byte, stands, r.moves);
          within = omega (arith, r.within);
          few = omega (arith, r.few);
          unread = λ i. r.unread i ∙ add_written_none written (blk.transfer done) i;
          outcome = elim r.outcome [
            | inl (ok, sum, exact) ↦ inl (
              ok,
              omega arith,
              λ i. omega (
                arith,
                exact i,
                add_written_all written chunk (blk.transfer done) all (omega arith) i,
              ),
            )
            | inr bad ↦ inr bad
          ];
        }

    short-Ends :
        (done written h n chunk : ℕ) (rest : Option (List Call × ℕ × ℕ))
        → 0 < n
        → 0 < chunk
        → done + chunk ≤ total
        → ((i : ℕ) → i < chunk → Stands mem bufs input (done + base input + i) (h + i))
        → is_count chunk (blk.transfer done) ≡ false
        → Ends done written
            (transfer_chunk mem blk input offset chunk (some h, n) done written rest)
    short-Ends done written h n chunk rest pos some_byte fits stands short = record {
      calls = call_at input ((offset + done) % 2 ^ 64) h chunk ∷ [];
      count = add_written input written (blk.transfer done);
      status = status_ioerr;
      returns = chunk_short chunk done written h n rest pos short;
      moves = (refl, omega arith, some_byte, stands, tt);
      within = omega arith;
      few = omega (
        arith,
        add_written-le written done (total - done) (blk.transfer done)
            (λ k e. omega (arith, honest done k e)),
      );
      unread = λ i. add_written_none written (blk.transfer done) i;
      outcome = inr refl;
    }

    done-Ends :
        (fuel done written : ℕ)
        → leb total done ≡ true
        → done ≤ total
        → Ends done written (transfer_loop mem blk fuel bufs input offset total done written)
    done-Ends fuel done written e le =
        let all : total ≤ done = leb→le total done e in
        record {
          calls = [];
          count = written;
          status = status_ok;
          returns = loop_done fuel done written e;
          moves = tt;
          within = omega arith;
          few = omega arith;
          unread = λ i. refl;
          outcome = inl (refl, omega arith, λ i. omega arith);
        }

    pub loop-Ends :
        (fuel done written : ℕ)
        → total ≤ done + fuel
        → done ≤ total
        → written ≤ done
        → Ends done written (transfer_loop mem blk fuel bufs input offset total done written)
    loop-Ends zero done written enough le few = done-Ends zero done written (ground arith) le
    loop-Ends (suc fuel) done written enough le few = elim (Bool-cases (leb total done)) [
      | inl e ↦ done-Ends (suc fuel) done written e le
      | inr e ↦
          let lt : done < total = ground arith in
          let (h, n, at, pos, stands) =
            map_at-Chunk mem v input bufs (done + base input) usable (omega arith) in
          let chunk = smaller (total - done) n in
          let small : chunk ≤ total - done = ground arith in
          let less : chunk ≤ n = ground arith in
          let some_byte : 0 < chunk = ground arith in
          subst (Ends done written) (sym (loop_step fuel done written h n e at))
            (elim (Bool-cases (is_count chunk (blk.transfer done))) [
              | inr short ↦
                  short-Ends done written h n chunk _ pos some_byte (omega arith)
                    (λ i near. stands i (omega arith)) short
              | inl all ↦
                  let more =
                    add_written-le written done chunk (blk.transfer done)
                      (is_count-some chunk (blk.transfer done) all) in
                  moved-Ends done written h n chunk _ few pos some_byte (omega arith)
                    (λ i near. stands i (omega arith)) all
                    (loop-Ends fuel (done + chunk) (add_written input written (blk.transfer done))
                      (omega arith) (omega arith) (omega arith))
            ])
    ]
