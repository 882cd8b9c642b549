-- ===== src/VirtioBlk/Requests.antt =====
-- The requests by their types: each is answered.
use modvm.Prelude.{
  ℕ, ◌+◌, ◌-◌, ◌^◌, ◌≤◌, ◌<◌, ◌≡◌, refl, ap, sym, subst, ◌⊎◌, inl, inr, Bool, true, false, ◌&&◌,
  ◌||◌, not, List, [], some, arith, ltb, ◌==◌, ◌!=◌, Bool-cases,
}
use modvm.Prelude.Errno.{einval}
use modvm.Memory.{MemSpace}
use modvm.Memory.Translate.{IsValid}
use modvm.Virtqueue.Pop.{VirtqueueChain}
use modvm.Virtqueue.Pop.Chain.{IsChain, bytes}
use modvm.Virtqueue.Copy.{copy}
use modvm.Virtqueue.Copy.Transfer.{copy_total}
use modvm.VirtioBlk.{
  OutHdr, Backend, answer, transfer, flush_all, get_id, identified, serve_type, serve, read_header,
  is_input, total_of, hdr_size, type_in, type_out, type_flush, type_get_id, status_ok, status_ioerr,
  status_unsupp,
}
use modvm.VirtioBlk.Transfer.{base}
use modvm.VirtioBlk.Serve.{Answers, plain-Served, failed-Answers, transfer-Answers}

module _ (mem : MemSpace) (blk : Backend) (c : VirtqueueChain) (hdr : OutHdr) where
  flush-Answers :
      (n : ℕ)
      → 0 < c.writable
      → ((hdr.type ≡ type_in) ⊎ (hdr.type ≡ type_out) → ⊥)
      → Answers mem blk c hdr (some (flush_all mem blk n))
  unfolding flush_all
  flush-Answers n pos other = elim (Bool-cases (n != 0)) [
    | inl e ↦ rw e (failed-Answers mem blk c hdr pos)
    | inr e ↦ rw e (_, refl, plain-Served mem blk c hdr _ pos refl refl (λ ok t. other t))
  ]

  not_less : (a b : ℕ) → ltb a b ≡ false → b ≤ a
  not_less a b e = ground arith

  get_id_short :
      ltb (c.writable - 1) 20 ≡ true
      → get_id mem blk c (c.writable - 1) ≡ some (answer status_ioerr)
  unfolding get_id
  get_id_short e = rw (e, get_id) refl

  get_id_long :
      ltb (c.writable - 1) 20 ≡ false
      → get_id mem blk c (c.writable - 1) ≡ identified mem blk (copy mem c true 0 20)
  unfolding get_id
  get_id_long e = rw (e, get_id) refl

  id-Answers :
      (seen : Bool)
      → IsValid mem
      → IsChain mem c seen
      → 0 < c.writable
      → ((hdr.type ≡ type_in) ⊎ (hdr.type ≡ type_out) → ⊥)
      → Answers mem blk c hdr (get_id mem blk c (c.writable - 1))
  id-Answers seen v chain pos other = elim (Bool-cases (ltb (c.writable - 1) 20)) [
    | inl e ↦
        subst (Answers mem blk c hdr) (sym (get_id_short e)) (failed-Answers mem blk c hdr pos)
    | inr e ↦
        let long : 20 ≤ c.writable - 1 = not_less (c.writable - 1) 20 e in
        subst (Answers mem blk c hdr) (sym (get_id_long e))
          (elim (copy_total mem c seen true 0 20 v chain) [
            | inl (le, pieces, done, copies) ↦ (
              record (answer status_ok) { id = pieces; written = 20 },
              ap (identified mem blk) done,
              record {
                moves = tt;
                within = λ n. absurd (n refl);
                allowed = λ n. absurd (n refl);
                room = omega arith;
                small = omega arith;
                whole = λ ok t. absurd (other t);
              },
            )
            | inr (out, refused) ↦ absurd (omega arith)
          ])
  ]

  abbrev bad : Bool
  bad =
      (is_input hdr && c.readable != hdr_size)
      || ((not (is_input hdr) && c.writable != 1) || ltb (2 ^ 32 - 2) (total_of c hdr))

  abbrev is_move : Bool
  is_move = hdr.type == type_in || hdr.type == type_out

  serve_bad : bad ≡ true → serve_type mem blk c hdr ≡ some (answer status_ioerr)
  unfolding serve_type
  serve_bad e = rw (e, serve_type) refl

  serve_move :
      bad ≡ false
      → is_move ≡ true
      → serve_type mem blk c hdr ≡ transfer mem blk c hdr (is_input hdr) (total_of c hdr)
  unfolding serve_type
  serve_move e m = rw (e, serve_type) (rw (m, serve_type) refl)

  serve_flush :
      bad ≡ false
      → is_move ≡ false
      → (hdr.type == type_flush) ≡ true
      → serve_type mem blk c hdr ≡ some (flush_all mem blk (total_of c hdr))
  unfolding serve_type
  serve_flush e m f = rw (e, serve_type) (rw (m, serve_type) (rw (f, serve_type) refl))

  serve_id :
      bad ≡ false
      → is_move ≡ false
      → (hdr.type == type_flush) ≡ false
      → (hdr.type == type_get_id) ≡ true
      → serve_type mem blk c hdr ≡ get_id mem blk c (total_of c hdr)
  unfolding serve_type
  serve_id e m f g =
      rw (e, serve_type) (rw (m, serve_type) (rw (f, serve_type) (rw (g, serve_type) refl)))

  serve_other :
      bad ≡ false
      → is_move ≡ false
      → (hdr.type == type_flush) ≡ false
      → (hdr.type == type_get_id) ≡ false
      → serve_type mem blk c hdr ≡ some (answer status_unsupp)
  unfolding serve_type
  serve_other e m f g =
      rw (e, serve_type) (rw (m, serve_type) (rw (f, serve_type) (rw (g, serve_type) refl)))

  third : (a b : Bool) (x y : ℕ) → a || (b || ltb x y) ≡ false → y ≤ x
  third a b x y e = ground arith

  neither : (t a b : ℕ) → t == a || t == b ≡ false → (t ≡ a) ⊎ (t ≡ b) → ⊥
  neither t a b e (inl h) = ground arith
  neither t a b e (inr h) = ground arith

  room_of :
      (seen : Bool)
      → IsChain mem c seen
      → hdr_size ≤ c.readable
      → total_of c hdr + base (is_input hdr) ≤ bytes (is_input hdr) c.bufs
  room_of seen chain has_hdr = elim (Bool-cases (is_input hdr)) [
    | inl i ↦ rw i (omega (arith, chain.writable))
    | inr i ↦ rw i (omega (arith, chain.readable))
  ]

  total_input : 0 < c.writable → is_input hdr ≡ true → total_of c hdr + 1 ≤ c.writable
  total_input pos i = rw i (omega arith)

  id-input : (hdr.type == type_get_id) ≡ true → total_of c hdr ≡ c.writable - 1
  id-input g = ground arith

  type-Answers :
      (seen : Bool)
      → IsValid mem
      → IsChain mem c seen
      → 0 < c.writable
      → hdr_size ≤ c.readable
      → blk.capacity < 2 ^ 64
      → ((d k : ℕ) → blk.transfer d ≡ some k → d + k ≤ total_of c hdr)
      → Answers mem blk c hdr (serve_type mem blk c hdr)
  type-Answers seen v chain pos has_hdr cap honest = elim (Bool-cases bad) [
    | inl e ↦ subst (Answers mem blk c hdr) (sym (serve_bad e)) (failed-Answers mem blk c hdr pos)
    | inr e ↦ elim (Bool-cases is_move) [
      | inl m ↦
          let most = third _ _ (2 ^ 32 - 2) (total_of c hdr) e in
          subst (Answers mem blk c hdr) (sym (serve_move e m)) (
            transfer-Answers mem blk c hdr seen v chain pos cap honest (room_of seen chain has_hdr)
              (total_input pos) (omega arith))
      | inr m ↦
          let other = neither hdr.type type_in type_out m in
          elim (Bool-cases (hdr.type == type_flush)) [
            | inl f ↦
                subst (Answers mem blk c hdr) (sym (serve_flush e m f))
                  (flush-Answers (total_of c hdr) pos other)
            | inr f ↦ elim (Bool-cases (hdr.type == type_get_id)) [
              | inl g ↦ subst (Answers mem blk c hdr) (sym (serve_id e m f g)) (
                  subst (λ n. Answers mem blk c hdr (get_id mem blk c n)) (sym (id-input g))
                    (id-Answers seen v chain pos other))
              | inr g ↦ subst (Answers mem blk c hdr) (sym (serve_other e m f g)) (
                answer status_unsupp,
                refl,
                plain-Served mem blk c hdr _ pos refl refl (λ ok t. other t),
              )
            ]
          ]
    ]
  ]

  serve_header :
      (pieces : List (ℕ × ℕ))
      → copy mem c false 0 hdr_size ≡ some (pieces, 0)
      → serve mem blk c hdr ≡ serve_type mem blk c hdr
  unfolding serve
  serve_header pieces e = ap (read_header mem blk c hdr) e

  serve_short :
      copy mem c false 0 hdr_size ≡ some ([], einval)
      → serve mem blk c hdr ≡ some (answer status_ioerr)
  unfolding serve
  serve_short e = ap (read_header mem blk c hdr) e

  pub serve-Answers :
      (seen : Bool)
      → IsValid mem
      → IsChain mem c seen
      → 0 < c.writable
      → blk.capacity < 2 ^ 64
      → ((d k : ℕ) → blk.transfer d ≡ some k → d + k ≤ total_of c hdr)
      → Answers mem blk c hdr (serve mem blk c hdr)
  serve-Answers seen v chain pos cap honest =
      elim (copy_total mem c seen false 0 hdr_size v chain) [
        | inl (le, pieces, e, copies) ↦
            subst (Answers mem blk c hdr) (sym (serve_header pieces e))
              (type-Answers seen v chain pos (omega arith) cap honest)
        | inr (out, e) ↦
            subst (Answers mem blk c hdr) (sym (serve_short e)) (failed-Answers mem blk c hdr pos)
      ]
