-- ===== src/Virtqueue/Pop/Chain.antt =====
-- What a chain that `virtqueue_pop` builds is, and that its loop keeps it so.
use modvm.Prelude.{
  ℕ, ◌+◌, ◌-◌, ◌^◌, ◌<◌, ◌≡◌, ◌≢◌, refl, inl, inr, Bool, true, false, ◌||◌, List, [], ◌∷◌, ◌++◌,
  All, All-append, arith, sym, ap, ◌∙◌, subst, bit_and, ◌!=◌, Bool-cases, ◌&&◌, not, ltb,
  if◌then◌else◌,
}
use mathlib.Core.List.{append-nil, append_assoc}
use modvm.Prelude.Words.{u64_max}
use modvm.Memory.{MemSpace}
use modvm.Virtqueue.Pop.{
  VringDesc, VirtqueueBuf, VirtqueueChain, Round, done, failed, next, add_buf, take_desc, is_mapped,
  desc_f_write, total,
}
use modvm.Virtqueue.Pop.Mapped.{RangeUsable}

abbrev pub counts : Bool → Bool → ℕ → ℕ
counts true true n = n
counts false false n = n
counts true false n = 0
counts false true n = 0

-- The bytes of one direction in a list of buffers.
abbrev pub bytes : Bool → List VirtqueueBuf → ℕ
bytes write [] = 0
bytes write (b ∷ bs) = counts write b.is_write b.len + bytes write bs

-- The buffers to read come before those to write, of which there is none yet unless `seen`.
abbrev pub Parted : Bool → List VirtqueueBuf → Type 0
Parted seen bufs =
    (rs : List VirtqueueBuf) × (ws : List VirtqueueBuf) × (bufs ≡ rs ++ ws)
    × All (λ b. b.is_write ≡ false) rs
    × All (λ b. b.is_write ≡ true) ws
    × (seen ≡ false → ws ≡ [])

-- A buffer does not wrap, and the device may use each byte of it in its direction.
abbrev pub BufUsable : MemSpace → VirtqueueBuf → Type 0
BufUsable mem b = (b.gpa + b.len < 2 ^ 64) × RangeUsable mem b.is_write b.gpa b.len

pub record IsChain (mem : MemSpace) (c : VirtqueueChain) (seen : Bool) : Type 0 where
  pub usable : All (BufUsable mem) c.bufs
  pub readable : c.readable ≡ bytes false c.bufs
  pub writable : c.writable ≡ bytes true c.bufs
  pub order : Parted seen c.bufs

bytes-append_last :
    (write : Bool) (bs : List VirtqueueBuf) (b : VirtqueueBuf)
    → bytes write (bs ++ b ∷ []) ≡ bytes write bs + counts write b.is_write b.len
bytes-append_last write [] b = omega arith
bytes-append_last write (c ∷ bs) b = omega (arith, bytes-append_last write bs b)

pub add_buf-bufs : (c : VirtqueueChain) (b : VirtqueueBuf) → (add_buf c b).bufs ≡ c.bufs ++ b ∷ []
add_buf-bufs c b = ground arith

pub add_buf-head : (c : VirtqueueChain) (b : VirtqueueBuf) → (add_buf c b).head ≡ c.head
add_buf-head c b = ground arith

add_buf-readable :
    (c : VirtqueueChain) (b : VirtqueueBuf)
    → (add_buf c b).readable ≡ c.readable + counts false b.is_write b.len
add_buf-readable c b = ground arith

add_buf-writable :
    (c : VirtqueueChain) (b : VirtqueueBuf)
    → (add_buf c b).writable ≡ c.writable + counts true b.is_write b.len
add_buf-writable c b = ground arith

Parted-read :
    (bufs : List VirtqueueBuf) (b : VirtqueueBuf)
    → Parted false bufs
    → b.is_write ≡ false
    → Parted false (bufs ++ b ∷ [])
Parted-read bufs b (rs, ws, e, r, w, none_yet) read = (
  bufs ++ b ∷ [],
  [],
  sym (append-nil (bufs ++ b ∷ [])),
  All-append (λ q. q.is_write ≡ false) bufs (b ∷ [])
      (subst (All (λ q. q.is_write ≡ false))
        (sym (e ∙ ap (λ t. rs ++ t) (none_yet refl) ∙ append-nil rs)) r)
      (read, tt),
  tt,
  (λ _. refl),
)

Parted-write :
    (seen : Bool) (bufs : List VirtqueueBuf) (b : VirtqueueBuf)
    → Parted seen bufs
    → b.is_write ≡ true
    → Parted true (bufs ++ b ∷ [])
Parted-write seen bufs b (rs, ws, e, r, w, _) write = (
  rs,
  ws ++ b ∷ [],
  ap (λ t. t ++ b ∷ []) e ∙ append_assoc rs ws (b ∷ []),
  r,
  All-append (λ q. q.is_write ≡ true) ws (b ∷ []) w (write, tt),
  (λ f. absurd (ground arith)),
)

Parted-add :
    (seen : Bool) (bufs : List VirtqueueBuf) (b : VirtqueueBuf)
    → Parted seen bufs
    → (seen ≡ true → b.is_write ≡ true)
    → Parted (seen || b.is_write) (bufs ++ b ∷ [])
Parted-add true bufs b o ordered = Parted-write true bufs b o (ordered refl)
Parted-add false bufs b o ordered = elim (Bool-cases b.is_write) [
  | inl write ↦
      subst (λ s. Parted s (bufs ++ b ∷ [])) (sym write) (Parted-write false bufs b o write)
  | inr read ↦ subst (λ s. Parted s (bufs ++ b ∷ [])) (sym read) (Parted-read bufs b o read)
]

-- Adding a usable buffer that keeps the order.
pub IsChain-add :
    (mem : MemSpace) (c : VirtqueueChain) (seen : Bool) (b : VirtqueueBuf)
    → IsChain mem c seen
    → BufUsable mem b
    → (seen ≡ true → b.is_write ≡ true)
    → IsChain mem (add_buf c b) (seen || b.is_write)
IsChain-add mem c seen b v u ordered = record {
  usable =
      subst (All (BufUsable mem)) (sym (add_buf-bufs c b))
        (All-append (BufUsable mem) c.bufs (b ∷ []) v.usable (u, tt));
  readable =
      add_buf-readable c b
      ∙ omega (arith, v.readable, bytes-append_last false c.bufs b)
      ∙ ap (bytes false) (sym (add_buf-bufs c b));
  writable =
      add_buf-writable c b
      ∙ omega (arith, v.writable, bytes-append_last true c.bufs b)
      ∙ ap (bytes true) (sym (add_buf-bufs c b));
  order =
      subst (Parted (seen || b.is_write)) (sym (add_buf-bufs c b))
        (Parted-add seen c.bufs b v.order ordered);
}

pick :
    (P : Round → Type 0) (bad wraps mapped last : Bool) (r1 r2 r3 r4 r5 : Round)
    → P r1
    → P r2
    → P r3
    → (bad ≡ false → wraps ≡ false → mapped ≡ true → P r4 × P r5)
    → P (
        if bad
        then r1
        else if wraps
        then r2
        else if not mapped
        then r3
        else if last
        then r4
        else r5)
pick P true w m l r1 r2 r3 r4 r5 p1 p2 p3 p = p1
pick P false true m l r1 r2 r3 r4 r5 p1 p2 p3 p = p2
pick P false false false l r1 r2 r3 r4 r5 p1 p2 p3 p = p3
pick P false false true true r1 r2 r3 r4 r5 p1 p2 p3 p = (p refl refl refl).0
pick P false false true false r1 r2 r3 r4 r5 p1 p2 p3 p = (p refl refl refl).1

fits :
    (addr len : ℕ) (rest : Bool)
    → addr < 2 ^ 64
    → ltb (u64_max - addr) len || rest ≡ false
    → addr + len < 2 ^ 64
fits addr len rest small e = ground arith

keeps_order :
    (seen write odd : Bool) → odd || (seen && not write) ≡ false → seen ≡ true → write ≡ true
keeps_order seen write odd e s = ground arith

pub take_desc_cases :
    (P : Round → Type 0) (mem : MemSpace) (c : VirtqueueChain) (seen : Bool) (desc : VringDesc)
    → ((c' : VirtqueueChain) (e : ℕ) → e ≢ 0 → P (failed c' e))
    → ((b : VirtqueueBuf)
        → b.gpa + b.len < 2 ^ 64
        → is_mapped mem b.len b.gpa b.len b.is_write ≡ true
        → (seen ≡ true → b.is_write ≡ true)
        → P (done (add_buf c b)) × P (next (add_buf c b) (seen || b.is_write) desc.next))
    → desc.addr < 2 ^ 64
    → P (take_desc mem c seen desc)
unfolding take_desc
take_desc_cases P mem c seen desc fail add small =
    let write = bit_and desc.flags desc_f_write != 0 in
    pick P (bit_and desc.flags 0xfffc != 0 || (seen && not write))
      (ltb (u64_max - desc.addr) desc.len || ltb (u64_max - total c write) desc.len) _ _ _ _ _ _ _
      (fail _ _ (omega arith)) (fail _ _ (omega arith)) (fail _ _ (omega arith))
      λ bad wraps mapped.
        add (record { gpa = desc.addr; len = desc.len; is_write = write })
          (fits desc.addr desc.len _ small wraps) mapped (keeps_order seen write _ bad)
