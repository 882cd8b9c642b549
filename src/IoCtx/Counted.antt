-- ===== src/IoCtx/Counted.antt =====
-- In any interleaving the references of a binding are those that are held, and every argument
-- that was posted is with the queue, the runner or those released.
pub mod Events
pub mod Posts
pub mod Closes
use modvm.Prelude.{
  ℕ, zero, suc, ◌+◌, ◌-◌, ◌^◌, ◌≤◌, ◌<◌, ◌≡◌, refl, ap, sym, subst, ◌∙◌, ◌⊎◌, inl, inr, Bool, true,
  false, List, [], ◌∷◌, ◌++◌, Option, none, some, arith, length, Bool-cases, Option-cases, ◌==◌,
  ==_iff, if◌then◌else◌,
}
use modvm.IoCtx.{IoBinding, IoWork, IoCtx, get, with_refs}
use modvm.IoCtx.Heap.{IsDistinct, Dropped}
use modvm.IoCtx.System.{System, count, forget, args}
use modvm.IoCtx.Queue.{hit, hit_arg, queued}

-- What the runner holds.
abbrev pub runs : ℕ → Option IoWork → ℕ
runs a none = 0
runs a (some w) = hit a w

abbrev pub run_arg : ℕ → Option IoWork → ℕ
run_arg d none = 0
run_arg d (some w) = hit_arg d w

-- A binding against the references to it that owners, queue and runner hold.
pub record Held (own que run : ℕ) (b : IoBinding) : Type 0 where
  pub counted : b.refs ≡ own + que + run
  pub positive : 0 < b.refs
  pub small : b.refs < 2 ^ 32
  pub open_owned : b.is_open ≡ true → 0 < own
  pub shut_empty : b.is_open ≡ false → que ≡ 0

abbrev pub Fits : ℕ → ℕ → ℕ → Option IoBinding → Type 0
Fits own que run none = own + que + run ≡ 0
Fits own que run (some b) = Held own que run b

pub record IsSound (s : System) : Type 0 where
  pub distinct : IsDistinct s.io.live
  pub fits :
      (a : ℕ) → Fits (count a s.owners) (queued a s.io.work) (runs a s.running) (get a s.io.live)
  pub total : s.io.bindings ≡ length s.io.live
  pub conserved :
      (d : ℕ)
      → count d s.posted ≡ count d s.released + (count d (args s.io.work) + run_arg d s.running)

-- The machine that an event returns.
abbrev pub Goes : Option System → Type 0
Goes r = (s : System) × (r ≡ some s) × IsSound s

-- A property of all addresses, of one and of the others.
pub each_key : (P : ℕ → Type 0) (a : ℕ) → P a → ((k : ℕ) → (a == k) ≡ false → P k) → (k : ℕ) → P k
each_key P a self others k = elim (Bool-cases (a == k)) [
  | inl same ↦ subst P ((==_iff a k).0 same) self
  | inr ne ↦ others k ne
]

pub same-Fits :
    {o q r o' q' r' : ℕ} {g g' : Option IoBinding}
    → o' ≡ o
    → q' ≡ q
    → r' ≡ r
    → g' ≡ g
    → Fits o q r g
    → Fits o' q' r' g'
same-Fits eo eq er eg f = rw (eo, eq, er, eg) f

-- A binding to which something refers is allocated.
pub Fits-some :
    (o q r : ℕ) (g : Option IoBinding)
    → Fits o q r g
    → 0 < o + q + r
    → (b : IoBinding) × (g ≡ some b) × Held o q r b
Fits-some o q r none f h = absurd (omega arith)
Fits-some o q r (some b) f h = (b, refl, f)

-- References less of a binding that is shut, or that its owner keeps.
pub Dropped-Fits :
    (o q r o' q' r' : ℕ) {a n : ℕ} {b : IoBinding} {io io' : IoCtx}
    → Dropped a n b io io'
    → b.refs ≡ o + q + r
    → b.refs < 2 ^ 32
    → o + q + r ≡ n + (o' + q' + r')
    → (b.is_open ≡ true → 0 < o')
    → (b.is_open ≡ false → q' ≡ 0)
    → Fits o' q' r' (get a io'.live)
Dropped-Fits o q r o' q' r' {b = b} d counted small e opened shut = elim d.self [
  | inl (all, gone) ↦ subst (Fits o' q' r') (sym gone) (omega arith)
  | inr (some_left, left) ↦ subst (Fits o' q' r') (sym left) (record {
    counted = omega arith;
    positive = omega arith;
    small = omega arith;
    open_owned = opened;
    shut_empty = shut;
  })
]
