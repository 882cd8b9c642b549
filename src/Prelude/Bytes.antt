-- ===== src/Prelude/Bytes.antt =====
-- Little-endian fields: the bytes of a number, and the number that bytes make.
use Prim.Native.Nat.{ℕ, zero, suc, ◌+◌, ◌*◌, ◌/◌, ◌%◌, ◌^◌, ◌<◌}
use mathlib.Core.Path.{◌≡◌}
use mathlib.Core.List.{List, [], ◌∷◌}
use native.Mathlib.Omega.{arith}
use native.Mathlib.Numerals.{unary_clauses}

-- A little-endian field, and what `memcpy` reads back from one.
unfoldable pub to_le : ℕ → ℕ → List ℕ
to_le zero v = []
to_le (suc n) v = v % 256 ∷ to_le n (v / 256)

unfoldable pub from_le : List ℕ → ℕ
from_le [] = 0
from_le (b ∷ bs) = b + 256 * from_le bs

digit_joins : (v m r : ℕ) → v < m * 256 → (v / 256 < m → r ≡ v / 256) → v % 256 + 256 * r ≡ v
digit_joins v m r h e = let same : r ≡ v / 256 = e (omega arith) in omega arith

pub from_le-to_le : (n v : ℕ) → v < 256 ^ n → from_le (to_le n v) ≡ v
unfolding from_le to_le
from_le-to_le zero v h = omega arith
from_le-to_le (suc n) v h =
    digit_joins v (256 ^ n) (from_le (to_le n (v / 256))) (simp unary_clauses at h)
      (λ lt. from_le-to_le n (v / 256) lt)
