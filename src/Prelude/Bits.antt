-- ===== src/Prelude/Bits.antt =====
-- Bits of a byte: C's masks, and facts about them by trying each byte.
use Prim.Native.Nat.{ℕ, zero, suc, ◌-◌, ◌<◌, bit_and, bit_or}
use mathlib.Core.Path.{◌≡◌}
use mathlib.Core.Bool.{Bool, true, ◌&&◌}
use native.Mathlib.Omega.{arith}
use modvm.Prelude.Tests.{◌!=◌}

-- `x & mask` as a condition, and `x &= ~mask`, `x |= mask` on a uint8_t.
unfoldable pub has : ℕ → ℕ → Bool
has x mask = bit_and x mask != 0

unfoldable pub clear : ℕ → ℕ → ℕ
clear x mask = bit_and x (255 - mask)

unfoldable pub raise : ℕ → ℕ → ℕ
raise x mask = bit_or x mask

-- A test of the numbers under a bound, the last one last.
unfoldable pub every : (ℕ → Bool) → ℕ → Bool
every test zero = true
every test (suc k) = every test k && test k

every_under : (test : ℕ → Bool) (k i : ℕ) → every test k ≡ true → i < k → test i ≡ true
unfolding every
every_under test zero i h lt = absurd (omega arith)
every_under test (suc k) i h lt = ground (arith, every_under test k i)

-- What a run over the 256 bytes finds true of each of them is true of a byte.
pub every_byte :
    (test : ℕ → Bool) → every test 256 ≡ true → (byte : ℕ) → byte < 256 → test byte ≡ true
every_byte test h byte small = every_under test 256 byte h small
