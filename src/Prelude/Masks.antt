-- ===== src/Prelude/Masks.antt =====
-- `x & ~(2 ^ k - 1)` on machine words of any width: rounding down to a power of two.
use Prim.Native.Nat.{
  ℕ, zero, suc, ◌+◌, ◌-◌, ◌*◌, ◌/◌, ◌%◌, ◌^◌, ◌≤◌, ◌<◌, min, bit_and, digits, bit_and-bitwise,
}
use mathlib.Core.Path.{◌≡◌, refl, sym, ap, ◌∙◌}
use native.Mathlib.Decide.{ℕ_discrete}
use native.Mathlib.Omega.{arith}
use native.Mathlib.Nat.{div-div-eq-div-mul, mul_assoc}
use native.Mathlib.Numerals.{unary_clauses}

-- The digits that a number has do not depend on how many are asked for beyond its own.
and_digits :
    (n m a b : ℕ) → a ≤ n → a ≤ m → digits (λ b. zero) min n a b ≡ digits (λ b. zero) min m a b
and_digits zero zero a b h k = refl
and_digits zero (suc m) zero b h k = refl
and_digits zero (suc m) (suc a) b h k = absurd (omega arith)
and_digits (suc n) zero zero b h k = refl
and_digits (suc n) zero (suc a) b h k = absurd (omega arith)
and_digits (suc n) (suc m) zero b h k = refl
and_digits (suc n) (suc m) (suc a) b h k =
    ap (λ d. d * 2 + min (suc a % 2) (b % 2))
      (and_digits n m (suc a / 2) (b / 2) (omega arith) (omega arith))

-- One binary digit.
pub bit_and-halves : (a b : ℕ) → bit_and a b ≡ bit_and (a / 2) (b / 2) * 2 + min (a % 2) (b % 2)
bit_and-halves zero b = omega (arith, bit_and-bitwise 0 b, bit_and-bitwise 0 (b / 2))
bit_and-halves (suc a) b =
    bit_and-bitwise (suc a) b
    ∙ ap (λ d. d * 2 + min (suc a % 2) (b % 2))
        (and_digits a (suc a / 2) (suc a / 2) (b / 2) (omega arith) (omega arith)
          ∙ sym (bit_and-bitwise (suc a / 2) (b / 2)))

pow_suc : (n : ℕ) → 2 ^ suc n ≡ 2 * 2 ^ n
pow_suc n = simp unary_clauses (omega arith)

pow_pos : (n : ℕ) → 0 < 2 ^ n
pow_pos zero = omega arith
pow_pos (suc n) = omega (arith, pow_suc n, pow_pos n)

pow_le : (k n : ℕ) → k ≤ n → 2 ^ k ≤ 2 ^ n
pow_le zero n h = pow_pos n
pow_le (suc k) zero h = absurd (omega arith)
pow_le (suc k) (suc n) h = omega (arith, pow_suc k, pow_suc n, pow_le k n (omega arith))

ones_kept : (n x : ℕ) → x < 2 ^ n → bit_and x (2 ^ n - 1) ≡ x
ones_kept zero zero h = bit_and-bitwise 0 (2 ^ 0 - 1)
ones_kept zero (suc x) h = absurd (omega arith)
ones_kept (suc n) x h =
    let p = pow_pos n in
    let whole = ones_kept n (x / 2) (omega (arith, pow_suc n)) in
    let half : (2 ^ suc n - 1) / 2 ≡ 2 ^ n - 1 = omega (arith, pow_suc n) in
    let low : (2 ^ suc n - 1) % 2 ≡ 1 = omega (arith, pow_suc n) in
    omega (arith, bit_and-halves x (2 ^ suc n - 1), ap (bit_and (x / 2)) half, whole, low)

div_pow : (x k : ℕ) → x / 2 ^ suc k ≡ x / 2 / 2 ^ k
div_pow x k = ap (λ d. x / d) (pow_suc k) ∙ sym (div-div-eq-div-mul x 2 (2 ^ k))

-- The mask of the bits from k on, in a word of n bits, rounds down to a multiple of 2 ^ k.
pub bit_and_down : (n k x : ℕ) → k ≤ n → x < 2 ^ n → bit_and x (2 ^ n - 2 ^ k) ≡ x / 2 ^ k * 2 ^ k
bit_and_down n zero x h lt = omega (arith, ones_kept n x lt)
bit_and_down zero (suc k) x h lt = absurd (omega arith)
bit_and_down (suc n) (suc k) x h lt =
    let le = pow_le k n (omega arith) in
    let ih = bit_and_down n k (x / 2) (omega arith) (omega (arith, pow_suc n)) in
    let half : (2 ^ suc n - 2 ^ suc k) / 2 ≡ 2 ^ n - 2 ^ k = omega (arith, pow_suc n, pow_suc k) in
    let low : (2 ^ suc n - 2 ^ suc k) % 2 ≡ 0 = omega (arith, pow_suc n, pow_suc k) in
    let q = x / 2 / 2 ^ k in
    let twice : 2 ^ suc k ≡ 2 ^ k * 2 = omega (arith, pow_suc k) in
    let both : x / 2 ^ suc k * 2 ^ suc k ≡ q * 2 ^ k * 2 =
      ap (λ d. d * 2 ^ suc k) (div_pow x k) ∙ ap (λ d. q * d) twice ∙ sym (mul_assoc q (2 ^ k) 2) in
    omega
      (arith, bit_and-halves x (2 ^ suc n - 2 ^ suc k), ap (bit_and (x / 2)) half, ih, low, both)

bit_and_le_fuel : (n a b : ℕ) → a ≤ n → bit_and a b ≤ b
bit_and_le_fuel n zero b h = omega (arith, bit_and-bitwise 0 b)
bit_and_le_fuel zero (suc a) b h = absurd (omega arith)
bit_and_le_fuel (suc n) (suc a) b h =
    omega (arith, bit_and-halves (suc a) b, bit_and_le_fuel n (suc a / 2) (b / 2) (omega arith))

-- A mask bounds what it leaves.
pub bit_and_le : (a b : ℕ) → bit_and a b ≤ b
bit_and_le a b = bit_and_le_fuel a a b (omega arith)

bit_and_self_fuel : (fuel m : ℕ) → m ≤ fuel → bit_and m m ≡ m
bit_and_self_fuel zero m le = omega (arith, bit_and_le m m)
bit_and_self_fuel (suc fuel) zero le = omega (arith, bit_and_le 0 0)
bit_and_self_fuel (suc fuel) (suc m) le =
    let rest = bit_and_self_fuel fuel (suc m / 2) (omega arith) in
    omega (arith, bit_and-halves (suc m) (suc m), rest)

power_fuel : (fuel n : ℕ) → n ≤ fuel → 0 < n → bit_and n (n - 1) ≡ 0 → (k : ℕ) × (n ≡ 2 ^ k)
power_fuel zero n le pos e = absurd (omega arith)
power_fuel (suc fuel) n le pos e = elim (ℕ_discrete (n % 2) 0) [
  | yes even ↦
      let below : (n - 1) / 2 ≡ n / 2 - 1 = omega arith in
      let half : bit_and (n / 2) (n / 2 - 1) ≡ 0 =
        omega (arith, e, bit_and-halves n (n - 1), ap (bit_and (n / 2)) below) in
      let (k, p) = power_fuel fuel (n / 2) (omega arith) (omega arith) half in
      (suc k, omega (arith, p, pow_suc k))
  | no odd ↦ (
    0,
    (let below : (n - 1) / 2 ≡ n / 2 = omega arith in
        omega (
          arith,
          e,
          bit_and-halves n (n - 1),
          ap (bit_and (n / 2)) below,
          bit_and_self_fuel (n / 2) (n / 2) (omega arith),
        )),
  )
]

-- The test `!(n & (n - 1))` of a number that is not 0 finds the powers of two.
pub power_of_two : (n : ℕ) → 0 < n → bit_and n (n - 1) ≡ 0 → (k : ℕ) × (n ≡ 2 ^ k)
power_of_two n pos e = power_fuel n n (omega arith) pos e
