-- ===== src/Pci/Window/Aligned.antt =====
-- Rounding a base up to a multiple of a size that is a power of two.
use modvm.Prelude.{ℕ, ◌+◌, ◌-◌, ◌/◌, ◌*◌, ◌%◌, ◌^◌, ◌≤◌, ◌<◌, ◌≡◌, arith, bit_and, ap, sym, ◌∙◌}
use modvm.Prelude.Words.{u64_max}
use modvm.Prelude.Masks.{bit_and_down}
use native.Mathlib.Nat.{div-add-mod', mod-lt, div-lt_iff_lt-mul, mul-le-mul_right, pow-le-pow_right}
use modvm.Pci.Window.{round_up}

pub up_ge : (base p : ℕ) → 0 < p → base ≤ (base + p - 1) / p * p
up_ge base p pos =
    let e = div-add-mod' (base + p - 1) p in
    let lt = mod-lt (base + p - 1) pos in omega (arith, e, lt)

pub up_le : (base p c : ℕ) → 0 < p → base ≤ c → c % p ≡ 0 → (base + p - 1) / p * p ≤ c
up_le base p c pos le aligned =
    let e = div-add-mod' c p in
    let lt : (base + p - 1) / p < c / p + 1 = (div-lt_iff_lt-mul pos).1 (grind (arith, e)) in
    let m = mul-le-mul_right {m = (base + p - 1) / p} {n = c / p} p (omega arith) in
    omega (arith, e, m)

pub round_up-power :
    (base size k : ℕ)
    → size ≡ 2 ^ k
    → k ≤ 32
    → base ≤ 2 ^ 32
    → round_up base size ≡ (base + size - 1) / size * size
round_up-power base size k e le small =
    let upper : 2 ^ k ≤ 2 ^ 32 = pow-le-pow_right {n = 2} (omega arith) le in
    let lower : 2 ^ 0 ≤ 2 ^ k =
      pow-le-pow_right {n = 2} (omega arith) {i = 0} {j = k} (omega arith) in
    let mask : u64_max - (size - 1) ≡ 2 ^ 64 - 2 ^ k = omega (arith, e, upper, lower) in
    ap (bit_and (base + size - 1)) mask
    ∙ bit_and_down 64 k (base + size - 1) (omega arith) (omega (arith, e, upper, lower))
    ∙ ap (λ p. (base + size - 1) / p * p) (sym e)
