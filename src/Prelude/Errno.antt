-- ===== src/Prelude/Errno.antt =====
-- include/modvm/errno.h. A function that returns `int` returns its negation here: 0 for success
-- and `einval` where the code returns -VM_EINVAL.
use Prim.Native.Nat.{ℕ}
use mathlib.Core.Path.{◌≡◌, refl}
use mathlib.Core.Logic.{◌⊎◌, inl, inr}

-- A pointer, or ERR_PTR of a negated error number.
pub data Result {ℓ} (A : Type ℓ) : Type ℓ where
  ok : A → Result A
  err : ℕ → Result A

pub Result-cases {ℓ} :
    {A : Type ℓ} (r : Result A) → ((a : A) × (r ≡ ok a)) ⊎ ((e : ℕ) × (r ≡ err e))
Result-cases (ok a) = inl (a, refl)
Result-cases (err e) = inr (e, refl)

abbrev pub enoent : ℕ
enoent = 2

abbrev pub eio : ℕ
eio = 5

abbrev pub enomem : ℕ
enomem = 12

abbrev pub efault : ℕ
efault = 14

abbrev pub ebusy : ℕ
ebusy = 16

abbrev pub eexist : ℕ
eexist = 17

abbrev pub einval : ℕ
einval = 22

abbrev pub enospc : ℕ
enospc = 28

abbrev pub eloop : ℕ
eloop = 40

abbrev pub eoverflow : ℕ
eoverflow = 75

abbrev pub enotsup : ℕ
enotsup = 95

abbrev pub eshutdown : ℕ
eshutdown = 108

abbrev pub ealready : ℕ
ealready = 114
