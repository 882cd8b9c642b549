-- ===== src/Virtio/Status.antt =====
-- The rules on the status bits, by trying each byte.
use modvm.Prelude.{
  ℕ, ◌+◌, ◌<◌, ◌≡◌, refl, Bool, true, false, ◌&&◌, ◌||◌, not, arith, ltb, bit_and, ◌==◌,
}
use modvm.Prelude.Bits.{has, clear, raise, every, every_byte}
use modvm.Virtio.{
  settle, status_acknowledge, status_driver, status_driver_ok, status_features_ok,
  status_needs_reset, status_failed,
}

-- Each stage of the protocol has those before it.
abbrev pub is_staged : ℕ → Bool
is_staged s =
    (not (has s status_driver) || has s status_acknowledge)
    && ((not (has s status_features_ok) || has s status_driver)
        && (not (has s status_driver_ok) || has s status_features_ok))

-- What `settle` yields, for each way that the features may be.
abbrev pub settles : ℕ → Bool → Bool → Bool
settles x was_ok acceptable =
    let s = settle x was_ok acceptable in
    ltb s 256 && (is_staged s && (not (has s status_features_ok) || (was_ok || acceptable)))

-- However the features are.
abbrev settles_all : ℕ → Bool
settles_all x =
    settles x true true && (settles x true false && (settles x false true && settles x false false))

settle_table : every settles_all 256 ≡ true
unfolding every has clear settle
settle_table = refl

pub conj : (a b : Bool) → a && b ≡ true → (a ≡ true) × (b ≡ true)
conj true b h = (refl, h)
conj false b h = absurd (ground arith)

pub implies : (a b : Bool) → not a || b ≡ true → a ≡ true → b ≡ true
implies true b h e = h
implies false b h e = absurd (ground arith)

all_four :
    (f : Bool → Bool → Bool)
    → f true true && (f true false && (f false true && f false false)) ≡ true
    → (w a : Bool) → f w a ≡ true
all_four f h w a =
    let (tt', h1) = conj (f true true) (f true false && (f false true && f false false)) h in
    let (tf, h2) = conj (f true false) (f false true && f false false) h1 in
    let (ft, ff) = conj (f false true) (f false false) h2 in pick f w a tt' tf ft ff
  where
    pick :
        (f : Bool → Bool → Bool) (w a : Bool)
        → f true true ≡ true
        → f true false ≡ true
        → f false true ≡ true
        → f false false ≡ true
        → f w a ≡ true
    pick f true true p q r s = p
    pick f true false p q r s = q
    pick f false true p q r s = r
    pick f false false p q r s = s

pub settle-settles :
    (x : ℕ) (was_ok acceptable : Bool) → x < 256 → settles x was_ok acceptable ≡ true
settle-settles x was_ok acceptable small =
    all_four (settles x) (every_byte settles_all settle_table x small) was_ok acceptable

abbrev pub fails : ℕ → Bool
fails x =
    let s = raise x status_needs_reset in
    not (is_staged x)
    || (ltb s 256 && (is_staged s && (not (has s status_features_ok) || has x status_features_ok)))

pub fail_table : every fails 256 ≡ true
unfolding every has raise
fail_table = refl

abbrev is_up : ℕ → Bool
is_up s = bit_and s (status_driver_ok + status_needs_reset + status_failed) == status_driver_ok

abbrev readies : ℕ → Bool
readies s = not (is_up s) || has s status_driver_ok

ready_table : every readies 256 ≡ true
unfolding every has
ready_table = refl

-- A status that makes a device ready has DRIVER_OK, and where the stages hold FEATURES_OK.
pub ready-features_ok :
    (s : ℕ)
    → s < 256
    → is_staged s ≡ true
    → bit_and s (status_driver_ok + status_needs_reset + status_failed) == status_driver_ok ≡ true
    → has s status_features_ok ≡ true
ready-features_ok s small staged ready =
    let ok =
      implies (is_up s) (has s status_driver_ok) (every_byte readies ready_table s small) ready in
    let (_, rest) = conj (not (has s status_driver) || has s status_acknowledge) _ staged in
    let (_, last) = conj (not (has s status_features_ok) || has s status_driver) _ rest in
    implies (has s status_driver_ok) (has s status_features_ok) last ok
