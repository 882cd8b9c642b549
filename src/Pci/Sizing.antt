-- ===== src/Pci/Sizing.antt =====
-- How a guest sizes a BAR and moves it: it writes ones, reads the size, and writes a base.
use modvm.Prelude.{
  ℕ, zero, suc, ◌+◌, ◌*◌, ◌/◌, ◌%◌, ◌^◌, ◌<◌, ◌≡◌, refl, true, false, some, arith, ap, ◌∙◌,
  if◌then◌else◌,
}
use modvm.IoMap.{IoMap, IoRegion}
use modvm.Pci.{PciDevice}
use modvm.Pci.Config.{
  bar_region, bar_of, is_bar, is_config_access, read_byte, read_bytes, size_mask, bar_byte,
}
use modvm.Pci.Bars.{Shows}

-- The offset of a BAR.
abbrev pub bar_offset : ℕ → ℕ
bar_offset bar = 0x10 + bar * 4

pub bar_offset-is_bar : (bar i : ℕ) → bar < 6 → i < 4 → is_bar (bar_offset bar + i) ≡ true
bar_offset-is_bar bar i lt four = ground arith

pub bar_of-bar_offset : (bar i : ℕ) → i < 4 → bar_of (bar_offset bar + i) ≡ bar
bar_of-bar_offset bar i four = omega arith

bar_offset-lane : (bar i : ℕ) → i < 4 → (bar_offset bar + i) % 4 ≡ i
bar_offset-lane bar i four = omega arith

pub bar_offset-is_config_access : (bar : ℕ) → bar < 6 → is_config_access (bar_offset bar) 4 ≡ true
bar_offset-is_config_access bar lt = ground arith

Shows-byte :
    (f : ℕ → ℕ) (bar base i : ℕ)
    → i < 4
    → Shows f bar base
    → f (bar_offset bar + i) ≡ base / 256 ^ i % 256
Shows-byte f bar base zero lt s = ap f (omega arith) ∙ s.byte0 ∙ omega arith
Shows-byte f bar base (suc zero) lt s = s.byte1
Shows-byte f bar base (suc (suc zero)) lt s = s.byte2
Shows-byte f bar base (suc (suc (suc zero))) lt s = s.byte3
Shows-byte f bar base (suc (suc (suc (suc i)))) lt s = absurd (omega arith)

module _ (m : IoMap) (d : PciDevice) (bar : ℕ) (lt : bar < 6) where
  read_byte-bar :
      (i : ℕ) (r : IoRegion)
      → i < 4
      → bar_region m d bar ≡ some r
      → read_byte m d (bar_offset bar + i) ≡ (
          if d.probe bar
          then size_mask r.size / 256 ^ i % 256
          else d.config_space (bar_offset bar + i))
  unfolding read_byte
  read_byte-bar i r four e =
      let off = bar_offset bar + i in
      let at : bar_of off ≡ bar = bar_of-bar_offset bar i four in
      ap (λ t. if t then bar_byte d off (bar_region m d (bar_of off)) else d.config_space off)
        (bar_offset-is_bar bar i lt four)
      ∙ ap (bar_byte d off) (ap (bar_region m d) at ∙ e)
      ∙ ap (λ b. if d.probe b then size_mask r.size / 256 ^ (off % 4) % 256 else d.config_space off)
          at
      ∙ ap (λ n. if d.probe bar then size_mask r.size / 256 ^ n % 256 else d.config_space off)
          (bar_offset-lane bar i four)

  -- The four bytes, from the lowest.
  read_bytes-bar :
      (x : ℕ)
      → x < 2 ^ 32
      → ((i : ℕ) → i < 4 → read_byte m d (bar_offset bar + i) ≡ x / 256 ^ i % 256)
      → read_bytes 4 m d (bar_offset bar) ≡ x
  unfolding read_bytes
  read_bytes-bar x small byte =
      let at : (k i : ℕ) → i < 4 → k ≡ bar_offset bar + i → read_byte m d k ≡ x / 256 ^ i % 256 =
        λ k i four e. ap (read_byte m d) e ∙ byte i four in
      let b0 = at (bar_offset bar) 0 (omega arith) (omega arith) in
      let b1 = at (bar_offset bar + 1) 1 (omega arith) refl in
      let b2 = at (bar_offset bar + 1 + 1) 2 (omega arith) (omega arith) in
      let b3 = at (bar_offset bar + 1 + 1 + 1) 3 (omega arith) (omega arith) in
      omega (arith, b0, b1, b2, b3)

  -- While a BAR is probed, it reads as the mask of its size.
  pub read_bytes-probed :
      (r : IoRegion)
      → bar_region m d bar ≡ some r
      → d.probe bar ≡ true
      → read_bytes 4 m d (bar_offset bar) ≡ size_mask r.size
  read_bytes-probed r e on = read_bytes-bar (size_mask r.size) (omega arith) (λ i four.
      read_byte-bar i r four e
      ∙ ap
          (λ t. if t then size_mask r.size / 256 ^ i % 256 else d.config_space (bar_offset bar + i))
          on)

  -- Else it reads as the base of its region.
  pub read_bytes-shown :
      (r : IoRegion)
      → bar_region m d bar ≡ some r
      → d.probe bar ≡ false
      → Shows d.config_space bar r.base
      → read_bytes 4 m d (bar_offset bar) ≡ r.base
  read_bytes-shown r e off s = read_bytes-bar r.base s.small (λ i four.
      read_byte-bar i r four e
      ∙ ap
          (λ t. if t then size_mask r.size / 256 ^ i % 256 else d.config_space (bar_offset bar + i))
          off
      ∙ Shows-byte d.config_space bar r.base i four s)
