-- ===== src/Pci/Access.antt =====
-- A read and a write of the whole of a BAR, through the functions of the configuration space.
use modvm.Prelude.{
  ℕ, ◌+◌, ◌-◌, ◌*◌, ◌/◌, ◌%◌, ◌^◌, ◌≤◌, ◌<◌, ◌≡◌, ◌≢◌, refl, true, false, List, none, some, arith,
  ap, ◌∙◌, ◌==◌, leb, ltb, bit_and, bit_or, if◌then◌else◌,
}
use modvm.Prelude.Masks.{bit_and_down, bit_and_le}
use native.Mathlib.Nat.{pow-le-pow_right}
use Prim.Native.Nat.{bit_or-bitwise}
use modvm.Memory.{MemRegion}
use modvm.IoMap.{IoRegion, relocate_region}
use modvm.Pci.{PciDevice, PciBus, find_device, update, write_header}
use modvm.Pci.Config.{
  PciDeviceOps, probed, new_base, bar_region, bar_of, is_bar, write_bar, write_device, u32_ones,
  write_config, read_config, read_bytes, read_device, size_mask, relocated,
}
use modvm.Pci.Bars.{Shows}
use modvm.Pci.Sizing.{
  bar_offset, bar_offset-is_bar, bar_of-bar_offset, bar_offset-is_config_access, read_bytes-shown,
}
use modvm.Pci.Sound.{write_config-some}

bit_or_zero : (y : ℕ) → bit_or 0 y ≡ y
bit_or_zero y = bit_or-bitwise 0 y

-- A store of a whole word keeps nothing of the word before.
whole_word :
    (base val : ℕ)
    → val < 2 ^ 32
    → bit_or
        (bit_and base (u32_ones - u32_ones * 2 ^ 0 % 2 ^ 32))
        (bit_and val u32_ones * 2 ^ 0 % 2 ^ 32)
      ≡ val
whole_word base val lt =
    let none_kept : bit_and base 0 ≡ 0 = omega (arith, bit_and_le base 0) in
    let all_taken : bit_and val u32_ones ≡ val / 1 * 1 = bit_and_down 32 0 val (omega arith) lt in
    ap (λ x. bit_or x (bit_and val u32_ones * 2 ^ 0 % 2 ^ 32)) none_kept
    ∙ bit_or_zero (bit_and val u32_ones * 2 ^ 0 % 2 ^ 32)
    ∙ omega (arith, all_taken)

pub size_mask-power : (size k : ℕ) → size ≡ 2 ^ k → k ≤ 32 → size_mask size ≡ 2 ^ 32 - 2 ^ k
size_mask-power size k e le =
    let upper : 2 ^ k ≤ 2 ^ 32 = pow-le-pow_right (omega arith) le in
    let lower : 2 ^ 0 ≤ 2 ^ k =
      pow-le-pow_right {n = 2} (omega arith) {i = 0} {j = k} (omega arith) in
    omega (arith, e, upper, lower)

bar_offset_shift : (bar : ℕ) → bar_offset bar % 4 * 8 ≡ 0
bar_offset_shift bar = omega arith

bar_offset_below : (bar : ℕ) → bar < 6 → leb 0x40 (bar_offset bar) ≡ false
bar_offset_below bar lt = ground arith

bar_offset_low : (bar : ℕ) → bar < 6 → ltb (bar_offset bar) 0x40 ≡ true
bar_offset_low bar lt = ground arith

-- A word that is written to the whole of a BAR, of a region of 2^k bytes.
pub new_base_word :
    (r : IoRegion) (bar k val : ℕ)
    → r.size ≡ 2 ^ k
    → k ≤ 32
    → val < 2 ^ 32
    → new_base r (bar_offset bar) val 4 ≡ val / 2 ^ k * 2 ^ k
unfolding new_base
new_base_word r bar k val size le lt =
    ap
      (λ s.
        bit_and
          (bit_or (bit_and r.base (u32_ones - u32_ones * 2 ^ s % 2 ^ 32))
            (bit_and val u32_ones * 2 ^ s % 2 ^ 32))
          (size_mask r.size))
      (bar_offset_shift bar)
    ∙ ap (λ x. bit_and x (size_mask r.size)) (whole_word r.base val lt)
    ∙ ap (bit_and val) (size_mask-power r.size k size le)
    ∙ bit_and_down 32 k val le lt

pub probed_is : (d : PciDevice) (bar : ℕ) → (probed d bar true).probe bar ≡ true
probed_is d bar = ground arith

pub probed_not : (d : PciDevice) (bar : ℕ) → (probed d bar false).probe bar ≡ false
probed_not d bar = ground arith

value_test : (val : ℕ) → val ≢ u32_ones → val == u32_ones ≡ false
value_test val ne = ground arith

module _ (ops : ℕ → PciDeviceOps) (bus : PciBus) (d : PciDevice) (bar : ℕ) (r : IoRegion)
    (e : find_device bus.devices d.devfn ≡ some d) (lt : bar < 6)
    (its : bar_region bus.io_map d bar ≡ some r) where
  write_config-bar :
      (ram : List MemRegion) (val : ℕ)
      → write_config ram ops bus d.devfn (bar_offset bar) val 4
        ≡ write_bar ram bus d bar r (bar_offset bar) val 4
  unfolding write_device
  write_config-bar ram val =
      let off = bar_offset bar in
      let first : off ≡ off + 0 = omega arith in
      let at : bar_of off ≡ bar = ap bar_of first ∙ bar_of-bar_offset bar 0 (omega arith) in
      write_config-some ram ops bus d.devfn off val 4 d e
      ∙ ap (λ t. if t then write_device ram ops bus d off val 4 else bus)
          (bar_offset-is_config_access bar lt)
      ∙ ap
          (λ t.
            if t
            then elim (ops d.devfn).write_config as (λ _. PciBus) [
              | none ↦ bus
              | some f ↦ f off val 4 bus
            ]
            else if is_bar off
            then elim (bar_region bus.io_map d (bar_of off)) as (λ _. PciBus) [
              | none ↦ bus
              | some q ↦ write_bar ram bus d (bar_of off) q off val 4
            ]
            else write_header bus d.devfn off val 4)
          (bar_offset_below bar lt)
      ∙ ap
          (λ t.
            if t
            then elim (bar_region bus.io_map d (bar_of off)) as (λ _. PciBus) [
              | none ↦ bus
              | some q ↦ write_bar ram bus d (bar_of off) q off val 4
            ]
            else write_header bus d.devfn off val 4)
          (ap is_bar first ∙ bar_offset-is_bar bar 0 lt (omega arith))
      ∙ ap
          (λ o. elim o as (λ _. PciBus) [
            | none ↦ bus
            | some q ↦ write_bar ram bus d (bar_of off) q off val 4
          ])
          (ap (bar_region bus.io_map d) at ∙ its)
      ∙ ap (λ n. write_bar ram bus d n r off val 4) at

  pub read_config-bar :
      read_config ops bus d.devfn (bar_offset bar) 4 ≡ read_bytes 4 bus.io_map d (bar_offset bar)
  unfolding read_config read_device
  read_config-bar =
      rw (e, read_config)
        (rw (bar_offset-is_config_access bar lt) (rw (bar_offset_low bar lt) refl))

  -- A BAR that is not probed reads as the base of its region.
  pub read_config-shown :
      d.probe bar ≡ false
      → Shows d.config_space bar r.base
      → read_config ops bus d.devfn (bar_offset bar) 4 ≡ r.base
  read_config-shown off s = read_config-bar ∙ read_bytes-shown bus.io_map d bar lt r its off s

  module _ (ram : List MemRegion) where
    pub write_config-ones :
        write_config ram ops bus d.devfn (bar_offset bar) u32_ones 4
        ≡ record bus { devices = update d.devfn (probed d bar true) bus.devices }
    unfolding write_bar
    write_config-ones = write_config-bar ram u32_ones

    pub write_config-value :
        (val : ℕ)
        → val ≢ u32_ones
        → write_config ram ops bus d.devfn (bar_offset bar) val 4
          ≡ relocated ram bus
              (probed d bar false)
              bar
              (new_base r (bar_offset bar) val 4)
              (relocate_region bus.io_map ram r (new_base r (bar_offset bar) val 4))
    unfolding write_bar
    write_config-value val ne =
        write_config-bar ram val
        ∙ ap
            (λ t.
              if t
              then record bus { devices = update d.devfn (probed d bar true) bus.devices }
              else relocated ram bus (probed d bar false) bar (new_base r (bar_offset bar) val 4)
                  (relocate_region bus.io_map ram r (new_base r (bar_offset bar) val 4)))
            (value_test val ne)
