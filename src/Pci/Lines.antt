-- ===== src/Pci/Lines.antt =====
-- A shared interrupt line is the disjunction of the endpoints that are routed to it.
use modvm.Prelude.{
  ℕ, ◌≡◌, ◌≢◌, refl, Bool, true, false, ◌&&◌, not, List, some, arith, Bool-cases, if◌then◌else◌,
  inl, inr, sym, ap, ◌∙◌, subst, ◌==◌, ltb,
}
use modvm.IoMap.{IoMap}
use native.Mathlib.Decide.{ℕ_discrete}
use modvm.Pci.Devices.{
  holds, wants, find_device-devfn, wants-some, wants-update_same, wants-update_other,
}
use modvm.Pci.{
  PciDevice, Bridge, PciBus, set_at, any_below, find_device, update, pirq_of, has_pin,
  bridge_set_irq, is_masked,
}

-- Each bit is that of a device that holds the line, and a wired line was last set to the
-- disjunction of its bits.
pub record IsRouted (bus : PciBus) : Type 0 where
  pub bits : (line devfn : ℕ) → bus.bridge.asserted line devfn ≡ wants bus.devices line devfn
  pub lines :
      (line : ℕ)
      → bus.bridge.wired line ≡ true
      → bus.bridge.level line ≡ any_below 256 (bus.bridge.asserted line)

set_at-same : {A : Type 0} (f : ℕ → A) (i j : ℕ) (v : A) → j ≡ i → set_at f i v j ≡ v
set_at-same f i j v e = ground arith

set_at-other : {A : Type 0} (f : ℕ → A) (i j : ℕ) (v : A) → j ≢ i → set_at f i v j ≡ f j
set_at-other f i j v ne = ground arith

if_true : {A : Type 0} (c : Bool) (x y : A) → c ≡ true → (if c then x else y) ≡ x
if_true c x y e = rw e

if_false : {A : Type 0} (c : Bool) (x y : A) → c ≡ false → (if c then x else y) ≡ y
if_false c x y e = rw e

-- The bits and lines after the bridge has taken a level.
module _ (b : Bridge) (new : PciDevice) (level : Bool) (pin : has_pin new ≡ true) where
  abbrev bits_after : ℕ → ℕ → Bool
  bits_after = set_at b.asserted (pirq_of new) (set_at (b.asserted (pirq_of new)) new.devfn level)

  taken : bridge_set_irq b new level ≡ record b {
    asserted = bits_after;
    level =
        (if b.wired (pirq_of new)
          then set_at b.level (pirq_of new) (any_below 256 (bits_after (pirq_of new)))
          else b.level);
  }
  unfolding bridge_set_irq
  taken = if_true (has_pin new) _ _ pin

  asserted-here :
      (line s : ℕ)
      → line ≡ pirq_of new
      → s ≡ new.devfn
      → (bridge_set_irq b new level).asserted line s ≡ level
  asserted-here line s e f =
      ap (λ r. r.asserted line s) taken
      ∙ ap (λ f. f s) (set_at-same b.asserted (pirq_of new) line _ e)
      ∙ set_at-same (b.asserted (pirq_of new)) new.devfn s level f

  asserted-elsewhere :
      (line s : ℕ)
      → (line ≡ pirq_of new → s ≢ new.devfn)
      → (bridge_set_irq b new level).asserted line s ≡ b.asserted line s
  asserted-elsewhere line s ne =
      ap (λ r. r.asserted line s) taken ∙ elim (ℕ_discrete line (pirq_of new)) [
        | yes e ↦
            ap (λ f. f s) (set_at-same b.asserted (pirq_of new) line _ e)
            ∙ set_at-other (b.asserted (pirq_of new)) new.devfn s level (ne e)
            ∙ ap (λ k. b.asserted k s) (sym e)
        | no d ↦ ap (λ f. f s) (set_at-other b.asserted (pirq_of new) line _ d)
      ]

  level_after :
      (line : ℕ)
      → (b.wired line ≡ true → b.level line ≡ any_below 256 (b.asserted line))
      → b.wired line ≡ true
      → (if b.wired (pirq_of new)
            then set_at b.level (pirq_of new) (any_below 256 (bits_after (pirq_of new)))
            else b.level)
          line
        ≡ any_below 256 (bits_after line)
  level_after line before wired = elim (ℕ_discrete line (pirq_of new)) [
    | yes e ↦
        ap (λ (f : ℕ → Bool). f line)
          (if_true (b.wired (pirq_of new)) _ _ (ap b.wired (sym e) ∙ wired))
        ∙ set_at-same b.level (pirq_of new) line _ e
        ∙ ap (λ k. any_below 256 (bits_after k)) (sym e)
    | no d ↦
        unmoved line d
        ∙ before wired
        ∙ ap (any_below 256) (sym (set_at-other b.asserted (pirq_of new) line _ d))
  ]
    where
      unmoved :
          (line : ℕ)
          → line ≢ pirq_of new
          → (if b.wired (pirq_of new)
                then set_at b.level (pirq_of new) (any_below 256 (bits_after (pirq_of new)))
                else b.level)
              line
            ≡ b.level line
      unmoved line d = elim (Bool-cases (b.wired (pirq_of new))) [
        | inl on ↦
            ap (λ (f : ℕ → Bool). f line) (if_true (b.wired (pirq_of new)) _ _ on)
            ∙ set_at-other b.level (pirq_of new) line _ d
        | inr off ↦ rw off
      ]

holds-off : (d : PciDevice) (line : ℕ) → has_pin d ≡ false → holds d line ≡ false
holds-off d line e = ap (λ b. b && (pirq_of d == line && (d.irq_level && not (is_masked d)))) e

and_off : (a b c : Bool) → b ≡ false → a && (b && c) ≡ false
and_off true b c e = ap (λ b. b && c) e
and_off false b c e = refl

and_on : (a b c : Bool) → a ≡ true → b ≡ true → a && (b && c) ≡ c
and_on a b c e f = ap (λ a. a && (b && c)) e ∙ ap (λ b. b && c) f

eq_no : (a b : ℕ) → b ≢ a → (a == b) ≡ false
eq_no a b ne = ground arith

eq_yes : (a b : ℕ) → b ≡ a → (a == b) ≡ true
eq_yes a b e = ground arith

holds-other : (d : PciDevice) (line : ℕ) → line ≢ pirq_of d → holds d line ≡ false
holds-other d line ne = and_off (has_pin d) (pirq_of d == line) _ (eq_no (pirq_of d) line ne)

holds-line :
    (d : PciDevice) (line : ℕ)
    → has_pin d ≡ true
    → line ≡ pirq_of d
    → holds d line ≡ d.irq_level && not (is_masked d)
holds-line d line pin e = and_on (has_pin d) (pirq_of d == line) _ pin (eq_yes (pirq_of d) line e)

untaken :
    (b : Bridge) (new : PciDevice) (level : Bool)
    → has_pin new ≡ false
    → bridge_set_irq b new level ≡ b
unfolding bridge_set_irq
untaken b new level off = if_false (has_pin new) _ _ off

same_pins :
    (d new : PciDevice)
    → new.devfn ≡ d.devfn
    → new.interrupt_pin ≡ d.interrupt_pin
    → (has_pin new ≡ has_pin d) × (pirq_of new ≡ pirq_of d)
same_pins d new e f = (ap (λ p. not (p == 0) && not (ltb 4 p)) f, omega arith)

-- A device of the bus changes, and the bridge takes its new level.
module _ (bus : PciBus) (devfn : ℕ) (d new : PciDevice) (v : IsRouted bus)
    (found : find_device bus.devices devfn ≡ some d) (same : new.devfn ≡ devfn)
    (pin : new.interrupt_pin ≡ d.interrupt_pin) where
  abbrev now : Bool
  now = new.irq_level && not (is_masked new)

  abbrev after : List PciDevice
  after = update devfn new bus.devices

  pins : (has_pin new ≡ has_pin d) × (pirq_of new ≡ pirq_of d)
  pins = same_pins d new (same ∙ sym (find_device-devfn bus.devices devfn d found)) pin

  wants_before : (line s : ℕ) → s ≡ devfn → wants bus.devices line s ≡ holds d line
  wants_before line s e = ap (wants bus.devices line) e ∙ wants-some bus.devices line devfn d found

  wants-after : (line s : ℕ) → s ≡ devfn → wants after line s ≡ holds new line
  wants-after line s e =
      ap (wants after line) e ∙ wants-update_same bus.devices line devfn d new found same

  bits_on :
      (line s : ℕ)
      → has_pin new ≡ true
      → (bridge_set_irq bus.bridge new now).asserted line s ≡ wants after line s
  bits_on line s on = elim (ℕ_discrete s devfn) [
    | no ne ↦
        asserted-elsewhere bus.bridge new now on line s (λ _ k. ne (k ∙ same))
        ∙ v.bits line s
        ∙ sym (wants-update_other bus.devices line devfn s new same ne)
    | yes e ↦ elim (ℕ_discrete line (pirq_of new)) [
      | yes l ↦
          asserted-here bus.bridge new now on line s l (e ∙ sym same)
          ∙ sym (wants-after line s e ∙ holds-line new line on l)
      | no far ↦
          asserted-elsewhere bus.bridge new now on line s (λ l. absurd (far l))
          ∙ v.bits line s
          ∙ wants_before line s e
          ∙ holds-other d line (λ k. far (k ∙ sym pins.1))
          ∙ sym (wants-after line s e ∙ holds-other new line far)
    ]
  ]

  bits_off :
      (line s : ℕ)
      → has_pin new ≡ false
      → (bridge_set_irq bus.bridge new now).asserted line s ≡ wants after line s
  bits_off line s off =
      ap (λ r. r.asserted line s) (untaken bus.bridge new now off)
      ∙ v.bits line s
      ∙ elim (ℕ_discrete s devfn) [
        | no ne ↦ sym (wants-update_other bus.devices line devfn s new same ne)
        | yes e ↦
            wants_before line s e
            ∙ holds-off d line (sym pins.0 ∙ off)
            ∙ sym (wants-after line s e ∙ holds-off new line off)
      ]

  pub taken-IsRouted :
      (io : IoMap)
      → IsRouted
          (record bus { devices = after; bridge = bridge_set_irq bus.bridge new now; io_map = io })
  taken-IsRouted io = elim (Bool-cases (has_pin new)) [
    | inl on ↦ record {
      bits = λ line s. bits_on line s on;
      lines = λ line wired.
          ap (λ r. r.level line) (taken bus.bridge new now on)
          ∙ level_after bus.bridge new now on line (v.lines line)
              (ap (λ r. r.wired line) (sym (taken bus.bridge new now on)) ∙ wired)
          ∙ ap (λ r. any_below 256 (r.asserted line)) (sym (taken bus.bridge new now on));
    }
    | inr off ↦ record {
      bits = λ line s. bits_off line s off;
      lines =
          subst
            (λ r. (line : ℕ) → r.wired line ≡ true → r.level line ≡ any_below 256 (r.asserted line))
            (sym (untaken bus.bridge new now off)) v.lines;
    }
  ]
