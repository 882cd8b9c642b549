-- ===== src/Pci/Routed.antt =====
-- The interrupt lines after each operation of the bus.
use modvm.Prelude.{
  ℕ, zero, suc, ◌+◌, ◌/◌, ◌%◌, ◌≡◌, ◌≢◌, refl, Bool, false, ◌&&◌, not, List, [], ◌∷◌, none, some,
  arith, Option-cases, if_cases, if◌then◌else◌, inl, inr, sym, ap, ◌∙◌, subst, ◌==◌, ltb, ◌-◌,
  bit_and, ◌!=◌,
}
use native.Mathlib.Decide.{ℕ_discrete}
use modvm.IoMap.{IoMap}
use modvm.Pci.{
  PciDevice, PciBus, find_device, update, bridge_set_irq, is_masked, set_irq, write_byte,
  write_bytes, enable_bars, write_header,
}
use modvm.Pci.Lines.{IsRouted, taken-IsRouted}
use modvm.Pci.Devices.{
  holds, wants, find_device-devfn, find-update_same, wants-some, wants-update_same,
  wants-update_other,
}

update-update :
    (ds : List PciDevice) (devfn : ℕ) (old new : PciDevice)
    → old.devfn ≡ devfn
    → update devfn new (update devfn old ds) ≡ update devfn new ds
unfolding update
update-update [] devfn old new e = refl
update-update (c ∷ cs) devfn old new e = ground (arith, update-update cs devfn old new e)

pub set_irq-none :
    (bus : PciBus) (devfn : ℕ) (level : Bool)
    → find_device bus.devices devfn ≡ none
    → set_irq bus devfn level ≡ bus
unfolding set_irq
set_irq-none bus devfn level e = rw (e, set_irq)

pub set_irq-some :
    (bus : PciBus) (devfn : ℕ) (level : Bool) (d : PciDevice)
    → find_device bus.devices devfn ≡ some d
    → set_irq bus devfn level ≡ record bus {
      devices = update devfn (record d { irq_level = level }) bus.devices;
      bridge =
          bridge_set_irq bus.bridge (record d { irq_level = level }) (level && not (is_masked d));
    }
unfolding set_irq
set_irq-some bus devfn level d e = rw (e, set_irq)

-- Setting a device's level keeps each line routed: its bits are those of the devices that hold it,
-- and a wired line was last set to the disjunction of its bits.
pub set_irq-IsRouted :
    (bus : PciBus) (devfn : ℕ) (level : Bool) → IsRouted bus → IsRouted (set_irq bus devfn level)
set_irq-IsRouted bus devfn level v = elim (Option-cases (find_device bus.devices devfn)) [
  | inl e ↦ subst IsRouted (sym (set_irq-none bus devfn level e)) v
  | inr (d, e) ↦ subst IsRouted (sym (set_irq-some bus devfn level d e)) (
      taken-IsRouted bus devfn d (record d { irq_level = level }) v e
        (find_device-devfn bus.devices devfn d e) refl bus.io_map)
]

-- What a write to the header leaves of a device.
pub record Kept (d w : PciDevice) : Type 0 where
  pub devfn : w.devfn ≡ d.devfn
  pub pin : w.interrupt_pin ≡ d.interrupt_pin
  pub level : w.irq_level ≡ d.irq_level

write_byte-Kept : (d : PciDevice) (off byte : ℕ) → Kept d (write_byte d off byte)
unfolding write_byte
write_byte-Kept d off byte = ground arith

pub write_bytes-Kept : (n : ℕ) (d : PciDevice) (off val : ℕ) → Kept d (write_bytes n d off val)
unfolding write_bytes
write_bytes-Kept zero d off val = record { devfn = refl; pin = refl; level = refl }
write_bytes-Kept (suc n) d off val =
    let k = write_bytes-Kept n (write_byte d off (val % 256)) (off + 1) (val / 256) in
    let b = write_byte-Kept d off (val % 256) in
    record { devfn = k.devfn ∙ b.devfn; pin = k.pin ∙ b.pin; level = k.level ∙ b.level }

write_byte-mask :
    (d : PciDevice) (off byte : ℕ)
    → off ≢ 5
    → (write_byte d off byte).config_space 5 ≡ d.config_space 5
unfolding write_byte
write_byte-mask d off byte ne = ground arith

write_bytes-mask :
    (n : ℕ) (d : PciDevice) (off val : ℕ)
    → ltb off 6 && ltb 4 (off + n) ≡ false
    → (write_bytes n d off val).config_space 5 ≡ d.config_space 5
unfolding write_bytes
write_bytes-mask zero d off val out = refl
write_bytes-mask (suc n) d off val out =
    write_bytes-mask n (write_byte d off (val % 256)) (off + 1) (val / 256) (ground arith)
    ∙ write_byte-mask d off (val % 256) (ground arith)

abbrev held_by : ℕ → ℕ → Bool → ℕ → ℕ → Bool
held_by devfn pin level command line =
    (not (pin == 0) && not (ltb 4 pin))
    && ((devfn / 8 + pin - 1) % 4 == line && (level && not (bit_and command 4 != 0)))

holds-Kept :
    (d w : PciDevice) (line : ℕ)
    → Kept d w
    → w.config_space 5 ≡ d.config_space 5
    → holds w line ≡ holds d line
holds-Kept d w line k mask =
    ap (λ x. held_by x w.interrupt_pin w.irq_level (w.config_space 5) line) k.devfn
    ∙ ap (λ x. held_by d.devfn x w.irq_level (w.config_space 5) line) k.pin
    ∙ ap (λ x. held_by d.devfn d.interrupt_pin x (w.config_space 5) line) k.level
    ∙ ap (λ x. held_by d.devfn d.interrupt_pin d.irq_level x line) mask

-- The devices hold the same lines, and the bridge is as it was.
pub unmasked-IsRouted :
    (bus : PciBus) (devfn : ℕ) (d w : PciDevice)
    → IsRouted bus
    → find_device bus.devices devfn ≡ some d
    → Kept d w
    → w.config_space 5 ≡ d.config_space 5
    → IsRouted (record bus { devices = update devfn w bus.devices })
unmasked-IsRouted bus devfn d w v e k mask =
    let same = k.devfn ∙ find_device-devfn bus.devices devfn d e in
    record {
      bits = λ line s. v.bits line s ∙ elim (ℕ_discrete s devfn) [
        | no ne ↦ sym (wants-update_other bus.devices line devfn s w same ne)
        | yes at ↦
            ap (wants bus.devices line) at
            ∙ wants-some bus.devices line devfn d e
            ∙ sym (
                ap (wants (update devfn w bus.devices) line) at
                ∙ wants-update_same bus.devices line devfn d w e same
                ∙ holds-Kept d w line k mask)
      ];
      lines = v.lines;
    }

remasked-IsRouted :
    (bus : PciBus) (devfn : ℕ) (d w : PciDevice) (io : IoMap)
    → IsRouted bus
    → find_device bus.devices devfn ≡ some d
    → Kept d w
    → IsRouted (
        set_irq
          (record bus { devices = update devfn w bus.devices; io_map = io })
          devfn
          w.irq_level)
remasked-IsRouted bus devfn d w io v e k =
    let same = k.devfn ∙ find_device-devfn bus.devices devfn d e in
    let now = find-update_same bus.devices devfn d w e same in
    let stored = record bus { devices = update devfn w bus.devices; io_map = io } in
    subst IsRouted (sym (set_irq-some stored devfn w.irq_level w now)) (
      subst
        (λ ds. IsRouted (record bus {
          devices = ds;
          bridge = bridge_set_irq bus.bridge w (w.irq_level && not (is_masked w));
          io_map = io;
        }))
        (sym (update-update bus.devices devfn w w same))
        (taken-IsRouted bus devfn d w v e same k.pin io))

pub write_header-some :
    (bus : PciBus) (devfn offset val size : ℕ) (d : PciDevice)
    → find_device bus.devices devfn ≡ some d
    → let w = write_bytes size d offset val in
      let stored = record bus { devices = update devfn w bus.devices } in
      write_header bus devfn offset val size ≡ (
        if ltb offset 6 && ltb 4 (offset + size)
        then set_irq
            (record stored {
              io_map = enable_bars w.bars (bit_and (w.config_space 4) 2 != 0) stored.io_map;
            })
            devfn
            w.irq_level
        else stored)
unfolding write_header
write_header-some bus devfn offset val size d e = rw (e, write_header)

pub write_header-none :
    (bus : PciBus) (devfn offset val size : ℕ)
    → find_device bus.devices devfn ≡ none
    → write_header bus devfn offset val size ≡ bus
unfolding write_header
write_header-none bus devfn offset val size e = rw (e, write_header)

-- A write of the guest to the header of a device, at any offset that is not a BAR's and of any size,
-- keeps each line routed, also where it sets or clears the bit that masks the device's interrupt.
pub write_header-IsRouted :
    (bus : PciBus) (devfn offset val size : ℕ)
    → IsRouted bus
    → IsRouted (write_header bus devfn offset val size)
write_header-IsRouted bus devfn offset val size v =
    elim (Option-cases (find_device bus.devices devfn)) [
      | inl e ↦ subst IsRouted (sym (write_header-none bus devfn offset val size e)) v
      | inr (d, e) ↦
          let w = write_bytes size d offset val in
          let k = write_bytes-Kept size d offset val in
          subst IsRouted (sym (write_header-some bus devfn offset val size d e)) (
            if_cases IsRouted (ltb offset 6 && ltb 4 (offset + size)) _ _
              (λ on. remasked-IsRouted bus devfn d w _ v e k)
              (λ out.
                unmasked-IsRouted bus devfn d w v e k (write_bytes-mask size d offset val out)))
    ]
