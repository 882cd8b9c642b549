-- ===== src/Pci/Placed.antt =====
-- The BARs after each write of the guest to the configuration space.
use modvm.Prelude.{
  ℕ, zero, suc, ◌+◌, ◌/◌, ◌%◌, ◌≤◌, ◌<◌, ◌≡◌, ◌≢◌, refl, inl, inr, Bool, false, ◌&&◌, not, List,
  none, some, arith, get_or, ap, sym, ◌∙◌, subst, Option-cases, if_cases, ltb, ◌!=◌, bit_and,
}
use modvm.IoMap.{IoRegion}
use modvm.Pci.{
  PciDevice, PciBus, Bridge, find_device, update, set_irq, write_byte, write_bytes, enable_bars,
  write_header, is_masked, bridge_set_irq,
}
use modvm.Pci.Devices.{find_device-devfn}
use modvm.Pci.Routed.{
  set_irq-none, set_irq-some, write_header-none, write_header-some, write_bytes-Kept,
}
use modvm.Pci.Regions.{enable_bars-own, enable_bars-other}
use modvm.Pci.Bars.{Shows-same, Seen, IsPlaced, memory_on, stored-IsPlaced}

-- The registers that the BARs read are as they were.
abbrev pub SameBars : PciDevice → PciDevice → Type 0
SameBars d new = (off : ℕ) → 0x10 ≤ off → off < 0x28 → new.config_space off ≡ d.config_space off

Seen-same :
    (rs : List IoRegion) (bar self : ℕ) (d new : PciDevice)
    → SameBars d new
    → new.config_space 4 ≡ d.config_space 4
    → Seen rs bar self d
    → Seen rs bar self new
Seen-same rs bar self d new bars command s = record {
  region = s.region;
  found = s.found;
  space = s.space;
  at_bar = s.at_bar;
  shows = Shows-same d.config_space new.config_space bar s.region.base s.at_bar bars s.shows;
  enabled = s.enabled ∙ ap (λ c. bit_and c 2 != 0) (sym command);
}

-- A store to a device that leaves the regions, its BARs and its command register.
pub kept-IsPlaced :
    (bus : PciBus) (devfn : ℕ) (d new : PciDevice) (bridge : Bridge)
    → find_device bus.devices devfn ≡ some d
    → new.devfn ≡ d.devfn
    → new.bars ≡ d.bars
    → SameBars d new
    → new.config_space 4 ≡ d.config_space 4
    → IsPlaced bus
    → IsPlaced (record bus { devices = update devfn new bus.devices; bridge = bridge })
kept-IsPlaced bus devfn d new bridge e number bars same command p =
    stored-IsPlaced bus devfn d new bus.io_map bridge e
      (number ∙ find_device-devfn bus.devices devfn d e) bars p
      (λ bar self at s. Seen-same bus.io_map.mmio_regions bar self d new same command s)
      (λ self r k. inl k)

pub set_irq-IsPlaced :
    (bus : PciBus) (devfn : ℕ) (level : Bool) → IsPlaced bus → IsPlaced (set_irq bus devfn level)
set_irq-IsPlaced bus devfn level p = elim (Option-cases (find_device bus.devices devfn)) [
  | inl e ↦ subst IsPlaced (sym (set_irq-none bus devfn level e)) p
  | inr (d, e) ↦ subst IsPlaced (sym (set_irq-some bus devfn level d e)) (
      kept-IsPlaced bus devfn d (record d { irq_level = level })
        (bridge_set_irq bus.bridge (record d { irq_level = level }) (level && not (is_masked d))) e
        refl refl (λ off lo hi. refl) refl p)
]

-- What a write to the header leaves of a device.
write_byte-bars : (d : PciDevice) (off byte : ℕ) → (write_byte d off byte).bars ≡ d.bars
unfolding write_byte
write_byte-bars d off byte = ground arith

write_byte-SameBars : (d : PciDevice) (off byte : ℕ) → SameBars d (write_byte d off byte)
unfolding write_byte
write_byte-SameBars d off byte at lo hi = ground arith

write_bytes-bars : (n : ℕ) (d : PciDevice) (off val : ℕ) → (write_bytes n d off val).bars ≡ d.bars
unfolding write_bytes
write_bytes-bars zero d off val = refl
write_bytes-bars (suc n) d off val =
    write_bytes-bars n (write_byte d off (val % 256)) (off + 1) (val / 256)
    ∙ write_byte-bars d off (val % 256)

write_bytes-SameBars : (n : ℕ) (d : PciDevice) (off val : ℕ) → SameBars d (write_bytes n d off val)
unfolding write_bytes
write_bytes-SameBars zero d off val at lo hi = refl
write_bytes-SameBars (suc n) d off val at lo hi =
    write_bytes-SameBars n (write_byte d off (val % 256)) (off + 1) (val / 256) at lo hi
    ∙ write_byte-SameBars d off (val % 256) at lo hi

write_byte-command :
    (d : PciDevice) (off byte : ℕ)
    → off ≢ 4
    → (write_byte d off byte).config_space 4 ≡ d.config_space 4
unfolding write_byte
write_byte-command d off byte ne = ground arith

write_bytes-command :
    (n : ℕ) (d : PciDevice) (off val : ℕ)
    → ltb off 6 && ltb 4 (off + n) ≡ false
    → (write_bytes n d off val).config_space 4 ≡ d.config_space 4
unfolding write_bytes
write_bytes-command zero d off val out = refl
write_bytes-command (suc n) d off val out =
    write_bytes-command n (write_byte d off (val % 256)) (off + 1) (val / 256) (ground arith)
    ∙ write_byte-command d off (val % 256) (ground arith)

-- The regions of the device follow its Memory Space bit.
enabled-IsPlaced :
    (bus : PciBus) (devfn : ℕ) (d new : PciDevice)
    → find_device bus.devices devfn ≡ some d
    → new.devfn ≡ d.devfn
    → new.bars ≡ d.bars
    → SameBars d new
    → IsPlaced bus
    → IsPlaced (record bus {
      devices = update devfn new bus.devices;
      io_map = enable_bars new.bars (memory_on new) bus.io_map;
    })
enabled-IsPlaced bus devfn d new e number bars same p =
    stored-IsPlaced bus devfn d new (enable_bars new.bars (memory_on new) bus.io_map) bus.bridge e
      (number ∙ find_device-devfn bus.devices devfn d e) bars p
      (λ bar self at s. record {
        region = record (s.region) { enabled = memory_on new };
        found =
            enable_bars-own new.bars (memory_on new) bus.io_map bar self s.region
              (ap (λ b. get_or b bar none) bars ∙ at) s.found;
        space = s.space;
        at_bar = s.at_bar;
        shows = Shows-same d.config_space new.config_space bar s.region.base s.at_bar same s.shows;
        enabled = refl;
      })
      (λ self r k. elim (enable_bars-other new.bars (memory_on new) bus.io_map self r k) [
        | inl stays ↦ inl stays
        | inr (bar, at) ↦ inr (
          bar,
          record { device = d; found = e; at_bar = ap (λ b. get_or b bar none) (sym bars) ∙ at },
        )
      ])

pub write_header-IsPlaced :
    (bus : PciBus) (devfn offset val size : ℕ)
    → IsPlaced bus
    → IsPlaced (write_header bus devfn offset val size)
write_header-IsPlaced bus devfn offset val size p =
    elim (Option-cases (find_device bus.devices devfn)) [
      | inl e ↦ subst IsPlaced (sym (write_header-none bus devfn offset val size e)) p
      | inr (d, e) ↦
          let w = write_bytes size d offset val in
          let number = (write_bytes-Kept size d offset val).devfn in
          let bars = write_bytes-bars size d offset val in
          let same = write_bytes-SameBars size d offset val in
          subst IsPlaced (sym (write_header-some bus devfn offset val size d e)) (
            if_cases IsPlaced (ltb offset 6 && ltb 4 (offset + size)) _ _
              (λ on.
                set_irq-IsPlaced _ devfn w.irq_level
                  (enabled-IsPlaced bus devfn d w e number bars same p))
              (λ out.
                kept-IsPlaced bus devfn d w bus.bridge e number bars same
                  (write_bytes-command size d offset val out) p))
    ]
