-- ===== src/Pci/Devices.antt =====
-- The devices of a bus by their number, and the lines that they hold.
use modvm.Prelude.{
  ℕ, ◌≡◌, ◌≢◌, refl, Bool, false, ◌&&◌, not, List, [], ◌∷◌, none, some, arith, ap, ◌==◌,
}
use modvm.Pci.{PciDevice, find_device, update, pirq_of, has_pin, is_masked}

-- A device holds a line.
abbrev pub holds : PciDevice → ℕ → Bool
holds d line = has_pin d && (pirq_of d == line && (d.irq_level && not (is_masked d)))

-- The device at `devfn`, if there is one, holds a line.
abbrev pub wants : List PciDevice → ℕ → ℕ → Bool
wants ds line devfn = elim (find_device ds devfn) [ none ↦ false | some d ↦ holds d line ]

pub find-update_same :
    (ds : List PciDevice) (devfn : ℕ) (d new : PciDevice)
    → find_device ds devfn ≡ some d
    → new.devfn ≡ devfn
    → find_device (update devfn new ds) devfn ≡ some new
unfolding find_device update
find-update_same [] devfn d new e same = absurd (ground arith)
find-update_same (c ∷ cs) devfn d new e same = ground (arith, find-update_same cs devfn d new)

pub find-update_other :
    (ds : List PciDevice) (devfn other : ℕ) (new : PciDevice)
    → new.devfn ≡ devfn
    → other ≢ devfn
    → find_device (update devfn new ds) other ≡ find_device ds other
unfolding find_device update
find-update_other [] devfn other new same ne = refl
find-update_other (c ∷ cs) devfn other new same ne =
    ground (arith, find-update_other cs devfn other new)

pub find_device-devfn :
    (ds : List PciDevice) (devfn : ℕ) (d : PciDevice)
    → find_device ds devfn ≡ some d
    → d.devfn ≡ devfn
unfolding find_device
find_device-devfn [] devfn d e = absurd (ground arith)
find_device-devfn (c ∷ cs) devfn d e = ground (arith, find_device-devfn cs devfn d)

pub wants-some :
    (ds : List PciDevice) (line devfn : ℕ) (d : PciDevice)
    → find_device ds devfn ≡ some d
    → wants ds line devfn ≡ holds d line
wants-some ds line devfn d e =
    ap (λ o. elim o as (λ _. Bool) [ none ↦ false | some d ↦ holds d line ]) e

pub wants-update_same :
    (ds : List PciDevice) (line devfn : ℕ) (d new : PciDevice)
    → find_device ds devfn ≡ some d
    → new.devfn ≡ devfn
    → wants (update devfn new ds) line devfn ≡ holds new line
wants-update_same ds line devfn d new e same =
    wants-some (update devfn new ds) line devfn new (find-update_same ds devfn d new e same)

pub wants-update_other :
    (ds : List PciDevice) (line devfn other : ℕ) (new : PciDevice)
    → new.devfn ≡ devfn
    → other ≢ devfn
    → wants (update devfn new ds) line other ≡ wants ds line other
wants-update_other ds line devfn other new same ne =
    ap (λ o. elim o as (λ _. Bool) [ none ↦ false | some d ↦ holds d line ])
      (find-update_other ds devfn other new same ne)
