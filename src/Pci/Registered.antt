-- ===== src/Pci/Registered.antt =====
-- What `pci_register_bar_locked` does on each of its branches.
use modvm.Prelude.{
  if_cases, ℕ, ◌-◌, ◌%◌, ◌≤◌, ◌<◌, ◌≡◌, ◌≢◌, ◌^◌, refl, ◌⊎◌, inl, inr, false, ◌||◌, List, Option,
  none, some, arith, All, get_or, length, ap, sym, ◌∙◌, subst, Option-cases, ltb, leb, ◌!=◌,
  bit_and, if◌then◌else◌,
}
use modvm.Prelude.Errno.{Result, ok, err, einval, eexist, enospc}
use modvm.Prelude.Masks.{power_of_two}
use native.Mathlib.Nat.{pow-le-pow_right}
use modvm.Memory.{MemRegion}
use modvm.IoMap.{Device, mmio, regions, register_region}
use modvm.IoMap.Topology.{IsTopology}
use modvm.IoMap.Topology.Preserve.{register_region-IsTopology, added}
use modvm.Pci.{PciDevice, PciBus, find_device}
use modvm.Pci.Devices.{find_device-devfn}
use modvm.Pci.Bars.{Owns}
use modvm.Pci.Window.Lowest.{find_base-IsLowest}
use modvm.Pci.Register.{bar_base, place_bar, finish_bar, register_bar}
use modvm.Pci.Attached.{attach_bar-IsSound, attach_bar-Owns}
use modvm.Pci.Allocated.{register_region_cases}
use modvm.Pci.Sound.{IsSound}

base_lt :
    (base size : ℕ)
    → 0 < size
    → base % size != 0 || ltb (2 ^ 32 - size) base ≡ false
    → base < 2 ^ 32
base_lt base size pos fine = ground arith

size_test :
    (index size shared : ℕ)
    → leb 6 index || (ltb size 16 || shared != 0) ≡ false
    → (index < 6) × (0 < size) × (shared ≡ 0)
size_test index size shared fine = ground arith

k_cases : (k : ℕ) → (k ≤ 31) ⊎ (32 ≤ k)
k_cases k = ground arith

exponent_le : (size k : ℕ) → size < 2 ^ 32 → size ≡ 2 ^ k → k ≤ 31
exponent_le size k word e = elim (k_cases k) [
  | inl le ↦ le
  | inr ge ↦
      let wide : 2 ^ 32 ≤ 2 ^ k = pow-le-pow_right {n = 2} (omega arith) {i = 32} {j = k} ge in
      absurd (omega (arith, e, wide))
]

-- A size that passes the test is a power of two up to 2 GiB.
size_cases :
    (index size : ℕ)
    → size < 2 ^ 32
    → leb 6 index || (ltb size 16 || bit_and size (size - 1) != 0) ≡ false
    → (index < 6) × (0 < size) × (k : ℕ) × (size ≡ 2 ^ k) × (k ≤ 31)
size_cases index size word fine =
    let (lt, pos, none_shared) : (index < 6) × (0 < size) × (bit_and size (size - 1) ≡ 0) =
      size_test index size _ fine in
    let (k, e) = power_of_two size pos none_shared in (lt, pos, k, e, exponent_le size k word e)

module _ (ram : List MemRegion) (mmio_base mmio_limit : ℕ) (calloc_region calloc_action : Option ℕ)
    (bus : PciBus) (v : IsSound ram bus)
    (fresh : (a : ℕ) → calloc_region ≡ some a → All (λ q. q.self ≢ a) bus.io_map.mmio_regions) where
  -- It fails and leaves the bus, or the BAR has a new region.
  abbrev pub BarOutcome : ℕ → ℕ → Option (PciBus × Device × ℕ) → Type 0
  BarOutcome devfn index o =
      (now : PciBus) × (owner : Device) × (ret : ℕ) × (o ≡ some (now, owner, ret))
      × IsSound ram now
      × (((ret ≢ 0) × (now ≡ bus))
          ⊎ ((ret ≡ 0) × (a : ℕ) × (calloc_region ≡ some a) × Owns now devfn index a))

  failed-BarOutcome :
      (devfn index e : ℕ) (owner : Device) → e ≢ 0 → BarOutcome devfn index (some (bus, owner, e))
  failed-BarOutcome devfn index e owner ne = (bus, owner, e, refl, v, inl (ne, refl))

  module _ (d : PciDevice) (e : find_device bus.devices d.devfn ≡ some d) (index : ℕ)
      (lt : index < 6) (six : length d.bars ≡ 6) (vacant : get_or d.bars index none ≡ none) where
    finish_bar-BarOutcome :
        (base size : ℕ) (owner : Device)
        → base < 2 ^ 32
        → size < 2 ^ 64
        → BarOutcome d.devfn index (
            some (
              finish_bar bus d index base
                (register_region ram calloc_region calloc_action bus.io_map mmio base size owner)))
    unfolding finish_bar regions
    finish_bar-BarOutcome base size owner small word =
        register_region_cases ram calloc_region calloc_action
          (λ t.
            IsTopology (t.0) ram → BarOutcome d.devfn index (some (finish_bar bus d index base t)))
          bus.io_map base size owner (λ o ret ne t. (bus, o, ret, refl, v, inl (ne, refl)))
          (λ o a is t.
            let r = added bus.io_map ram mmio base size owner a in
            (
              _,
              o,
              0,
              refl,
              attach_bar-IsSound bus d index base r e lt six vacant refl refl small (fresh a is) ram
                  t v,
              inr (
                refl,
                a,
                is,
                attach_bar-Owns bus d index base r e lt six vacant refl refl small (fresh a is),
              ),
            ))
          (register_region-IsTopology bus.io_map ram mmio base size owner calloc_region
            calloc_action word v.topology fresh)

    place_bar-BarOutcome :
        (size : ℕ) (owner : Device) (o : Option (Result ℕ))
        → 0 < size
        → size < 2 ^ 32
        → ((b : ℕ) × (o ≡ some (ok b))) ⊎ ((ret : ℕ) × (ret ≢ 0) × (o ≡ some (err ret)))
        → BarOutcome d.devfn index (
            place_bar ram mmio_base mmio_limit calloc_region calloc_action bus d index size owner o)
    unfolding place_bar
    place_bar-BarOutcome size owner o pos word ends = elim ends [
      | inl (base, is) ↦
          subst
            (λ x. BarOutcome d.devfn index (
              place_bar ram mmio_base mmio_limit calloc_region calloc_action bus d index size owner
                x))
            (sym is)
            (if_cases (BarOutcome d.devfn index) (base % size != 0 || ltb (2 ^ 32 - size) base) _ _
              (λ bad. failed-BarOutcome d.devfn index einval owner (omega arith))
              (λ fine.
                finish_bar-BarOutcome base size owner (base_lt base size pos fine) (omega arith)))
      | inr (ret, ne, is) ↦
          subst
            (λ x. BarOutcome d.devfn index (
              place_bar ram mmio_base mmio_limit calloc_region calloc_action bus d index size owner
                x))
            (sym is) (failed-BarOutcome d.devfn index ret owner ne)
    ]

  bar_base_ends :
      (size k : ℕ) (requested : Option ℕ)
      → size ≡ 2 ^ k
      → k ≤ 31
      → let o =
          bar_base ram mmio_base mmio_limit calloc_region calloc_action bus.io_map size requested in
        ((b : ℕ) × (o ≡ some (ok b))) ⊎ ((ret : ℕ) × (ret ≢ 0) × (o ≡ some (err ret)))
  unfolding bar_base
  bar_base_ends size k (some base) power le = inl (base, refl)
  bar_base_ends size k none power le =
      elim (find_base-IsLowest bus.io_map.mmio_regions ram size mmio_limit k power le
        v.topology.memory.fit v.topology.ram_fit (2 ^ 32) mmio_base (omega arith)) [
          | inl (b, is, from, fits, free, lowest) ↦ inl (b, is)
          | inr (is, full) ↦ inr (enospc, omega arith, is)
        ]

  vacant_cases :
      (devfn index : ℕ) (owner : Device) (o : Option ℕ) (placed : Option (PciBus × Device × ℕ))
      → (o ≡ none → BarOutcome devfn index placed)
      → BarOutcome devfn index (elim o [ some self ↦ some (bus, owner, eexist) | none ↦ placed ])
  vacant_cases devfn index owner none placed go = go refl
  vacant_cases devfn index owner (some self) placed go =
      failed-BarOutcome devfn index eexist owner (omega arith)

  register_bar-none :
      (devfn index size : ℕ) (requested : Option ℕ) (owner : Device)
      → find_device bus.devices devfn ≡ none
      → register_bar ram mmio_base mmio_limit calloc_region calloc_action bus devfn index size
          requested owner
        ≡ some (bus, owner, einval)
  unfolding register_bar
  register_bar-none devfn index size requested owner e = rw (e, register_bar) refl

  register_bar-some :
      (devfn index size : ℕ) (requested : Option ℕ) (owner : Device) (d : PciDevice)
      → find_device bus.devices devfn ≡ some d
      → register_bar ram mmio_base mmio_limit calloc_region calloc_action bus devfn index size
          requested owner
        ≡ (if leb 6 index || (ltb size 16 || bit_and size (size - 1) != 0)
            then some (bus, owner, einval)
            else elim (get_or d.bars index none) as (λ _. Option (PciBus × Device × ℕ)) [
              | some self ↦ some (bus, owner, eexist)
              | none ↦
                  place_bar ram mmio_base mmio_limit calloc_region calloc_action bus d index size
                    owner
                    (bar_base ram mmio_base mmio_limit calloc_region calloc_action bus.io_map size
                      requested)
            ])
  unfolding register_bar
  register_bar-some devfn index size requested owner d e = rw (e, register_bar) refl

  -- Registering a BAR on a sound bus returns, whatever the index, the size and the base are, and
  -- the bus is sound after it: it fails and leaves the bus as it was, or the BAR has the region that
  -- was allocated. The allocator returns an address that no region has, and a device has six BARs.
  pub register_bar-BarOutcome :
      (devfn index size : ℕ) (requested : Option ℕ) (owner : Device)
      → size < 2 ^ 32
      → ((d : PciDevice) → find_device bus.devices devfn ≡ some d → length d.bars ≡ 6)
      → BarOutcome devfn index (
          register_bar ram mmio_base mmio_limit calloc_region calloc_action bus devfn index size
            requested owner)
  unfolding register_bar
  register_bar-BarOutcome devfn index size requested owner word six =
      elim (Option-cases (find_device bus.devices devfn)) [
        | inl none_there ↦
            subst (BarOutcome devfn index)
              (sym (register_bar-none devfn index size requested owner none_there))
              (failed-BarOutcome devfn index einval owner (omega arith))
        | inr (d, e) ↦
            let number = find_device-devfn bus.devices devfn d e in
            let own : find_device bus.devices d.devfn ≡ some d =
              ap (find_device bus.devices) number ∙ e in
            subst (BarOutcome devfn index)
              (sym (register_bar-some devfn index size requested owner d e))
              (if_cases (BarOutcome devfn index)
                (leb 6 index || (ltb size 16 || bit_and size (size - 1) != 0)) _ _
                (λ bad. failed-BarOutcome devfn index einval owner (omega arith))
                (λ fine.
                  let (lt, pos, k, power, le) = size_cases index size word fine in
                  vacant_cases devfn index owner (get_or d.bars index none) _ (λ vacant.
                    subst
                      (λ n. BarOutcome n index (
                        place_bar ram mmio_base mmio_limit calloc_region calloc_action bus d index
                          size owner
                          (bar_base ram mmio_base mmio_limit calloc_region calloc_action bus.io_map
                            size requested)))
                      number
                      (place_bar-BarOutcome d own index lt (six d e) vacant size owner _ pos word
                        (bar_base_ends size k requested power le)))))
      ]
