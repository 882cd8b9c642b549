-- ===== src/Pci/Joined.antt =====
-- A device that joins a bus changes no line and no BAR.
use modvm.Prelude.{
  ℕ, ◌*◌, ◌≡◌, refl, Bool, false, ◌||◌, not, List, [], ◌∷◌, ◌++◌, Option, none, some, arith, get_or,
  ltb, ◌==◌, ◌!=◌, branch_cases, Option-cases, Bool-cases, inl, inr, ◌⊎◌, ap, sym, ◌∙◌,
}
use mathlib.Core.Option.{some-injective}
use modvm.ResPool
use modvm.Prelude.Errno.{enospc}
use modvm.Memory.{MemRegion}
use modvm.IoMap.{Device}
use modvm.Pci.{PciDevice, PciBus, find_device}
use modvm.Pci.Endpoint.{
  Registration, devfn_taken, pci_unregister_fn, refused, register_device, join_bus, free_slot,
  with_pin, auto_devfn,
}
use modvm.Pci.Devices.{holds, wants, wants-some}
use modvm.Pci.Bars.{Owns}
use modvm.Pci.Sound.{IsSound}

-- A device as it is before its registration.
abbrev pub IsFresh : PciDevice → Type 0
IsFresh p = (p.irq_level ≡ false) × ((bar : ℕ) → get_or p.bars bar none ≡ none)

find-append :
    (ds : List PciDevice) (new : PciDevice) (devfn : ℕ) (d : PciDevice)
    → find_device (ds ++ new ∷ []) devfn ≡ some d
    → (find_device ds devfn ≡ some d) ⊎ ((find_device ds devfn ≡ none) × (new ≡ d))
unfolding find_device
find-append [] new devfn d e = elim (Bool-cases (new.devfn == devfn)) [
  | inl t ↦ inr (refl, some-injective new d (ground arith))
  | inr t ↦ absurd (ground arith)
]
find-append (c ∷ cs) new devfn d e = elim (Bool-cases (c.devfn == devfn)) [
  | inl t ↦ inl (ground arith)
  | inr t ↦ elim (find-append cs new devfn d (ground arith)) [
    | inl i ↦ inl (ground arith)
    | inr (n, i) ↦ inr (ground arith, i)
  ]
]

find-append_kept :
    (ds : List PciDevice) (new : PciDevice) (devfn : ℕ) (d : PciDevice)
    → find_device ds devfn ≡ some d
    → find_device (ds ++ new ∷ []) devfn ≡ some d
unfolding find_device
find-append_kept [] new devfn d e = absurd (ground arith)
find-append_kept (c ∷ cs) new devfn d e = ground (arith, find-append_kept cs new devfn d)

wants-none :
    (ds : List PciDevice) (line devfn : ℕ)
    → find_device ds devfn ≡ none
    → wants ds line devfn ≡ false
wants-none ds line devfn e =
    ap (λ o. elim o as (λ _. Bool) [ none ↦ false | some d ↦ holds d line ]) e

holds_idle : (d : PciDevice) (line : ℕ) → d.irq_level ≡ false → holds d line ≡ false
holds_idle d line e = ground arith

-- A new device asserts nothing, so that no line changes.
wants-append :
    (ds : List PciDevice) (new : PciDevice) (line devfn : ℕ)
    → new.irq_level ≡ false
    → wants (ds ++ new ∷ []) line devfn ≡ wants ds line devfn
wants-append ds new line devfn idle = elim (Option-cases (find_device (ds ++ new ∷ []) devfn)) [
  | inl gone ↦ elim (Option-cases (find_device ds devfn)) [
    | inl e ↦ wants-none (ds ++ new ∷ []) line devfn gone ∙ sym (wants-none ds line devfn e)
    | inr (d, e) ↦ let clash = sym gone ∙ find-append_kept ds new devfn d e in absurd (cc)
  ]
  | inr (d, here) ↦ elim (find-append ds new devfn d here) [
    | inl e ↦ wants-some (ds ++ new ∷ []) line devfn d here ∙ sym (wants-some ds line devfn d e)
    | inr (e, is) ↦
        wants-some (ds ++ new ∷ []) line devfn d here
        ∙ holds_idle d line (ap (λ c. c.irq_level) (sym is) ∙ idle)
        ∙ sym (wants-none ds line devfn e)
  ]
]

module _ (ram : List MemRegion) where
  append-Owns :
      (bus : PciBus) (new : PciDevice) (devfn bar self : ℕ)
      → IsFresh new
      → (o : Owns (record bus { devices = bus.devices ++ new ∷ [] }) devfn bar self)
      → find_device bus.devices devfn ≡ some o.device
  append-Owns bus new devfn bar self fresh o =
      elim (find-append bus.devices new devfn o.device o.found) [
        | inl e ↦ e
        | inr (e, is) ↦
            let clash = sym (fresh.1 bar) ∙ ap (λ c. get_or c.bars bar none) is ∙ o.at_bar in
            absurd (cc)
      ]

  append-IsSound :
      (bus : PciBus) (new : PciDevice)
      → IsFresh new
      → IsSound ram bus
      → IsSound ram (record bus { devices = bus.devices ++ new ∷ [] })
  append-IsSound bus new fresh v =
      let before : (devfn bar self : ℕ)
          → Owns (record bus { devices = bus.devices ++ new ∷ [] }) devfn bar self
          → Owns bus devfn bar self =
        λ devfn bar self o. record {
          device = o.device;
          found = append-Owns bus new devfn bar self fresh o;
          at_bar = o.at_bar;
        } in
      record {
        routed = record {
          bits = λ line s. v.routed.bits line s ∙ sym (wants-append bus.devices new line s fresh.0);
          lines = v.routed.lines;
        };
        topology = v.topology;
        placed = record {
          seen = λ devfn bar self o. v.placed.seen devfn bar self (before devfn bar self o);
          apart = λ devfn bar devfn' bar' self o o'.
              v.placed.apart devfn bar devfn' bar' self (before devfn bar self o)
                (before devfn' bar' self o');
        };
      }

  module _ (bus_owner self : ℕ) (same_vm on_bus : Bool) (calloc : Option ℕ) where
    join_bus-IsSound :
        (bus : PciBus) (p : PciDevice) (owner : Device)
        → IsFresh p
        → IsSound ram bus
        → IsSound ram (join_bus bus_owner self same_vm on_bus calloc bus p owner).bus
    unfolding join_bus
    join_bus-IsSound bus p owner fresh v =
        branch_cases (λ (r : Registration). IsSound ram r.bus) (devfn_taken p.devfn bus.devices) _ _
          v
          (branch_cases (λ (r : Registration). IsSound ram r.bus)
            ((ResPool.add_action owner.resources pci_unregister_fn self calloc).1 != 0) _ _ v
            (append-IsSound bus (with_pin p) fresh v))

    slot-IsSound :
        (bus : PciBus) (p : PciDevice) (owner : Device) (o : Option ℕ)
        → IsFresh p
        → IsSound ram bus
        → IsSound ram
            (elim o as (λ _. Registration) [
              | none ↦ refused bus_owner self same_vm on_bus calloc bus p owner enospc
              | some slot ↦
                  join_bus bus_owner self same_vm on_bus calloc bus
                    (record p { devfn = slot * 8 })
                    owner
            ]).bus
    slot-IsSound bus p owner none fresh v = v
    slot-IsSound bus p owner (some slot) fresh v =
        join_bus-IsSound bus (record p { devfn = slot * 8 }) owner fresh v

    pub register_device-IsSound :
        (bus : PciBus) (p : PciDevice) (owner : Device)
        → IsFresh p
        → IsSound ram bus
        → IsSound ram (register_device bus_owner self same_vm on_bus calloc bus p owner).bus
    unfolding register_device
    register_device-IsSound bus p owner fresh v =
        branch_cases (λ (r : Registration). IsSound ram r.bus)
          (not same_vm || ltb 4 p.interrupt_pin) _ _ v
          (branch_cases (λ (r : Registration). IsSound ram r.bus) on_bus _ _ v
            (branch_cases (λ (r : Registration). IsSound ram r.bus) (p.devfn == auto_devfn) _ _
              (slot-IsSound bus p owner (free_slot 31 1 bus.devices) fresh v)
              (join_bus-IsSound bus p owner fresh v)))
