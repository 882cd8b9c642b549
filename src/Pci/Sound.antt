-- ===== src/Pci/Sound.antt =====
-- What each write of the guest to the configuration space keeps: the interrupt lines, the topology
-- of the I/O map, and the BARs.
use modvm.Prelude.{
  branch_cases, ℕ, ◌^◌, ◌<◌, ◌≡◌, ◌≢◌, refl, inl, inr, Bool, true, false, List, Option, none, some,
  arith, IsIn, ap, sym, ◌∙◌, subst, Option-cases, Bool-cases, ◌==◌, ◌&&◌, leb, if◌then◌else◌,
}
use mathlib.Core.Option.{some-injective}
use modvm.Memory.{MemRegion}
use modvm.IoMap.{IoMap, IoRegion, mmio, relocate_region, regions}
use modvm.IoMap.Topology.{IsTopology}
use modvm.IoMap.Topology.Preserve.{relocate_region-IsTopology}
use modvm.Pci.{PciDevice, PciBus, find_device, update}
use modvm.Pci.Config.{
  PciDeviceOps, probed, new_base, relocated, bar_region, bar_of, is_bar, write_bar, u32_ones,
  write_device, write_config, is_config_access,
}
use modvm.Pci.Lines.{IsRouted}
use modvm.Pci.Devices.{find_device-devfn}
use modvm.Pci.Regions.{get_region-IsIn}
use modvm.Pci.Bars.{IsPlaced}
use modvm.Pci.Placed.{kept-IsPlaced, write_header-IsPlaced}
use modvm.Pci.Mapping.{write_header-IsTopology}
use modvm.Pci.Routed.{unmasked-IsRouted, write_header-IsRouted}
use modvm.Pci.Relocated.{
  new_base_lt, bar_region_cases, relocate_cases, store_bar_below, shown, after-IsPlaced,
}

module _ (ram : List MemRegion) where
  pub record IsSound (bus : PciBus) : Type 0 where
    pub routed : IsRouted bus
    pub topology : IsTopology bus.io_map ram
    pub placed : IsPlaced bus

  pub probed-IsSound :
      (bus : PciBus) (d : PciDevice) (bar : ℕ) (on : Bool)
      → find_device bus.devices d.devfn ≡ some d
      → IsSound bus
      → IsSound (record bus { devices = update d.devfn (probed d bar on) bus.devices })
  probed-IsSound bus d bar on e v = record {
    routed =
        unmasked-IsRouted bus d.devfn d (probed d bar on) v.routed e
          (record { devfn = refl; pin = refl; level = refl }) refl;
    topology = v.topology;
    placed =
        kept-IsPlaced bus d.devfn d (probed d bar on) bus.bridge e refl refl (λ off lo hi. refl)
          refl v.placed;
  }

  pub relocated_not :
      (bus : PciBus) (d : PciDevice) (bar base : ℕ) (m : IoMap) (ret : ℕ)
      → ret ≢ 0
      → relocated ram bus d bar base (m, ret)
        ≡ record bus { devices = update d.devfn d bus.devices }
  unfolding relocated
  relocated_not bus d bar base m ret ne = ground arith

  pub relocated-IsSound :
      (bus : PciBus) (d : PciDevice) (bar : ℕ) (r : IoRegion) (base : ℕ)
      → find_device bus.devices d.devfn ≡ some d
      → bar_region bus.io_map d bar ≡ some r
      → base < 2 ^ 32
      → IsSound bus
      → IsSound
          (relocated ram bus (probed d bar false) bar base (relocate_region bus.io_map ram r base))
  unfolding relocated regions
  relocated-IsSound bus d bar r base e its small v =
      let (at, found) = bar_region_cases bus.io_map d bar r its in
      let s = v.placed.seen d.devfn bar r.self (record { device = d; found = e; at_bar = at }) in
      let space : r.space ≡ mmio =
        ap (λ q. q.space) (some-injective r s.region (sym found ∙ s.found)) ∙ s.space in
      relocate_cases
        (λ q. IsTopology (q.0) ram → IsSound (relocated ram bus (probed d bar false) bar base q))
        bus.io_map ram r base space
        (λ ret ne t.
          subst IsSound (sym (relocated_not bus (probed d bar false) bar base bus.io_map ret ne))
            (probed-IsSound bus d bar false e v))
        (λ t. record {
          routed =
              (let w =
                  unmasked-IsRouted bus d.devfn d (shown bus d e bar base r small at found) v.routed
                    e (record { devfn = refl; pin = refl; level = refl })
                    (store_bar_below d.config_space bar base 5 (omega arith)) in
                record { bits = w.bits; lines = w.lines });
          topology = t;
          placed = after-IsPlaced bus d e bar base r small at found v.placed;
        })
        (relocate_region-IsTopology bus.io_map ram r base v.topology (
          subst (λ x. IsIn r (regions bus.io_map x)) (sym space)
            (get_region-IsIn r.self bus.io_map.mmio_regions r found)))

  write_bar-IsSound :
      (bus : PciBus) (d : PciDevice) (bar : ℕ) (r : IoRegion) (offset val size : ℕ)
      → find_device bus.devices d.devfn ≡ some d
      → bar_region bus.io_map d bar ≡ some r
      → IsSound bus
      → IsSound (write_bar ram bus d bar r offset val size)
  unfolding write_bar
  write_bar-IsSound bus d bar r offset val size e its v =
      branch_cases IsSound (size == 4 && val == u32_ones) _ _ (probed-IsSound bus d bar true e v) (
        relocated-IsSound bus d bar r (new_base r offset val size) e its
          (new_base_lt r offset val size) v)

  pub write_config-none :
      (ops : ℕ → PciDeviceOps) (bus : PciBus) (devfn offset val size : ℕ)
      → find_device bus.devices devfn ≡ none
      → write_config ram ops bus devfn offset val size ≡ bus
  unfolding write_config
  write_config-none ops bus devfn offset val size e =
      elim (Bool-cases (is_config_access offset size)) [
        | inl t ↦ rw (t, write_config) (rw e refl)
        | inr t ↦ rw (t, write_config) refl
      ]

  pub write_config-some :
      (ops : ℕ → PciDeviceOps) (bus : PciBus) (devfn offset val size : ℕ) (d : PciDevice)
      → find_device bus.devices devfn ≡ some d
      → write_config ram ops bus devfn offset val size
        ≡ (if is_config_access offset size then write_device ram ops bus d offset val size else bus)
  unfolding write_config
  write_config-some ops bus devfn offset val size d e = rw (e, write_config) refl

  -- A BAR without a region ignores a write.
  bar-IsSound :
      (bus : PciBus) (d : PciDevice) (bar offset val size : ℕ) (o : Option IoRegion)
      → find_device bus.devices d.devfn ≡ some d
      → bar_region bus.io_map d bar ≡ o
      → IsSound bus
      → IsSound (elim o [ none ↦ bus | some r ↦ write_bar ram bus d bar r offset val size ])
  bar-IsSound bus d bar offset val size none e its v = v
  bar-IsSound bus d bar offset val size (some r) e its v =
      write_bar-IsSound bus d bar r offset val size e its v

  callback-IsSound :
      (bus : PciBus) (offset val size : ℕ) (o : Option (ℕ → ℕ → ℕ → PciBus → PciBus))
      → ((f : ℕ → ℕ → ℕ → PciBus → PciBus) → o ≡ some f → IsSound (f offset val size bus))
      → IsSound bus
      → IsSound (elim o [ none ↦ bus | some f ↦ f offset val size bus ])
  callback-IsSound bus offset val size none h v = v
  callback-IsSound bus offset val size (some f) h v = h f refl

  -- A write of the guest to the configuration space, at any offset and of any size, keeps a bus
  -- sound: each interrupt line is the disjunction of the devices on it, the regions of the I/O map
  -- do not overlap each other or RAM, and each BAR shows the base of its own region, which answers
  -- exactly while the Memory Space bit of its device is set. The callbacks of the devices, which
  -- take the writes from offset 0x40 on, keep it by hypothesis.
  pub write_config-IsSound :
      (ops : ℕ → PciDeviceOps) (bus : PciBus) (devfn offset val size : ℕ)
      → ((n : ℕ) (f : ℕ → ℕ → ℕ → PciBus → PciBus) (b : PciBus)
          → (ops n).write_config ≡ some f
          → IsSound b
          → IsSound (f offset val size b))
      → IsSound bus
      → IsSound (write_config ram ops bus devfn offset val size)
  unfolding write_device
  write_config-IsSound ops bus devfn offset val size callback v =
      elim (Option-cases (find_device bus.devices devfn)) [
        | inl e ↦ subst IsSound (sym (write_config-none ops bus devfn offset val size e)) v
        | inr (d, e) ↦
            let own : find_device bus.devices d.devfn ≡ some d =
              ap (find_device bus.devices) (find_device-devfn bus.devices devfn d e) ∙ e in
            subst IsSound (sym (write_config-some ops bus devfn offset val size d e)) (
              branch_cases IsSound (is_config_access offset size) _ _
                (branch_cases IsSound (leb 0x40 offset) _ _
                  (callback-IsSound bus offset val size (ops d.devfn).write_config
                    (λ f is. callback d.devfn f bus is v) v)
                  (branch_cases IsSound (is_bar offset) _ _
                    (bar-IsSound bus d (bar_of offset) offset val size _ own refl v)
                    (record {
                      routed = write_header-IsRouted bus d.devfn offset val size v.routed;
                      topology = write_header-IsTopology ram bus d.devfn offset val size v.topology;
                      placed = write_header-IsPlaced bus d.devfn offset val size v.placed;
                    })))
                v)
      ]
