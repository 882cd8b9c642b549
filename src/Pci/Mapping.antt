-- ===== src/Pci/Mapping.antt =====
-- The Memory Space bit of a device and the topology of the I/O map.
use modvm.Prelude.{
  ℕ, ◌+◌, ◌≡◌, Bool, List, [], ◌∷◌, Option, none, some, sym, ap, subst, inl, inr, Option-cases,
  branch_cases, ltb, ◌&&◌,
}
use modvm.Memory.{MemRegion}
use modvm.IoMap.{IoMap, set_enabled}
use modvm.IoMap.Topology.{IsTopology, Clear}
use modvm.IoMap.Topology.Update.{All-set_enabled, set_enabled-Laid}
use modvm.Pci.{PciBus, find_device, set_irq, write_bytes, enable_bars, write_header}
use modvm.Pci.Routed.{set_irq-none, set_irq-some, write_header-none, write_header-some}

module _ (ram : List MemRegion) where
  pub enabled-IsTopology :
      (self : ℕ) (on : Bool) (m : IoMap)
      → IsTopology m ram
      → IsTopology (record m { mmio_regions = set_enabled self on m.mmio_regions }) ram
  enabled-IsTopology self on m t = record {
    ports = t.ports;
    memory = set_enabled-Laid self on m.mmio_regions t.memory;
    ram_fit = t.ram_fit;
    ram_pairs = t.ram_pairs;
    clear = All-set_enabled (Clear ram) self on m.mmio_regions t.clear t.clear;
  }

  enable_bars-IsTopology :
      (bars : List (Option ℕ)) (on : Bool) (m : IoMap)
      → IsTopology m ram
      → IsTopology (enable_bars bars on m) ram
  unfolding enable_bars
  enable_bars-IsTopology [] on m t = t
  enable_bars-IsTopology (none ∷ bars) on m t = enable_bars-IsTopology bars on m t
  enable_bars-IsTopology (some self ∷ bars) on m t =
      enable_bars-IsTopology bars on _ (enabled-IsTopology self on m t)

  pub set_irq-io_map :
      (bus : PciBus) (devfn : ℕ) (level : Bool) → (set_irq bus devfn level).io_map ≡ bus.io_map
  set_irq-io_map bus devfn level = elim (Option-cases (find_device bus.devices devfn)) [
    | inl e ↦ ap (λ b. b.io_map) (set_irq-none bus devfn level e)
    | inr (d, e) ↦ ap (λ b. b.io_map) (set_irq-some bus devfn level d e)
  ]

  -- A write of the guest to the header of a device, which may turn its regions on or off, keeps the
  -- topology of the I/O map well formed.
  pub write_header-IsTopology :
      (bus : PciBus) (devfn offset val size : ℕ)
      → IsTopology bus.io_map ram
      → IsTopology (write_header bus devfn offset val size).io_map ram
  write_header-IsTopology bus devfn offset val size t =
      elim (Option-cases (find_device bus.devices devfn)) [
        | inl e ↦
            subst (λ b. IsTopology b.io_map ram)
              (sym (write_header-none bus devfn offset val size e)) t
        | inr (d, e) ↦
            let w = write_bytes size d offset val in
            subst (λ b. IsTopology b.io_map ram)
              (sym (write_header-some bus devfn offset val size d e))
              (branch_cases (λ (b : PciBus). IsTopology b.io_map ram)
                (ltb offset 6 && ltb 4 (offset + size)) _ _
                (subst (λ m. IsTopology m ram) (sym (set_irq-io_map _ devfn w.irq_level))
                  (enable_bars-IsTopology w.bars _ bus.io_map t))
                t)
      ]
