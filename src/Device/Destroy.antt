-- ===== src/Device/Destroy.antt =====
-- Destroying a device: it and its descendants go, and no callback runs for a device that is in the
-- list or that is a parent.
use modvm.Prelude.{
  ℕ, zero, suc, ◌+◌, ◌<◌, ◌≡◌, refl, ap, sym, subst, ◌∙◌, inl, inr, List, [], Option, none, some,
  arith, length, Option-cases,
}
use modvm.Device.{
  Device, Machine, Callbacks, find_child, del_device, get_device, remove, quiesce, destroy_children,
  destroy,
}
use modvm.Device.Subtree.{only, keep, without, IsTree, keep-only_none, length-keep}
use modvm.Device.Subtree.Prune.{del_device-keep, keep-without, without-IsTree}
use modvm.Device.Subtree.Search.{
  find_child-keep, find_child-del, get_device-without, length-without_child,
}

module _ {W : Type 0} where
  -- The callbacks of a device keep `P` once it has left the list and no device has it as parent.
  abbrev pub Keeps : Callbacks W → (W → Type 0) → Type 0
  Keeps cb P =
      (d : Device) (ds : List Device) (w : W)
      → get_device d.addr ds ≡ none
      → find_child d.addr ds ≡ none
      → P w
      → P (quiesce cb d (record { devices = ds; world = w })).world

  -- The machine that a call returns, its devices and a property of the rest.
  abbrev pub Ends : Option (Machine W) → List Device → (W → Type 0) → Type 0
  Ends r ds P = (n : Machine W) × (r ≡ some n) × (n.devices ≡ ds) × P n.world

  module _ (cb : Callbacks W) (P : W → Type 0) (keeps : Keeps cb P) where
    -- One device whose descendants are gone.
    remove-Ends :
        (d : Device) (n : Machine W) (ds : List Device)
        → IsTree [] ds
        → n.devices ≡ keep (only d.addr) ds
        → P n.world
        → ((remove cb d n).devices ≡ without d.addr ds) × P (remove cb d n).world
    unfolding remove quiesce
    remove-Ends d n ds t e h =
        let gone : del_device d.addr n.devices ≡ without d.addr ds =
          ap (del_device d.addr) e ∙ del_device-keep d.addr [] ds t (λ x. x) in
        (
          gone,
          keeps d (del_device d.addr n.devices) n.world
              (ap (get_device d.addr) gone ∙ get_device-without d.addr [] ds t)
              (find_child-del d.addr d.addr n.devices
                (ap (find_child d.addr) e ∙ find_child-keep d.addr (only d.addr) ds (ground arith)))
              h,
        )

    pub destroy_children-Ends :
        (fuel a : ℕ) (m : Machine W)
        → IsTree [] m.devices
        → length m.devices < fuel + length (keep (only a) m.devices)
        → P m.world
        → Ends (destroy_children cb fuel a m) (keep (only a) m.devices) P
    unfolding destroy_children
    destroy_children-Ends zero a m t enough h =
        absurd (omega (arith, length-keep (only a) m.devices))
    destroy_children-Ends (suc fuel) a m t enough h = elim (Option-cases (find_child a m.devices)) [
      | inl e ↦ (m, rw (e, destroy_children) refl, sym (keep-only_none a m.devices e), h)
      | inr (c, e) ↦
          let less = length-without_child a [] m.devices c t e in
          let same = ap length (keep-without a [] m.devices c t e) in
          let (n, r, ds, h') =
            destroy_children-Ends fuel c.addr m t
              (omega (arith, same, length-keep (only a) (without c.addr m.devices))) h in
          let (ds', h'') = remove-Ends c n m.devices t ds h' in
          let (n', r', ds'', h''') =
            destroy_children-Ends fuel a (remove cb c n)
              (subst (IsTree []) (sym ds') (without-IsTree c.addr [] m.devices t (λ x. x)))
              (omega (
                arith,
                same,
                ap length ds',
                ap (λ u. length (keep (only a) u)) ds',
                length-keep (only c.addr) m.devices,
              ))
              h'' in
          (
            n',
            rw (e, destroy_children) (rw (r, destroy_children) r'),
            ds'' ∙ ap (keep (only a)) ds' ∙ keep-without a [] m.devices c t e,
            h''',
          )
    ]

    -- From a list in which each device stands behind its parent, device_destroy_locked takes the
    -- device and its descendants and no other, on fuel of one more than the devices; what is left
    -- has its parents left; and what the callbacks of a device keep, once it has left the list and
    -- is no device's parent, the call keeps.
    pub destroy-Ends :
        (d : Device) (m : Machine W)
        → IsTree [] m.devices
        → P m.world
        → Ends (destroy cb (suc (length m.devices)) d m) (without d.addr m.devices) P
          × IsTree [] (without d.addr m.devices)
    unfolding destroy
    destroy-Ends d m t h =
        let (n, r, ds, h') =
          destroy_children-Ends (suc (length m.devices)) d.addr m t (omega arith) h in
        let (ds', h'') = remove-Ends d n m.devices t ds h' in
        (
          (remove cb d n, rw (r, destroy) refl, ds', h''),
          without-IsTree d.addr [] m.devices t (λ x. x),
        )
