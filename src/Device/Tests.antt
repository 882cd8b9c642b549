-- ===== src/Device/Tests.antt =====
-- A bridge with a device behind it, which has one of its own, and a device beside them.
use modvm.Prelude.{
  ℕ, ◌≢◌, ◌⊎◌, ◌≡◌, refl, ap, List, [], ◌∷◌, Option, none, some, All, inl, inr, arith, Option-cases,
}
use modvm.Device.{
  Device, DeviceState, Machine, Callbacks, find_child, get_device, update_device, destroy, quiesce,
  realize, with_state, detached,
}
use modvm.Device.Subtree.{only, without, keep, IsTree}
use modvm.Device.Destroy.{Keeps, Ends, destroy-Ends}
use modvm.Device.Realize.{realize-Settles}

abbrev dev : ℕ → Option ℕ → Device
dev a p = record {
  addr = a;
  realize = some 7;
  stop = some 5;
  priv = 0;
  state = DeviceState.fresh;
  parent = p;
}

abbrev four : List Device
four = dev 1 none ∷ dev 2 (some 1) ∷ dev 4 none ∷ dev 3 (some 2) ∷ []

abbrev bridge : Device
bridge = record (dev 1 none) { state = DeviceState.initializing }

abbrev begun_four : List Device
begun_four = update_device 1 (with_state DeviceState.initializing) four

abbrev children_seen : Option Device → ℕ
children_seen none = 0
children_seen (some d) = 1

-- Each release notes whether it saw a child; each class fails.
abbrev noting : Callbacks (List ℕ)
noting = record {
  halt = λ f a ds w. w;
  release = λ a ds w. children_seen (find_child a ds) ∷ w;
  build = λ f a m. (m, 12);
}

abbrev machine : Machine (List ℕ)
machine = record { devices = four; world = [] }

abbrev SawNone : List ℕ → Type 0
SawNone = All (λ (n : ℕ). n ≡ 0)

noting-Keeps : Keeps noting SawNone
unfolding quiesce
noting-Keeps d ds w gone alone h = elim (Option-cases d.stop) [
  | inl e ↦ rw e (ap children_seen alone, h)
  | inr (f, e) ↦ rw e (ap children_seen alone, h)
]

four-IsTree : IsTree [] four
four-IsTree = ground arith

bridge_goes : without 1 four ≡ dev 4 none ∷ []
unfolding without keep
bridge_goes = refl

destroy-Ends_example :
    Ends (destroy noting 5 (dev 1 none) machine) (without 1 four) SawNone
    × IsTree [] (without 1 four)
destroy-Ends_example = destroy-Ends noting SawNone noting-Keeps (dev 1 none) machine four-IsTree tt

-- The statement of realize-Settles for the bridge.
abbrev Settles : Machine (List ℕ) → ℕ → Type 0
Settles n ret =
    ((ret ≡ 0)
      × (get_device 1 n.devices ≡ some (with_state DeviceState.live bridge))
      × (n.devices ≡ update_device 1 (with_state DeviceState.live) begun_four))
    ⊎ (ret ≢ 0)
      × (get_device 1 n.devices ≡ some (detached (with_state DeviceState.failed bridge)))
      × (find_child 1 n.devices ≡ none)
      × (n.devices
          ≡ update_device 1 detached
              (keep (only 1) (update_device 1 (with_state DeviceState.failed) begun_four)))
      × IsTree [] n.devices

realize-Settles_example :
    (n : Machine (List ℕ)) × (realize noting 5 (dev 1 none) 0 machine ≡ some (n, 12)) × Settles n 12
unfolding update_device get_device
realize-Settles_example =
    realize-Settles noting (dev 1 none) bridge 7 0 machine refl refl (ground arith) refl
