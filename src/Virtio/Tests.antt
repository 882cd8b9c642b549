-- ===== src/Virtio/Tests.antt =====
-- A driver that brings a device with one queue up, step by step.
use modvm.Prelude.{ℕ, ◌+◌, ◌^◌, ◌≡◌, refl, true, [], ◌∷◌}
use modvm.Virtqueue.{create}
use modvm.Virtio.{
  VirtioDevice, allocated, adopt, realize, set_status, set_features, is_ready, is_acceptable,
}
use modvm.Virtio.Negotiation.{
  Reachable, start, step, adopted, realized, status_written, features_written, IsSound,
  Reachable-negotiated,
}

-- Offered: bit 5 and bit 9.
abbrev offered : ℕ
offered = 0x220

abbrev built : VirtioDevice
built = (realize (adopt allocated 0).0 ((4, true) ∷ []) 0).0

abbrev met : VirtioDevice
met = (set_status offered built 3).0

abbrev chosen : VirtioDevice
chosen = set_features (set_features met 0 0x200) 1 1

abbrev running : VirtioDevice
running = (set_status offered chosen 15).0

running-Reachable : Reachable offered running
running-Reachable =
    step chosen running
      (step (set_features met 0 0x200) chosen
        (step met _
          (step built met
            (step (adopt allocated 0).0 built (step allocated _ start (adopted allocated 0))
              (realized (adopt allocated 0).0 ((4, true) ∷ []) 0))
            (status_written built 3))
          (features_written met 0 0x200))
        (features_written (set_features met 0 0x200) 1 1))
      (status_written chosen 15)

running_lem : (running.status ≡ 15) × (running.driver_features ≡ 2 ^ 32 + 0x200)
unfolding adopt realize set_status set_features create
running_lem = (refl, refl)

Reachable-negotiated_example :
    IsSound offered running
    × (is_ready running ≡ true → is_acceptable running.driver_features offered ≡ true)
Reachable-negotiated_example = Reachable-negotiated offered running-Reachable
