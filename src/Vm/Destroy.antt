-- ===== src/Vm/Destroy.antt =====
-- `vm_destroy`: first the devices, last one first, then the resources of the VM.
use modvm.Prelude.{
  ℕ, zero, suc, true, ◌<◌, ◌≡◌, refl, ap, sym, subst, ◌∙◌, inl, inr, List, [], ◌∷◌, Option, none,
  some, arith, length, Option-cases, Bool-cases, ◌==◌, ==_iff,
}
use modvm.ResPool.{ResPool, Call, init, release_all}
use modvm.ResPool.Release.Teardown
use modvm.Device.{Device, Machine, Callbacks, destroy}
use modvm.Device.Subtree.{without, only, IsTree, length-keep, without_here, without_past}
use modvm.Device.Destroy.{Keeps, destroy-Ends}
use modvm.Vm.Init.{VmConfig, Supply, vm_init}
use modvm.Vm.Teardown.{IsOwn}
use modvm.Vm.Released.{Undoes, vm_init-Undoes}

-- `list_last_entry`.
unfoldable pub last_device : List Device → Option Device
last_device [] = none
last_device (d ∷ ds) = elim (last_device ds) [ none ↦ some d | some e ↦ some e ]

module _ {W : Type 0} (cb : Callbacks W) where
  -- The loop over the devices, on fuel: each round takes one device at least.
  unfoldable pub destroy_devices : ℕ → Machine W → Option (Machine W)
  unfolding last_device destroy
  destroy_devices zero m = none
  destroy_devices (suc fuel) m = elim (last_device m.devices) [
    | none ↦ some m
    | some d ↦ elim (destroy cb (suc (length m.devices)) d m) [
      | none ↦ none
      | some n ↦ destroy_devices fuel n
    ]
  ]

  -- The devices that are left, the pool, and the cleanups that were run on it.
  unfoldable pub vm_destroy :
      (ℕ → ℕ → List Call)
      → Machine W
      → ResPool
      → Option (Machine W × Option (ResPool × List (ℕ × ℕ)))
  unfolding destroy_devices
  vm_destroy body m p = elim (destroy_devices (suc (length m.devices)) m) [
    | none ↦ none
    | some n ↦ some (n, release_all body p)
  ]

last_device-none : (ds : List Device) → last_device ds ≡ none → ds ≡ []
unfolding last_device
last_device-none [] e = refl
last_device-none (d ∷ ds) e = ground arith

last_device_nil : (d : Device) → last_device [] ≡ some d → ⊥
unfolding last_device
last_device_nil d e = absurd (cc)

last_device_head :
    (d : Device) (ds : List Device) → last_device ds ≡ none → last_device (d ∷ ds) ≡ some d
unfolding last_device
last_device_head d ds e = rw (e, last_device) refl

last_device_tail :
    (d e : Device) (ds : List Device) → last_device ds ≡ some e → last_device (d ∷ ds) ≡ some e
unfolding last_device
last_device_tail d e ds h = rw (h, last_device) refl

length-without_last :
    (d : Device) (ds : List Device)
    → last_device ds ≡ some d
    → length (without d.addr ds) < length ds
length-without_last d [] e = absurd (last_device_nil d e)
length-without_last d (x ∷ xs) e = elim (Bool-cases (x.addr == d.addr)) [
  | inl here ↦
      omega (arith, ap length (without_here d.addr x xs here), length-keep (only d.addr) xs)
  | inr past ↦ elim (Option-cases (last_device xs)) [
    | inl none_left ↦
        let first = last_device_head x xs none_left in
        let same : x ≡ d = cc in
        let hit : (x.addr == d.addr) ≡ true = (==_iff x.addr d.addr).1 (ap (λ v. v.addr) same) in
        absurd (cc)
    | inr (y, f) ↦
        let later = last_device_tail x y xs f in
        let same : y ≡ d = cc in
        omega (
          arith,
          ap length (without_past d.addr x xs past),
          length-without_last d xs (f ∙ ap some same),
        )
  ]
]

module _ {W : Type 0} (cb : Callbacks W) (P : W → Type 0) (keeps : Keeps cb P) where
  destroy_devices-Ends :
      (fuel : ℕ) (m : Machine W)
      → length m.devices < fuel
      → IsTree [] m.devices
      → P m.world
      → (n : Machine W) × (destroy_devices cb fuel m ≡ some n) × (n.devices ≡ []) × P n.world
  unfolding destroy_devices
  destroy_devices-Ends zero m enough t h = absurd (omega arith)
  destroy_devices-Ends (suc fuel) m enough t h = elim (Option-cases (last_device m.devices)) [
    | inl e ↦ (m, rw (e, destroy_devices) refl, last_device-none m.devices e, h)
    | inr (d, e) ↦
        let ((n, r, ds, h'), t') = destroy-Ends cb P keeps d m t h in
        let less = length-without_last d m.devices e in
        let (n', r', empty, h'') =
          destroy_devices-Ends fuel n (omega (arith, ap length ds)) (subst (IsTree []) (sym ds) t')
            h' in
        (n', rw (e, destroy_devices) (rw (r, destroy_devices) r'), empty, h'')
  ]

  destroyed :
      (body : ℕ → ℕ → List Call) (m n : Machine W) (p : ResPool)
      → destroy_devices cb (suc (length m.devices)) m ≡ some n
      → vm_destroy cb body m p ≡ some (n, release_all body p)
  unfolding vm_destroy
  destroyed body m n p e = rw (e, vm_destroy) refl

  -- However the construction of a VM has ended, its destruction comes to an end, when each device
  -- stands behind its parent, the board's cleanup functions are its own and no cleanup cancels
  -- another. No device and no resource is left; what the callbacks of a device keep, once it has left
  -- the list and is no device's parent, is kept; and then the cleanups run that the pool owes, each
  -- once and in the reverse order of construction. After a construction that succeeded these are
  -- exactly the cleanup of each vCPU, as many as are configured and last one first, those that the
  -- board's hook has added, the ones of the accelerator and of the guest's memory, and of the lock of
  -- the threads and of the I/O context, whose creation returned no error, in this order.
  pub vm_destroy-Ends :
      (c : VmConfig) (s : Supply) (self : ℕ) (body : ℕ → ℕ → List Call) (m : Machine W)
      → IsOwn c.board
      → ((fn arg : ℕ) → Teardown.Keeps (body fn arg))
      → IsTree [] m.devices
      → P m.world
      → let (p, ret, _) = vm_init c s (init self) in
        (n : Machine W) × (order : List (ℕ × ℕ)) × (vm_destroy cb body m p
          ≡ some (n, some (record p { resources = [] }, order)))
        × (n.devices ≡ [])
        × P n.world
        × Undoes c s (p, ret) order
  vm_destroy-Ends c s self body m own calm t h =
      let p = (vm_init c s (init self)).0 in
      let (n, e, empty, h') = destroy_devices-Ends (suc (length m.devices)) m (omega arith) t h in
      let (order, released, undoes) = vm_init-Undoes c s own self body calm in
      (n, order, destroyed body m n p e ∙ ap (λ r. some (n, r)) released, empty, h', undoes)
