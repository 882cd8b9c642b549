-- ===== src/Device/Realize.antt =====
-- Realizing a device: whatever the class does, the device ends as active or as failed with no
-- descendants and nothing left to call.
use modvm.Prelude.{
  ℕ, suc, ◌≡◌, refl, ap, sym, subst, ◌∙◌, ◌≢◌, ◌⊎◌, inl, inr, true, false, List, [], ◌∷◌, none,
  some, arith, length, IsIn, Bool-cases, ◌==◌, ◌!=◌,
}
use modvm.Device.{
  Device, DeviceState, Machine, Callbacks, is_new, find_child, get_device, update_device, quiesce,
  destroy_children, realize, unwind, with_state, detached,
}
use modvm.Device.Subtree.{only, keep, IsTree, keep_stays, find_child_cases}
use modvm.Device.Subtree.Prune.{keep-IsTree, not_only, not_cons}
use modvm.Device.Subtree.Search.{find_child-keep}
use modvm.Device.Destroy.{Ends, destroy_children-Ends}

-- A change that leaves the address, and gives no parent.
abbrev pub IsMild : (Device → Device) → Type 0
IsMild f =
    ((d : Device) → (f d).addr ≡ d.addr)
    × ((d : Device) (q : ℕ) → (f d).parent ≡ some q → d.parent ≡ some q)

get_device_cases :
    (a : ℕ) (d : Device) (ds : List Device) (x : Device)
    → get_device a (d ∷ ds) ≡ some x
    → (((d.addr == a) ≡ true) × (d ≡ x)) ⊎ (((d.addr == a) ≡ false) × (get_device a ds ≡ some x))
unfolding get_device
get_device_cases a d ds x e = elim (Bool-cases (d.addr == a)) [
  | inl h ↦ inl (h, ground arith)
  | inr h ↦ inr (h, rw (h, get_device) at e)
]

get_device_here :
    (a : ℕ) (d : Device) (ds : List Device) → (d.addr == a) ≡ true → get_device a (d ∷ ds) ≡ some d
unfolding get_device
get_device_here a d ds h = rw (h, get_device) refl

get_device_past :
    (a : ℕ) (d : Device) (ds : List Device)
    → (d.addr == a) ≡ false
    → get_device a (d ∷ ds) ≡ get_device a ds
unfolding get_device
get_device_past a d ds h = rw (h, get_device) refl

get_device-update :
    (a : ℕ) (f : Device → Device) (ds : List Device) (d : Device)
    → IsMild f
    → get_device a ds ≡ some d
    → get_device a (update_device a f ds) ≡ some (f d)
unfolding get_device update_device
get_device-update a f [] d mild e = absurd (cc)
get_device-update a f (x ∷ ds) d mild e = elim (get_device_cases a x ds d e) [
  | inl (h, same) ↦
      rw (h, update_device)
        (get_device_here a (f x) ds (ap (λ n. n == a) (mild.0 x) ∙ h) ∙ ap (λ u. some (f u)) same)
  | inr (h, k) ↦ rw (h, update_device) (get_device_past a x _ h ∙ get_device-update a f ds d mild k)
]

update-IsTree :
    (a : ℕ) (f : Device → Device) (seen : List ℕ) (ds : List Device)
    → IsMild f
    → IsTree seen ds
    → IsTree seen (update_device a f ds)
unfolding update_device
update-IsTree a f seen [] mild t = tt
update-IsTree a f seen (d ∷ ds) mild t = elim (Bool-cases (d.addr == a)) [
  | inl h ↦
      rw (h, update_device)
        (
          λ m. t.0 (subst (λ x. IsIn x seen) (mild.0 d) m),
          λ q p. t.1 q (mild.1 d q p),
          subst (λ x. IsTree (x ∷ seen) ds) (sym (mild.0 d)) t.2,
        )
  | inr h ↦ rw (h, update_device) (t.0, t.1, update-IsTree a f (d.addr ∷ seen) ds mild t.2)
]

-- A pass over the descendants of a device leaves the device.
get_device-keep_self :
    (a : ℕ) (seen : List ℕ) (ds : List Device) (d : Device)
    → IsTree seen ds
    → ¬ IsIn a seen
    → get_device a ds ≡ some d
    → get_device a (keep (only a) ds) ≡ some d
unfolding get_device
get_device-keep_self a seen [] d t n e = absurd (cc)
get_device-keep_self a seen (x ∷ ds) d t n e =
    ap (get_device a) (keep_stays (only a) x ds (not_only a seen x ds t n))
    ∙ elim (get_device_cases a x ds d e) [
      | inl (h, same) ↦ rw (h, get_device) (ap some same)
      | inr (h, k) ↦
          rw (h, get_device)
            (get_device-keep_self a (x.addr ∷ seen) ds d t.2 (not_cons a seen x n h) k)
    ]

find_child-detached :
    (p a : ℕ) (ds : List Device)
    → find_child p ds ≡ none
    → find_child p (update_device a detached ds) ≡ none
unfolding find_child update_device
find_child-detached p a [] e = refl
find_child-detached p a (d ∷ ds) e = elim (find_child_cases p d ds none e) [
  | inl (h, k) ↦ absurd (cc)
  | inr (h, k) ↦ ground (arith, find_child-detached p a ds k)
]

with_state-IsMild : (s : DeviceState) → IsMild (with_state s)
with_state-IsMild s = (λ d. refl, λ d q p. p)

detached-IsMild : IsMild detached
detached-IsMild = (λ d. refl, λ d q p. (cc))

length-update :
    (a : ℕ) (f : Device → Device) (ds : List Device) → length (update_device a f ds) ≡ length ds
unfolding update_device
length-update a f [] = refl
length-update a f (d ∷ ds) = ground (arith, length-update a f ds)

module _ {W : Type 0} (cb : Callbacks W) where
  unwind-Ends :
      (a : ℕ) (m : Machine W) (d : Device)
      → IsTree [] m.devices
      → get_device a m.devices ≡ some d
      → (n : Machine W) × (unwind cb (suc (length m.devices)) a m ≡ some n)
        × (n.devices
            ≡ update_device a detached
                (keep (only a) (update_device a (with_state DeviceState.failed) m.devices)))
        × (get_device a n.devices ≡ some (detached (with_state DeviceState.failed d)))
        × (find_child a n.devices ≡ none)
        × IsTree [] n.devices
  unfolding unwind quiesce
  unwind-Ends a m d t e =
      let f = with_state DeviceState.failed in
      let failing = update_device a f m.devices in
      let t' = update-IsTree a f [] m.devices (with_state-IsMild DeviceState.failed) t in
      let e' =
        get_device-keep_self a [] failing (f d) t' (λ x. x)
          (get_device-update a f m.devices d (with_state-IsMild DeviceState.failed) e) in
      let (n, r, ds, _) : Ends
          (destroy_children cb (suc (length m.devices)) a (record m { devices = failing }))
          (keep (only a) failing) (λ w. Unit {0}) =
        destroy_children-Ends cb (λ w. Unit {0}) (λ x y w g h u. u) (suc (length m.devices)) a
          (record m { devices = failing }) t' (omega (arith, length-update a f m.devices)) tt in
      let found : get_device a n.devices ≡ some (f d) = ap (get_device a) ds ∙ e' in
      let kept =
        subst (IsTree []) (sym ds)
          (keep-IsTree (only a) [] [] failing t' (λ q x. x) (λ q x y. x)) in
      (
        record n {
          devices = update_device a detached n.devices;
          world = (quiesce cb (f d) n).world;
        },
        rw (r, unwind) (rw (found, unwind) refl),
        ap (update_device a detached) ds,
        get_device-update a detached n.devices (f d) detached-IsMild found,
        find_child-detached a a n.devices
            (ap (find_child a) ds ∙ find_child-keep a (only a) failing (ground arith)),
        update-IsTree a detached [] n.devices detached-IsMild kept,
      )

  abbrev pub begun : Device → Machine W → Machine W
  begun d m = record m {
    devices = update_device d.addr (with_state DeviceState.initializing) m.devices;
  }

  -- device_realize_locked on a new device whose class has a callback: the callback sees the device
  -- as initializing. Where it succeeds, the device is active and nothing else changes. Where it
  -- fails, the call returns its error, the device is failed with no callback, private state or
  -- parent, its descendants are gone, every other device stays, and each that stays stands behind
  -- its parent.
  pub realize-Settles :
      (d c : Device) (f pdata : ℕ) (m : Machine W)
      → is_new d.state ≡ true
      → d.realize ≡ some f
      → let built = (cb.build f d.addr (begun d m)).0 in
        let ret = (cb.build f d.addr (begun d m)).1 in
        IsTree [] built.devices
        → get_device d.addr built.devices ≡ some c
        → (n : Machine W) × (realize cb (suc (length built.devices)) d pdata m ≡ some (n, ret))
          × ((ret ≡ 0)
                × (get_device d.addr n.devices ≡ some (with_state DeviceState.live c))
                × (n.devices ≡ update_device d.addr (with_state DeviceState.live) built.devices)
              ⊎ (ret ≢ 0)
                × (get_device d.addr n.devices ≡ some (detached (with_state DeviceState.failed c)))
                × (find_child d.addr n.devices ≡ none)
                × (n.devices
                    ≡ update_device d.addr detached (
                        keep
                          (only d.addr)
                          (update_device d.addr (with_state DeviceState.failed) built.devices)))
                × IsTree [] n.devices)
  unfolding realize
  realize-Settles d c f pdata m new has t e =
      let built = (cb.build f d.addr (begun d m)).0 in
      let ret = (cb.build f d.addr (begun d m)).1 in
      elim (Bool-cases (ret != 0)) [
        | inl h ↦
            let (n, r, ds, got, alone, t') = unwind-Ends d.addr built c t e in
            (
              n,
              rw (new, realize) (rw (has, realize) (rw (h, realize) (rw (r, realize) refl))),
              inr (ground arith, got, alone, ds, t'),
            )
        | inr h ↦
            let done = with_state DeviceState.live in
            let clean : 0 ≡ ret = ground arith in
            (
              record built { devices = update_device d.addr done built.devices },
              rw (new, realize)
                  (rw (has, realize)
                    (rw (h, realize)
                      (ap
                        (λ (x : ℕ).
                          some
                            (record built { devices = update_device d.addr done built.devices }, x))
                        clean))),
              inl (
                ground arith,
                get_device-update d.addr done built.devices c (with_state-IsMild DeviceState.live)
                    e,
                refl,
              ),
            )
      ]
