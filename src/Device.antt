-- ===== src/Device.antt =====
-- src/core/device.c: the devices of a VM, each with the callbacks of its class, and the order in
-- which a device and those that have it as parent are taken down. A pointer is a number.
pub mod Subtree
pub mod Destroy
pub mod Realize
mod Tests
use modvm.Prelude.{
  ℕ, zero, suc, Bool, true, false, List, [], ◌∷◌, ◌++◌, Option, none, some, ◌==◌, ◌!=◌,
  if◌then◌else◌,
}
use modvm.Prelude.Errno.{ealready}

pub data DeviceState : Type 0 where
  fresh initializing live failed destroying : DeviceState

-- `struct device`, less the VM that owns it. `stop` is the callback of that name, where `ops` has
-- one; `realize` that of `desc`.
pub record Device : Type 0 where
  pub addr : ℕ
  pub realize : Option ℕ
  pub stop : Option ℕ
  pub priv : ℕ
  pub state : DeviceState
  pub parent : Option ℕ

-- The list `devices` of the VM, and all else that callbacks change.
pub record Machine (W : Type 0) : Type 0 where
  pub devices : List Device
  pub world : W

-- The functions that a device brings along: `halt` for `ops->stop`, `release` for the cleanup
-- actions of its pool and `build` for `desc->realize`. The first two see the list but leave it.
pub record Callbacks (W : Type 0) : Type 0 where
  pub halt : ℕ → ℕ → List Device → W → W
  pub release : ℕ → List Device → W → W
  pub build : ℕ → ℕ → Machine W → Machine W × ℕ

abbrev pub is_new : DeviceState → Bool
is_new fresh = true
is_new _ = false

abbrev pub has_parent : ℕ → Device → Bool
has_parent p d = elim d.parent [ none ↦ false | some q ↦ q == p ]

-- The search loop of `device_destroy_children`.
unfoldable pub find_child : ℕ → List Device → Option Device
find_child p [] = none
find_child p (d ∷ ds) = if has_parent p d then some d else find_child p ds

-- `list_del`.
unfoldable pub del_device : ℕ → List Device → List Device
del_device a [] = []
del_device a (d ∷ ds) = if d.addr == a then ds else d ∷ del_device a ds

-- A write to the fields of a device.
unfoldable pub update_device : ℕ → (Device → Device) → List Device → List Device
update_device a f [] = []
update_device a f (d ∷ ds) = if d.addr == a then f d ∷ ds else d ∷ update_device a f ds

unfoldable pub get_device : ℕ → List Device → Option Device
get_device a [] = none
get_device a (d ∷ ds) = if d.addr == a then some d else get_device a ds

-- The part of `device_alloc_locked` that changes the VM, for a class with the callback `realize`;
-- `addr` is what `calloc` returns.
abbrev pub with_state : DeviceState → Device → Device
with_state s d = record d { state = s }

-- `ops`, `priv` and `parent` are NULL after a failure.
abbrev pub detached : Device → Device
detached d = record d { stop = none; priv = 0; parent = none }

module _ {W : Type 0} where
  unfoldable pub alloc : Option ℕ → Option ℕ → Machine W → Machine W × Option ℕ
  alloc realize none m = (m, none)
  alloc realize (some addr) m =
      let d : Device = record {
        addr = addr;
        realize = realize;
        stop = none;
        priv = 0;
        state = fresh;
        parent = none;
      } in
      (record m { devices = m.devices ++ d ∷ [] }, some addr)

module _ {W : Type 0} (cb : Callbacks W) where
  -- `if (dev->ops && dev->ops->stop) dev->ops->stop(dev); res_release_all(&dev->resources);`
  unfoldable pub quiesce : Device → Machine W → Machine W
  quiesce d m = record m {
    world =
        cb.release d.addr m.devices
          (elim d.stop [ none ↦ m.world | some f ↦ cb.halt f d.addr m.devices m.world ]);
  }

  -- `device_destroy_locked` after the children are gone.
  unfoldable pub remove : Device → Machine W → Machine W
  unfolding quiesce del_device
  remove d m = quiesce d (record m { devices = del_device d.addr m.devices })

  -- `device_destroy_children` and, on each child that it finds, `device_destroy_locked`, with fuel
  -- for both: `none` is too little.
  unfoldable pub destroy_children : ℕ → ℕ → Machine W → Option (Machine W)
  unfolding find_child remove
  destroy_children zero a m = none
  destroy_children (suc fuel) a m = elim (find_child a m.devices) [
    | none ↦ some m
    | some child ↦ elim (destroy_children fuel child.addr m) [
      | none ↦ none
      | some n ↦ destroy_children fuel a (remove child n)
    ]
  ]

  unfoldable pub destroy : ℕ → Device → Machine W → Option (Machine W)
  unfolding destroy_children remove
  destroy fuel d m = elim (destroy_children fuel d.addr m) [
    | none ↦ none
    | some n ↦ some (remove d n)
  ]

  -- The failure path of `device_realize_locked`.
  unfoldable pub unwind : ℕ → ℕ → Machine W → Option (Machine W)
  unfolding destroy_children quiesce get_device update_device
  unwind fuel a m =
      let failing = record m { devices = update_device a (with_state failed) m.devices } in
      elim (destroy_children fuel a failing) [
        | none ↦ none
        | some n ↦ elim (get_device a n.devices) [
          | none ↦ none
          | some d ↦
              let q = quiesce d n in
              some (record q { devices = update_device a detached q.devices })
        ]
      ]

  unfoldable pub realize : ℕ → Device → ℕ → Machine W → Option (Machine W × ℕ)
  unfolding unwind update_device
  realize fuel d pdata m =
      if is_new d.state
      then (let begun = record m {
        devices = update_device d.addr (with_state initializing) m.devices;
      } in
          elim d.realize [
            | none ↦
                some (
                  record begun { devices = update_device d.addr (with_state live) begun.devices },
                  0,
                )
            | some f ↦
                let (built, ret) = cb.build f d.addr begun in
                if ret != 0
                then elim (unwind fuel d.addr built) [ none ↦ none | some n ↦ some (n, ret) ]
                else some (
                  record built { devices = update_device d.addr (with_state live) built.devices },
                  0,
                )
          ])
      else some (m, ealready)
