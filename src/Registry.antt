-- ===== src/Registry.antt =====
-- The registries of src/core/device.c, accel.c, board.c and loader.c: arrays of descriptions, each
-- with a name, filled before `main` runs and searched by name afterwards. A panic is `none`.
pub mod Lookup
mod Tests
use Prim.Native.String.{String}
use text.Mathlib.Text.{◌==◌ as str_eq}
use modvm.Prelude.{
  ℕ, Bool, true, false, ◌&&◌, ◌||◌, not, List, [], ◌∷◌, ◌++◌, Option, none, some, length, ◌==◌,
  if◌then◌else◌,
}

-- What the four registries differ in: the length of the array, and the functions that a
-- description must have.
pub record Registry (D : Type 0) : Type 0 where
  pub name : D → String
  pub capacity : ℕ
  pub is_complete : D → Bool

module _ {D : Type 0} (R : Registry D) where
  unfoldable pub find : String → List D → Option D
  find n [] = none
  find n (d ∷ ds) = if str_eq (R.name d) n then some d else find n ds

  abbrev pub is_taken : String → List D → Bool
  is_taken n ds = elim (find n ds) [ none ↦ false | some _ ↦ true ]

  unfoldable pub register : List D → D → Option (List D)
  unfolding find
  register ds d =
      if str_eq (R.name d) "" || not (R.is_complete d)
      then none
      else if is_taken (R.name d) ds
      then none
      else if length ds == R.capacity
      then none
      else some (ds ++ d ∷ [])

-- `struct device_desc`, less the callback.
pub record DeviceDesc : Type 0 where
  pub desc_name : String
  pub realize : Option ℕ

abbrev pub devices : Registry DeviceDesc
devices = record { name = λ d. d.desc_name; capacity = 64; is_complete = λ d. true }

-- `struct accel_desc`: the functions of its two tables.
pub record AccelDesc : Type 0 where
  pub desc_name : String
  pub init : Option ℕ
  pub destroy : Option ℕ
  pub map_ram : Option ℕ
  pub setup_irqchip : Option ℕ
  pub set_irq : Option ℕ
  pub vcpu_init : Option ℕ
  pub vcpu_run : Option ℕ

-- `f != NULL`.
abbrev pub is_some : Option ℕ → Bool
is_some none = false
is_some (some f) = true

abbrev pub accels : Registry AccelDesc
accels = record {
  name = λ d. d.desc_name;
  capacity = 8;
  is_complete =
      λ d. is_some d.init && (is_some d.destroy && (is_some d.vcpu_init && is_some d.vcpu_run));
}

-- `struct board_desc`, less its operations, which `board_register` does not look at.
pub record BoardDesc : Type 0 where
  pub desc_name : String

abbrev pub boards : Registry BoardDesc
boards = record { name = λ d. d.desc_name; capacity = 16; is_complete = λ d. true }

pub record LoaderDesc : Type 0 where
  pub desc_name : String
  pub load : Option ℕ
  pub setup_bsp : Option ℕ
  pub destroy : Option ℕ

abbrev pub loaders : Registry LoaderDesc
loaders = record {
  name = λ d. d.desc_name;
  capacity = 8;
  is_complete = λ d. is_some d.load && is_some d.setup_bsp;
}

abbrev pub device_register : List DeviceDesc → DeviceDesc → Option (List DeviceDesc)
device_register = register devices

abbrev pub device_find : String → List DeviceDesc → Option DeviceDesc
device_find = find devices

abbrev pub accel_register : List AccelDesc → AccelDesc → Option (List AccelDesc)
accel_register = register accels

abbrev pub accel_find : String → List AccelDesc → Option AccelDesc
accel_find = find accels

abbrev pub board_register : List BoardDesc → BoardDesc → Option (List BoardDesc)
board_register = register boards

abbrev pub board_find : String → List BoardDesc → Option BoardDesc
board_find = find boards

abbrev pub loader_register : List LoaderDesc → LoaderDesc → Option (List LoaderDesc)
loader_register = register loaders

abbrev pub loader_find : String → List LoaderDesc → Option LoaderDesc
loader_find = find loaders
