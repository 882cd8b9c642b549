-- ===== src/Registry/Tests.antt =====
-- A registry of two accelerators.
use modvm.Prelude.{◌≡◌, ◌≢◌, ◌⊎◌, ◌≤◌, ◌<◌, true, List, [], ◌∷◌, none, some, length, arith, false}
use Prim.Native.String.{String}
use modvm.Registry.{AccelDesc, accels, accel_find, accel_register}
use modvm.Registry.Lookup.{register-find}

abbrev accel : String → AccelDesc
accel n = record {
  desc_name = n;
  init = some 1;
  destroy = some 2;
  map_ram = some 3;
  setup_irqchip = none;
  set_irq = none;
  vcpu_init = some 4;
  vcpu_run = some 5;
}

abbrev one : List AccelDesc
one = accel "kvm" ∷ []

register-find_example :
    ((ds' : List AccelDesc) × (accel_register one (accel "tcg") ≡ some ds')
      × (◌≢◌ {A = String} "tcg" "")
      × (accels.is_complete (accel "tcg") ≡ true)
      × (length one < 8)
      × (accel_find "tcg" one ≡ none)
      × (accel_find "tcg" ds' ≡ some (accel "tcg"))
      × ((n : String) → ◌≢◌ {A = String} "tcg" n → accel_find n ds' ≡ accel_find n one)
      × (length ds' ≤ 8))
    ⊎ (accel_register one (accel "tcg") ≡ none)
      × ((◌≡◌ {A = String} "tcg" "")
          ⊎ ((accels.is_complete (accel "tcg") ≡ false)
              ⊎ ((accel_find "tcg" one ≢ none) ⊎ (length one ≡ 8))))
register-find_example = register-find accels one (accel "tcg") (omega arith)
