-- ===== src/Vm/Init.antt =====
-- `vm_init` of src/core/vm.c: what the VM has acquired when its construction ends or fails.
use modvm.Prelude.{
  ℕ, zero, suc, ◌+◌, ◌*◌, ◌/◌, Bool, true, false, ◌||◌, not, List, [], ◌∷◌, ◌++◌, Option, none,
  some, length, ltb, ◌==◌, ◌!=◌, if◌then◌else◌,
}
use modvm.Prelude.Errno.{einval, enomem, eexist, eoverflow, Result, ok, err}
use modvm.Prelude.Words.{u64_max}
use modvm.AddRam.{VmState}
use modvm.ResPool.{ResPool, zalloc, add_action, add_action_or_reset}

-- The functions of vm.c that undo a part of the construction; other functions are the board's.
abbrev pub io_cleanup : ℕ
io_cleanup = 1

abbrev pub mutex_cleanup : ℕ
mutex_cleanup = 2

abbrev pub memory_cleanup : ℕ
memory_cleanup = 3

abbrev pub accel_cleanup : ℕ
accel_cleanup = 4

abbrev pub vcpu_cleanup : ℕ
vcpu_cleanup = 5

-- An array of the configuration: NULL with a count that is said, or its entries.
pub data ConfigArray {ℓ} (A : Type ℓ) : Type ℓ where
  null : ℕ → ConfigArray A
  items : List A → ConfigArray A

abbrev pub nr_of {ℓ} : {A : Type ℓ} → ConfigArray A → ℕ
nr_of (null n) = n
nr_of (items xs) = length xs

abbrev pub is_missing {ℓ} : {A : Type ℓ} → ConfigArray A → Bool
is_missing (null n) = n != 0
is_missing (items xs) = false

abbrev pub items_of {ℓ} : {A : Type ℓ} → ConfigArray A → List A
items_of (null n) = []
items_of (items xs) = xs

-- A network backend: whether it is usable, and what `get_mac` returns each time, an address as a number.
pub record Net : Type 0 where
  pub usable : Bool
  pub mac : Result ℕ

-- What a hook of the board does to the pool of the VM.
pub data Acquire : Type 0 where
  zallocs : ℕ → Option ℕ → Acquire
  adds : ℕ → ℕ → Option ℕ → Acquire

-- `struct vm_config`, with the lengths of the strings; `board` is `some none` where it lacks `init`.
-- A hook is what it acquires and what it returns.
pub record VmConfig : Type 0 where
  pub accel_name : Option ℕ
  pub loader_name : Option ℕ
  pub loader_opts : Option ℕ
  pub nr_vcpus : ℕ
  pub console_is_err : Bool
  pub drives : ConfigArray Bool
  pub nets : ConfigArray Net
  pub board : Option (Option (List Acquire × ℕ))
  pub late_init : Option ℕ

-- What the code outside `vm_init` returns; `calloc n` is the n-th allocation of a kind.
pub record Supply : Type 0 where
  pub string : ℕ → Option ℕ
  pub drives : Option ℕ
  pub nets : Option ℕ
  pub io_ctx : Result ℕ
  pub io_node : Option ℕ
  pub mutex : Result ℕ
  pub mutex_node : Option ℕ
  pub memory_node : Option ℕ
  pub space_init : ℕ
  pub accel_node : Option ℕ
  pub accel_init : ℕ
  pub vcpus : Option ℕ
  pub vcpu_threads : Option ℕ
  pub vcpu : ℕ → Option ℕ
  pub vcpu_node : ℕ → Option ℕ
  pub vcpu_init : ℕ → ℕ
  pub run_error : ℕ
  -- The addresses of `mem_space` and `accel` in the VM.
  pub mem_space : ℕ
  pub accel : ℕ

abbrev pub is_none : Option ℕ → Bool
is_none none = true
is_none (some a) = false

-- A part of the construction, with an error as its positive number, and the next if it succeeds.
abbrev pub Stage : Type 0
Stage = ResPool → ResPool × ℕ

abbrev pub and_then : ResPool × ℕ → Stage → ResPool × ℕ
and_then (p, zero) next_stage = next_stage p
and_then (p, suc e) next_stage = (p, suc e)

abbrev pub check : ℕ → Stage
check e p = (p, e)

abbrev pub found : Option ℕ → ℕ
found none = enomem
found (some a) = 0

abbrev pub zeroed : ℕ → Option ℕ → Stage
zeroed size calloc p = let (p', a) = zalloc p size calloc in (p', found a)

-- The loop over the strings.
abbrev pub copy_strings : (ℕ → Option ℕ) → ℕ → List (Option ℕ) → Stage
copy_strings calloc n [] p = (p, 0)
copy_strings calloc n (none ∷ ss) p = copy_strings calloc (suc n) ss p
copy_strings calloc n (some len ∷ ss) p =
    and_then (zeroed (len + 1) (calloc n) p) (copy_strings calloc (suc n) ss)

abbrev pub copy_array {ℓ} : {A : Type ℓ} → ConfigArray A → Option ℕ → Stage
copy_array xs calloc p = if nr_of xs == 0 then (p, 0) else zeroed (nr_of xs * 8) calloc p

abbrev pub lacks_init : Option (Option (List Acquire × ℕ)) → Bool
lacks_init (some none) = true
lacks_init _ = false

-- The tests of the configuration before anything is acquired.
abbrev pub check_config : VmConfig → ℕ
check_config c =
    if is_none c.accel_name
      || (c.nr_vcpus == 0
          || (ltb (u64_max / 8) (nr_of c.nets)
              || (ltb (u64_max / 8) (nr_of c.drives)
                  || (is_missing c.nets || (is_missing c.drives || lacks_init c.board)))))
    then einval
    else if ltb u64_max (c.nr_vcpus * 16)
    then eoverflow
    else 0

abbrev pub check_drives : List Bool → ℕ
check_drives [] = 0
check_drives (true ∷ ds) = check_drives ds
check_drives (false ∷ ds) = einval

-- The loop over the addresses of the backends before one, whose address is `mac`.
abbrev pub check_mac : ℕ → List Net → ℕ
check_mac mac [] = 0
check_mac mac (n ∷ ns) = elim n.mac [
  | err e ↦ e
  | ok other ↦ if mac == other then eexist else check_mac mac ns
]

-- The loop over the network backends; `seen` are those before.
abbrev pub check_nets : List Net → List Net → ℕ
check_nets seen [] = 0
check_nets seen (n ∷ ns) = if not n.usable then einval else elim n.mac [
  | err e ↦ e
  | ok mac ↦ if check_mac mac seen != 0 then check_mac mac seen else check_nets (seen ++ n ∷ []) ns
]

-- An object that is made and handed to the pool, which undoes it when it cannot take it.
abbrev pub hand_over : Result ℕ → ℕ → Option ℕ → Stage
hand_over (err e) fn calloc p = (p, e)
hand_over (ok h) fn calloc p =
    let (p', ret, undone) = add_action_or_reset p fn h calloc in (p', ret)

abbrev pub acquire : ℕ → ℕ → Option ℕ → Stage
acquire fn arg calloc p = add_action p fn arg calloc

abbrev pub acquire_all : List Acquire → ResPool → ResPool
acquire_all [] p = p
acquire_all (zallocs size calloc ∷ xs) p = acquire_all xs (zalloc p size calloc).0
acquire_all (adds fn arg calloc ∷ xs) p = acquire_all xs (add_action p fn arg calloc).0

abbrev pub board_init : Option (Option (List Acquire × ℕ)) → Stage
board_init none p = (p, 0)
board_init (some none) p = (p, 0)
board_init (some (some (xs, ret))) p = (acquire_all xs p, ret)

abbrev pub late : Option ℕ → ℕ
late none = 0
late (some ret) = ret

-- Two allocations, with one test after both.
abbrev pub two_arrays : ℕ → Option ℕ → Option ℕ → Stage
two_arrays size a b p =
    let (p', x) = zalloc p size a in
    let (p'', y) = zalloc p' size b in (p'', if is_none x || is_none y then enomem else 0)

abbrev pub vcpu_at : Supply → ℕ → ResPool × Option ℕ → ResPool × ℕ
vcpu_at s i (p, none) = (p, enomem)
vcpu_at s i (p, some a) =
    and_then (acquire vcpu_cleanup a (s.vcpu_node i) p) (check (s.vcpu_init i))

-- The loop over the vCPUs, with the number of those left and the index of the next.
abbrev pub add_vcpus : Supply → ℕ → ℕ → Stage
add_vcpus s zero i p = (p, 0)
add_vcpus s (suc n) i p = and_then (vcpu_at s i (zalloc p 32 (s.vcpu i))) (add_vcpus s n (suc i))

abbrev pub run_stages : List Stage → Stage
run_stages [] p = (p, 0)
run_stages (f ∷ fs) p = and_then (f p) (run_stages fs)

module _ (c : VmConfig) (s : Supply) where
  -- The backends that the configuration names: copied, and tested.
  unfoldable pub config_stages : List Stage
  config_stages =
      check (check_config c)
      ∷ copy_strings s.string 0 (c.accel_name ∷ c.loader_name ∷ c.loader_opts ∷ [])
      ∷ copy_array c.drives s.drives
      ∷ copy_array c.nets s.nets
      ∷ check (if c.console_is_err then einval else check_drives (items_of c.drives))
      ∷ check (check_nets [] (items_of c.nets))
      ∷ []

  unfoldable pub core_stages : List Stage
  core_stages =
      hand_over s.io_ctx io_cleanup s.io_node
      ∷ hand_over s.mutex mutex_cleanup s.mutex_node
      ∷ acquire memory_cleanup s.mem_space s.memory_node
      ∷ check s.space_init
      ∷ acquire accel_cleanup s.accel s.accel_node
      ∷ check s.accel_init
      ∷ []

  unfoldable pub last_stages : List Stage
  last_stages =
      board_init c.board
      ∷ two_arrays (c.nr_vcpus * 8) s.vcpus s.vcpu_threads
      ∷ add_vcpus s c.nr_vcpus 0
      ∷ check (late c.late_init)
      ∷ check s.run_error
      ∷ []

  -- `vm_init`, on the pool that it has initialized; an error leaves the state VM_BUILDING.
  unfoldable pub vm_init : ResPool → ResPool × ℕ × VmState
  unfolding config_stages core_stages last_stages
  vm_init p =
      let (p', ret) = run_stages (config_stages ++ (core_stages ++ last_stages)) p in
      (p', ret, if ret == 0 then VmState.ready else VmState.building)
