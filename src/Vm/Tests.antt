-- ===== src/Vm/Tests.antt =====
-- A run with two vCPUs, one of which reports an error while the I/O context runs, and a construction.
use modvm.Prelude.{
  All, ap, Option-cases, inl, inr, Option, arith, arith, ℕ, List, ◌+◌, ◌*◌, ◌*◌, ◌≡◌, refl, true,
  false, [], ◌∷◌, none, some,
}
use modvm.Prelude.Errno.{ok}
use modvm.AddRam.{VmState}
use modvm.Vm.{
  Vm, creates, kicks, joins, destroys, stops_io, records, asks_stop, wakes, Around, run, start,
  finish, launch, boot_up, spawn, events, report_error, run_cleanup,
}
use modvm.ResPool.{init}
use modvm.Vm.Init.{VmConfig, Supply, items, null, adds, vm_init}
use modvm.Vm.Released.{Undoes, everything}
use modvm.Vm.Destroy.{vm_destroy, vm_destroy-Ends}
use modvm.Device.{Device, DeviceState, Machine, Callbacks, find_child, quiesce}
use modvm.Device.Subtree.{IsTree}
use modvm.Device.Destroy.{Keeps}
use modvm.Vm.Reported.{run_errors}
use modvm.Vm.Stops.{Stopped, run-Stopped}

abbrev two : Vm
two = record {
  state = VmState.ready;
  stop_requested = false;
  run_error = 0;
  vcpu_threads = none ∷ none ∷ [];
}

abbrev around : Around
around = record {
  calloc = true;
  action = true;
  boot = some 0;
  create = λ i. ok (i * 100 + 100);
  io_run = 0;
  kick = λ i. some 0;
  at_start = [];
  at_boot = [];
  at_spawn = λ i. [];
  at_io = records 5 ∷ asks_stop ∷ wakes (λ i. some 7) ∷ [];
  at_join = λ i. records 9 ∷ [];
}

run_twice : (run around two).ret ≡ 5
unfolding run start finish launch boot_up spawn events report_error run_cleanup
run_twice = refl

run_calls :
    (run around two).calls
    ≡ creates 0 100
      ∷ creates 1 200
      ∷ kicks 0 100
      ∷ kicks 1 200
      ∷ kicks 0 100
      ∷ kicks 1 200
      ∷ stops_io
      ∷ joins 100
      ∷ destroys 100
      ∷ joins 200
      ∷ destroys 200
      ∷ []
unfolding run start finish launch boot_up spawn events report_error run_cleanup
run_calls = refl

-- The order of recording: the I/O context's run, the kick within it, the kicks of the cleanup, the
-- joins.
run_errors-two : run_errors around two ≡ 5 ∷ 7 ∷ 7 ∷ 0 ∷ 0 ∷ 9 ∷ 9 ∷ []
unfolding start launch boot_up spawn events
run_errors-two = refl

run-Stopped_example : Stopped around two (run around two)
run-Stopped_example = run-Stopped around two refl refl

-- A VM with one vCPU.
abbrev config : VmConfig
config = record {
  accel_name = some 3;
  loader_name = none;
  loader_opts = none;
  nr_vcpus = 1;
  console_is_err = false;
  drives = items (true ∷ []);
  nets = null 0;
  board = some (some (adds 9 4096 (some 700) ∷ [], 0));
  late_init = none;
}

abbrev supply : Supply
supply = record {
  string = λ n. some 100;
  drives = some 200;
  nets = none;
  io_ctx = ok 300;
  io_node = some 310;
  mutex = ok 320;
  mutex_node = some 330;
  memory_node = some 340;
  space_init = 0;
  accel_node = some 350;
  accel_init = 0;
  vcpus = some 360;
  vcpu_threads = some 370;
  vcpu = λ i. some 400;
  vcpu_node = λ i. some 410;
  vcpu_init = λ i. 0;
  run_error = 0;
  mem_space = 8;
  accel = 16;
}

abbrev dev : ℕ → Option ℕ → Device
dev a p = record {
  addr = a;
  realize = none;
  stop = some 5;
  priv = 0;
  state = DeviceState.live;
  parent = p;
}

-- A bus with a device on it, and a device beside them; each release notes whether it saw a child.
abbrev machine : Machine (List ℕ)
machine = record { devices = dev 1 none ∷ dev 2 (some 1) ∷ dev 4 none ∷ []; world = [] }

abbrev children_seen : Option Device → ℕ
children_seen none = 0
children_seen (some d) = 1

abbrev noting : Callbacks (List ℕ)
noting = record {
  halt = λ f a ds w. w;
  release = λ a ds w. children_seen (find_child a ds) ∷ w;
  build = λ f a m. (m, 0);
}

abbrev SawNone : List ℕ → Type 0
SawNone = All (λ (n : ℕ). n ≡ 0)

noting-Keeps : Keeps noting SawNone
unfolding quiesce
noting-Keeps d ds w gone alone h = elim (Option-cases d.stop) [
  | inl e ↦ rw e (ap children_seen alone, h)
  | inr (f, e) ↦ rw e (ap children_seen alone, h)
]

machine-IsTree : IsTree [] machine.devices
machine-IsTree = ground arith

vm_destroy-Ends_example :
    let (p, ret, _) = vm_init config supply (init 64) in
    (n : Machine (List ℕ)) × (order : List (ℕ × ℕ)) × (vm_destroy noting (λ fn arg. []) machine p
      ≡ some (n, some (record p { resources = [] }, order)))
    × (n.devices ≡ [])
    × SawNone n.world
    × Undoes config supply (p, ret) order
vm_destroy-Ends_example =
    vm_destroy-Ends noting SawNone noting-Keeps config supply 64 (λ fn arg. []) machine
      (omega arith, tt) (λ fn arg. tt) machine-IsTree tt

everything_owed :
    everything config supply ≡ (5, 400) ∷ (9, 4096) ∷ (4, 16) ∷ (3, 8) ∷ (2, 320) ∷ (1, 300) ∷ []
everything_owed = refl
