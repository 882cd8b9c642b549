-- ===== src/Lib.antt =====
-- modvm, a virtual machine monitor in C: its core logic, modelled and verified.
--
-- A VM owns guest RAM and two I/O address spaces. Devices claim ranges of the I/O spaces and hold
-- what they acquire in resource pools, which a teardown releases in reverse. An access of the guest
-- is routed to the device that owns the range; the UART is such a device, with a console behind it.
--
-- What each file models:
--   ResPool    src/util/res_pool.c: `zalloc`, `add_action`, `add_action_or_reset`,
--              `transfer_action`, `cancel_action` and `release_all` are the `res_` functions of
--              these names on a pool (ResPool), its list of nodes in order of acquisition. A cleanup
--              function and its data are two numbers, the addresses.
--   Memory     src/core/memory.c: `find_region`, `map_chunk` and `map_range` on the list of RAM
--              regions (MemSpace), `space_init` and `space_destroy`.
--   AddRam     src/core/memory.c: `vm_add_ram`, on the part of the VM that it uses (VmCtx).
--   IoMap      src/core/io_map.c: registration, removal, relocation and the routing of reads and
--              writes, on the two lists of regions (IoMap).
--   Uart       src/hw/char/uart_16550a.c and uart_16550a_reg.h: the registers, the FIFOs, the backlog,
--              the interrupt line and the back-pressure on the console, on the state Uart. Calls that
--              leave the device, to the interrupt line, the console and the VM, are listed in its log.
--   Virtqueue  src/hw/virtio/virtqueue.c and virtqueue.h: the queue (Virtqueue), `virtqueue_pop` (pop, with
--              a chain VirtqueueChain), `virtqueue_map` (map_at), `virtqueue_read` and
--              `virtqueue_write` (copy), `virtqueue_push` and the set-up. The guest may write its rings
--              at any time, so each load of `virtqueue_pop` has a value of its own (Loads).
--   Virtio     src/hw/virtio/virtio.c and include/modvm/hw/virtio/virtio.h: the state of a device
--              (VirtioDevice) under `virtio_device_set_status_locked` (set_status),
--              `virtio_device_set_features_locked` (set_features), `virtio_device_realize_locked`
--              (realize) and the others; `get_features` returns the argument `offered`.
--   VirtioMmio src/hw/virtio/virtio_mmio.c: the registers of the transport (Mmio), `virtio_mmio_read`
--              (read) and `virtio_mmio_write` (write), over the device of Virtio. Calls that leave the
--              transport are listed, and the device's own handling of a kick is not part of a write.
--   VirtioBlk  src/hw/virtio/virtio_blk.c: `virtio_blk_notify_queue` (notify_queue of Kick, with `serve` from
--              the header of a request to its status and `complete` from there on), the features and
--              the configuration. What a header holds and what the backend returns are arguments.
--   Pci        src/hw/pci/pci.c and pio_bridge.c: `pci_device_set_irq_locked` (set_irq),
--              `pio_bridge_set_irq_cb` (bridge_set_irq) and the header of a device (write_header).
--              The bit sets of the bridge are functions. Pci/Config has
--              `pci_bus_read_config_locked` (read_config) and `pci_bus_write_config_locked`
--              (write_config) with the BARs, which move the regions of IoMap. Pci/Endpoint has
--              `pci_device_register_locked` (register_device), Pci/Register has
--              `pci_register_bar_locked` (register_bar), whose search of the window is in
--              Pci/Window (find_base), and Pci/Ports has `pio_bridge_read` and `pio_bridge_write`
--              (port_read, port_write). Pci/Session puts them in any order. A device is found by
--              its number, so a store through its pointer is a store to the device of that number.
--   Device     src/core/device.c: `device_alloc_locked` (alloc), `device_realize_locked` (realize),
--              `device_destroy_locked` (destroy) and `device_destroy_children` on the devices of a VM
--              (Machine); the callbacks of a class are a parameter (Callbacks).
--   Registry   src/core/device.c, accel.c, board.c and loader.c: the four registries by name.
--   IoCtx      src/io/ctx.c and binding.h: the work queue (IoCtx), the bindings (IoBinding) and what
--              each `io_ctx_` and `io_binding_` function does under its lock; `io_ctx_run` is in three
--              parts, `poll`, `run_take` and `run_finish`. IoCtx/System adds the owners, the
--              producers and the runner, and interleaves them.
--   Vm         src/core/vm.c: `vm_run` (run), `run_cleanup`, `vm_request_shutdown`
--              (request_shutdown) and `vm_report_error` (report_error) on the fields of the VM that
--              they use (Vm). The steps of other threads, and what hooks and threads return, are
--              arguments (Around). `vm_init` (Vm/Init) is a list of stages on the pool of ResPool;
--              what each allocation and hook returns is an argument (Supply). `vm_destroy`
--              (Vm/Destroy) is over the devices of Device and the pool. Vm/Recorded, Vm/Launched and
--              Vm/Reported list the errors of a run in the order of their recording, and Vm/Released
--              what a construction that succeeds owes, both apart from the code.
--   Prelude    what the parts share: tests on numbers, lists, rings, 64-bit words, bits, error
--              codes.
-- The children of a part hold its theorems and are named for what they prove; its Tests hold runs on
-- concrete states.
--
-- Conventions. Numbers are natural numbers; a machine word has its wrap-around written out, and a
-- theorem names the bound of a C type where it needs it. A pointer is its address, NULL is 0 or
-- `none`. An error code is its positive number, 0 is success; a call of code outside a part, as of an
-- allocator, an accelerator or a console, is an argument that says what it returns. The functions run
-- under the lock of the VM, so a call is one step. Warnings and messages are left out, and so are
-- tests of pointers that the model cannot make NULL.
--
-- Bounds. The loop of `release_all` has the number of nodes as fuel: a callback can remove nodes of
-- the pool but not add any while it is released. The loop of `rx_fifo_refill` has the count of the
-- backlog as fuel: each round takes one byte off it. `virtqueue_pop` has `queue_size + 1` rounds,
-- for it stops at a chain longer than the queue; the check of a buffer's pages and a copy have
-- their lengths, for a chunk has at least one byte. Destroying devices has one more round than
-- there are devices: each level and each sibling is a device less; so has the loop of `vm_destroy`.
-- The search for the place of a BAR has 2 ^ 32 + 1 rounds: each starts higher below 4 GiB.
-- The loop over the chunks of a block request has its length; the loop over the requests has one
-- list entry for each.
--
-- Not modelled: the hosts' services, backends and the KVM accelerator, which are system calls; the
-- command line and the log, which are text; the linked list of include/modvm/util/list.h, which is
-- a list here. The PCI transport of virtio, the network device, the removal of a PCI device and
-- the realization of its bridge, the board and the loading of an image have no model.
pub mod Prelude
pub mod ResPool
pub mod Memory
pub mod IoMap
pub mod AddRam
pub mod Uart
pub mod Virtqueue
pub mod Virtio
pub mod VirtioMmio
pub mod VirtioBlk
pub mod Pci
pub mod Device
pub mod Registry
pub mod IoCtx
pub mod Vm
