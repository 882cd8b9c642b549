-- ===== src/VirtioBlk/Tests.antt =====
-- A read of one sector, and the configuration of a medium of 8 MiB.
use modvm.Prelude.{
  ℕ, ◌+◌, ◌≤◌, ◌≡◌, refl, true, false, [], ◌∷◌, some, none, arith, ◌==◌, if◌then◌else◌,
}
use modvm.Memory.{MemSpace, find_region, map_chunk}
use modvm.Memory.Translate.{IsValid}
use modvm.Virtqueue.{Virtqueue, create}
use modvm.Virtqueue.Pop.{VirtqueueChain, VirtqueueBuf, is_mapped}
use modvm.Virtqueue.Pop.Mapped.{is_mapped-exact}
use modvm.Virtqueue.Pop.Chain.{IsChain, BufUsable}
use modvm.Virtio.{VirtioDevice, allocated, initializing, add_queue}
use modvm.VirtioBlk.{Backend, total_of}
use modvm.VirtioBlk.Kick.{Request}
use modvm.VirtioBlk.Config.{blk_realize, ReadsAs, config_bytes, read_config-blk_realize}
use modvm.VirtioBlk.Answered.{Ends, serve_chain-Served}

abbrev bank : MemSpace
bank = record {
  regions = record { gpa = 0; size = 8192; hva = 65536; flags = 0 } ∷ [];
  total_ram = 8192;
  host_page_size = 4096;
}

bank-IsValid : IsValid bank
bank-IsValid = record { fit = (omega arith, tt); apart = (tt, tt) }

abbrev header : VirtqueueBuf
header = record { gpa = 16; len = 16; is_write = false }

abbrev sector : VirtqueueBuf
sector = record { gpa = 4096; len = 513; is_write = true }

abbrev chain : VirtqueueChain
chain = record { bufs = header ∷ sector ∷ []; head = 2; readable = 16; writable = 513 }

header_usable : BufUsable bank header
unfolding is_mapped map_chunk find_region
header_usable = (omega arith, (is_mapped-exact bank bank-IsValid false 16 16 (omega arith)).0 refl)

sector_usable : BufUsable bank sector
unfolding is_mapped map_chunk find_region
sector_usable =
    (omega arith, (is_mapped-exact bank bank-IsValid true 4096 513 (omega arith)).0 refl)

chain-IsChain : IsChain bank chain true
chain-IsChain = record {
  usable = (header_usable, (sector_usable, tt));
  readable = refl;
  writable = refl;
  order = (header ∷ [], sector ∷ [], refl, (refl, tt), (refl, tt), λ e. absurd (ground arith));
}

abbrev disk : Backend
disk = record {
  capacity = 8388608;
  readonly = true;
  flush = none;
  transfer = λ d. if d == 0 then some 512 else none;
}

abbrev request : Request
request = record {
  loads = record {
    avail_idx = 0;
    avail_ring = λ k. 2;
    desc = λ n i. record { addr = 0; len = 0; flags = 0; next = 0 };
  };
  hdr = record { type = 0; sector = 3 };
  blk = disk;
}

abbrev eight : Virtqueue
eight = record {
  queue_size = 8;
  max_size = 8;
  broken = false;
  enabled = true;
  last_avail_idx = 1;
  last_used_idx = 0;
  desc_table = some 65536;
  avail_ring = some 65664;
  used_ring = some 65700;
}

disk_honest : (d k : ℕ) → disk.transfer d ≡ some k → d + k ≤ total_of chain request.hdr
disk_honest d k e = ground arith

serve_chain-Served_example : Ends bank request chain eight (λ vq. none)
serve_chain-Served_example =
    serve_chain-Served bank request chain eight (λ vq. none) true bank-IsValid chain-IsChain
      (omega arith) disk_honest

abbrev starting : VirtioDevice
starting = record allocated { state = initializing; adopted = true }

realized : (blk_realize starting true disk).2 ≡ some (config_bytes 8388608)
unfolding blk_realize add_queue create
realized = refl

read_config-blk_realize_example : ReadsAs (config_bytes 8388608) 8388608
read_config-blk_realize_example =
    read_config-blk_realize starting true disk (config_bytes 8388608) (omega arith) realized
