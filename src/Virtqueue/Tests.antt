-- ===== src/Virtqueue/Tests.antt =====
-- A queue of four descriptors over a bank of RAM that the device may write, and one that it may not.
use modvm.Prelude.{
  ℕ, zero, suc, ◌^◌, ◌+◌, ◌≤◌, ◌<◌, ◌≡◌, ◌↔◌, refl, ◌⊎◌, inl, true, false, List, [], ◌∷◌, some,
  none, arith,
}
use modvm.Prelude.Errno.{einval}
use modvm.Memory.{MemSpace, find_region, map_chunk}
use modvm.Memory.Translate.{IsValid}
use modvm.Virtqueue.{Virtqueue, create, set_addrs}
use modvm.Virtqueue.Pop.{Loads, VirtqueueChain, popped, pop, is_mapped}
use modvm.Virtqueue.Pop.Mapped.{RangeUsable, is_mapped-exact}
use modvm.Virtqueue.Pop.Chain.{IsChain, BufUsable}
use modvm.Virtqueue.Pop.Outcome.{Outcome, pop-Outcome}
use modvm.Virtqueue.Pop.Served.{Follows, last, more, buf_of, pop-Follows}
use modvm.Virtqueue.Copy.{copy}
use modvm.Virtqueue.Copy.Transfer.{Copies, copy_total}
use modvm.Virtqueue.Lifecycle.{Reachable, created, stepped, addressed, IsSound, Reachable-IsSound}

abbrev banks : MemSpace
banks = record {
  regions =
      record { gpa = 0; size = 4096; hva = 65536; flags = 1 }
      ∷ record { gpa = 4096; size = 8192; hva = 1048576; flags = 0 }
      ∷ [];
  total_ram = 12288;
  host_page_size = 4096;
}

banks-IsValid : IsValid banks
banks-IsValid = record {
  fit = (omega arith, (omega arith, tt));
  apart = ((inl (omega arith), tt), (tt, tt));
}

abbrev four : Virtqueue
four = record {
  queue_size = 4;
  max_size = 4;
  broken = false;
  enabled = true;
  last_avail_idx = 65535;
  last_used_idx = 0;
  desc_table = some 1048576;
  avail_ring = some 1048640;
  used_ring = some 1048656;
}

-- Descriptor 2, of 8 bytes to read, is followed by descriptor 1, of 2 bytes to write.
abbrev ring : Loads
ring = record {
  avail_idx = 0;
  avail_ring = λ k. 2;
  desc = λ n i. elim n [
    | zero ↦ record { addr = 16; len = 1; flags = 1; next = 1 }
    | suc m ↦ record { addr = 4096; len = 2; flags = 2; next = 0 }
  ];
}

ring_words : (n i : ℕ) → (ring.desc n i).addr < 2 ^ 64
ring_words zero i = omega arith
ring_words (suc n) i = omega arith

is_mapped-exact_example :
    (is_mapped banks 16 4088 16 false ≡ true) ↔ RangeUsable banks false 4088 16
is_mapped-exact_example = is_mapped-exact banks banks-IsValid false 4088 16 (omega arith)

pop-Outcome_example : Outcome banks banks-IsValid ring ring_words four (pop banks ring four)
pop-Outcome_example = pop-Outcome banks banks-IsValid ring ring_words four

read_buf : BufUsable banks (buf_of (ring.desc 0 2))
unfolding is_mapped map_chunk find_region
read_buf = (omega arith, (is_mapped-exact banks banks-IsValid false 16 1 (omega arith)).0 refl)

write_buf : BufUsable banks (buf_of (ring.desc 1 1))
unfolding is_mapped map_chunk find_region
write_buf = (omega arith, (is_mapped-exact banks banks-IsValid true 4096 2 (omega arith)).0 refl)

ring-Follows : Follows banks ring 4 0 false 2 (buf_of (ring.desc 0 2) ∷ buf_of (ring.desc 1 1) ∷ [])
ring-Follows =
    more 0 false 2 (buf_of (ring.desc 1 1) ∷ []) (omega arith)
      (record { flags = refl; order = λ e. absurd (ground arith); usable = read_buf }) (omega arith)
      (last 1 false 1 (omega arith) (record { flags = refl; order = λ e. refl; usable = write_buf })
        refl)

pop-Follows_example :
    (c : VirtqueueChain) × (pop banks ring four
      ≡ some (record four { last_avail_idx = 0 }, c, popped))
    × (c.bufs ≡ buf_of (ring.desc 0 2) ∷ buf_of (ring.desc 1 1) ∷ [])
pop-Follows_example =
    pop-Follows banks ring four (buf_of (ring.desc 0 2) ∷ buf_of (ring.desc 1 1) ∷ []) banks-IsValid
      refl refl (omega arith) (omega arith) ring-Follows (omega arith) (omega arith) (omega arith)

abbrev chain : VirtqueueChain
chain = record {
  bufs = buf_of (ring.desc 0 2) ∷ buf_of (ring.desc 1 1) ∷ [];
  head = 2;
  readable = 1;
  writable = 2;
}

chain-IsChain : IsChain banks chain true
chain-IsChain = record {
  usable = (read_buf, (write_buf, tt));
  readable = refl;
  writable = refl;
  order = (
    buf_of (ring.desc 0 2) ∷ [],
    buf_of (ring.desc 1 1) ∷ [],
    refl,
    (refl, tt),
    (refl, tt),
    λ e. absurd (ground arith),
  );
}

copy_total_example :
    ((1 + 1 ≤ 2)
      × (pieces : List (ℕ × ℕ)) × (copy banks chain true 1 1 ≡ some (pieces, 0))
      × Copies banks chain.bufs true 1 1 pieces)
    ⊎ ((2 < 1 + 1) × (copy banks chain true 1 1 ≡ some ([], einval)))
copy_total_example = copy_total banks chain true true 1 1 banks-IsValid chain-IsChain

abbrev created_four : Virtqueue
created_four = record four {
  enabled = false;
  last_avail_idx = 0;
  desc_table = none;
  avail_ring = none;
  used_ring = none;
}

four-Reachable : Reachable banks 4 (set_addrs banks created_four 4096 4160 4176).0
unfolding create
four-Reachable =
    stepped created_four _ (created created_four refl) (addressed created_four 4096 4160 4176)

Reachable-IsSound_example : IsSound banks 4 (set_addrs banks created_four 4096 4160 4176).0
Reachable-IsSound_example = Reachable-IsSound banks 4 banks-IsValid four-Reachable
