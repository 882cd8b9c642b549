-- ===== src/Virtqueue/Lifecycle.antt =====
-- The operations of a queue in any order: the rings that the device reads and writes stay mapped.
use modvm.Prelude.{
  ℕ, ◌+◌, ◌*◌, ◌^◌, ◌≤◌, ◌<◌, ◌≡◌, refl, inl, inr, Bool, true, false, Option, none, some, arith,
  sym, ap, ◌∙◌, if◌then◌else◌,
}
use mathlib.Core.Path.{subst₂}
use modvm.Memory.{MemSpace, map_range}
use modvm.Memory.Translate.{IsValid}
use modvm.Virtqueue.{
  Virtqueue, is_power, create, set_size, reset, bind_rings, set_addrs, disable, push,
}
use modvm.Virtqueue.Pop.{VirtqueueChain, Loads, Popped, pop}
use modvm.Virtqueue.Pop.Outcome.{pop-Outcome}

-- One call on the queue. `loads` are words of the guest's memory.
pub data Step (mem : MemSpace) : Virtqueue → Virtqueue → Type 0 where
  sized : (vq : Virtqueue) (size : ℕ) → Step mem vq (set_size vq size).0
  was_reset : (vq : Virtqueue) → Step mem vq (reset vq)
  addressed :
      (vq : Virtqueue) (desc avail used : ℕ) → Step mem vq (set_addrs mem vq desc avail used).0
  disabled : (vq : Virtqueue) → Step mem vq (disable vq)
  pushed : (vq : Virtqueue) (head len : ℕ) → Step mem vq (push vq head len).0
  taken :
      (vq vq' : Virtqueue) (loads : Loads) (c : VirtqueueChain) (r : Popped)
      → ((n i : ℕ) → (loads.desc n i).addr < 2 ^ 64)
      → pop mem loads vq ≡ some (vq', c, r)
      → Step mem vq vq'

-- From a queue that was created with one size, by any calls.
pub data Reachable (mem : MemSpace) (size : ℕ) : Virtqueue → Type 0 where
  created : (vq : Virtqueue) → create size true ≡ some vq → Reachable mem size vq
  stepped : (vq vq' : Virtqueue) → Reachable mem size vq → Step mem vq vq' → Reachable mem size vq'

-- A ring of `len` bytes is mapped as a whole at the address that the queue keeps.
abbrev pub IsRing : MemSpace → Bool → ℕ → Option ℕ → Type 0
IsRing mem write len ring =
    (gpa : ℕ) × (h : ℕ) × (ring ≡ some h) × (map_range mem gpa len write ≡ some h)

-- The three rings, at the present size of the queue.
pub record IsBound (mem : MemSpace) (vq : Virtqueue) : Type 0 where
  pub desc : IsRing mem false (16 * vq.queue_size) vq.desc_table
  pub avail : IsRing mem false (6 + 2 * vq.queue_size) vq.avail_ring
  pub used : IsRing mem true (6 + 8 * vq.queue_size) vq.used_ring

pub record IsSound (mem : MemSpace) (size : ℕ) (vq : Virtqueue) : Type 0 where
  pub max : vq.max_size ≡ size
  pub full : 0 < vq.queue_size
  pub fits : vq.queue_size ≤ vq.max_size
  pub power : is_power vq.queue_size ≡ true
  pub max_power : is_power vq.max_size ≡ true
  pub bound : vq.enabled ≡ true → IsBound mem vq

-- A call that leaves the sizes and the rings as they are.
record Same (vq vq' : Virtqueue) : Type 0 where
  max_size : vq'.max_size ≡ vq.max_size
  queue_size : vq'.queue_size ≡ vq.queue_size
  enabled : vq'.enabled ≡ true → vq.enabled ≡ true
  desc_table : vq'.desc_table ≡ vq.desc_table
  avail_ring : vq'.avail_ring ≡ vq.avail_ring
  used_ring : vq'.used_ring ≡ vq.used_ring

set_size_cases :
    (P : Virtqueue → Type 0) (vq : Virtqueue) (n : ℕ)
    → P vq
    → (vq.enabled ≡ false
        → 0 < n
        → is_power n ≡ true
        → n ≤ vq.max_size
        → P (record vq { queue_size = n }))
    → P (set_size vq n).0
unfolding set_size
set_size_cases P vq n same grown = ground (arith, grown)

bind_rings_cases :
    (P : Virtqueue → Type 0) (vq : Virtqueue) (desc avail used : Option ℕ)
    → P vq
    → ((d a u : ℕ)
        → desc ≡ some d
        → avail ≡ some a
        → used ≡ some u
        → P (record vq {
          desc_table = some d;
          avail_ring = some a;
          used_ring = some u;
          enabled = true;
        }))
    → P (bind_rings vq desc avail used).0
unfolding bind_rings
bind_rings_cases P vq none avail used same bound = same
bind_rings_cases P vq (some d) none used same bound = same
bind_rings_cases P vq (some d) (some a) none same bound = same
bind_rings_cases P vq (some d) (some a) (some u) same bound = bound d a u refl refl refl

either :
    (P : Virtqueue → Type 0) (b : Bool) (r s : Virtqueue × ℕ)
    → P r.0
    → P s.0
    → P (if b then r else s).0
either P true r s p q = p
either P false r s p q = q

push-Same : (vq : Virtqueue) (head len : ℕ) → Same vq (push vq head len).0
unfolding push
push-Same vq head len = ground arith

disable-Same : (vq : Virtqueue) → Same vq (disable vq)
unfolding disable
disable-Same vq = ground arith

module _ (mem : MemSpace) (size : ℕ) where
  IsRing-same :
      (write : Bool) {n n' : ℕ} {r r' : Option ℕ}
      → n' ≡ n
      → r' ≡ r
      → IsRing mem write n r
      → IsRing mem write n' r'
  IsRing-same write e f b = subst₂ (IsRing mem write) (sym e) (sym f) b

  Same-IsSound : (vq vq' : Virtqueue) → Same vq vq' → IsSound mem size vq → IsSound mem size vq'
  Same-IsSound vq vq' s v = record {
    max = s.max_size ∙ v.max;
    full = omega (arith, s.queue_size, v.full);
    fits = omega (arith, s.queue_size, s.max_size, v.fits);
    power = ap is_power s.queue_size ∙ v.power;
    max_power = ap is_power s.max_size ∙ v.max_power;
    bound = λ on.
        let b = v.bound (s.enabled on) in
        record {
          desc = IsRing-same false (ap (λ n. 16 * n) s.queue_size) s.desc_table b.desc;
          avail = IsRing-same false (ap (λ n. 6 + 2 * n) s.queue_size) s.avail_ring b.avail;
          used = IsRing-same true (ap (λ n. 6 + 8 * n) s.queue_size) s.used_ring b.used;
        };
  }

  create-IsSound : (vq : Virtqueue) → create size true ≡ some vq → IsSound mem size vq
  unfolding create
  create-IsSound vq e = record {
    max = ground arith;
    full = ground arith;
    fits = ground arith;
    power = ground arith;
    max_power = ground arith;
    bound = λ on. absurd (ground arith);
  }

  set_size-IsSound :
      (vq : Virtqueue) (n : ℕ) → IsSound mem size vq → IsSound mem size (set_size vq n).0
  set_size-IsSound vq n v = set_size_cases (IsSound mem size) vq n v λ off pos power fits. record {
    max = v.max;
    full = pos;
    fits = fits;
    power = power;
    max_power = v.max_power;
    bound = λ on. absurd (ground arith);
  }

  reset-IsSound : (vq : Virtqueue) → IsSound mem size vq → IsSound mem size (reset vq)
  unfolding reset
  reset-IsSound vq v = record {
    max = v.max;
    full = omega (arith, v.full, v.fits);
    fits = omega arith;
    power = v.max_power;
    max_power = v.max_power;
    bound = λ on. absurd (ground arith);
  }

  set_addrs-IsSound :
      (vq : Virtqueue) (desc avail used : ℕ)
      → IsSound mem size vq
      → IsSound mem size (set_addrs mem vq desc avail used).0
  unfolding set_addrs
  set_addrs-IsSound vq desc avail used v = either (IsSound mem size) _ _ _ v (
      bind_rings_cases (IsSound mem size) vq (map_range mem desc (16 * vq.queue_size) false)
        (map_range mem avail (6 + 2 * vq.queue_size) false)
        (map_range mem used (6 + 8 * vq.queue_size) true) v
        λ d a u ed ea eu. record {
          max = v.max;
          full = v.full;
          fits = v.fits;
          power = v.power;
          max_power = v.max_power;
          bound = λ on. record {
            desc = (desc, d, refl, ed);
            avail = (avail, a, refl, ea);
            used = (used, u, refl, eu);
          };
        })

  module _ (v : IsValid mem) where
    pop-Same :
        (vq vq' : Virtqueue) (loads : Loads) (c : VirtqueueChain) (r : Popped)
        → ((n i : ℕ) → (loads.desc n i).addr < 2 ^ 64)
        → pop mem loads vq ≡ some (vq', c, r)
        → Same vq vq'
    pop-Same vq vq' loads c r words e = elim (pop-Outcome mem v loads words vq) [
      | inl o ↦ ground arith
      | inr (inl (o, b)) ↦ ground arith
      | inr (inr (inl (d, k, o, ne))) ↦ ground arith
      | inr (inr (inr (d, o, full))) ↦ ground arith
    ]

    Step-IsSound :
        {vq vq' : Virtqueue} → Step mem vq vq' → IsSound mem size vq → IsSound mem size vq'
    Step-IsSound (sized vq n) s = set_size-IsSound vq n s
    Step-IsSound (was_reset vq) s = reset-IsSound vq s
    Step-IsSound (addressed vq desc avail used) s = set_addrs-IsSound vq desc avail used s
    Step-IsSound (disabled vq) s = Same-IsSound vq _ (disable-Same vq) s
    Step-IsSound (pushed vq head len) s = Same-IsSound vq _ (push-Same vq head len) s
    Step-IsSound (taken vq vq' loads c r words e) s =
        Same-IsSound vq vq' (pop-Same vq vq' loads c r words e) s

    -- In whatever order a queue of one size is used, its present size is a power of two, not 0 and
    -- not above the size it was created with, and while it is enabled the descriptor table, the
    -- available ring and the used ring are each mapped as a whole for the present size, the used
    -- ring for writing.
    pub Reachable-IsSound : {vq : Virtqueue} → Reachable mem size vq → IsSound mem size vq
    Reachable-IsSound (created vq e) = create-IsSound vq e
    Reachable-IsSound (stepped vq vq' r t) = Step-IsSound t (Reachable-IsSound r)
