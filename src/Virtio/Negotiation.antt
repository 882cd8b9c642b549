-- ===== src/Virtio/Negotiation.antt =====
-- Whatever a driver writes, a device works with features that were offered.
use modvm.Virtio.{DeviceCall}
use modvm.Prelude.{
  if_cases, branch_cases, ℕ, suc, ◌-◌, ◌%◌, ◌*◌, ◌^◌, ◌≤◌, ◌<◌, ◌≡◌, ◌≢◌, refl, Bool, true, false,
  ◌||◌, not, List, [], ◌∷◌, length, length-append, arith, ltb, bit_and, bit_or, ◌==◌, map,
  Option-cases, ltb→lt, ◌!=◌, if◌then◌else◌, ◌++◌, inl, inr, ap, sym, ◌∙◌,
}
use modvm.Prelude.Bits.{has, raise, every_byte}
use modvm.Prelude.Errno.{einval}
use modvm.Virtqueue
use modvm.Virtqueue.{Virtqueue}
use modvm.Virtio.Status.{
  is_staged, settle-settles, fails, fail_table, conj, implies, ready-features_ok,
}
use modvm.Virtio.{
  VirtioDevice, fresh, active, initializing, allocated, is_state, add_queue, add_queues, stop,
  realize, adopt, is_acceptable, settle, set_status, set_features, fail, is_ready,
  status_features_ok, status_needs_reset, max_vqs,
}

-- One call on a device that offers `offered`.
pub data Step (offered : ℕ) : VirtioDevice → VirtioDevice → Type 0 where
  adopted : (dev : VirtioDevice) (ret : ℕ) → Step offered dev (adopt dev ret).0
  realized :
      (dev : VirtioDevice) (queues : List (ℕ × Bool)) (ret : ℕ)
      → Step offered dev (realize dev queues ret).0
  stops : (dev : VirtioDevice) → Step offered dev (stop dev).0
  status_written :
      (dev : VirtioDevice) (status : ℕ) → Step offered dev (set_status offered dev status).0
  features_written :
      (dev : VirtioDevice) (selector value : ℕ) → Step offered dev (set_features dev selector value)
  failed : (dev : VirtioDevice) → Step offered dev (fail dev).0

pub data Reachable (offered : ℕ) : VirtioDevice → Type 0 where
  start : Reachable offered allocated
  step :
      (dev dev' : VirtioDevice)
      → Reachable offered dev
      → Step offered dev dev'
      → Reachable offered dev'

pub record IsSound (offered : ℕ) (dev : VirtioDevice) : Type 0 where
  pub word : dev.status < 256
  pub staged : is_staged dev.status ≡ true
  pub accepted :
      has dev.status status_features_ok ≡ true → is_acceptable dev.driver_features offered ≡ true
  pub few : length dev.vqs ≤ max_vqs

length-map : {A B : Type 0} (f : A → B) (xs : List A) → length (map f xs) ≡ length xs
length-map f [] = refl
length-map f (x ∷ xs) = ap suc (length-map f xs)

add_queue_cases :
    (P : VirtioDevice → Type 0) (dev : VirtioDevice) (size : ℕ) (calloc : Bool)
    → P dev
    → ((vq : Virtqueue) → length dev.vqs ≢ max_vqs → P (record dev { vqs = dev.vqs ++ vq ∷ [] }))
    → P (add_queue dev size calloc).0
unfolding add_queue
add_queue_cases P dev size calloc same grown = elim (Option-cases (Virtqueue.create size calloc)) [
  | inl e ↦ ground arith
  | inr (vq, e) ↦ ground (arith, grown vq)
]

set_features_cases :
    (P : VirtioDevice → Type 0) (dev : VirtioDevice) (selector value : ℕ)
    → P dev
    → (has dev.status status_features_ok ≡ false → (f : ℕ) → P (record dev { driver_features = f }))
    → P (set_features dev selector value)
unfolding set_features
set_features_cases P dev selector value same changed =
    let f =
      bit_or (bit_and dev.driver_features (2 ^ 64 - 1 - (2 ^ 32 - 1) * 2 ^ (selector * 32)))
        (value * 2 ^ (selector * 32)) in
    let one : has dev.status status_features_ok ≡ false → P (record dev { driver_features = f }) =
      λ h. changed h f in
    ground (arith, one)

stop_status :
    (dev : VirtioDevice)
    → let w = (stop dev).0 in
      (w.status ≡ dev.status)
      × (w.driver_features ≡ dev.driver_features)
      × (length w.vqs ≡ length dev.vqs)
unfolding stop
stop_status dev = (ground arith, ground arith, ground arith)

nothing_set : (is_staged 0 ≡ true) × (has 0 status_features_ok ≡ false)
unfolding has
nothing_set = (refl, refl)

or_known : {a b : Bool} → (a ≡ true → b ≡ true) → a || b ≡ true → b ≡ true
or_known {a = true} f h = f refl
or_known {a = false} f h = h

module _ (offered : ℕ) where
  -- A call that leaves the protocol alone, and not more queues than it may.
  Same-IsSound :
      (dev dev' : VirtioDevice)
      → dev'.status ≡ dev.status
      → dev'.driver_features ≡ dev.driver_features
      → length dev'.vqs ≤ max_vqs
      → IsSound offered dev
      → IsSound offered dev'
  Same-IsSound dev dev' s f few v = record {
    word = omega (arith, v.word);
    staged = ap is_staged s ∙ v.staged;
    accepted = λ h.
        ap (λ k. is_acceptable k offered) f
        ∙ v.accepted (ap (λ k. has k status_features_ok) (sym s) ∙ h);
    few = few;
  }

  add_queue-IsSound :
      (dev : VirtioDevice) (size : ℕ) (calloc : Bool)
      → IsSound offered dev
      → IsSound offered (add_queue dev size calloc).0
  add_queue-IsSound dev size calloc v =
      add_queue_cases (IsSound offered) dev size calloc v λ vq free.
        Same-IsSound dev (record dev { vqs = dev.vqs ++ vq ∷ [] }) refl refl
          (omega (arith, length-append dev.vqs (vq ∷ []), v.few)) v

  add_queues-IsSound :
      (queues : List (ℕ × Bool)) (dev : VirtioDevice)
      → IsSound offered dev
      → IsSound offered (add_queues dev queues)
  unfolding add_queues
  add_queues-IsSound [] dev v = v
  add_queues-IsSound (q ∷ qs) dev v =
      add_queues-IsSound qs (add_queue dev q.0 q.1).0 (add_queue-IsSound dev q.0 q.1 v)

  stop-IsSound : (dev : VirtioDevice) → IsSound offered dev → IsSound offered (stop dev).0
  stop-IsSound dev v =
      Same-IsSound dev (stop dev).0 (stop_status dev).0 (stop_status dev).1
        (omega (arith, v.few, (stop_status dev).2)) v

  set_status-IsSound :
      (dev : VirtioDevice) (status : ℕ)
      → IsSound offered dev
      → IsSound offered (set_status offered dev status).0
  unfolding set_status
  set_status-IsSound dev status v =
      if_cases (λ (r : VirtioDevice × List DeviceCall). IsSound offered (r.0)) (status == 0) _ _
        (λ _. record {
          word = omega arith;
          staged = nothing_set.0;
          accepted = λ h. absurd (ground (arith, nothing_set.1));
          few = omega (arith, length-map Virtqueue.reset dev.vqs, v.few);
        })
        λ _.
          let merged = bit_or (bit_and status 0x8f) dev.status % 2 ^ 8 in
          let was_ok = has dev.status status_features_ok in
          let acceptable = is_acceptable dev.driver_features offered in
          let s = settle merged was_ok acceptable in
          let (small, rest) =
            conj (ltb s 256) _ (settle-settles merged was_ok acceptable (omega arith)) in
          let (staged, legal) = conj (is_staged s) _ rest in
          record {
            word = ltb→lt _ 256 small;
            staged = staged;
            accepted = λ h. or_known v.accepted (implies (has s status_features_ok) _ legal h);
            few = v.few;
          }

  set_features-IsSound :
      (dev : VirtioDevice) (selector value : ℕ)
      → IsSound offered dev
      → IsSound offered (set_features dev selector value)
  set_features-IsSound dev selector value v =
      set_features_cases (IsSound offered) dev selector value v λ free f. record {
        word = v.word;
        staged = v.staged;
        accepted = λ h. absurd (ground arith);
        few = v.few;
      }

  fail-IsSound : (dev : VirtioDevice) → IsSound offered dev → IsSound offered (fail dev).0
  unfolding fail
  fail-IsSound dev v =
      let s = raise dev.status status_needs_reset in
      let t =
        implies (is_staged dev.status) _ (every_byte fails fail_table dev.status v.word) v.staged in
      let (small, rest) = conj (ltb s 256) _ t in
      let (staged, legal) = conj (is_staged s) _ rest in
      record {
        word = ltb→lt _ 256 small;
        staged = staged;
        accepted = λ h. v.accepted (implies (has s status_features_ok) _ legal h);
        few = v.few;
      }

  realize-IsSound :
      (dev : VirtioDevice) (queues : List (ℕ × Bool)) (ret : ℕ)
      → IsSound offered dev
      → IsSound offered (realize dev queues ret).0
  unfolding realize
  realize-IsSound dev queues ret v =
      let begun = record dev { state = initializing } in
      let built = add_queues-IsSound queues begun (Same-IsSound dev begun refl refl v.few v) in
      let b = add_queues begun queues in
      if_cases (λ (r : VirtioDevice × ℕ). IsSound offered (r.0))
        (not (is_state dev.state fresh) || not dev.adopted) (dev, einval)
        (if ret != 0 then (stop b).0 else record b { state = active }, ret) (λ _. v)
        λ _.
          branch_cases (IsSound offered) (ret != 0) (stop b).0 (record b { state = active })
            (stop-IsSound b built)
            (Same-IsSound b (record b { state = active }) refl refl built.few built)

  adopt-IsSound :
      (dev : VirtioDevice) (ret : ℕ) → IsSound offered dev → IsSound offered (adopt dev ret).0
  unfolding adopt
  adopt-IsSound dev ret v =
      if_cases (λ (r : VirtioDevice × ℕ). IsSound offered (r.0))
        (dev.adopted || not (is_state dev.state fresh)) (dev, einval)
        (if ret == 0 then (record dev { adopted = true }, 0) else (dev, ret)) (λ _. v)
        λ _.
          if_cases (λ (r : VirtioDevice × ℕ). IsSound offered (r.0)) (ret == 0)
            (record dev { adopted = true }, 0) (dev, ret)
            (λ _. Same-IsSound dev (record dev { adopted = true }) refl refl v.few v) (λ _. v)

  Step-IsSound :
      {dev dev' : VirtioDevice} → Step offered dev dev' → IsSound offered dev → IsSound offered dev'
  Step-IsSound (adopted dev ret) v = adopt-IsSound dev ret v
  Step-IsSound (realized dev queues ret) v = realize-IsSound dev queues ret v
  Step-IsSound (stops dev) v = stop-IsSound dev v
  Step-IsSound (status_written dev status) v = set_status-IsSound dev status v
  Step-IsSound (features_written dev selector value) v = set_features-IsSound dev selector value v
  Step-IsSound (failed dev) v = fail-IsSound dev v

  Reachable-IsSound : {dev : VirtioDevice} → Reachable offered dev → IsSound offered dev
  Reachable-IsSound start = record {
    word = omega arith;
    staged = nothing_set.0;
    accepted = λ h. absurd (ground (arith, nothing_set.1));
    few = omega arith;
  }
  Reachable-IsSound (step dev dev' r s) = Step-IsSound s (Reachable-IsSound r)

  -- Whatever is written to a device and in whatever order, the features that the driver chose are
  -- acceptable from FEATURES_OK on: they have VERSION_1 and no bit that the device does not offer.
  -- DRIVER_OK comes only with FEATURES_OK, that with DRIVER, and that with ACKNOWLEDGE; so a device
  -- that is ready has them all, and it has at most eight queues.
  pub Reachable-negotiated :
      {dev : VirtioDevice}
      → Reachable offered dev
      → IsSound offered dev
        × (is_ready dev ≡ true → is_acceptable dev.driver_features offered ≡ true)
  unfolding is_ready
  Reachable-negotiated {dev} r =
      let v = Reachable-IsSound r in
      (
        v,
        λ ready. v.accepted (
            ready-features_ok dev.status v.word v.staged
              (conj (is_state dev.state active) _ ready).1),
      )
