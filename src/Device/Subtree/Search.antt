-- ===== src/Device/Subtree/Search.antt =====
-- What the searches of the device list find after a subtree or a child has left it.
use modvm.Prelude.{
  ℕ, ◌<◌, ◌≡◌, refl, ap, sym, subst, ◌∙◌, inl, inr, Bool, true, false, List, [], ◌∷◌, none, some,
  arith, length, IsIn, Bool-cases, Option-cases, ◌==◌, ==_iff,
}
use modvm.Device.{Device, has_parent, find_child, del_device, get_device}
use modvm.Device.Subtree.{
  only, mark, falls, keep, without, IsTree, keep_gone, keep_stays, without_here, without_past,
  find_child_cases, find_child_unseen,
}
use modvm.Device.Subtree.Prune.{not_only, past_first}

-- No child is left after a pass.
pub find_child-keep :
    (a : ℕ) (s : ℕ → Bool) (ds : List Device) → s a ≡ true → find_child a (keep s ds) ≡ none
unfolding keep find_child
find_child-keep a s [] e = refl
find_child-keep a s (d ∷ ds) e = elim (Bool-cases (falls s d)) [
  | inl f ↦
      ap (find_child a) (keep_gone s d ds f) ∙ find_child-keep a (mark d.addr s) ds (ground arith)
  | inr f ↦
      ap (find_child a) (keep_stays s d ds f)
      ∙ rw (not_parent a s d e f, find_child) (find_child-keep a s ds e)
]
  where
    not_parent :
        (a : ℕ) (s : ℕ → Bool) (d : Device)
        → s a ≡ true
        → falls s d ≡ false
        → has_parent a d ≡ false
    not_parent a s d e f = elim (Option-cases d.parent) [
      | inl p ↦ rw p refl
      | inr (q, p) ↦ elim (Bool-cases (q == a)) [
        | inl h ↦ let clash : false ≡ true = sym (rw p at f) ∙ ap s ((==_iff q a).0 h) ∙ e in cc
        | inr h ↦ rw p h
      ]
    ]

pub find_child-del :
    (a c : ℕ) (ds : List Device) → find_child a ds ≡ none → find_child a (del_device c ds) ≡ none
unfolding find_child del_device
find_child-del a c [] e = refl
find_child-del a c (d ∷ ds) e = elim (find_child_cases a d ds none e) [
  | inl (h, k) ↦ absurd (cc)
  | inr (h, k) ↦ ground (arith, find_child-del a c ds k)
]

-- An address that was seen before is not met again.
get_device_seen :
    (a : ℕ) (seen : List ℕ) (ds : List Device)
    → IsTree seen ds
    → IsIn a seen
    → get_device a ds ≡ none
unfolding get_device
get_device_seen a seen [] t m = refl
get_device_seen a seen (d ∷ ds) t m = elim (Bool-cases (d.addr == a)) [
  | inl h ↦ absurd (t.0 (subst (λ x. IsIn x seen) (sym ((==_iff d.addr a).0 h)) m))
  | inr h ↦ rw (h, get_device) (get_device_seen a (d.addr ∷ seen) ds t.2 (inr m))
]

get_device-keep :
    (a : ℕ) (s : ℕ → Bool) (ds : List Device)
    → get_device a ds ≡ none
    → get_device a (keep s ds) ≡ none
unfolding get_device keep
get_device-keep a s [] e = refl
get_device-keep a s (d ∷ ds) e = elim (Bool-cases (falls s d)) [
  | inl f ↦
      ap (get_device a) (keep_gone s d ds f) ∙ get_device-keep a (mark d.addr s) ds (ground arith)
  | inr f ↦ ap (get_device a) (keep_stays s d ds f) ∙ ground (arith, get_device-keep a s ds)
]

-- What is removed is gone.
pub get_device-without :
    (a : ℕ) (seen : List ℕ) (ds : List Device) → IsTree seen ds → get_device a (without a ds) ≡ none
unfolding get_device without
get_device-without a seen [] t = refl
get_device-without a seen (d ∷ ds) t = elim (Bool-cases (d.addr == a)) [
  | inl h ↦
      ap (get_device a) (without_here a d ds h)
      ∙ get_device-keep a (only a) ds
          (get_device_seen a (d.addr ∷ seen) ds t.2 (inl (sym ((==_iff d.addr a).0 h))))
  | inr h ↦
      ap (get_device a) (without_past a d ds h)
      ∙ rw (h, get_device) (get_device-without a (d.addr ∷ seen) ds t.2)
]

-- A child that is found goes last of its subtree.
pub length-without_child :
    (a : ℕ) (seen : List ℕ) (ds : List Device) (c : Device)
    → IsTree seen ds
    → find_child a ds ≡ some c
    → length (without c.addr ds) < length (keep (only c.addr) ds)
unfolding find_child
length-without_child a seen [] c t e = absurd (cc)
length-without_child a seen (d ∷ ds) c t e =
    let stays =
      keep_stays (only c.addr) d ds
        (not_only c.addr seen d ds t (find_child_unseen seen a (d ∷ ds) c t e)) in
    elim (find_child_cases a d ds (some c) e) [
      | inl (h, k) ↦
          let here = without_here c.addr d ds (ground (arith, ==_iff d.addr c.addr)) in
          omega (arith, ap length stays, ap length here)
      | inr (h, k) ↦
          let n = find_child_unseen (d.addr ∷ seen) a ds c t.2 k in
          omega (
            arith,
            ap length stays,
            ap length (without_past c.addr d ds (past_first c.addr seen d n)),
            length-without_child a (d.addr ∷ seen) ds c t.2 k,
          )
    ]
