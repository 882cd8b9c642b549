-- ===== src/Device/Subtree/Prune.antt =====
-- Removing a device with its descendants: from a list in which each device stands behind its
-- parent, it leaves such a list.
use mathlib.Core.Path.{fun_ext}
use modvm.Prelude.{
  ℕ, ◌≡◌, refl, ap, sym, subst, ◌∙◌, inl, inr, Bool, true, false, List, [], ◌∷◌, some, arith, IsIn,
  Bool-cases, Option-cases, ◌==◌, ==_iff,
}
use modvm.Device.{Device, find_child, del_device}
use modvm.Device.Subtree.{
  only, mark, union, falls, keep, without, IsTree, keep_gone, keep_stays, without_here,
  without_past, keep-keep, find_child_cases, find_child_unseen,
}

-- Behind `seen`, nothing has a parent that `seen` lacks.
pub not_only :
    (c : ℕ) (seen : List ℕ) (d : Device) (ds : List Device)
    → IsTree seen (d ∷ ds)
    → ¬ IsIn c seen
    → falls (only c) d ≡ false
not_only c seen d ds t n = elim (Option-cases d.parent) [
  | inl e ↦ rw e refl
  | inr (q, e) ↦ elim (Bool-cases (q == c)) [
    | inl h ↦ absurd (n (subst (λ x. IsIn x seen) ((==_iff q c).0 h) (t.1 q e)))
    | inr h ↦ rw e h
  ]
]

-- The address of a device behind the first.
pub past_first :
    (c : ℕ) (seen : List ℕ) (d : Device) → ¬ IsIn c (d.addr ∷ seen) → (d.addr == c) ≡ false
past_first c seen d n = elim (Bool-cases (d.addr == c)) [
  | inl h ↦ absurd (n (inl (sym ((==_iff d.addr c).0 h))))
  | inr h ↦ h
]

pub not_cons :
    (c : ℕ) (seen : List ℕ) (d : Device)
    → ¬ IsIn c seen
    → (d.addr == c) ≡ false
    → ¬ IsIn c (d.addr ∷ seen)
not_cons c seen d n h (inl e) = absurd (ground (arith, ==_iff d.addr c))
not_cons c seen d n h (inr m) = n m

-- `list_del` after the descendants are gone.
pub del_device-keep :
    (c : ℕ) (seen : List ℕ) (ds : List Device)
    → IsTree seen ds
    → ¬ IsIn c seen
    → del_device c (keep (only c) ds) ≡ without c ds
unfolding keep without del_device
del_device-keep c seen [] t n = refl
del_device-keep c seen (d ∷ ds) t n =
    ap (del_device c) (keep_stays (only c) d ds (not_only c seen d ds t n))
    ∙ elim (Bool-cases (d.addr == c)) [
      | inl h ↦ rw (h, del_device) (sym (without_here c d ds h))
      | inr h ↦
          rw (h, del_device)
            (ap (λ u. d ∷ u) (del_device-keep c (d.addr ∷ seen) ds t.2 (not_cons c seen d n h))
              ∙ sym (without_past c d ds h))
    ]

-- Taking a child away first makes no difference to what is left in the end.
pub keep-without :
    (a : ℕ) (seen : List ℕ) (ds : List Device) (c : Device)
    → IsTree seen ds
    → find_child a ds ≡ some c
    → keep (only a) (without c.addr ds) ≡ keep (only a) ds
unfolding keep without
keep-without a seen [] c t e = refl
keep-without a seen (d ∷ ds) c t e = elim (find_child_cases a d ds (some c) e) [
  | inl (h, k) ↦
      let same : c.addr ≡ d.addr = cc in
      rw same (
        ap (keep (only a)) (without_here d.addr d ds (ground arith))
        ∙ keep-keep (only a) (only d.addr) ds
        ∙ ap (λ u. keep u ds) (swap a d.addr)
        ∙ sym (keep_gone (only a) d ds h))
  | inr (h, k) ↦
      let n = find_child_unseen (d.addr ∷ seen) a ds c t.2 k in
      ap (keep (only a)) (without_past c.addr d ds (past_first c.addr seen d n))
      ∙ keep_stays (only a) d (without c.addr ds) h
      ∙ ap (λ u. d ∷ u) (keep-without a (d.addr ∷ seen) ds c t.2 k)
      ∙ sym (keep_stays (only a) d ds h)
]
  where
    swap : (a b : ℕ) → union (only a) (only b) ≡ mark b (only a)
    swap a b = fun_ext λ j. ground arith

-- What is left after a pass has its parents left.
pub keep-IsTree :
    (s : ℕ → Bool) (seen left : List ℕ) (ds : List Device)
    → IsTree seen ds
    → ((q : ℕ) → IsIn q left → IsIn q seen)
    → ((q : ℕ) → IsIn q seen → s q ≡ false → IsIn q left)
    → IsTree left (keep s ds)
unfolding keep
keep-IsTree s seen left [] t sub sup = tt
keep-IsTree s seen left (d ∷ ds) t sub sup = elim (Bool-cases (falls s d)) [
  | inl e ↦ subst (IsTree left) (sym (keep_gone s d ds e)) (
      keep-IsTree (mark d.addr s) (d.addr ∷ seen) left ds t.2 (λ q m. inr (sub q m))
        (gone d.addr seen left s sup))
  | inr e ↦ subst (IsTree left) (sym (keep_stays s d ds e)) (
    λ m. t.0 (sub d.addr m),
    λ q p. sup q (t.1 q p) (parent_stays s d q p e),
    keep-IsTree s (d.addr ∷ seen) (d.addr ∷ left) ds t.2 (grow d.addr seen left sub)
        (stay d.addr seen left s sup),
  )
]
  where
    gone :
        (a : ℕ) (seen left : List ℕ) (s : ℕ → Bool)
        → ((q : ℕ) → IsIn q seen → s q ≡ false → IsIn q left)
        → (q : ℕ) → IsIn q (a ∷ seen)
        → mark a s q ≡ false
        → IsIn q left
    gone a seen left s sup q (inl e) f = absurd (ground (arith, ==_iff q a))
    gone a seen left s sup q (inr m) f = sup q m (ground arith)

    grow :
        (a : ℕ) (seen left : List ℕ)
        → ((q : ℕ) → IsIn q left → IsIn q seen)
        → (q : ℕ) → IsIn q (a ∷ left)
        → IsIn q (a ∷ seen)
    grow a seen left sub q (inl e) = inl e
    grow a seen left sub q (inr m) = inr (sub q m)

    stay :
        (a : ℕ) (seen left : List ℕ) (s : ℕ → Bool)
        → ((q : ℕ) → IsIn q seen → s q ≡ false → IsIn q left)
        → (q : ℕ) → IsIn q (a ∷ seen)
        → s q ≡ false
        → IsIn q (a ∷ left)
    stay a seen left s sup q (inl e) f = inl e
    stay a seen left s sup q (inr m) f = inr (sup q m f)

    parent_stays :
        (s : ℕ → Bool) (d : Device) (q : ℕ) → d.parent ≡ some q → falls s d ≡ false → s q ≡ false
    parent_stays s d q p e = rw p at e

-- Removing a device that `seen` lacks, with its descendants.
pub without-IsTree :
    (c : ℕ) (seen : List ℕ) (ds : List Device)
    → IsTree seen ds
    → ¬ IsIn c seen
    → IsTree seen (without c ds)
unfolding without
without-IsTree c seen [] t n = tt
without-IsTree c seen (d ∷ ds) t n = elim (Bool-cases (d.addr == c)) [
  | inl h ↦
      subst (IsTree seen) (sym (without_here c d ds h))
        (keep-IsTree (only c) (d.addr ∷ seen) seen ds t.2 (λ q m. inr m) (drop_first c d seen h))
  | inr h ↦
      subst (IsTree seen) (sym (without_past c d ds h))
        (t.0, t.1, without-IsTree c (d.addr ∷ seen) ds t.2 (not_cons c seen d n h))
]
  where
    drop_first :
        (c : ℕ) (d : Device) (seen : List ℕ)
        → (d.addr == c) ≡ true
        → (q : ℕ) → IsIn q (d.addr ∷ seen)
        → only c q ≡ false
        → IsIn q seen
    drop_first c d seen h q (inl e) f =
        absurd (ground (arith, ==_iff q c, ==_iff d.addr c, ==_iff q d.addr))
    drop_first c d seen h q (inr m) f = m
