-- ===== src/IoCtx/Queue.antt =====
-- Counts over the queue of works and over the lists of a system.
use modvm.Prelude.{
  ℕ, suc, ◌+◌, ◌<◌, ◌≡◌, refl, ap, ◌∙◌, inl, inr, true, false, List, [], ◌∷◌, ◌++◌, some, arith,
  length, Bool-cases, Option-cases, ◌==◌, if◌then◌else◌,
}
use modvm.IoCtx.{IoBinding, IoWork, of_binding, not_of_binding, split_runnable, is_runnable}
use modvm.IoCtx.System.{count, forget, args}

abbrev pub hit : ℕ → IoWork → ℕ
hit a w = if w.binding == a then 1 else 0

-- The works of a binding in the queue.
abbrev pub queued : ℕ → List IoWork → ℕ
queued a ws = length (of_binding a ws)

abbrev pub hit_arg : ℕ → IoWork → ℕ
hit_arg d w = if w.arg == d then 1 else 0

pub queued-cons :
    (a : ℕ) (w : IoWork) (ws : List IoWork) → queued a (w ∷ ws) ≡ hit a w + queued a ws
unfolding of_binding
queued-cons a w ws = ground arith

pub queued-append :
    (a : ℕ) (w : IoWork) (ws : List IoWork) → queued a (ws ++ w ∷ []) ≡ queued a ws + hit a w
unfolding of_binding
queued-append a w [] = ground arith
queued-append a w (x ∷ ws) = ground (arith, queued-append a w ws)

pub queued-not_self : (a : ℕ) (ws : List IoWork) → queued a (not_of_binding a ws) ≡ 0
unfolding of_binding not_of_binding
queued-not_self a [] = refl
queued-not_self a (w ∷ ws) = ground (arith, queued-not_self a ws)

pub queued-not_ne :
    (k a : ℕ) (ws : List IoWork) → (k == a) ≡ false → queued a (not_of_binding k ws) ≡ queued a ws
unfolding of_binding not_of_binding
queued-not_ne k a [] ne = refl
queued-not_ne k a (w ∷ ws) ne = ground (arith, queued-not_ne k a ws ne)

pub count-append : (d : ℕ) (xs ys : List ℕ) → count d (xs ++ ys) ≡ count d xs + count d ys
unfolding count
count-append d [] ys = omega arith
count-append d (x ∷ xs) ys = ground (arith, count-append d xs ys)

pub count-cons : (d x : ℕ) (xs : List ℕ) → count d (x ∷ xs) ≡ (if x == d then 1 else 0) + count d xs
unfolding count
count-cons d x xs = ground arith

pub count-cons_self : (a : ℕ) (xs : List ℕ) → count a (a ∷ xs) ≡ suc (count a xs)
unfolding count
count-cons_self a xs = ground arith

pub count-args_append :
    (d : ℕ) (w : IoWork) (ws : List IoWork)
    → count d (args (ws ++ w ∷ [])) ≡ count d (args ws) + hit_arg d w
unfolding count
count-args_append d w [] = ground arith
count-args_append d w (x ∷ ws) = ground (arith, count-args_append d w ws)

-- A queue is split by a binding.
pub count-args_split :
    (d k : ℕ) (ws : List IoWork)
    → count d (args ws) ≡ count d (args (of_binding k ws)) + count d (args (not_of_binding k ws))
unfolding count of_binding not_of_binding
count-args_split d k [] = refl
count-args_split d k (w ∷ ws) = ground (arith, count-args_split d k ws)

pub count-forget_self :
    (a : ℕ) (xs : List ℕ) → 0 < count a xs → suc (count a (forget a xs)) ≡ count a xs
unfolding count forget
count-forget_self a [] h = absurd (omega arith)
count-forget_self a (x ∷ xs) h = ground (arith, count-forget_self a xs)

pub count-forget_ne :
    (a k : ℕ) (xs : List ℕ) → (a == k) ≡ false → count k (forget a xs) ≡ count k xs
unfolding count forget
count-forget_ne a k [] ne = refl
count-forget_ne a k (x ∷ xs) ne = ground (arith, count-forget_ne a k xs ne)

-- A work that is taken is in the queue, and runnable.
pub record Taken (live : List IoBinding) (ws rest : List IoWork) (w : IoWork) : Type 0 where
  pub runnable : is_runnable live w ≡ true
  pub queue : (a : ℕ) → queued a ws ≡ hit a w + queued a rest
  pub arguments : (d : ℕ) → count d (args ws) ≡ hit_arg d w + count d (args rest)

pub split_runnable-Taken :
    (live : List IoBinding) (ws rest : List IoWork) (w : IoWork)
    → split_runnable live ws ≡ some (w, rest)
    → Taken live ws rest w
unfolding split_runnable
split_runnable-Taken live [] rest w e = absurd (cc)
split_runnable-Taken live (x ∷ ws) rest w e = elim (Bool-cases (is_runnable live x)) [
  | inl h ↦
      let same = rw (h, split_runnable) at e in
      let this : x ≡ w = cc in let left : ws ≡ rest = cc in first live ws rest x w this left h
  | inr h ↦ elim (Option-cases (split_runnable live ws)) [
    | inl k ↦ let clash = rw (k, split_runnable) at (rw (h, split_runnable) at e) in absurd (cc)
    | inr (p, k) ↦
        let same = rw (k, split_runnable) at (rw (h, split_runnable) at e) in
        let this : p.0 ≡ w = cc in
        let left : x ∷ p.1 ≡ rest = cc in
        later live x w ws p.1 rest left
          (split_runnable-Taken live ws p.1 w (k ∙ ap (λ y. some (y, p.1)) this))
  ]
]
  where
    first :
        (live : List IoBinding) (ws rest : List IoWork) (x w : IoWork)
        → x ≡ w
        → ws ≡ rest
        → is_runnable live x ≡ true
        → Taken live (x ∷ ws) rest w
    first live ws rest x w e f h =
        rw⁻¹ (e, f)
          (record {
            runnable = h;
            queue = λ a. queued-cons a x ws;
            arguments = λ d. count-cons d x.arg (args ws);
          })

    later :
        (live : List IoBinding) (x w : IoWork) (ws rest out : List IoWork)
        → x ∷ rest ≡ out
        → Taken live ws rest w
        → Taken live (x ∷ ws) out w
    later live x w ws rest out e t = rw⁻¹ e (record {
      runnable = t.runnable;
      queue = λ a. omega (arith, queued-cons a x ws, queued-cons a x rest, t.queue a);
      arguments = λ d.
          omega
            (arith, count-cons d x.arg (args ws), count-cons d x.arg (args rest), t.arguments d);
    })
