-- ===== src/IoCtx/Counted/Events.antt =====
-- Each event that the rules allow succeeds and keeps a system sound.
use modvm.Prelude.{
  ℕ, ◌+◌, ◌<◌, ◌≡◌, refl, ap, sym, subst, ◌∙◌, inl, inr, true, false, List, ◌∷◌, none, some, arith,
  Bool-cases, ◌==◌,
}
use modvm.IoCtx.{IoBinding, IoWork, IoCtx, get, binding_create}
use modvm.IoCtx.Heap.{Dropped, binding_put-Dropped}
use modvm.IoCtx.System.{creates, puts, finishes, System, count, forget, args, perform}
use modvm.IoCtx.Queue.{hit, queued, count-cons, count-cons_self, count-forget_self, count-forget_ne}
use modvm.IoCtx.Counted.{
  IsSound, Fits, runs, run_arg, same-Fits, Fits-some, Dropped-Fits, Held, Goes, each_key,
}

here : (a : ℕ) (b : IoBinding) (bs : List IoBinding) → b.addr ≡ a → get a (b ∷ bs) ≡ some b
unfolding get
here a b bs e = ground arith

pub creates-Goes :
    (s : System) (a : ℕ) → IsSound s → get a s.io.live ≡ none → Goes (perform (creates (some a)) s)
unfolding perform binding_create get
creates-Goes s a h new = elim (Bool-cases s.io.stopped) [
  | inl e ↦ (record s { io = s.io }, rw e refl, h)
  | inr e ↦
      let b : IoBinding = record { addr = a; refs = 1; is_open = true; enabled = true } in
      let none_left : count a s.owners + queued a s.io.work + runs a s.running ≡ 0 =
        subst (Fits (count a s.owners) (queued a s.io.work) (runs a s.running)) new (h.fits a) in
      let io = record s.io { bindings = s.io.bindings + 1; live = b ∷ s.io.live } in
      (
        record s { io = io; owners = a ∷ s.owners },
        rw e refl,
        record {
          distinct = (new, h.distinct);
          fits =
              each_key
                (λ k.
                  Fits (count k (a ∷ s.owners)) (queued k s.io.work) (runs k s.running)
                    (get k io.live))
                a
                (subst (Fits (count a (a ∷ s.owners)) (queued a s.io.work) (runs a s.running))
                  (sym (here a b s.io.live refl))
                  (record {
                    counted = omega (arith, count-cons_self a s.owners, none_left);
                    positive = omega arith;
                    small = omega arith;
                    open_owned = λ k. omega (arith, count-cons_self a s.owners);
                    shut_empty = λ k. omega (arith, none_left);
                  }))
                (λ k ne.
                  same-Fits (ground (arith, count-cons k a s.owners)) refl refl (rw (ne, get) refl)
                    (h.fits k));
          total = omega (arith, h.total);
          conserved = h.conserved;
        },
      )
]

pub puts-Goes :
    (s : System) (a : ℕ) (b : IoBinding)
    → IsSound s
    → 0 < count a s.owners
    → get a s.io.live ≡ some b
    → b.is_open ≡ false
    → Goes (perform (puts a) s)
unfolding perform
puts-Goes s a b h owns e closed =
    let f = subst (Fits (count a s.owners) (queued a s.io.work) (runs a s.running)) e (h.fits a) in
    let (io, r, d) = binding_put-Dropped a s.io b h.distinct e f.positive f.small (λ k. closed) in
    let none_open : b.is_open ≡ true → 0 < count a (forget a s.owners) =
      λ k. let clash = sym closed ∙ k in absurd (cc) in
    (
      record s { io = io; owners = forget a s.owners },
      rw (r, perform) refl,
      record {
        distinct = d.distinct;
        fits =
            each_key
              (λ k.
                Fits (count k (forget a s.owners)) (queued k io.work) (runs k s.running)
                  (get k io.live))
              a
              (Dropped-Fits (count a s.owners) (queued a s.io.work) (runs a s.running)
                (count a (forget a s.owners)) (queued a io.work) (runs a s.running) d f.counted
                f.small
                (omega (arith, count-forget_self a s.owners owns, ap (queued a) d.same_work))
                none_open (λ k. ap (queued a) d.same_work ∙ f.shut_empty k))
              (λ k ne.
                same-Fits (count-forget_ne a k s.owners ne) (ap (queued k) d.same_work) refl
                  (d.others k ne) (h.fits k));
        total = d.total h.total;
        conserved = λ x. omega (arith, h.conserved x, ap (λ ws. count x (args ws)) d.same_work);
      },
    )

pub hit_self : (w : IoWork) → hit w.binding w ≡ 1
hit_self w = ground arith

pub hit_ne : (k : ℕ) (w : IoWork) → (w.binding == k) ≡ false → hit k w ≡ 0
hit_ne k w ne = rw ne refl

-- The reference of the runner is the last one only of a binding that is shut.
last-shut : (o q r : ℕ) (b : IoBinding) → Held o q r b → r ≡ 1 → b.refs ≡ 1 → b.is_open ≡ false
last-shut o q r b f one h = elim (Bool-cases b.is_open) [
  | inl e ↦ absurd (omega (arith, f.counted, f.open_owned e))
  | inr e ↦ e
]

finish-IsSound :
    (s : System) (w : IoWork) (b : IoBinding) (io : IoCtx)
    → IsSound s
    → s.running ≡ some w
    → Dropped w.binding 1 b s.io io
    → Held (count w.binding s.owners) (queued w.binding s.io.work) (runs w.binding s.running) b
    → runs w.binding s.running ≡ 1
    → IsSound (record s { io = io; running = none; released = w.arg ∷ s.released })
finish-IsSound s w b io h e d f one = record {
  distinct = d.distinct;
  fits =
      each_key (λ k. Fits (count k s.owners) (queued k io.work) 0 (get k io.live)) w.binding
        (Dropped-Fits (count w.binding s.owners) (queued w.binding s.io.work)
          (runs w.binding s.running) (count w.binding s.owners) (queued w.binding io.work) 0 d
          f.counted f.small (omega (arith, ap (queued w.binding) d.same_work)) f.open_owned
          (λ k. ap (queued w.binding) d.same_work ∙ f.shut_empty k))
        (λ k ne.
          same-Fits refl (ap (queued k) d.same_work) (sym (ap (runs k) e ∙ hit_ne k w ne))
            (d.others k ne) (h.fits k));
  total = d.total h.total;
  conserved = λ x. omega (
    arith,
    h.conserved x,
    ap (run_arg x) e,
    count-cons x w.arg s.released,
    ap (λ ws. count x (args ws)) d.same_work,
  );
}

pub finishes-Goes :
    (s : System) (w : IoWork) → IsSound s → s.running ≡ some w → Goes (perform finishes s)
unfolding perform
finishes-Goes s w h e =
    let one : runs w.binding s.running ≡ 1 = ap (runs w.binding) e ∙ hit_self w in
    let (b, eb, f) =
      Fits-some (count w.binding s.owners) (queued w.binding s.io.work) (runs w.binding s.running)
        (get w.binding s.io.live) (h.fits w.binding) (omega arith) in
    let (io, r, d) = binding_put-Dropped w.binding s.io b h.distinct eb f.positive f.small (
      last-shut (count w.binding s.owners) (queued w.binding s.io.work) (runs w.binding s.running) b
        f one) in
    (
      record s { io = io; running = none; released = w.arg ∷ s.released },
      rw (e, perform) (rw (r, perform) refl),
      finish-IsSound s w b io h e d f one,
    )
