-- ===== src/IoCtx/Counted/Closes.antt =====
-- Closing a binding, and what the runner takes.
use modvm.Prelude.{
  ℕ, ◌+◌, ◌<◌, ◌≡◌, refl, ap, sym, subst, ◌∙◌, ◌⊎◌, inl, inr, Bool, List, ◌++◌, Option, none, some,
  arith, length, Bool-cases, Option-cases,
}
use modvm.IoCtx.{
  IoBinding, IoWork, IoCtx, get, put_at, shut, with_enabled, of_binding, not_of_binding,
  binding_close, binding_set_enabled, run_take, split_runnable, binding_is_open,
}
use modvm.IoCtx.Heap.{
  Dropped, get-put_at_self, get-put_at_ne, put_at-IsDistinct, length-put_at, put_each-Dropped,
}
use modvm.IoCtx.System.{closes, enables, takes, System, count, args, perform, taken}
use modvm.IoCtx.Queue.{
  hit, queued, queued-not_self, queued-not_ne, count-append, count-args_split, Taken,
  split_runnable-Taken,
}
use modvm.IoCtx.Counted.{IsSound, Fits, runs, run_arg, same-Fits, Dropped-Fits, Goes, each_key}

-- The owner keeps its reference while those of the queue are dropped.
close-IsSound :
    (s : System) (a : ℕ) (b : IoBinding) (io : IoCtx)
    → IsSound s
    → 0 < count a s.owners
    → get a s.io.live ≡ some b
    → let cancelled = of_binding a s.io.work in
      let closed = record s.io {
        live = put_at a shut s.io.live;
        work = not_of_binding a s.io.work;
      } in
      Dropped a (length cancelled) (shut b) closed io
      → IsSound (record s { io = io; released = args cancelled ++ s.released })
close-IsSound s a b io h owns e d =
    let f = subst (Fits (count a s.owners) (queued a s.io.work) (runs a s.running)) e (h.fits a) in
    let left : queued a io.work ≡ 0 = ap (queued a) d.same_work ∙ queued-not_self a s.io.work in
    record {
      distinct = d.distinct;
      fits =
          each_key
            (λ k. Fits (count k s.owners) (queued k io.work) (runs k s.running) (get k io.live)) a
            (Dropped-Fits (count a s.owners) (queued a s.io.work) (runs a s.running)
              (count a s.owners) (queued a io.work) (runs a s.running) d f.counted f.small
              (omega (arith, left)) (λ k. owns) (λ k. left))
            (λ k ne.
              same-Fits refl (ap (queued k) d.same_work ∙ queued-not_ne a k s.io.work ne) refl
                (d.others k ne ∙ get-put_at_ne a k shut s.io.live (λ x. refl) ne) (h.fits k));
      total = d.total (omega (arith, h.total, length-put_at a shut s.io.live));
      conserved = λ x. omega (
        arith,
        h.conserved x,
        count-append x (args (of_binding a s.io.work)) s.released,
        count-args_split x a s.io.work,
        ap (λ ws. count x (args ws)) d.same_work,
      );
    }

pub closes-Goes :
    (s : System) (a : ℕ) (b : IoBinding)
    → IsSound s
    → 0 < count a s.owners
    → get a s.io.live ≡ some b
    → Goes (perform (closes a) s)
unfolding perform binding_close
closes-Goes s a b h owns e =
    let f = subst (Fits (count a s.owners) (queued a s.io.work) (runs a s.running)) e (h.fits a) in
    let closed = record s.io {
      live = put_at a shut s.io.live;
      work = not_of_binding a s.io.work;
    } in
    let (io, r, d) =
      put_each-Dropped a (of_binding a s.io.work) closed (shut b)
        (put_at-IsDistinct a shut s.io.live (λ x. refl) h.distinct)
        (get-put_at_self a shut s.io.live b (λ x. refl) e) (omega (arith, f.counted)) f.small in
    let done : binding_close a s.io ≡ some (io, of_binding a s.io.work) =
      rw (e, binding_close) (rw (r, binding_close) refl) in
    (
      record s { io = io; released = args (of_binding a s.io.work) ++ s.released },
      rw (done, perform) refl,
      close-IsSound s a b io h owns e d,
    )

pub enables-Goes :
    (s : System) (a : ℕ) (e : Bool) (b : IoBinding)
    → IsSound s
    → get a s.io.live ≡ some b
    → Goes (perform (enables a e) s)
unfolding perform binding_set_enabled
enables-Goes s a e b h got =
    let f =
      subst (Fits (count a s.owners) (queued a s.io.work) (runs a s.running)) got (h.fits a) in
    let now = get-put_at_self a (with_enabled e) s.io.live b (λ x. refl) got in
    (
      record s { io = record s.io { live = put_at a (with_enabled e) s.io.live } },
      refl,
      record {
        distinct = put_at-IsDistinct a (with_enabled e) s.io.live (λ x. refl) h.distinct;
        fits =
            each_key
              (λ k.
                Fits (count k s.owners) (queued k s.io.work) (runs k s.running)
                  (get k (put_at a (with_enabled e) s.io.live)))
              a
              (subst (Fits (count a s.owners) (queued a s.io.work) (runs a s.running)) (sym now)
                (record {
                  counted = f.counted;
                  positive = f.positive;
                  small = f.small;
                  open_owned = f.open_owned;
                  shut_empty = f.shut_empty;
                }))
              (λ k ne.
                same-Fits refl refl refl
                  (get-put_at_ne a k (with_enabled e) s.io.live (λ x. refl) ne) (h.fits k));
        total = omega (arith, h.total, length-put_at a (with_enabled e) s.io.live);
        conserved = h.conserved;
      },
    )

-- The work that is taken, moved from the queue to the runner.
take-IsSound :
    (s : System) (w : IoWork) (rest : List IoWork)
    → IsSound s
    → s.running ≡ none
    → Taken s.io.live s.io.work rest w
    → IsSound (record s { io = record s.io { work = rest }; running = some w })
take-IsSound s w rest h idle t = record {
  distinct = h.distinct;
  fits = λ k.
      moved (count k s.owners) (queued k s.io.work) (queued k rest) (runs k s.running) (hit k w)
        (get k s.io.live) (t.queue k) (ap (runs k) idle) (h.fits k);
  total = h.total;
  conserved = λ x. omega (arith, h.conserved x, t.arguments x, ap (run_arg x) idle);
}
  where
    moved :
        (o q q' r hits : ℕ) (g : Option IoBinding)
        → q ≡ hits + q'
        → r ≡ 0
        → Fits o q r g
        → Fits o q' hits g
    moved o q q' r hits none e z f = omega arith
    moved o q q' r hits (some b) e z f = record {
      counted = omega (arith, f.counted);
      positive = f.positive;
      small = f.small;
      open_owned = f.open_owned;
      shut_empty = λ c. omega (arith, f.shut_empty c);
    }

-- What the second section of a round finds.
pub run_take_cases :
    (io : IoCtx)
    → (run_take io ≡ (io, none))
      ⊎ (w : IoWork) × (rest : List IoWork) × (run_take io
          ≡ (record io { work = rest }, some (w, binding_is_open io.live w.binding)))
        × Taken io.live io.work rest w
unfolding run_take
run_take_cases io = elim (Bool-cases io.stopped) [
  | inl e ↦ inl (ground arith)
  | inr e ↦ elim (Option-cases (split_runnable io.live io.work)) [
    | inl k ↦ inl (ground arith)
    | inr (p, k) ↦ inr (p.0, p.1, ground arith, split_runnable-Taken io.live io.work p.1 p.0 k)
  ]
]

pub takes-Goes : (s : System) → IsSound s → s.running ≡ none → Goes (perform takes s)
unfolding perform
takes-Goes s h idle = elim (run_take_cases s.io) [
  | inl e ↦ (s, ap (λ r. some (taken s r.0 r.1)) e, h)
  | inr (w, rest, e, t) ↦ (
    record s { io = record s.io { work = rest }; running = some w },
    ap (λ r. some (taken s r.0 r.1)) e,
    take-IsSound s w rest h idle t,
  )
]
