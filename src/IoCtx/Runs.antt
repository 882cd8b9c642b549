-- ===== src/IoCtx/Runs.antt =====
-- Whole runs of the system, up to the destruction of the context.
use modvm.Prelude.{
  ℕ, ◌+◌, ◌^◌, ◌<◌, ◌≡◌, refl, ap, sym, subst, ◌∙◌, inl, inr, Bool, true, false, ◌&&◌, not, List,
  [], ◌∷◌, Option, none, some, arith, length, Bool-cases, Option-cases, ltb→lt,
}
use modvm.IoCtx.{
  IoBinding, IoWork, IoCtx, get, run_take, ctx_destroy, is_empty, of_binding, binding_create,
  binding_is_open,
}
use modvm.IoCtx.System.{
  Event, creates, posts, closes, puts, enables, takes, finishes, stops, fails, System, start, count,
  allowed, perform, step, run, is_owner, has_room, is_shut, args,
}
use modvm.IoCtx.Queue.{queued, queued-cons}
use modvm.IoCtx.Counted.{IsSound, Fits, Held, Goes, runs, run_arg, Fits-some}
use modvm.IoCtx.Counted.Events.{creates-Goes, puts-Goes, finishes-Goes, hit_self}
use modvm.IoCtx.Counted.Posts.{posts-Goes}
use modvm.IoCtx.Counted.Closes.{closes-Goes, enables-Goes, takes-Goes, run_take_cases}

-- The binding of an owner is allocated.
owner-some :
    (s : System) (a : ℕ)
    → IsSound s
    → 0 < count a s.owners
    → (b : IoBinding) × (get a s.io.live ≡ some b)
      × Held (count a s.owners) (queued a s.io.work) (runs a s.running) b
owner-some s a h owns =
    Fits-some (count a s.owners) (queued a s.io.work) (runs a s.running) (get a s.io.live)
      (h.fits a) (omega arith)

both : (p q : Bool) → p && q ≡ true → (p ≡ true) × (q ≡ true)
both p q e = ground arith

false_of_not : (p : Bool) → not p ≡ true → p ≡ false
false_of_not p e = ground arith

none_there :
    (g : Option IoBinding)
    → (elim g as (λ o. Bool) [ none ↦ true | some b ↦ false ]) ≡ true
    → g ≡ none
none_there none e = refl
none_there (some b) e = absurd (ground arith)

pub perform-Goes : (e : Event) (s : System) → IsSound s → allowed e s ≡ true → Goes (perform e s)
unfolding allowed perform binding_create
perform-Goes (creates none) s h k = (s, refl, h)
perform-Goes (creates (some a)) s h k = creates-Goes s a h (none_there (get a s.io.live) k)
perform-Goes (posts w malloc) s h k =
    let (owns, room) = both (is_owner w.binding s) (has_room w.binding s.io) k in
    let lt = ltb→lt 0 (count w.binding s.owners) owns in
    let (b, e, f) = owner-some s w.binding h lt in
    posts-Goes s w malloc b h lt e (ltb→lt (b.refs + 1) (2 ^ 32) (rw (e, has_room) at room))
perform-Goes (closes a) s h k =
    let lt = ltb→lt 0 (count a s.owners) k in
    let (b, e, f) = owner-some s a h lt in closes-Goes s a b h lt e
perform-Goes (puts a) s h k =
    let (owns, closed) = both (is_owner a s) (is_shut a s.io) k in
    let lt = ltb→lt 0 (count a s.owners) owns in
    let (b, e, f) = owner-some s a h lt in
    puts-Goes s a b h lt e (false_of_not b.is_open (rw (e, is_shut) at closed))
perform-Goes (enables a on) s h k =
    let (b, e, f) = owner-some s a h (ltb→lt 0 (count a s.owners) k) in enables-Goes s a on b h e
perform-Goes takes s h k = elim (Option-cases s.running) [
  | inl e ↦ takes-Goes s h e
  | inr (w, e) ↦ let clash = rw e at k in absurd (cc)
]
perform-Goes finishes s h k = elim (Option-cases s.running) [
  | inl e ↦ let clash = rw e at k in absurd (cc)
  | inr (w, e) ↦ finishes-Goes s w h e
]
perform-Goes stops s h k = (
  _,
  refl,
  record { distinct = h.distinct; fits = h.fits; total = h.total; conserved = h.conserved },
)
perform-Goes (fails e) s h k = (
  _,
  refl,
  record { distinct = h.distinct; fits = h.fits; total = h.total; conserved = h.conserved },
)

pub step-Goes : (e : Event) (s : System) → IsSound s → Goes (step e s)
unfolding step
step-Goes e s h = elim (Bool-cases (allowed e s)) [
  | inl k ↦ rw (k, step) (perform-Goes e s h k)
  | inr k ↦ (s, rw (k, step) refl, h)
]

pub run-Goes : (es : List Event) (s : System) → IsSound s → Goes (run es s)
unfolding run
run-Goes [] s h = (s, refl, h)
run-Goes (e ∷ es) s h =
    let (s', r, h') = step-Goes e s h in
    let (t, r', h'') = run-Goes es s' h' in (t, rw (r, run) r', h'')

start-IsSound : (has_fatal : Bool) → IsSound (start has_fatal)
unfolding get count of_binding
start-IsSound has_fatal = record {
  distinct = tt;
  fits = λ a. refl;
  total = refl;
  conserved = λ d. refl;
}

-- The binding of a work in the queue is open.
queued-open :
    (s : System) (a : ℕ) (b : IoBinding)
    → IsSound s
    → 0 < queued a s.io.work
    → get a s.io.live ≡ some b
    → b.is_open ≡ true
queued-open s a b h some_queued e =
    let f = subst (Fits (count a s.owners) (queued a s.io.work) (runs a s.running)) e (h.fits a) in
    elim (Bool-cases b.is_open) [ inl k ↦ k | inr k ↦ absurd (omega (arith, f.shut_empty k)) ]

taken-open :
    (s : System) (io : IoCtx) (w : IoWork) (opened : Bool)
    → IsSound s
    → run_take s.io ≡ (io, some (w, opened))
    → opened ≡ true
taken-open s io w opened h e = elim (run_take_cases s.io) [
  | inl r ↦ let clash = sym r ∙ e in absurd (cc)
  | inr (x, rest, r, t) ↦
      let same = ap (λ p. p.1) (sym r ∙ e) in
      let flag : binding_is_open s.io.live x.binding ≡ opened = cc in
      let here : 0 < queued x.binding s.io.work = omega (arith, t.queue x.binding, hit_self x) in
      let (b, got, f) =
        Fits-some (count x.binding s.owners) (queued x.binding s.io.work) (runs x.binding s.running)
          (get x.binding s.io.live) (h.fits x.binding) (omega arith) in
      sym flag ∙ rw (got, binding_is_open) (queued-open s x.binding b h here got)
]

no_work : (ws : List IoWork) → ((a : ℕ) → queued a ws ≡ 0) → ws ≡ []
no_work [] none_queued = refl
no_work (w ∷ ws) none_queued =
    absurd (omega (arith, queued-cons w.binding w ws, hit_self w, none_queued w.binding))

no_live : (bs : List IoBinding) → ((a : ℕ) → get a bs ≡ none) → bs ≡ []
unfolding get
no_live [] missing = refl
no_live (b ∷ bs) missing =
    let clash : some b ≡ none = sym (get_here b bs) ∙ missing b.addr in absurd (cc)
  where
    get_here : (b : IoBinding) (bs : List IoBinding) → get b.addr (b ∷ bs) ≡ some b
    get_here b bs = ground arith

-- Nothing waits in the queue for an owner that is gone.
unowned : (s : System) → IsSound s → s.owners ≡ [] → (a : ℕ) → queued a s.io.work ≡ 0
unfolding count
unowned s h left a = elim (Option-cases (get a s.io.live)) [
  | inl e ↦
      let f =
        subst (Fits (count a s.owners) (queued a s.io.work) (runs a s.running)) e (h.fits a) in
      omega arith
  | inr (b, e) ↦
      let f =
        subst (Fits (count a s.owners) (queued a s.io.work) (runs a s.running)) e (h.fits a) in
      elim (Bool-cases b.is_open) [
        | inl k ↦ absurd (omega (arith, f.open_owned k, ap (count a) left))
        | inr k ↦ f.shut_empty k
      ]
]

unheld :
    (s : System) → IsSound s → s.owners ≡ [] → s.running ≡ none → (a : ℕ) → get a s.io.live ≡ none
unfolding count
unheld s h left idle a = elim (Option-cases (get a s.io.live)) [
  | inl e ↦ e
  | inr (b, e) ↦
      let f =
        subst (Fits (count a s.owners) (queued a s.io.work) (runs a s.running)) e (h.fits a) in
      absurd (
        omega
          (arith, f.counted, f.positive, ap (count a) left, ap (runs a) idle, unowned s h left a))
]

destroys : (io : IoCtx) → io.bindings ≡ 0 → io.work ≡ [] → ctx_destroy io ≡ some tt
unfolding ctx_destroy
destroys io b w = let e : is_empty io.work ≡ true = ap is_empty w in ground arith

-- Whatever owners, producers and runner do, in any order that the rules of binding.h allow, no
-- BUG_ON fires and no binding is used that is not allocated. After each run a binding has exactly
-- as many references as are held, the count of bindings is that of those allocated, every argument
-- that was posted was released once or is still with the queue or the runner, and a work that the
-- runner takes has an open binding, so that it is delivered.
pub run-IsSound :
    (es : List Event) (has_fatal : Bool)
    → (s : System) × (run es (start has_fatal) ≡ some s)
      × IsSound s
      × ((io : IoCtx) (w : IoWork) (opened : Bool)
          → run_take s.io ≡ (io, some (w, opened))
          → opened ≡ true)
run-IsSound es has_fatal =
    let (s, r, h) = run-Goes es (start has_fatal) (start-IsSound has_fatal) in
    (s, r, h, λ io w opened e. taken-open s io w opened h e)

-- Once each owner has dropped its reference and the runner is idle, io_ctx_destroy finds no
-- binding and no work, nothing is allocated, and every argument that was posted was released as
-- often as it was posted.
pub run-ctx_destroy :
    (es : List Event) (has_fatal : Bool) (s : System)
    → run es (start has_fatal) ≡ some s
    → s.owners ≡ []
    → s.running ≡ none
    → (ctx_destroy s.io ≡ some tt)
      × (s.io.live ≡ [])
      × ((d : ℕ) → count d s.posted ≡ count d s.released)
unfolding count
run-ctx_destroy es has_fatal s r left idle =
    let (s', r', h') = run-Goes es (start has_fatal) (start-IsSound has_fatal) in
    let same : s' ≡ s = cc in
    let h = subst IsSound same h' in
    let empty = no_work s.io.work (unowned s h left) in
    let gone = no_live s.io.live (unheld s h left idle) in
    (
      destroys s.io (h.total ∙ ap length gone) empty,
      gone,
      λ d. omega (arith, h.conserved d, ap (λ ws. count d (args ws)) empty, ap (run_arg d) idle),
    )
