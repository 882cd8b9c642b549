-- ===== src/IoCtx/Counted/Posts.antt =====
-- A post, by how it ends.
use modvm.Prelude.{
  ℕ, ◌+◌, ◌%◌, ◌^◌, ◌<◌, ◌≡◌, refl, sym, subst, ◌∙◌, inl, inr, Bool, true, false, ◌||◌, not, [],
  ◌∷◌, ◌++◌, some, arith, Bool-cases,
}
use modvm.Prelude.Errno.{eshutdown}
use modvm.IoCtx.{IoBinding, IoWork, IoCtx, get, put_at, with_refs, binding_post}
use modvm.IoCtx.Heap.{get-put_at_self, get-put_at_ne, put_at-IsDistinct, length-put_at}
use modvm.IoCtx.System.{posts, System, count, perform, noted}
use modvm.IoCtx.Queue.{queued, queued-append, count-cons, count-args_append}
use modvm.IoCtx.Counted.{IsSound, Fits, runs, same-Fits, Held, Goes, each_key}
use modvm.IoCtx.Counted.Events.{hit_self, hit_ne}

-- A work that is not taken on is released at once.
refused-IsSound : (s : System) (arg : ℕ) → IsSound s → IsSound (noted s arg s.io true)
refused-IsSound s arg h = record {
  distinct = h.distinct;
  fits = h.fits;
  total = h.total;
  conserved =
      λ x. omega (arith, h.conserved x, count-cons x arg s.posted, count-cons x arg s.released);
}

post_accepted :
    (s : System) (w : IoWork) (b : IoBinding)
    → IsSound s
    → get w.binding s.io.live ≡ some b
    → Held (count w.binding s.owners) (queued w.binding s.io.work) (runs w.binding s.running) b
    → 0 < count w.binding s.owners
    → b.is_open ≡ true
    → b.refs + 1 < 2 ^ 32
    → let f = with_refs ((b.refs + 1) % 2 ^ 32) in
      IsSound (
        noted s w.arg
          (record s.io { live = put_at w.binding f s.io.live; work = s.io.work ++ w ∷ [] })
          false)
post_accepted s w b h e held owns opened room =
    let f = with_refs ((b.refs + 1) % 2 ^ 32) in
    let now = get-put_at_self w.binding f s.io.live b (λ x. refl) e in
    record {
      distinct = put_at-IsDistinct w.binding f s.io.live (λ x. refl) h.distinct;
      fits =
          each_key
            (λ k.
              Fits (count k s.owners) (queued k (s.io.work ++ w ∷ [])) (runs k s.running)
                (get k (put_at w.binding f s.io.live)))
            w.binding
            (subst
              (Fits (count w.binding s.owners) (queued w.binding (s.io.work ++ w ∷ []))
                (runs w.binding s.running))
              (sym now)
              (record {
                counted =
                    omega (arith, held.counted, queued-append w.binding w s.io.work, hit_self w);
                positive = omega arith;
                small = omega arith;
                open_owned = λ k. owns;
                shut_empty = λ k. let clash = sym opened ∙ k in absurd (cc);
              }))
            (λ k ne.
              same-Fits refl (omega (arith, queued-append k w s.io.work, hit_ne k w ne)) refl
                (get-put_at_ne w.binding k f s.io.live (λ x. refl) ne) (h.fits k));
      total = omega (arith, h.total, length-put_at w.binding f s.io.live);
      conserved = λ x.
          omega
            (arith, h.conserved x, count-cons x w.arg s.posted, count-args_append x w s.io.work);
    }

refused_lem :
    (w : IoWork) {malloc : Bool} (b : IoBinding) (io : IoCtx)
    → malloc ≡ true
    → get w.binding io.live ≡ some b
    → io.stopped || not b.is_open ≡ true
    → binding_post w malloc io ≡ some (io, eshutdown, true)
unfolding binding_post
refused_lem w b io got e k = rw got (rw (e, binding_post) (rw (k, binding_post) refl))

accepted_lem :
    (w : IoWork) {malloc : Bool} (b : IoBinding) (io : IoCtx)
    → malloc ≡ true
    → get w.binding io.live ≡ some b
    → io.stopped || not b.is_open ≡ false
    → binding_post w malloc io
      ≡ some (
        record io {
          live = put_at w.binding (with_refs ((b.refs + 1) % 2 ^ 32)) io.live;
          work = io.work ++ w ∷ [];
        },
        0,
        false,
      )
unfolding binding_post
accepted_lem w b io got e k = rw got (rw (e, binding_post) (rw (k, binding_post) refl))

pub posts-Goes :
    (s : System) (w : IoWork) (malloc : Bool) (b : IoBinding)
    → IsSound s
    → 0 < count w.binding s.owners
    → get w.binding s.io.live ≡ some b
    → b.refs + 1 < 2 ^ 32
    → Goes (perform (posts w malloc) s)
unfolding perform binding_post
posts-Goes s w malloc b h owns e room = elim (Bool-cases malloc) [
  | inr no_room ↦ (noted s w.arg s.io true, rw no_room refl, refused-IsSound s w.arg h)
  | inl got ↦ elim (Bool-cases (s.io.stopped || not b.is_open)) [
    | inl k ↦ (
      noted s w.arg s.io true,
      rw (refused_lem w b s.io got e k, perform) refl,
      refused-IsSound s w.arg h,
    )
    | inr k ↦
        let f = with_refs ((b.refs + 1) % 2 ^ 32) in
        (
          noted s w.arg
              (record s.io { live = put_at w.binding f s.io.live; work = s.io.work ++ w ∷ [] })
              false,
          rw (accepted_lem w b s.io got e k, perform) refl,
          post_accepted s w b h e
              (subst
                (Fits (count w.binding s.owners) (queued w.binding s.io.work)
                  (runs w.binding s.running))
                e (h.fits w.binding))
              owns (is_opened s.io.stopped b.is_open k) room,
        )
  ]
]
  where
    is_opened : (p q : Bool) → p || not q ≡ false → q ≡ true
    is_opened p q k = ground arith
