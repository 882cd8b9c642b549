-- ===== src/Virtqueue/Pop/Mapped.antt =====
-- The check of a buffer's pages, against the translation of its bytes.
use modvm.Prelude.{
  ℕ, zero, suc, ◌+◌, ◌-◌, ◌^◌, ◌≤◌, ◌<◌, ◌≡◌, ◌≢◌, refl, ◌↔◌, ◌⊎◌, inl, inr, Bool, true, false,
  none, some, arith, sym, ap, ◌∙◌, subst, Option-cases,
}
use native.Mathlib.Decide.{dec_lt}
use modvm.Memory.{MemSpace, map_chunk}
use modvm.Memory.Translate.{
  IsValid, translate, is_writable, map_chunk-translate, map_chunk-none, map_chunk-region,
}
use modvm.Virtqueue.Pop.{is_mapped}

-- The device may use one guest byte: it is in RAM, and writable if the device is to write.
abbrev pub Usable : MemSpace → Bool → ℕ → Type 0
Usable mem write addr = (translate mem addr ≢ none) × (write ≡ true → is_writable mem addr ≡ true)

-- Each byte of a range.
abbrev pub RangeUsable : MemSpace → Bool → ℕ → ℕ → Type 0
RangeUsable mem write gpa len = (i : ℕ) → i < len → Usable mem write (gpa + i)

pub Mapped-split :
    (mem : MemSpace) (gpa len : ℕ) (write : Bool)
    → ((map_chunk mem gpa len write).0 ≡ none)
      ⊎ ((h : ℕ) × (map_chunk mem gpa len write ≡ (some h, (map_chunk mem gpa len write).1)))
Mapped-split mem gpa len write = elim (Option-cases (map_chunk mem gpa len write).0) [
  | inl e ↦ inl e
  | inr (h, e) ↦ inr (h, ap (λ o. (o, (map_chunk mem gpa len write).1)) e)
]

module _ (mem : MemSpace) (v : IsValid mem) (write : Bool) where
  is_mapped-step :
      (fuel gpa length h n : ℕ)
      → 0 < length
      → gpa + length < 2 ^ 64
      → map_chunk mem gpa length write ≡ (some h, n)
      → 0 < n
      → n ≤ length
      → is_mapped mem (suc fuel) gpa length write ≡ is_mapped mem fuel (gpa + n) (length - n) write
  unfolding is_mapped
  is_mapped-step fuel gpa length h n pos small e npos le = ground (arith, e)

  is_mapped-miss :
      (fuel gpa length : ℕ)
      → 0 < length
      → (map_chunk mem gpa length write).0 ≡ none
      → is_mapped mem (suc fuel) gpa length write ≡ false
  unfolding is_mapped
  is_mapped-miss fuel gpa length pos e = ground (arith, e)

  is_mapped-zero : (fuel gpa : ℕ) → is_mapped mem fuel gpa 0 write ≡ true
  unfolding is_mapped
  is_mapped-zero zero gpa = refl
  is_mapped-zero (suc fuel) gpa = refl

  is_mapped_sound :
      (fuel gpa length : ℕ)
      → gpa + length < 2 ^ 64
      → is_mapped mem fuel gpa length write ≡ true
      → RangeUsable mem write gpa length
  unfolding is_mapped
  is_mapped_sound zero gpa length small e i lt = absurd (ground arith)
  is_mapped_sound (suc fuel) gpa length small e i lt = elim (Mapped-split mem gpa length write) [
    | inl miss ↦ absurd (ground (arith, is_mapped-miss fuel gpa length (omega arith) miss))
    | inr (h, hit) ↦
        let n = (map_chunk mem gpa length write).1 in
        let (r, _, _, _, _, _, pos, le, _, _) =
          map_chunk-region mem gpa length write v (omega arith) hit in
        elim (dec_lt i n) [
          | yes near ↦
              let t = map_chunk-translate mem gpa length i write v (omega arith) hit near in
              ((λ o. ground (arith, t)), t.1)
          | no far ↦
              let rest : is_mapped mem fuel (gpa + n) (length - n) write ≡ true =
                sym (is_mapped-step fuel gpa length h n (omega arith) small hit pos le) ∙ e in
              subst (Usable mem write) (omega arith) (
                is_mapped_sound fuel (gpa + n) (length - n) (omega arith) rest (i - n)
                  (omega arith))
        ]
  ]

  is_mapped_complete :
      (fuel gpa length : ℕ)
      → length ≤ fuel
      → gpa + length < 2 ^ 64
      → RangeUsable mem write gpa length
      → is_mapped mem fuel gpa length write ≡ true
  is_mapped_complete fuel gpa zero enough small u = is_mapped-zero fuel gpa
  is_mapped_complete zero gpa (suc length) enough small u = absurd (omega arith)
  is_mapped_complete (suc fuel) gpa (suc length) enough small u =
      elim (Mapped-split mem gpa (suc length) write) [
        | inl miss ↦
            let first : Usable mem write gpa =
              subst (Usable mem write) (omega arith) (u 0 (omega arith)) in
            absurd (
              ground (
                arith,
                (map_chunk-none mem gpa (suc length) write v (omega arith) small).0 miss,
                first,
              ))
        | inr (h, hit) ↦
            let n = (map_chunk mem gpa (suc length) write).1 in
            let (r, _, _, _, _, _, pos, le, _, _) =
              map_chunk-region mem gpa (suc length) write v (omega arith) hit in
            is_mapped-step fuel gpa (suc length) h n (omega arith) small hit pos le
            ∙ is_mapped_complete fuel (gpa + n) (suc length - n) (omega arith) (omega arith)
                λ i lt. subst (Usable mem write) (omega arith) (u (n + i) (omega arith))
      ]

  -- The check that `virtqueue_pop` makes of a buffer that does not wrap succeeds exactly if the
  -- device may use each byte of it: every byte is in RAM, and writable if the device is to write.
  pub is_mapped-exact :
      (gpa length : ℕ)
      → gpa + length < 2 ^ 64
      → (is_mapped mem length gpa length write ≡ true) ↔ RangeUsable mem write gpa length
  is_mapped-exact gpa length small = (
    is_mapped_sound length gpa length small,
    is_mapped_complete length gpa length (omega arith) small,
  )
