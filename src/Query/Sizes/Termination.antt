-- ===== src/Query/Sizes/Termination.antt =====
-- That lookup_frame_sizes (libvideo/v4l2-query.c) ends on a driver whose lists end.
use v4l4j.Prelude.{
  ℕ, zero, suc, ◌+◌, ◌≤◌, ◌<◌, some, List, [], ◌∷◌, ◌++◌, ◌≡◌, inl, inr, refl, sym, ap, ◌∙◌,
  none-ne-some, arith,
}
use v4l4j.Driver.{Driver, Trace, SizeRange, enum_framesizes}
use v4l4j.Control.Enumerate.Termination.{at_last}
use v4l4j.Query.Intervals.{Intervals, lookup_frame_intv}
use v4l4j.Query.Intervals.Termination.{EndsAt, Ends, Ends-eq, lookup_frame_intv-Ends}
use v4l4j.Query.Sizes.{FrameSize, size_found, sizes_range, enum_sizes, lookup_frame_sizes}
use v4l4j.Query.Sizes.Replies.{reply_cases}

size_found-some :
    (d : Driver) (fmt fuel w h : ℕ) (t : Trace) (a : Intervals) (t' : Trace)
    → lookup_frame_intv d fmt w h fuel t ≡ some (a, t')
    → size_found d fmt fuel w h t ≡ some (record { width = w; height = h; intervals = a }, t')
unfolding size_found
size_found-some d fmt fuel w h t a t' e = rw (size_found, e) refl

module _ (d : Driver) (n : ℕ) (ends : EndsAt d n) where
  sizes_range-Ends :
      (fmt fuel : ℕ) (r : SizeRange) (sizes : List FrameSize) (t : Trace)
      → n < fuel
      → Ends (sizes_range d fmt fuel r sizes t)
  unfolding sizes_range
  sizes_range-Ends fmt fuel r sizes t lt =
      let ((a, t₁), e) = lookup_frame_intv-Ends d n ends fmt r.min_width r.min_height fuel t lt in
      let ((b, t₂), k) = lookup_frame_intv-Ends d n ends fmt r.max_width r.max_height fuel t₁ lt in
      rw (sizes_range, e, k) (_, refl)

  enum_sizes-Ends :
      (fmt intv_fuel fuel i : ℕ) (sizes : List FrameSize) (t : Trace)
      → n < intv_fuel
      → i ≤ n
      → n < i + fuel
      → Ends (enum_sizes d fmt intv_fuel fuel i sizes t)
  unfolding enum_sizes
  enum_sizes-Ends fmt intv_fuel zero i sizes t big le lt = absurd (omega arith)
  enum_sizes-Ends fmt intv_fuel (suc fuel) i sizes t big le lt =
      let t₁ = enum_framesizes fmt i ∷ t in
      elim (reply_cases (d.on_enum_framesizes t fmt i)) [
        | inl e ↦ rw (enum_sizes, e) (_, refl)
        | inr (inr (r, e)) ↦
            Ends-eq (rw (enum_sizes, e) refl) (sizes_range-Ends fmt intv_fuel r sizes t₁ big)
        | inr (inl (w, h, e)) ↦ elim (at_last i n le) [
          | inl last ↦
              absurd
                (none-ne-some (sym (ap (d.on_enum_framesizes t fmt) last ∙ ends.sizes t fmt) ∙ e))
          | inr more ↦
              let ((a, t₂), k) = lookup_frame_intv-Ends d n ends fmt w h intv_fuel t₁ big in
              let found = size_found-some d fmt intv_fuel w h t₁ a t₂ k in
              Ends-eq (rw (enum_sizes, e, found) refl) (
                enum_sizes-Ends fmt intv_fuel fuel (i + 1)
                  (sizes ++ record { width = w; height = h; intervals = a } ∷ []) t₂ big
                  (omega arith) (omega arith))
        ]
      ]

  pub lookup_frame_sizes-Ends :
      (fmt fuel : ℕ) (t : Trace) → n < fuel → Ends (lookup_frame_sizes d fmt fuel t)
  unfolding lookup_frame_sizes
  lookup_frame_sizes-Ends fmt fuel t lt =
      enum_sizes-Ends fmt fuel fuel 0 [] t lt (omega arith) (omega arith)
