-- ===== src/Query/Intervals/Termination.antt =====
-- That lookup_frame_intv (libvideo/v4l2-query.c) ends on a driver whose lists end.
use v4l4j.Prelude.{
  ℕ, zero, suc, ◌+◌, ◌≤◌, ◌<◌, Option, none, some, ◌∷◌, ◌≡◌, ◌⊎◌, inl, inr, refl, sym, ap, ◌∙◌,
  none-ne-some, arith,
}
use v4l4j.Driver.{
  Driver, Trace, Fract, IntervalReply, one_interval, interval_range, enum_frameintervals,
}
use v4l4j.Control.Enumerate.Termination.{at_last}
use v4l4j.Query.Intervals.{IntervalArray, no_array, add_discrete, enum_intervals, lookup_frame_intv}

-- At the index `n` the driver has no further interval or size.
pub record EndsAt (d : Driver) (n : ℕ) : Type 0 where
  pub intervals : (t : Trace) (f w h : ℕ) → d.on_enum_frameintervals t f w h n ≡ none
  pub sizes : (t : Trace) (f : ℕ) → d.on_enum_framesizes t f n ≡ none

abbrev pub Ends {ℓ} : {A : Type ℓ} → Option A → Type ℓ
Ends {A = A} o = (a : A) × (o ≡ some a)

pub Ends-eq {ℓ} : {A : Type ℓ} {o p : Option A} → o ≡ p → Ends p → Ends o
Ends-eq e (a, k) = (a, e ∙ k)

interval_cases :
    (r : Option IntervalReply)
    → (r ≡ none)
      ⊎ ((f : Fract) × (r ≡ some (one_interval f)))
      ⊎ ((a : Fract) × (b : Fract) × (c : Fract) × (r ≡ some (interval_range a b c)))
interval_cases none = inl refl
interval_cases (some (one_interval f)) = inr (inl (f, refl))
interval_cases (some (interval_range a b c)) = inr (inr (a, b, c, refl))

module _ (d : Driver) (n : ℕ) (ends : EndsAt d n) where
  enum_intervals-Ends :
      (fmt w h fuel i : ℕ) (a : IntervalArray) (t : Trace)
      → i ≤ n
      → n < i + fuel
      → Ends (enum_intervals d fmt w h fuel i a t)
  unfolding enum_intervals
  enum_intervals-Ends fmt w h zero i a t le lt = absurd (omega arith)
  enum_intervals-Ends fmt w h (suc fuel) i a t le lt =
      elim (interval_cases (d.on_enum_frameintervals t fmt w h i)) [
        | inl e ↦ rw (enum_intervals, e) (_, refl)
        | inr (inr (x, y, z, e)) ↦ rw (enum_intervals, e) (_, refl)
        | inr (inl (f, e)) ↦ elim (at_last i n le) [
          | inl last ↦ absurd (
              none-ne-some
                (sym (ap (d.on_enum_frameintervals t fmt w h) last ∙ ends.intervals t fmt w h) ∙ e))
          | inr more ↦ Ends-eq (rw (enum_intervals, e) refl) (
              enum_intervals-Ends fmt w h fuel (i + 1) (add_discrete i f a)
                (enum_frameintervals fmt w h i ∷ t) (omega arith) (omega arith))
        ]
      ]

  pub lookup_frame_intv-Ends :
      (fmt w h fuel : ℕ) (t : Trace) → n < fuel → Ends (lookup_frame_intv d fmt w h fuel t)
  unfolding lookup_frame_intv
  lookup_frame_intv-Ends fmt w h fuel t lt =
      enum_intervals-Ends fmt w h fuel 0 no_array t (omega arith) (omega arith)
