-- ===== src/Query/Intervals/Tests.antt =====
-- The frame intervals of small drivers, and the theorem at one of them.
use v4l4j.Prelude.{ℕ, true, false, some, List, [], ◌∷◌, ◌≡◌, refl, arith}
use v4l4j.Driver.{Driver, Trace, Fract, IntervalReply, interval_range}
use v4l4j.Samples.{obliging}
use v4l4j.Query.Intervals.{Intervals, discrete, lookup_frame_intv}
use v4l4j.Query.Intervals.Outcome.{reply_at, Stores, lookup_frame_intv-Stores}

abbrev fps : ℕ → Fract
fps n = record { numerator = 1; denominator = n }

abbrev four_rates : List Fract
four_rates = fps 30 ∷ fps 25 ∷ fps 15 ∷ fps 10 ∷ []

-- a range with equal ends, as the broken drivers report it
abbrev one_rate : IntervalReply
one_rate = interval_range (fps 5) (fps 5) (fps 10000000)

abbrev broken : Driver
broken = record obliging {
  on_enum_frameintervals = λ t fmt w h i. reply_at four_rates (some one_rate) i;
}

stored_out_of_bounds :
    elim (lookup_frame_intv broken 0 640 480 5 []) [
      | some (discrete a, t) ↦ a.in_bounds
      | other ↦ true
    ]
    ≡ false
unfolding lookup_frame_intv
stored_out_of_bounds = refl

lookup_frame_intv-Stores_example :
    (r : Intervals) × (t' : Trace) × (lookup_frame_intv broken 0 640 480 5 [] ≡ some (r, t'))
    × Stores four_rates (some one_rate) r
lookup_frame_intv-Stores_example =
    lookup_frame_intv-Stores broken 0 640 480 four_rates (some one_rate) 5 [] tt (λ t k. refl)
      (omega arith)
