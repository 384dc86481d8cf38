-- ===== src/Tuner/Frequency.antt =====
-- The frequency that get_tuner_freq_v4l2 reports, and that set_tuner_freq_v4l2 sets.
use v4l4j.Prelude.{ℕ, ◌≤◌, some, ◌∷◌, ◌≡◌, arith}
use v4l4j.Errors.{success}
use v4l4j.Driver.{Driver, Trace, TunerDesc, g_frequency, s_frequency}
use v4l4j.Tuner.{clamp_frequency, set_tuner_freq, get_tuner_freq}

-- A frequency that get_tuner_freq_v4l2 reports lies in the tuner's range, if the driver describes
-- the tuner and its range is in order; a frequency of the driver in the range is reported as it is.
pub get_tuner_freq_bounds :
    (d : Driver) (idx : ℕ) (t : Trace) {frequency : ℕ} {tuner : TunerDesc}
    → d.on_g_frequency t idx ≡ some frequency
    → d.on_g_tuner (g_frequency idx ∷ t) idx ≡ some tuner
    → tuner.rangelow ≤ tuner.rangehigh
    → (f : ℕ) × ((get_tuner_freq d idx t).0 ≡ success)
      × ((get_tuner_freq d idx t).1 ≡ some f)
      × (tuner.rangelow ≤ f)
      × (f ≤ tuner.rangehigh)
      × (tuner.rangelow ≤ frequency → frequency ≤ tuner.rangehigh → f ≡ frequency)
unfolding get_tuner_freq clamp_frequency
get_tuner_freq_bounds d idx t {frequency} {tuner} e k h = (
  clamp_frequency tuner frequency,
  ground arith,
  ground arith,
  ground arith,
  ground arith,
  ground arith,
)

-- After a successful set_tuner_freq_v4l2 with a frequency in the tuner's range, get_tuner_freq_v4l2
-- reports that frequency, if the driver then answers with the frequency that it accepted.
pub get_tuner_freq-set_tuner_freq :
    (d : Driver) (idx f : ℕ) (t : Trace) {tuner : TunerDesc}
    → (set_tuner_freq d idx f t).0 ≡ success
    → let t' = (set_tuner_freq d idx f t).1 in
      d.on_g_frequency t' idx ≡ some f
      → d.on_g_tuner (g_frequency idx ∷ (set_tuner_freq d idx f t).1) idx ≡ some tuner
      → tuner.rangelow ≤ f
      → f ≤ tuner.rangehigh
      → ((set_tuner_freq d idx f t).1 ≡ s_frequency idx f ∷ g_frequency idx ∷ t)
        × ((get_tuner_freq d idx (set_tuner_freq d idx f t).1).1 ≡ some f)
unfolding set_tuner_freq get_tuner_freq
get_tuner_freq-set_tuner_freq d idx f t ok e k lo hi = ground arith
