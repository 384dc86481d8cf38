-- ===== src/Jni/Tuner/Frequency.antt =====
-- A frequency set and read back through src/v4l4j_Tuner.c on a V4L2 device.
use v4l4j.Prelude.{ℕ, ◌%◌, ◌≤◌, ◌≡◌, none, some, ◌∷◌, arith}
use v4l4j.Driver.{Driver, Trace, TunerDesc, g_frequency}
use v4l4j.Tuner.{set_tuner_freq, get_tuner_freq, get_rssi_afc}
use v4l4j.Tuner.Frequency.{get_tuner_freq_bounds}
use v4l4j.Jni.Tuner.{get_freq, set_freq}

module _ (d : Driver) (index f : ℕ) (t : Trace) (tuner : TunerDesc) where
  -- On a V4L2 device whose driver keeps the frequency that it accepted, in the tuner's range: where
  -- setFreq throws nothing, getFreq reads the lower 32 bits of the number given.
  pub get_freq-set_freq :
      (set_freq (get_tuner_freq d) (set_tuner_freq d) (get_rssi_afc d) index f t).0 ≡ none
      → let t' = (set_freq (get_tuner_freq d) (set_tuner_freq d) (get_rssi_afc d) index f t).1 in
        d.on_g_frequency t' index ≡ some (f % 4_294_967_296)
        → d.on_g_tuner (g_frequency index ∷ t') index ≡ some tuner
        → tuner.rangelow ≤ f % 4_294_967_296
        → f % 4_294_967_296 ≤ tuner.rangehigh
        → let (read, thrown, t'') =
            get_freq (get_tuner_freq d) (set_tuner_freq d) (get_rssi_afc d) index t' in
          (thrown ≡ none) × (read ≡ f % 4_294_967_296)
  unfolding get_freq set_freq
  get_freq-set_freq ok g e lo hi =
      let t' = (set_tuner_freq d index (f % 4_294_967_296) t).1 in
      let (read, ret, stored, low, high, same) =
        get_tuner_freq_bounds d index t' g e (omega arith) in
      let kept : read ≡ f % 4_294_967_296 = same lo hi in ground (arith, ret, stored, kept)
