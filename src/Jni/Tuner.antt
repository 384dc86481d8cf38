-- ===== src/Jni/Tuner.antt =====
-- src/v4l4j_Tuner.c: the tuner from the Java side. A frequency of the Java side has 64 bits, here
-- as the number they spell without a sign; libvideo's have 32. libvideo's functions are arguments.
pub mod Frequency
use v4l4j.Prelude.{ℕ, ◌%◌, Option, none, some, if◌then◌else◌, not}
use v4l4j.Prelude.Int.{ℤ, pos, eqb_ℤ}
use v4l4j.Jni.Exceptions.{Exception, generic}

module _ {W : Type 0} (get_tuner_freq : ℕ → W → ℤ × Option ℕ × W)
    (set_tuner_freq : ℕ → ℕ → W → ℤ × W) (get_rssi_afc : ℕ → W → ℤ × Option (ℤ × ℤ) × W) where
  -- A result of 0 comes with a frequency stored.
  unfoldable pub get_freq : ℕ → W → ℕ × Option Exception × W
  get_freq index w =
      let (ret, stored, w₁) = get_tuner_freq index w in
      elim stored [
        | none ↦ (0, some generic, w₁)
        | some f ↦
            if not (eqb_ℤ ret (pos 0)) then (0, some generic, w₁) else (f % 4_294_967_296, none, w₁)
      ]

  unfoldable pub set_freq : ℕ → ℕ → W → Option Exception × W
  set_freq index f w =
      let (ret, w₁) = set_tuner_freq index (f % 4_294_967_296) w in
      ((if not (eqb_ℤ ret (pos 0)) then some generic else none), w₁)

  -- getRssi and getAfc in one: the signal strength and the frequency drift
  pub get_rssi_and_afc : ℕ → W → (ℤ × ℤ) × Option Exception × W
  get_rssi_and_afc index w =
      let (ret, stored, w₁) = get_rssi_afc index w in
      elim stored [
        | none ↦ ((pos 0, pos 0), some generic, w₁)
        | some read ↦
            if not (eqb_ℤ ret (pos 0)) then ((pos 0, pos 0), some generic, w₁) else (read, none, w₁)
      ]
