-- ===== src/V4l1/Tuner.antt =====
-- libvideo/v4l1-tuner.c: the frequency and the signal of the tuner of a V4L1 device. A `*f` that is
-- updated is returned.
use v4l4j.Prelude.{ℕ, Option, none, some, ◌∷◌, ltb, if◌then◌else◌}
use v4l4j.Prelude.Int.{ℤ}
use v4l4j.Errors.{success, err_ioctl}
use v4l4j.V4l1.Driver.{V4l1Driver, V4l1Trace, V4l1Tuner, gtuner, gfreq, sfreq}

-- the frequency moved into the tuner's range
clamp_frequency_v4l1 : V4l1Tuner → ℕ → ℕ
clamp_frequency_v4l1 tuner f =
    if ltb f tuner.rangelow
    then tuner.rangelow
    else if ltb tuner.rangehigh f
    then tuner.rangehigh
    else f

module _ (d : V4l1Driver) where
  fix_quirky_values_v4l1 : ℕ → ℕ → V4l1Trace → ℕ × V4l1Trace
  unfolding clamp_frequency_v4l1
  fix_quirky_values_v4l1 idx f t = elim (d.on_gtuner t idx) [
    | none ↦ (f, gtuner idx ∷ t)
    | some tuner ↦ (clamp_frequency_v4l1 tuner f, gtuner idx ∷ t)
  ]

  pub set_tuner_freq_v4l1 : ℕ → ℕ → V4l1Trace → ℤ × V4l1Trace
  set_tuner_freq_v4l1 idx f t =
      if d.on_sfreq t f then (success, sfreq f ∷ t) else (err_ioctl, sfreq f ∷ t)

  -- the result, and the frequency stored
  pub get_tuner_freq_v4l1 : ℕ → V4l1Trace → ℤ × Option ℕ × V4l1Trace
  unfolding fix_quirky_values_v4l1
  get_tuner_freq_v4l1 idx t = elim (d.on_gfreq t) [
    | none ↦ (err_ioctl, none, gfreq ∷ t)
    | some frequency ↦
        let (f, t₁) = fix_quirky_values_v4l1 idx frequency (gfreq ∷ t) in (success, some f, t₁)
  ]

  -- the result, and the signal strength and the frequency drift stored; the tuner 0 is asked
  pub get_rssi_afc_v4l1 : ℕ → V4l1Trace → ℤ × Option (ℕ × ℕ) × V4l1Trace
  get_rssi_afc_v4l1 idx t = elim (d.on_gtuner t 0) [
    | none ↦ (err_ioctl, none, gtuner 0 ∷ t)
    | some tuner ↦ (success, some (tuner.signal, 0), gtuner 0 ∷ t)
  ]
