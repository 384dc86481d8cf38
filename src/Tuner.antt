-- ===== src/Tuner.antt =====
-- libvideo/v4l2-tuner.c: the frequency and the signal of a tuner. A `*f` that is updated is returned.
pub mod Frequency
use v4l4j.Prelude.{ℕ, Bool, true, false, Option, none, some, ◌∷◌, ltb, if◌then◌else◌}
use v4l4j.Prelude.Int.{ℤ}
use v4l4j.Errors.{success, err_ioctl}
use v4l4j.Driver.{Driver, Trace, TunerDesc, g_tuner, g_frequency, s_frequency}

-- the frequency moved into the tuner's range
clamp_frequency : TunerDesc → ℕ → ℕ
clamp_frequency tuner f =
    if ltb f tuner.rangelow
    then tuner.rangelow
    else if ltb tuner.rangehigh f
    then tuner.rangehigh
    else f

module _ (d : Driver) where
  pub fix_quirky_values : ℕ → ℕ → Trace → ℕ × Trace
  unfolding clamp_frequency
  fix_quirky_values idx f t = elim (d.on_g_tuner t idx) [
    | none ↦ (f, g_tuner idx ∷ t)
    | some tuner ↦ (clamp_frequency tuner f, g_tuner idx ∷ t)
  ]

  -- The frequency is read first, for the other fields of the struct that is written back.
  unfoldable pub set_tuner_freq : ℕ → ℕ → Trace → ℤ × Trace
  set_tuner_freq idx f t =
      let t₁ = g_frequency idx ∷ t in
      elim (d.on_g_frequency t idx) [
        | none ↦ (err_ioctl, t₁)
        | some old ↦
            if d.on_s_frequency t₁ idx f
            then (success, s_frequency idx f ∷ t₁)
            else (err_ioctl, s_frequency idx f ∷ t₁)
      ]

  -- the result, and the frequency stored
  unfoldable pub get_tuner_freq : ℕ → Trace → ℤ × Option ℕ × Trace
  unfolding fix_quirky_values
  get_tuner_freq idx t = elim (d.on_g_frequency t idx) [
    | none ↦ (err_ioctl, none, g_frequency idx ∷ t)
    | some frequency ↦
        let (f, t₁) = fix_quirky_values idx frequency (g_frequency idx ∷ t) in (success, some f, t₁)
  ]

  -- the result, and the signal strength and the frequency drift stored
  pub get_rssi_afc : ℕ → Trace → ℤ × Option (ℤ × ℤ) × Trace
  get_rssi_afc idx t = elim (d.on_g_tuner t idx) [
    | none ↦ (err_ioctl, none, g_tuner idx ∷ t)
    | some tuner ↦ (success, some (tuner.signal, tuner.afc), g_tuner idx ∷ t)
  ]
