-- ===== src/V4l1/Inputs.antt =====
-- libvideo/v4l1-query.c: the inputs of a V4L1 device with their tuners and standards (query_tuner,
-- check_inputs_v4l1), and query_device_v4l1. Names are left out.
pub mod Standards
use v4l4j.Prelude.{
  ℕ, zero, suc, ◌+◌, Bool, true, false, Option, none, some, List, [], ◌∷◌, ◌++◌, ◌==◌, length,
  if◌then◌else◌,
}
use v4l4j.Prelude.Int.{ℤ, pos, ltb_ℤ, eqb_ℤ}
use v4l4j.Errors.{success, err_nocaps, err_ioctl}
use v4l4j.Palettes.Table.{Palette}
use v4l4j.Capture.Standard.{webcam, pal, secam, ntsc}
use v4l4j.Capture.Input.{has_bits, input_type_tuner}
use v4l4j.Query.Inputs.{
  TunerInfo, InputInfo, tuner_low_v4l1, khz_unit, mhz_unit, tv_type, camera_input,
}
use v4l4j.Query.Formats.{PaletteInfo}
use v4l4j.V4l1.Driver.{V4l1Driver, V4l1Trace, Capability, Channel, V4l1Tuner, gcap, gchan, gtuner}
use v4l4j.V4l1.Capture.{check_v4l1}
use v4l4j.V4l1.Palettes.{check_palettes_v4l1}

-- VIDEO_TUNER_PAL, VIDEO_TUNER_NTSC, VIDEO_TUNER_SECAM, VIDEO_VC_TUNER and VIDEO_TYPE_TV
abbrev pub tuner_pal : ℕ
tuner_pal = 1

abbrev pub tuner_ntsc : ℕ
tuner_ntsc = 2

abbrev pub tuner_secam : ℕ
tuner_secam = 4

abbrev pub vc_tuner : ℕ
vc_tuner = 1

abbrev pub type_tv : ℕ
type_tv = 1

pub tuner_info_v4l1 : V4l1Tuner → TunerInfo
tuner_info_v4l1 t = record {
  index = 0;
  unit = if has_bits t.flags tuner_low_v4l1 then khz_unit else mhz_unit;
  rssi = pos t.signal;
  tuner_type = tv_type;
  rangelow = t.rangelow;
  rangehigh = t.rangehigh;
}

-- the standards that query_tuner adds
pub stds_of_tuner : V4l1Tuner → List ℕ
stds_of_tuner t =
    (if has_bits t.flags tuner_pal then pal ∷ [] else [])
    ++ ((if has_bits t.flags tuner_ntsc then ntsc ∷ [] else [])
        ++ (if has_bits t.flags tuner_secam then secam ∷ [] else []))

-- an input with a tuner, or with none
pub input_info_v4l1 : Channel → Option V4l1Tuner → InputInfo
unfolding tuner_info_v4l1 stds_of_tuner
input_info_v4l1 chan tuner = record {
  index = 0;
  input_type = if chan.chan_type == type_tv then input_type_tuner else camera_input;
  supported_stds = elim tuner [ none ↦ webcam ∷ [] | some t ↦ stds_of_tuner t ];
  tuner = elim tuner [ none ↦ none | some t ↦ some (tuner_info_v4l1 t) ];
}

module _ (d : V4l1Driver) where
  -- One input: the result, and its information where that is success.
  pub query_channel : ℕ → V4l1Trace → (ℤ × Option InputInfo) × V4l1Trace
  unfolding input_info_v4l1
  query_channel i t =
      let t₁ = gchan i ∷ t in
      elim (d.on_gchan t i) [
        | none ↦ ((err_ioctl, none), t₁)
        | some chan ↦
            let with_tuner = elim (d.on_gtuner t₁ 0) as (λ o. (ℤ × Option InputInfo) × V4l1Trace) [
              | none ↦ ((err_ioctl, none), gtuner 0 ∷ t₁)
              | some tuner ↦ ((success, some (input_info_v4l1 chan (some tuner))), gtuner 0 ∷ t₁)
            ] in
            if ltb_ℤ (pos 1) chan.tuners
            then ((err_nocaps, none), t₁)
            else if has_bits chan.flags vc_tuner
            then with_tuner
            else ((success, some (input_info_v4l1 chan none)), t₁)
      ]

  -- The loop, for the rounds left from `i` on, with the inputs before; on an error they are freed.
  pub query_inputs : ℕ → ℕ → List InputInfo → V4l1Trace → (ℤ × List InputInfo) × V4l1Trace
  unfolding query_channel
  query_inputs zero i inputs t = ((success, inputs), t)
  query_inputs (suc rounds) i inputs t =
      let ((ret, input), t₁) = query_channel i t in
      elim input [
        | none ↦ ((ret, []), t₁)
        | some info ↦ query_inputs rounds (i + 1) (inputs ++ info ∷ []) t₁
      ]

  pub check_inputs_v4l1 : V4l1Trace → (ℤ × List InputInfo) × V4l1Trace
  unfolding query_inputs
  check_inputs_v4l1 t = elim (d.on_gcap t) [
    | none ↦ ((err_nocaps, []), gcap ∷ t)
    | some vc ↦ query_inputs vc.channels 0 [] (gcap ∷ t)
  ]

  -- the result, the inputs and the palettes
  pub query_device_v4l1 : Palette → V4l1Trace → ℤ × List InputInfo × List PaletteInfo × V4l1Trace
  unfolding check_inputs_v4l1
  query_device_v4l1 past t = elim (d.on_gcap t) [
    | none ↦ (err_nocaps, [], [], gcap ∷ t)
    | some caps ↦
        let ((ret, inputs), t₁) = check_inputs_v4l1 (gcap ∷ t) in
        let (palettes, t₂) = check_palettes_v4l1 d past t₁ in
        if eqb_ℤ ret success then (success, inputs, palettes, t₂) else (err_nocaps, [], [], t₁)
  ]
