-- ===== src/Query/Inputs.antt =====
-- libvideo/v4l2-query.c: the inputs of a device, with their tuners and their standards (query_tuner,
-- add_supported_std, check_inputs_v4l2). Names are left out.
pub mod Listing
pub mod Standards
mod Tests
use v4l4j.Prelude.{
  ℕ, zero, suc, ◌+◌, Bool, true, false, Option, none, some, List, [], ◌∷◌, ◌++◌, ◌==◌,
  if◌then◌else◌,
}
use v4l4j.Prelude.Int.{ℤ}
use v4l4j.Errors.{success, err_ioctl}
use v4l4j.Driver.{Driver, Trace, InputDesc, TunerDesc, enuminput, g_tuner}
use v4l4j.Capture.Standard.{webcam, pal, secam, ntsc}
use v4l4j.Capture.Input.{has_bits, input_type_tuner}

-- the masks V4L2_STD_PAL, V4L2_STD_NTSC and V4L2_STD_SECAM
abbrev pub std_pal : ℕ
std_pal = 0xff

abbrev pub std_ntsc : ℕ
std_ntsc = 0xb000

abbrev pub std_secam : ℕ
std_secam = 0xff_0000

-- VIDEO_TUNER_LOW, a constant of videodev.h for V4L1
abbrev pub tuner_low_v4l1 : ℕ
tuner_low_v4l1 = 8

abbrev pub khz_unit : ℕ
khz_unit = 1

abbrev pub mhz_unit : ℕ
mhz_unit = 2

abbrev pub radio_type : ℕ
radio_type = 1

abbrev pub tv_type : ℕ
tv_type = 2

abbrev pub camera_input : ℕ
camera_input = 2

-- struct tuner_info
pub record TunerInfo : Type 0 where
  pub index : ℕ
  pub unit : ℕ
  pub rssi : ℤ
  pub tuner_type : ℕ
  pub rangelow : ℕ
  pub rangehigh : ℕ

-- struct video_input_info; `nb_stds` is the length of `supported_stds`.
pub record InputInfo : Type 0 where
  pub index : ℕ
  pub input_type : ℕ
  pub supported_stds : List ℕ
  pub tuner : Option TunerInfo

pub tuner_info : ℕ → TunerDesc → TunerInfo
tuner_info index t = record {
  index = index;
  unit = if has_bits t.capability tuner_low_v4l1 then khz_unit else mhz_unit;
  rssi = t.signal;
  tuner_type = if t.tuner_type == 1 then radio_type else tv_type;
  rangelow = t.rangelow;
  rangehigh = t.rangehigh;
}

pub add_supported_std : Bool → ℕ → List ℕ → List ℕ
add_supported_std supported std stds = if supported then stds ++ std ∷ [] else stds

pub supported_stds : ℕ → List ℕ
unfolding add_supported_std
supported_stds std_ids = add_supported_std (std_ids == 0) webcam (
    add_supported_std (has_bits std_ids std_secam) secam (
      add_supported_std (has_bits std_ids std_ntsc) ntsc
        (add_supported_std (has_bits std_ids std_pal) pal [])))

pub input_info : ℕ → InputDesc → Option TunerInfo → InputInfo
input_info i vi tuner = record {
  index = i;
  input_type = if vi.input_type == input_type_tuner then input_type_tuner else camera_input;
  supported_stds = supported_stds vi.std_ids;
  tuner = tuner;
}

module _ (d : Driver) where
  -- the loop that counts the inputs, on fuel
  pub count_inputs : ℕ → ℕ → Trace → Option (ℕ × Trace)
  count_inputs zero index t = none
  count_inputs (suc fuel) index t =
      let rest = count_inputs fuel (index + 1) (enuminput index ∷ t) in
      elim (d.on_enuminput t index) [ none ↦ some (index, enuminput index ∷ t) | some vi ↦ rest ]

  -- The information of one input; `none` is a failure of the driver.
  pub query_input : ℕ → Trace → Option InputInfo × Trace
  query_input i t = elim (d.on_enuminput t i) [
    | none ↦ (none, enuminput i ∷ t)
    | some vi ↦
        let t₁ = enuminput i ∷ t in
        if has_bits vi.input_type input_type_tuner
        then elim (d.on_g_tuner t₁ vi.tuner) [
          | none ↦ (none, g_tuner vi.tuner ∷ t₁)
          | some tuner ↦
              (some (input_info i vi (some (tuner_info vi.tuner tuner))), g_tuner vi.tuner ∷ t₁)
        ]
        else (some (input_info i vi none), t₁)
  ]

  -- The loop that fills the array, for the rounds left from `i` on; `none` where it returns an error.
  pub fill_inputs : ℕ → ℕ → Trace → Option (List InputInfo) × Trace
  fill_inputs zero i t = (some [], t)
  fill_inputs (suc rounds) i t =
      let (input, t₁) = query_input i t in
      let (rest, t₂) = fill_inputs rounds (i + 1) t₁ in
      elim input [
        | none ↦ (none, t₁)
        | some info ↦ elim rest [ none ↦ (none, t₂) | some infos ↦ (some (info ∷ infos), t₂) ]
      ]

  -- The result and the inputs, which are freed on an error.
  pub check_inputs : ℕ → Trace → Option (ℤ × List InputInfo × Trace)
  check_inputs fuel t = elim (count_inputs fuel 0 t) [
    | none ↦ none
    | some (n, t₁) ↦
        let (inputs, t₂) = fill_inputs n 0 t₁ in
        elim inputs [ none ↦ some (err_ioctl, [], t₂) | some infos ↦ some (success, infos, t₂) ]
  ]
