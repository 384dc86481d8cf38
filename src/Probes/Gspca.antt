-- ===== src/Probes/Gspca.antt =====
-- libvideo/gspca-probe.c: the four parameters of the gspca driver.
pub mod RoundTrip
mod Tests
use v4l4j.Prelude.{
  ℕ, zero, suc, ◌%◌, ◌^◌, Bool, true, false, Option, none, some, List, [], ◌∷◌, ◌==◌, if◌then◌else◌,
}
use v4l4j.Prelude.Int.{ℤ, pos, negsuc}
use v4l4j.Errors.{success, err_ioctl}
use v4l4j.Driver.{QueryCtrl}
use v4l4j.Control.Kinds.{type_integer, type_boolean, type_menu, u32_of, priv_ioctl}
use v4l4j.Probes.Driver.{ProbeDriver, ProbeTrace, VideoParam, gparam, sparam}

-- CHGABRIGHT, CHGQUALITY, CHGLIGHTFREQ and CHGTINTER
abbrev pub chg_abright : ℕ
chg_abright = 1

abbrev pub chg_quality : ℕ
chg_quality = 2

abbrev pub chg_light_freq : ℕ
chg_light_freq = 3

abbrev pub chg_tinter : ℕ
chg_tinter = 4

abbrev pub gspca_probe_index : ℕ
gspca_probe_index = 1

-- a control of a probe; the fields that are not set are 0, as allocated
pub private_control : ℕ → ℕ → ℕ → ℤ → ℤ → ℤ → QueryCtrl
private_control probe id ctrl_type minimum maximum step = record {
  id = id;
  ctrl_type = ctrl_type;
  minimum = minimum;
  maximum = maximum;
  step = step;
  flags = 0;
  reserved0 = priv_ioctl;
  reserved1 = probe;
}

-- The controls listed, with the indices of the menu of the last one.
pub gspca_list_ctrl : List QueryCtrl × List ℕ
unfolding private_control
gspca_list_ctrl = (
  private_control gspca_probe_index 0 type_boolean (pos 0) (pos 1) (pos 0)
      ∷ private_control gspca_probe_index 1 type_integer (pos 0) (pos 6) (pos 0)
      ∷ private_control gspca_probe_index 2 type_integer (pos 0) (pos 1000) (pos 0)
      ∷ private_control gspca_probe_index 3 type_menu (pos 0) (pos 60) (pos 0)
      ∷ [],
  0 ∷ 50 ∷ 60 ∷ [],
)

-- a field of the parameters, by the control's id
pub param_of : ℕ → VideoParam → Option ℕ
param_of id p =
    if id == 0
    then some p.autobright
    else if id == 1
    then some p.quality
    else if id == 2
    then some p.time_interval
    else if id == 3
    then some p.light_freq
    else none

-- what is asked of the driver for a control's id and a value: the field's number, and the value cut to
-- the width of the field
pub change_of : ℕ → ℤ → Option (ℕ × ℕ)
change_of id v =
    if id == 0
    then some (chg_abright, u32_of v % 2 ^ 8)
    else if id == 1
    then some (chg_quality, u32_of v % 2 ^ 8)
    else if id == 2
    then some (chg_tinter, u32_of v % 2 ^ 16)
    else if id == 3
    then some (chg_light_freq, u32_of v % 2 ^ 8)
    else none

module _ (d : ProbeDriver) where
  -- The light frequency is set and read back: `none` where the first call fails, and otherwise
  -- whether it reads the value expected.
  pub try_light_freq : (set expected : ℕ) → ProbeTrace → Option Bool × ProbeTrace
  try_light_freq value expected t =
      let t₁ = sparam chg_light_freq value ∷ t in
      let readback = elim (d.on_gparam t₁) as (λ o. Option Bool × ProbeTrace) [
        | none ↦ (some false, gparam ∷ t₁)
        | some p ↦ (some (p.light_freq == expected), gparam ∷ t₁)
      ] in
      if d.on_sparam t chg_light_freq value then readback else (none, t₁)

  -- the steps of the probe: a value to set, and the one that must be read
  pub try_all_freqs : List (ℕ × ℕ) → ProbeTrace → Bool × ProbeTrace
  unfolding try_light_freq
  try_all_freqs [] t = (true, t)
  try_all_freqs ((value, expected) ∷ steps) t =
      let (reply, t₁) = try_light_freq value expected t in
      let rest = try_all_freqs steps t₁ in
      elim reply [ none ↦ (false, t₁) | some false ↦ (false, t₁) | some true ↦ rest ]

  -- the number of controls, or -1
  pub gspca_driver_probe : ProbeTrace → ℤ × ProbeTrace
  unfolding try_all_freqs
  gspca_driver_probe t =
      let (found, t₁) = try_all_freqs ((60, 60) ∷ (50, 50) ∷ (0, 0) ∷ (90, 0) ∷ []) t in
      (if found then pos 4 else negsuc 0, t₁)

  -- The result, and the value stored, if any. A failure of the driver returns 0 all the same.
  pub gspca_get_ctrl : ℕ → ProbeTrace → ℤ × Option ℤ × ProbeTrace
  unfolding param_of
  gspca_get_ctrl id t =
      let t₁ = gparam ∷ t in
      elim (d.on_gparam t) [
        | none ↦ (success, none, t₁)
        | some p ↦ elim (param_of id p) [
          | none ↦ (err_ioctl, none, t₁)
          | some n ↦ (success, some (pos n), t₁)
        ]
      ]

  -- The result; -1 for an id that is not known.
  pub gspca_set_ctrl : ℕ → ℤ → ProbeTrace → ℤ × ProbeTrace
  unfolding change_of
  gspca_set_ctrl id v t = elim (change_of id v) [
    | none ↦ (negsuc 0, t)
    | some (field, n) ↦
        let t₁ = sparam field n ∷ t in
        if d.on_sparam t field n then (success, t₁) else (err_ioctl, t₁)
  ]
