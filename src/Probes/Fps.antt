-- ===== src/Probes/Fps.antt =====
-- libvideo/fps-param-probe.c: the frame rate as a control.
pub mod RoundTrip
mod Tests
use v4l4j.Prelude.{
  ℕ, zero, suc, ◌-◌, ◌/◌, ◌%◌, ◌^◌, Bool, true, false, Option, none, some, List, [], ◌∷◌, ◌==◌, ltb,
  if◌then◌else◌, not,
}
use v4l4j.Prelude.Int.{ℤ, pos, negsuc}
use v4l4j.Errors.{success, err_ioctl, err_out_of_range, err_streaming}
use v4l4j.Driver.{QueryCtrl}
use v4l4j.Capture.Input.{has_bits}
use v4l4j.Control.Kinds.{type_integer, u32_of}
use v4l4j.Control.Value.{v4l2_version}
use v4l4j.Probes.Driver.{ProbeDriver, ProbeTrace, StreamParm, get_parm, set_parm}
use v4l4j.Probes.Gspca.{private_control}

-- V4L2_CAP_TIMEPERFRAME
abbrev pub cap_timeperframe : ℕ
cap_timeperframe = 0x1000

abbrev pub fps_param_probe_index : ℕ
fps_param_probe_index = 3

-- (int) of 32 bits
pub int_of : ℕ → ℤ
int_of n = if ltb (n % 2 ^ 32) (2 ^ 31) then pos (n % 2 ^ 32) else negsuc (2 ^ 32 - 1 - n % 2 ^ 32)

module _ (d : ProbeDriver) where
  -- The number of controls, or -1.
  pub fps_param_probe : ℕ → ProbeTrace → ℤ × ProbeTrace
  fps_param_probe version t =
      let t₁ = get_parm ∷ t in
      let asked = elim (d.on_get_parm t) as (λ o. ℤ × ProbeTrace) [
        | none ↦ (negsuc 0, t₁)
        | some p ↦
            let t₂ = set_parm p.numerator p.denominator ∷ t₁ in
            let adjusted =
              if d.on_set_parm t₁ p.numerator p.denominator then (pos 1, t₂) else (negsuc 0, t₂) in
            if has_bits p.capability cap_timeperframe then adjusted else (negsuc 0, t₁)
      ] in
      if version == v4l2_version then asked else (negsuc 0, t)

  -- The result, and the value stored, if any.
  pub fps_param_get_ctrl : ProbeTrace → ℤ × Option ℤ × ProbeTrace
  unfolding int_of
  fps_param_get_ctrl t = elim (d.on_get_parm t) [
    | none ↦ (err_ioctl, none, get_parm ∷ t)
    | some p ↦
        if p.denominator == 0
        then (err_out_of_range, none, get_parm ∷ t)
        else (success, some (int_of (p.numerator / p.denominator)), get_parm ∷ t)
  ]

  -- `to_float` is the integer that an int becomes as a float. float_to_fraction makes it that integer
  -- over 1, which are then the denominator and the numerator of the time per frame.
  pub fps_param_set_ctrl : (ℤ → ℤ) → ℤ → ProbeTrace → ℤ × ProbeTrace
  fps_param_set_ctrl to_float val t =
      let t₁ = set_parm 1 (u32_of (to_float val)) ∷ t in
      if d.on_set_parm t 1 (u32_of (to_float val)) then (success, t₁) else (err_streaming, t₁)

  -- The controls listed: one, whether the driver tells its parameters or not.
  pub fps_param_list_ctrl : ProbeTrace → List QueryCtrl × ProbeTrace
  fps_param_list_ctrl t = (
    private_control fps_param_probe_index 0 type_integer (pos 0) (pos 255) (pos 1) ∷ [],
    get_parm ∷ t,
  )
