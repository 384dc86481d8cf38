-- ===== src/Probes/Pwc.antt =====
-- libvideo/pwc-probe.c: the motors of the pwc driver.
use v4l4j.Prelude.{ℕ, Bool, true, false, Option, none, some, List, [], ◌∷◌, ◌==◌, if◌then◌else◌}
use v4l4j.Prelude.Int.{ℤ, pos, negsuc}
use v4l4j.Errors.{success, err_ioctl, err_out_of_range}
use v4l4j.Driver.{QueryCtrl}
use v4l4j.Control.Kinds.{type_integer, type_button}
use v4l4j.Probes.Driver.{
  ProbeDriver, ProbeTrace, Angles, pwc_probe, card, mpt_reset, mpt_get_angle, mpt_set_angle,
  mpt_get_range,
}
use v4l4j.Probes.Gspca.{private_control}

abbrev pub pwc_probe_index : ℕ
pwc_probe_index = 0

module _ (d : ProbeDriver) where
  -- the number of controls, or -1, and whether the camera has motors
  pub pwc_driver_probe : ProbeTrace → ℤ × Option Bool × ProbeTrace
  pwc_driver_probe t =
      let t₁ = pwc_probe ∷ t in
      let t₂ = card ∷ t₁ in
      elim (d.on_pwc_probe t) [
        | none ↦ (negsuc 0, none, t₁)
        | some name ↦ elim (d.on_card t₁) [
          | none ↦ (negsuc 0, none, t₂)
          | some card_name ↦
              let motors =
                if d.on_mpt_reset t₂
                then (pos 3, some true, mpt_reset ∷ t₂)
                else (pos 0, some false, mpt_reset ∷ t₂) in
              if card_name == name then motors else (negsuc 0, none, t₂)
        ]
      ]

  -- the angle of the control 1, pan, or 2, tilt
  pub pwc_get_ctrl : ℕ → ProbeTrace → ℤ × Option ℤ × ProbeTrace
  pwc_get_ctrl id t =
      let t₁ = mpt_get_angle ∷ t in
      let pan = elim (d.on_mpt_get_angle t) as (λ o. ℤ × Option ℤ × ProbeTrace) [
        | none ↦ (err_ioctl, none, t₁)
        | some a ↦ (success, some a.pan, t₁)
      ] in
      let tilt = elim (d.on_mpt_get_angle t) as (λ o. ℤ × Option ℤ × ProbeTrace) [
        | none ↦ (err_ioctl, none, t₁)
        | some a ↦ (success, some a.tilt, t₁)
      ] in
      if id == 1 then pan else if id == 2 then tilt else (err_ioctl, none, t)

  -- An angle is set: the result and `*val` after it, for the old angle and the angles to set.
  pub set_angle : (val prev : ℤ) → Angles → ProbeTrace → ℤ × ℤ × ProbeTrace
  set_angle val prev a t =
      if d.on_mpt_set_angle t a
      then (success, val, mpt_set_angle a ∷ t)
      else (err_ioctl, prev, mpt_set_angle a ∷ t)

  -- The result and `*val` after the call. `stale` is the struct of angles before anything is stored in
  -- it, which is used where the driver does not tell its angles.
  pub pwc_set_ctrl : Angles → ℕ → ℤ → ProbeTrace → ℤ × ℤ × ProbeTrace
  unfolding set_angle
  pwc_set_ctrl stale id val t =
      let t₁ = mpt_get_angle ∷ t in
      let reset =
        if d.on_mpt_reset t
        then (success, pos 0, mpt_reset ∷ t)
        else (err_ioctl, pos 0, mpt_reset ∷ t) in
      let pan = elim (d.on_mpt_get_angle t) as (λ o. ℤ × ℤ × ProbeTrace) [
        | none ↦ set_angle val (pos 0) (record stale { pan = val }) t₁
        | some a ↦ set_angle val a.pan (record a { pan = val }) t₁
      ] in
      let tilt = elim (d.on_mpt_get_angle t) as (λ o. ℤ × ℤ × ProbeTrace) [
        | none ↦ set_angle val (pos 0) (record stale { tilt = val }) t₁
        | some a ↦ set_angle val a.tilt (record a { tilt = val }) t₁
      ] in
      if id == 0
      then reset
      else if id == 1
      then pan
      else if id == 2
      then tilt
      else (err_out_of_range, val, t)

  -- The number returned, and the controls written.
  pub pwc_list_ctrl : Bool → ProbeTrace → ℕ × List QueryCtrl × ProbeTrace
  pwc_list_ctrl is_ptz t =
      let reset = private_control pwc_probe_index 0 type_button (pos 0) (pos 0) (pos 0) in
      let t₁ = mpt_get_range ∷ t in
      let motors = elim (d.on_mpt_get_range t) as (λ o. ℕ × List QueryCtrl × ProbeTrace) [
        | none ↦ (1, reset ∷ [], t₁)
        | some r ↦ (
          2,
          reset
              ∷ private_control pwc_probe_index 1 type_integer r.pan_min r.pan_max (pos 1)
              ∷ private_control pwc_probe_index 2 type_integer r.tilt_min r.tilt_max (pos 1)
              ∷ [],
          t₁,
        )
      ] in
      if is_ptz then motors else (0, [], t)
