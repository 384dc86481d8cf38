-- ===== src/Probes/Quickcam.antt =====
-- libvideo/qc-probe.c: the five private controls of the quickcam driver, and its lookup table.
use v4l4j.Prelude.{
  ℕ, zero, suc, ◌+◌, ◌%◌, Bool, true, false, Option, none, some, List, [], ◌∷◌, ◌==◌, ◌&&◌, ltb,
  if◌then◌else◌,
}
use v4l4j.Prelude.Int.{ℤ, pos, negsuc}
use v4l4j.Errors.{success, err_ioctl}
use v4l4j.Driver.{QueryCtrl}
use v4l4j.Control.Kinds.{type_integer}
use v4l4j.Probes.Driver.{ProbeDriver, ProbeTrace, get_userlut, set_userlut, qc_get, qc_set}
use v4l4j.Probes.Gspca.{private_control}

abbrev pub qc_probe_index : ℕ
qc_probe_index = 2

-- QC_LUT_SIZE and NUM_QC_CTRLS
abbrev pub qc_lut_size : ℕ
qc_lut_size = 768

abbrev pub num_qc_ctrls : ℕ
num_qc_ctrls = 5

-- the elements of the made-up table from `i` on
pub our_lut : ℕ → ℕ → List ℕ
our_lut zero i = []
our_lut (suc rounds) i = (i % 3) ∷ our_lut rounds (i + 1)

-- the comparison of the tables, for the elements of the first one
pub same_lut : List ℕ → List ℕ → Bool
same_lut [] ys = true
same_lut (x ∷ xs) [] = false
same_lut (x ∷ xs) (y ∷ ys) = (x == y) && same_lut xs ys

-- the controls from the id `i` on
qc_controls : ℕ → ℕ → List QueryCtrl
qc_controls zero i = []
qc_controls (suc rounds) i =
    private_control qc_probe_index i type_integer (pos 0) (if i == 2 then pos 5 else pos 1) (pos 1)
    ∷ qc_controls rounds (i + 1)

pub qc_list_ctrl : List QueryCtrl
unfolding qc_controls
qc_list_ctrl = qc_controls num_qc_ctrls 0

module _ (d : ProbeDriver) where
  -- The number of controls, or -1. The driver's own table is put back only once ours has been read.
  pub qc_driver_probe : ProbeTrace → ℤ × ProbeTrace
  unfolding our_lut same_lut
  qc_driver_probe t =
      let ours = our_lut qc_lut_size 0 in
      let t₁ = get_userlut ∷ t in
      let t₂ = set_userlut ours ∷ t₁ in
      let t₃ = get_userlut ∷ t₂ in
      elim (d.on_get_userlut t) [
        | none ↦ (negsuc 0, t₁)
        | some default_lut ↦
            let t₄ = set_userlut default_lut ∷ t₃ in
            let restored =
              if d.on_set_userlut t₃ default_lut then (pos 5, t₄) else (negsuc 0, t₄) in
            let checked = elim (d.on_get_userlut t₂) as (λ o. ℤ × ProbeTrace) [
              | none ↦ (negsuc 0, t₃)
              | some check_lut ↦ if same_lut ours check_lut then restored else (negsuc 0, t₃)
            ] in
            if d.on_set_userlut t₁ ours then checked else (negsuc 0, t₂)
      ]

  pub qc_get_ctrl : ℕ → ProbeTrace → ℤ × Option ℤ × ProbeTrace
  qc_get_ctrl id t =
      let value = elim (d.on_qc_get t id) as (λ o. ℤ × Option ℤ × ProbeTrace) [
        | none ↦ (err_ioctl, none, qc_get id ∷ t)
        | some v ↦ (success, some v, qc_get id ∷ t)
      ] in
      if ltb id num_qc_ctrls then value else (err_ioctl, none, t)

  -- The result, and `*val` after the call: the value before it where the driver refuses the new one.
  pub qc_set_ctrl : ℕ → ℤ → ProbeTrace → ℤ × ℤ × ProbeTrace
  qc_set_ctrl id val t =
      let t₁ = qc_get id ∷ t in
      let t₂ = qc_set id val ∷ t₁ in
      let prev = elim (d.on_qc_get t id) as (λ o. ℤ) [ none ↦ pos 0 | some v ↦ v ] in
      let done = if d.on_qc_set t₁ id val then (success, val, t₂) else (err_ioctl, prev, t₂) in
      if ltb id num_qc_ctrls then done else (err_ioctl, val, t)
