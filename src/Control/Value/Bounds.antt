-- ===== src/Control/Value/Bounds.antt =====
-- The range check of set_control_value, and what a read returns.
use v4l4j.Prelude.{ℕ, true, false, ◌∷◌, ◌≡◌, ◌≢◌, ◌⊎◌, Bool-cases, inl, inr, arith}
use v4l4j.Prelude.Int.{ℤ, pos, ◌≤ℤ◌, ◌+ℤ◌}
use v4l4j.Errors.{success, err_out_of_range}
use v4l4j.Driver.{Driver, Trace, QueryCtrl, of_int, s_ext_ctrls}
use v4l4j.Control.Kinds.{
  type_integer, type_boolean, type_menu, type_button, type_string, priv_ioctl,
}
use v4l4j.Control.Quirks.{fix_quirky_values}
use v4l4j.Control.Value.{
  Memory, stored32, is_out_of_range, set_control_value, set_control_value_v4l2,
  get_control_value_v4l2, v4l2_version, get_ext_value, ext_value,
}
use v4l4j.Control.Value.Class.{get_control_value_v4l2-eq-get_ext_value, set_control_value_v4l2_lem}

-- the types whose value set_control_value compares with the minimum and the maximum
abbrev pub IsChecked : ℕ → Type 0
IsChecked k = (k ≡ type_integer) ⊎ (k ≡ type_boolean) ⊎ (k ≡ type_menu) ⊎ (k ≡ type_button)

-- The value lies between the control's minimum and maximum.
abbrev pub InRange : QueryCtrl → ℤ → Type 0
InRange ctrl v = (ctrl.minimum ≤ℤ v) × (v ≤ℤ ctrl.maximum)

is_out_of_range-false :
    (ctrl : QueryCtrl) (value : Memory) (size : ℤ)
    → IsChecked ctrl.ctrl_type
    → is_out_of_range ctrl value size ≡ false
    → InRange ctrl value.int32
unfolding is_out_of_range
is_out_of_range-false ctrl value size k h = ground arith

is_out_of_range-true :
    (ctrl : QueryCtrl) (value : Memory) (size : ℤ)
    → IsChecked ctrl.ctrl_type
    → is_out_of_range ctrl value size ≡ true
    → ¬ InRange ctrl value.int32
unfolding is_out_of_range
is_out_of_range-true ctrl value size k h r = ground arith

-- The size of a string lies above the minimum, and at most one above the maximum.
abbrev pub Fits : QueryCtrl → ℤ → Type 0
Fits ctrl size = ¬ (size ≤ℤ ctrl.minimum) × (size ≤ℤ ctrl.maximum +ℤ pos 1)

is_out_of_range-string_false :
    (ctrl : QueryCtrl) (value : Memory) (size : ℤ)
    → ctrl.ctrl_type ≡ type_string
    → is_out_of_range ctrl value size ≡ false
    → Fits ctrl size
unfolding is_out_of_range
is_out_of_range-string_false ctrl value size k h = ground arith

is_out_of_range-string_true :
    (ctrl : QueryCtrl) (value : Memory) (size : ℤ)
    → ctrl.ctrl_type ≡ type_string
    → is_out_of_range ctrl value size ≡ true
    → ¬ Fits ctrl size
unfolding is_out_of_range
is_out_of_range-string_true ctrl value size k h r = ground arith

get_control_value_v4l2-echo :
    (d : Driver) (ctrl : QueryCtrl) (v : ℤ) (t : Trace)
    → IsChecked ctrl.ctrl_type
    → InRange ctrl v
    → let r = d.on_g_ext_ctrls t ctrl.id 0 in
      (r.ret ≡ pos 0) × (r.value ≡ v) → (get_control_value_v4l2 d ctrl 0 t).1 ≡ stored32 v
unfolding get_ext_value fix_quirky_values
get_control_value_v4l2-echo d ctrl v t k i r =
    rw get_control_value_v4l2-eq-get_ext_value (ground arith)

set_control_value_v4l2-checked :
    (d : Driver) (ctrl : QueryCtrl) (value : Memory) (t : Trace)
    → IsChecked ctrl.ctrl_type
    → (d.on_s_ext_ctrls t ctrl.id (of_int value.int32)).ret ≡ pos 0
    → set_control_value_v4l2 d ctrl value t
      ≡ (success, s_ext_ctrls ctrl.id (of_int value.int32) ∷ t)
unfolding ext_value
set_control_value_v4l2-checked d ctrl value t k w =
    ground (arith, set_control_value_v4l2_lem d ctrl value t)

module _ (d : Driver) (set_probe set_v4l1 : QueryCtrl → Memory → Trace → ℤ × Trace)
    (ctrl : QueryCtrl) (value : Memory) (size : ℤ) (t : Trace) where
  -- On a V4L2 device, for a control of the driver's own whose type is integer, Boolean, menu or
  -- button, set_control_value writes a value in the range, and answers one out of the range with
  -- LIBVIDEO_ERR_OUT_OF_RANGE and no call to the driver.
  pub set_control_value-InRange :
      IsChecked ctrl.ctrl_type
      → ctrl.reserved0 ≢ priv_ioctl
      → let result = set_control_value d v4l2_version set_probe set_v4l1 ctrl value size t in
        (InRange ctrl value.int32 × (result ≡ set_control_value_v4l2 d ctrl value t))
        ⊎ (¬ InRange ctrl value.int32 × (result ≡ (err_out_of_range, t)))
  unfolding set_control_value
  set_control_value-InRange k p = elim (Bool-cases (is_out_of_range ctrl value size)) [
    | inl e ↦ inr (is_out_of_range-true ctrl value size k e, rw e)
    | inr e ↦ inl (is_out_of_range-false ctrl value size k e, rw e (ground arith))
  ]

  -- On a V4L2 device, for a string control of the driver's own, set_control_value writes a string
  -- whose size is above the minimum and at most the maximum plus one, and answers any other with
  -- LIBVIDEO_ERR_OUT_OF_RANGE and no call to the driver.
  pub set_control_value-string :
      ctrl.ctrl_type ≡ type_string
      → ctrl.reserved0 ≢ priv_ioctl
      → let result = set_control_value d v4l2_version set_probe set_v4l1 ctrl value size t in
        (Fits ctrl size × (result ≡ set_control_value_v4l2 d ctrl value t))
        ⊎ (¬ Fits ctrl size × (result ≡ (err_out_of_range, t)))
  unfolding set_control_value
  set_control_value-string k p = elim (Bool-cases (is_out_of_range ctrl value size)) [
    | inl e ↦ inr (is_out_of_range-string_true ctrl value size k e, rw e)
    | inr e ↦ inl (is_out_of_range-string_false ctrl value size k e, rw e (ground arith))
  ]

  -- For a driver that takes a value by the extended ioctl and answers an extended read of that
  -- control after the write with the value written: where set_control_value accepts a value of a
  -- checked type, get_control_value_v4l2 then finds this value in its 32 bits.
  pub get_control_value-set_control_value :
      IsChecked ctrl.ctrl_type
      → ctrl.reserved0 ≢ priv_ioctl
      → (d.on_s_ext_ctrls t ctrl.id (of_int value.int32)).ret ≡ pos 0
      → let r = d.on_g_ext_ctrls (s_ext_ctrls ctrl.id (of_int value.int32) ∷ t) ctrl.id 0 in
        (r.ret ≡ pos 0) × (r.value ≡ value.int32)
        → let (ret, t') = set_control_value d v4l2_version set_probe set_v4l1 ctrl value size t in
          ret ≡ success → (get_control_value_v4l2 d ctrl 0 t').1 ≡ stored32 value.int32
  unfolding set_control_value
  get_control_value-set_control_value k p w r h = ground (
    arith,
    set_control_value-InRange k p,
    set_control_value_v4l2-checked d ctrl value t k w,
    get_control_value_v4l2-echo d ctrl value.int32 (s_ext_ctrls ctrl.id (of_int value.int32) ∷ t) k,
  )
