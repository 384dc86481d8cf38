-- ===== src/Control/Value.antt =====
-- Reading and writing a control: get_control_value_v4l2 and set_control_value_v4l2 of
-- libvideo/v4l2-input.c, get_control_value and set_control_value of libvideo/libvideo.c.
pub mod Bounds
pub mod Class
mod Tests
use v4l4j.Prelude.{
  ℕ, ◌+◌, Bool, true, false, Option, none, some, ◌∷◌, ◌==◌, ◌&&◌, ◌||◌, if◌then◌else◌, not,
}
use v4l4j.Prelude.Int.{ℤ, pos, ltb_ℤ, leb_ℤ, eqb_ℤ, ◌+ℤ◌}
use v4l4j.Errors.{success, err_ioctl, err_out_of_range, err_wrong_version}
use v4l4j.Driver.{
  Driver, Trace, QueryCtrl, CtrlReply, ExtValue, of_int, of_int64, of_string, g_ctrl, s_ctrl,
  g_ext_ctrls, s_ext_ctrls,
}
use v4l4j.Control.Kinds.{
  type_integer, type_boolean, type_menu, type_button, type_integer64, type_string, id_class,
  cid_user_class, priv_ioctl, overlay,
}
use v4l4j.Control.Quirks.{fix_quirky_values}

-- What the caller's pointer designates: the memory read as an int32_t, as an int64_t, and the
-- string buffer that stands there.
pub record Memory : Type 0 where
  pub int32 : ℤ
  pub int64 : ℤ
  pub text : ℕ

-- What was stored through the caller's pointer.
pub data Stored : Type 0 where
  nothing : Stored
  stored32 : ℤ → Stored
  stored64 : ℤ → Stored
  stored_text : Stored

-- ENOTTY
abbrev pub enotty : ℕ
enotty = 25

is_zero : ℤ → Bool
is_zero r = eqb_ℤ r (pos 0)

-- what a successful read stores, by the control's type
stored_of : QueryCtrl → ℤ → ℤ → Stored
stored_of qctrl value value64 =
    if qctrl.ctrl_type == type_integer64
    then stored64 value64
    else if not (qctrl.ctrl_type == type_string)
    then stored32 (fix_quirky_values qctrl value)
    else stored_text

-- the value handed to the extended ioctl, by the control's type
pub ext_value : QueryCtrl → Memory → ExtValue
ext_value qctrl val =
    if qctrl.ctrl_type == type_string
    then of_string val.text
    else if qctrl.ctrl_type == type_integer64
    then of_int64 val.int64
    else of_int val.int32

module _ (d : Driver) where
  -- The branch of get_control_value_v4l2 for the user class.
  get_user_value : QueryCtrl → Trace → ℤ × Stored × Trace
  unfolding is_zero
  get_user_value qctrl t =
      let r = d.on_g_ctrl t qctrl.id in
      (
        r.ret,
        (if is_zero r.ret then stored32 (fix_quirky_values qctrl r.value) else nothing),
        g_ctrl qctrl.id ∷ t,
      )

  -- The branch for the other classes: the extended ioctl, then g_ctrl if it fails with ENOTTY.
  pub get_ext_value : QueryCtrl → ℕ → Trace → ℤ × Stored × Trace
  unfolding is_zero stored_of
  get_ext_value qctrl size t =
      let asked = if qctrl.ctrl_type == type_string then size else 0 in
      let r = d.on_g_ext_ctrls t qctrl.id asked in
      let t₁ = g_ext_ctrls qctrl.id asked ∷ t in
      let r' = d.on_g_ctrl t₁ qctrl.id in
      if is_zero r.ret
      then (success, stored_of qctrl r.value r.value64, t₁)
      else if r.errno == enotty
      then (if is_zero r'.ret
          then (
            success,
            stored_of qctrl r'.value (overlay r.value64 r'.value),
            g_ctrl qctrl.id ∷ t₁,
          )
          else (err_ioctl, nothing, g_ctrl qctrl.id ∷ t₁))
      else (err_ioctl, nothing, t₁)

  pub get_control_value_v4l2 : QueryCtrl → ℕ → Trace → ℤ × Stored × Trace
  unfolding get_user_value get_ext_value
  get_control_value_v4l2 qctrl size t =
      if id_class qctrl.id == cid_user_class
      then get_user_value qctrl t
      else get_ext_value qctrl size t

  set_user_value : QueryCtrl → Memory → Trace → ℤ × Trace
  unfolding is_zero
  set_user_value qctrl val t =
      let t₁ = s_ctrl qctrl.id val.int32 ∷ t in
      if is_zero (d.on_s_ctrl t qctrl.id val.int32).ret then (success, t₁) else (err_ioctl, t₁)

  set_ext_value : QueryCtrl → Memory → Trace → ℤ × Trace
  unfolding is_zero ext_value
  set_ext_value qctrl val t =
      let v = ext_value qctrl val in
      let r = d.on_s_ext_ctrls t qctrl.id v in
      let t₁ = s_ext_ctrls qctrl.id v ∷ t in
      let t₂ = s_ctrl qctrl.id val.int32 ∷ t₁ in
      if is_zero r.ret
      then (success, t₁)
      else if r.errno == enotty
      then (if is_zero (d.on_s_ctrl t₁ qctrl.id val.int32).ret
          then (success, t₂)
          else (err_ioctl, t₂))
      else (err_ioctl, t₁)

  pub set_control_value_v4l2 : QueryCtrl → Memory → Trace → ℤ × Trace
  unfolding set_user_value set_ext_value
  set_control_value_v4l2 qctrl val t =
      if id_class qctrl.id == cid_user_class
      then set_user_value qctrl val t
      else set_ext_value qctrl val t

-- V4L1_VERSION and V4L2_VERSION
abbrev pub v4l1_version : ℕ
v4l1_version = 1

abbrev pub v4l2_version : ℕ
v4l2_version = 2

-- The first test of set_control_value: whether the value or the string's size is out of bounds.
pub is_out_of_range : QueryCtrl → Memory → ℤ → Bool
is_out_of_range ctrl value size =
    if (ctrl.ctrl_type == type_integer)
      || (ctrl.ctrl_type == type_boolean)
      || (ctrl.ctrl_type == type_menu)
      || (ctrl.ctrl_type == type_button)
    then ltb_ℤ value.int32 ctrl.minimum || ltb_ℤ ctrl.maximum value.int32
    else if ctrl.ctrl_type == type_string
    then leb_ℤ size ctrl.minimum || ltb_ℤ (ctrl.maximum +ℤ pos 1) size
    else false

-- The driver probes' and V4L1's functions are arguments: they run other code on the same device.
module _ (d : Driver) (version : ℕ) where
  pub set_control_value :
      (QueryCtrl → Memory → Trace → ℤ × Trace)
      → (QueryCtrl → Memory → Trace → ℤ × Trace)
      → QueryCtrl
      → Memory
      → ℤ
      → Trace
      → ℤ × Trace
  set_control_value set_probe set_v4l1 ctrl value size t =
      if is_out_of_range ctrl value size
      then (err_out_of_range, t)
      else if ctrl.reserved0 == priv_ioctl
      then set_probe ctrl value t
      else if version == v4l2_version
      then set_control_value_v4l2 d ctrl value t
      else if version == v4l1_version
      then set_v4l1 ctrl value t
      else (err_wrong_version, t)

  pub get_control_value :
      (QueryCtrl → Trace → ℤ × Stored × Trace)
      → (QueryCtrl → Trace → ℤ × Stored × Trace)
      → QueryCtrl
      → ℕ
      → Trace
      → ℤ × Stored × Trace
  get_control_value get_probe get_v4l1 ctrl size t =
      if ctrl.reserved0 == priv_ioctl
      then get_probe ctrl t
      else if version == v4l2_version
      then get_control_value_v4l2 d ctrl size t
      else if version == v4l1_version
      then get_v4l1 ctrl t
      else (err_wrong_version, nothing, t)
