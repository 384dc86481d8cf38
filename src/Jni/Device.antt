-- ===== src/Jni/Device.antt =====
-- The life of a device in src/v4l4j_VideoDevice.c, on top of open_device and close_device of
-- libvideo/libvideo.c, and its translation of control types.
pub mod Lifecycle
mod Tests
use v4l4j.Prelude.{ℕ, ◌+◌, ◌-◌, Bool, true, false, Option, none, some, ◌==◌, ◌||◌, if◌then◌else◌}
use v4l4j.Prelude.Int.{ℤ, eqb_ℤ}
use v4l4j.Errors.{success, err_info_in_use, err_capture_in_use, err_control_in_use}
use v4l4j.Device.{VideoDevice, Held, OpenReply, open_device, close_device}
use v4l4j.Control.Kinds.{
  type_integer, type_boolean, type_menu, type_button, type_integer64, type_string, type_bitmask,
  type_integer_menu,
}
use v4l4j.Jni.Exceptions.{Exception, generic, release, jni}

-- what libvideo holds, and the number of blocks with a struct v4l4j_device
pub record Objects : Type 0 where
  pub held : Held
  pub devices : ℕ

-- doInit: the block is allocated before the device is opened; `none` is the value 0.
unfoldable pub do_init : OpenReply → Objects → Option VideoDevice × Option Exception × Objects
do_init r o =
    let (vdev, held) = open_device r o.held in
    let o₁ : Objects = record { held = held; devices = o.devices + 1 } in
    elim vdev [ none ↦ (none, some generic, o₁) | some v ↦ (some v, none, o₁) ]

-- doRelease: an error other than the three named throws nothing.
unfoldable pub do_release : VideoDevice → Objects → Option Exception × Objects
do_release v o =
    let (ret, held) = close_device v o.held in
    if eqb_ℤ ret success then (none, record { held = held; devices = o.devices - 1 }) else (
      (if eqb_ℤ ret err_capture_in_use
          then some release
          else if eqb_ℤ ret err_info_in_use
          then some release
          else if eqb_ℤ ret err_control_in_use
          then some release
          else none),
      record { held = held; devices = o.devices },
    )

-- The constants of the class V4L4JConstants that a control's type is translated to.
pub data JavaType : Type 0 where
  ctrl_type_button : JavaType
  ctrl_type_switch : JavaType
  ctrl_type_slider : JavaType
  ctrl_type_discrete : JavaType
  ctrl_type_string : JavaType
  ctrl_type_long : JavaType
  ctrl_type_bitmask : JavaType

-- translate_type, where the virtual machine finds the class and its fields; `none` is -1, beside a
-- JNIException.
unfoldable pub translate_type : ℕ → Option JavaType
translate_type t =
    if t == type_button
    then some ctrl_type_button
    else if t == type_boolean
    then some ctrl_type_switch
    else if t == type_integer
    then some ctrl_type_slider
    else if (t == type_menu) || (t == type_integer_menu)
    then some ctrl_type_discrete
    else if t == type_string
    then some ctrl_type_string
    else if t == type_integer64
    then some ctrl_type_long
    else if t == type_bitmask
    then some ctrl_type_bitmask
    else none
