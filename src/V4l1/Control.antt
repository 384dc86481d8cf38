-- ===== src/V4l1/Control.antt =====
-- libvideo/v4l1-input.c: the four controls of V4L1, which are fields of the driver's picture
-- (count_v4l1_controls, create_v4l1_controls, get_control_value_v4l1, set_control_value_v4l1).
pub mod Registers
mod Tests
use v4l4j.Prelude.{
  ℕ, zero, suc, Bool, true, false, Option, none, some, List, [], ◌∷◌, ◌==◌, if◌then◌else◌,
}
use v4l4j.Prelude.Int.{ℤ, pos}
use v4l4j.Errors.{success, err_ioctl}
use v4l4j.Driver.{QueryCtrl}
use v4l4j.Control.Kinds.{type_integer}
use v4l4j.V4l1.Driver.{V4l1Driver, V4l1Trace, Picture, gpict, spict}
use v4l4j.V4l1.Capture.{u16_of_int}

-- V4L2_CID_BRIGHTNESS, V4L2_CID_CONTRAST, V4L2_CID_SATURATION and V4L2_CID_HUE
abbrev pub cid_brightness : ℕ
cid_brightness = 0x980900

abbrev pub cid_contrast : ℕ
cid_contrast = 0x980901

abbrev pub cid_saturation : ℕ
cid_saturation = 0x980902

abbrev pub cid_hue : ℕ
cid_hue = 0x980903

-- a field of the picture that is a control
pub data Register : Type 0 where
  brightness : Register
  hue : Register
  colour : Register
  contrast : Register

-- the cases of the two functions on controls
pub register_of : ℕ → Option Register
register_of id =
    if id == cid_brightness
    then some brightness
    else if id == cid_hue
    then some hue
    else if id == cid_saturation
    then some colour
    else if id == cid_contrast
    then some contrast
    else none

unfoldable pub value_of : Register → Picture → ℕ
value_of brightness p = p.brightness
value_of hue p = p.hue
value_of colour p = p.colour
value_of contrast p = p.contrast

pub with_value : Register → ℕ → Picture → Picture
with_value brightness n p = record p { brightness = n }
with_value hue n p = record p { hue = n }
with_value colour n p = record p { colour = n }
with_value contrast n p = record p { contrast = n }

pub count_v4l1_controls : ℕ
count_v4l1_controls = 4

-- a made-up V4L2 control; the fields that are not set are 0, as allocated
pub made_up_control : ℕ → QueryCtrl
made_up_control id = record {
  id = id;
  ctrl_type = type_integer;
  minimum = pos 0;
  maximum = pos 65535;
  step = pos 1;
  flags = 0;
  reserved0 = 0;
  reserved1 = 0;
}

-- The controls with some ids, as long as there is room for one more.
create_next : List ℕ → ℕ → List QueryCtrl
unfolding made_up_control
create_next [] room = []
create_next (id ∷ ids) zero = []
create_next (id ∷ ids) (suc room) = made_up_control id ∷ create_next ids room

-- The elements filled; the result is their number.
pub create_v4l1_controls : ℕ → List QueryCtrl
unfolding create_next
create_v4l1_controls max =
    create_next (cid_brightness ∷ cid_hue ∷ cid_saturation ∷ cid_contrast ∷ []) max

module _ (d : V4l1Driver) where
  -- the result, and `*val` after the call
  pub get_control_value_v4l1 : ℕ → ℤ → V4l1Trace → ℤ × ℤ × V4l1Trace
  unfolding register_of value_of
  get_control_value_v4l1 id val t = elim (d.on_gpict t) [
    | none ↦ (err_ioctl, val, gpict ∷ t)
    | some pict ↦ elim (register_of id) [
      | none ↦ (err_ioctl, val, gpict ∷ t)
      | some r ↦ (success, pos (value_of r pict), gpict ∷ t)
    ]
  ]

  -- the result, and `*v` after the call: the value before it, where the driver refuses the new one
  pub set_control_value_v4l1 : ℕ → ℤ → V4l1Trace → ℤ × ℤ × V4l1Trace
  unfolding register_of value_of with_value
  set_control_value_v4l1 id v t = elim (d.on_gpict t) [
    | none ↦ (err_ioctl, v, gpict ∷ t)
    | some pict ↦ elim (register_of id) [
      | none ↦ (err_ioctl, v, gpict ∷ t)
      | some r ↦
          let t₁ = gpict ∷ t in
          let changed = with_value r (u16_of_int v) pict in
          if d.on_spict t₁ changed
          then (success, v, spict changed ∷ t₁)
          else (err_ioctl, pos (value_of r pict), spict changed ∷ t₁)
    ]
  ]
