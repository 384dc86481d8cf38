-- ===== src/Control/Value/Tests.antt =====
-- Reading and writing controls on small drivers, and the theorems at them.
use v4l4j.Prelude.{[], ◌∷◌, ◌≡◌, ◌⊎◌, inl, refl, arith}
use v4l4j.Prelude.Int.{ℤ, pos, negsuc}
use v4l4j.Errors.{success, err_ioctl, err_out_of_range}
use v4l4j.Driver.{Driver, Trace, QueryCtrl, of_int, g_ext_ctrls, s_ext_ctrls, s_ctrl}
use v4l4j.Samples.{obliging}
use v4l4j.Control.Kinds.{type_integer, type_string}
use v4l4j.Control.Value.{
  Memory, stored32, enotty, get_control_value_v4l2, set_control_value_v4l2, is_out_of_range,
  set_control_value, v4l2_version,
}
use v4l4j.Control.Value.Bounds.{
  InRange, set_control_value-InRange, get_control_value-set_control_value,
}

-- the brightness, a control of the user class
abbrev brightness : QueryCtrl
brightness = record {
  id = 0x980900;
  ctrl_type = type_integer;
  minimum = pos 0;
  maximum = pos 255;
  step = pos 1;
  flags = 0;
  reserved0 = 0;
  reserved1 = 0;
}

abbrev label : QueryCtrl
label = record brightness { ctrl_type = type_string; maximum = pos 8 }

abbrev seven : Memory
seven = record { int32 = pos 7; int64 = pos 7; text = 0 }

abbrev too_bright : Memory
too_bright = record seven { int32 = pos 256 }

abbrev unused : QueryCtrl → Memory → Trace → ℤ × Trace
unused ctrl value t = (err_ioctl, t)

-- It has no extended controls.
abbrev old_kernel : Driver
old_kernel = record obliging {
  on_s_ext_ctrls =
      λ t i v. record { ret = negsuc 0; errno = enotty; value = pos 0; value64 = pos 0 };
}

brightness_by_ext :
    (get_control_value_v4l2 obliging brightness 0 []).2 ≡ g_ext_ctrls 0x980900 0 ∷ []
unfolding get_control_value_v4l2
brightness_by_ext = refl

old_kernel_falls_back :
    set_control_value_v4l2 old_kernel brightness seven []
    ≡ (success, s_ctrl 0x980900 (pos 7) ∷ s_ext_ctrls 0x980900 (of_int (pos 7)) ∷ [])
unfolding set_control_value_v4l2
old_kernel_falls_back = refl

set_control_value-InRange_example :
    let result =
      set_control_value obliging v4l2_version unused unused brightness too_bright (pos 4) [] in
    (InRange brightness (pos 256)
      × (result ≡ set_control_value_v4l2 obliging brightness too_bright []))
    ⊎ (¬ InRange brightness (pos 256) × (result ≡ (err_out_of_range, [])))
set_control_value-InRange_example =
    set_control_value-InRange obliging unused unused brightness too_bright (pos 4) [] (inl refl)
      (omega arith)

get_control_value-set_control_value_example :
    (get_control_value_v4l2 obliging brightness 0
      (set_control_value obliging v4l2_version unused unused brightness seven (pos 4) []).1).1
    ≡ stored32 (pos 7)
unfolding set_control_value is_out_of_range set_control_value_v4l2
get_control_value-set_control_value_example =
    get_control_value-set_control_value obliging unused unused brightness seven (pos 4) []
      (inl refl) (omega arith) refl (refl, refl) refl
