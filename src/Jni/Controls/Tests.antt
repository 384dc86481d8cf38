-- ===== src/Jni/Controls/Tests.antt =====
-- The instance of the controls' theorem.
use v4l4j.Prelude.{ℕ, ◌≡◌, refl, ◌⊎◌, inl, none, some, [], arith}
use v4l4j.Prelude.Int.{ℤ, pos}
use v4l4j.Errors.{err_ioctl}
use v4l4j.Driver.{Trace, QueryCtrl}
use v4l4j.Samples.{obliging}
use v4l4j.Control.Kinds.{type_integer}
use v4l4j.Control.Value.{Memory, Stored, nothing, set_control_value, v4l2_version}
use v4l4j.Control.Value.Bounds.{InRange}
use v4l4j.Jni.Exceptions.{control, invalid_value}
use v4l4j.Jni.Controls.{do_set_value}
use v4l4j.Jni.Controls.Values.{do_set_value-InRange}

abbrev brightness : QueryCtrl
brightness = record {
  id = 0x980900;
  ctrl_type = type_integer;
  minimum = pos 0;
  maximum = pos 255;
  step = pos 1;
  flags = 0;
  reserved0 = 0;
  reserved1 = 0;
}

abbrev unset : QueryCtrl → Memory → Trace → ℤ × Trace
unset ctrl value t = (err_ioctl, t)

abbrev unread : ℕ → Trace → ℤ × Stored × Trace
unread size t = (err_ioctl, nothing, t)

do_set_value-InRange_example :
    let (result, thrown, t') =
      do_set_value unread
        (set_control_value obliging v4l2_version unset unset brightness)
        (pos 256)
        [] in
    ((¬ InRange brightness (pos 256))
      × (thrown ≡ some invalid_value)
      × (result ≡ pos 0)
      × (t' ≡ []))
    ⊎ (InRange brightness (pos 256)
        × (((thrown ≡ none) × (result ≡ pos 256)) ⊎ ((thrown ≡ some control) × (result ≡ pos 0))))
do_set_value-InRange_example =
    do_set_value-InRange obliging unset unset unread brightness (pos 256) [] (inl refl)
      (omega arith)
