-- ===== src/Jni/Controls/Values.antt =====
-- What src/v4l4j_Control.c promises of a control of a V4L2 device.
use v4l4j.Prelude.{ℕ, ◌≡◌, ◌≢◌, ◌⊎◌, none, some, arith}
use v4l4j.Prelude.Int.{ℤ, pos}
use v4l4j.Driver.{Driver, Trace, QueryCtrl}
use v4l4j.Control.Kinds.{priv_ioctl}
use v4l4j.Control.Value.{Memory, Stored, set_control_value, v4l2_version}
use v4l4j.Control.Value.Bounds.{IsChecked, InRange, set_control_value-InRange}
use v4l4j.Control.Value.Class.{set_control_value_v4l2_lem}
use v4l4j.Jni.Exceptions.{control, invalid_value}
use v4l4j.Jni.Controls.{do_set_value, set_exception, holding}

module _ (d : Driver) (set_probe set_v4l1 : QueryCtrl → Memory → Trace → ℤ × Trace)
    (get_value : ℕ → Trace → ℤ × Stored × Trace) (ctrl : QueryCtrl) (value : ℤ) (t : Trace) where
  -- On a V4L2 device, for a control of the driver's own whose type is integer, Boolean, menu or
  -- button: doSetValue throws InvalidValueException exactly for a value out of the control's range,
  -- and then the driver is not called; for a value in the range it returns the value and throws
  -- nothing, or returns 0 and throws ControlException.
  pub do_set_value-InRange :
      IsChecked ctrl.ctrl_type
      → ctrl.reserved0 ≢ priv_ioctl
      → let (result, thrown, t') =
          do_set_value get_value
            (set_control_value d v4l2_version set_probe set_v4l1 ctrl)
            value
            t in
        ((¬ InRange ctrl value) × (thrown ≡ some invalid_value) × (result ≡ pos 0) × (t' ≡ t))
        ⊎ (InRange ctrl value
            × (((thrown ≡ none) × (result ≡ value)) ⊎ ((thrown ≡ some control) × (result ≡ pos 0))))
  unfolding do_set_value set_exception
  do_set_value-InRange k p = ground (
    arith,
    set_control_value-InRange d set_probe set_v4l1 ctrl (holding value) (pos 0) t k p,
    set_control_value_v4l2_lem d ctrl (holding value) t,
  )
