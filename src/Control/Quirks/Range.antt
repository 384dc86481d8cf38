-- ===== src/Control/Quirks/Range.antt =====
-- The state that fix_quirky_struct brings a control to, and the range of fix_quirky_values.
use v4l4j.Prelude.{◌≤◌, true, ◌≡◌, ◌≢◌, ◌⊎◌, arith}
use v4l4j.Prelude.Int.{ℤ, pos, ◌≤ℤ◌}
use v4l4j.Driver.{QueryCtrl}
use v4l4j.Control.Kinds.{
  type_integer, type_boolean, type_menu, type_button, type_integer64, type_bitmask,
  type_integer_menu, u32_of,
}
use v4l4j.Control.Quirks.{fix_quirky_struct, fix_quirky_values, is_ranged}

-- What the rest of the library relies on, for each type of control.
pub record IsSane (v : QueryCtrl) : Type 0 where
  pub integer : v.ctrl_type ≡ type_integer → (v.minimum ≤ℤ v.maximum) × (v.step ≢ pos 0)
  pub menu : v.ctrl_type ≡ type_menu → v.step ≢ pos 0
  pub integer_menu : v.ctrl_type ≡ type_integer_menu → v.step ≢ pos 0
  pub boolean :
      v.ctrl_type ≡ type_boolean → (v.minimum ≡ pos 0) × (v.maximum ≡ pos 1) × (v.step ≡ pos 1)
  pub button :
      v.ctrl_type ≡ type_button → (v.minimum ≡ pos 0) × (v.maximum ≡ pos 0) × (v.step ≡ pos 0)
  pub integer64 :
      v.ctrl_type ≡ type_integer64 → (v.minimum ≡ pos 0) × (v.maximum ≡ pos 0) × (v.step ≡ pos 1)
  pub bitmask : v.ctrl_type ≡ type_bitmask → v.minimum ≡ pos 0

-- fix_quirky_struct makes every control sane.
pub fix_quirky_struct-IsSane : (v : QueryCtrl) → IsSane (fix_quirky_struct v)
unfolding fix_quirky_struct
fix_quirky_struct-IsSane v = ground arith

-- fix_quirky_struct leaves a sane control as it is.
pub fix_quirky_struct_of_IsSane : (v : QueryCtrl) → IsSane v → fix_quirky_struct v ≡ v
unfolding fix_quirky_struct
fix_quirky_struct_of_IsSane v s = ground arith

-- A value of a control whose type has a range comes out between the minimum and the maximum, given
-- that these are in order, and a value in the range comes out as it was.
pub fix_quirky_values_bounds :
    (qc : QueryCtrl) (v : ℤ)
    → is_ranged qc.ctrl_type ≡ true
    → qc.minimum ≤ℤ qc.maximum
    → (qc.minimum ≤ℤ fix_quirky_values qc v)
      × (fix_quirky_values qc v ≤ℤ qc.maximum)
      × (qc.minimum ≤ℤ v → v ≤ℤ qc.maximum → fix_quirky_values qc v ≡ v)
unfolding fix_quirky_values
fix_quirky_values_bounds qc v r h = ground arith

-- A bitmask's value, read as unsigned, comes out at most its maximum, and one that is at most the
-- maximum comes out as it was.
pub fix_quirky_values-bitmask :
    (qc : QueryCtrl) (v : ℤ)
    → qc.ctrl_type ≡ type_bitmask
    → (u32_of (fix_quirky_values qc v) ≤ u32_of qc.maximum)
      × (u32_of v ≤ u32_of qc.maximum → fix_quirky_values qc v ≡ v)
unfolding fix_quirky_values
fix_quirky_values-bitmask qc v r = ground arith

-- Whatever a driver says of an integer, Boolean or button control and of its value, after both
-- repairs the value lies between the minimum and the maximum.
pub fix_quirky_values-fix_quirky_struct :
    (qc : QueryCtrl) (v : ℤ)
    → (qc.ctrl_type ≡ type_integer) ⊎ (qc.ctrl_type ≡ type_boolean) ⊎ (qc.ctrl_type ≡ type_button)
    → let fixed = fix_quirky_struct qc in
      (fixed.minimum ≤ℤ fix_quirky_values fixed v) × (fix_quirky_values fixed v ≤ℤ fixed.maximum)
unfolding fix_quirky_values fix_quirky_struct
fix_quirky_values-fix_quirky_struct qc v k = ground arith
