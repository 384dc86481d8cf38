-- ===== src/Control/Quirks.antt =====
-- libvideo/v4l2-input.c: fix_quirky_struct, which repairs what a driver says of a control, and
-- fix_quirky_values, which repairs a value that it returns.
pub mod Range
mod Tests
use v4l4j.Prelude.{ℕ, Bool, ◌==◌, ◌||◌, ltb, if◌then◌else◌}
use v4l4j.Prelude.Int.{ℤ, pos, ltb_ℤ, eqb_ℤ}
use v4l4j.Driver.{QueryCtrl}
use v4l4j.Control.Kinds.{
  type_integer, type_boolean, type_menu, type_button, type_integer64, type_bitmask,
  type_integer_menu, u32_of,
}

-- A field is stored only where it differs, which is the same as storing it.
pub fix_quirky_struct : QueryCtrl → QueryCtrl
fix_quirky_struct v =
    let step₁ = if eqb_ℤ v.step (pos 0) then pos 1 else v.step in
    if v.ctrl_type == type_integer
    then (if ltb_ℤ v.maximum v.minimum
        then record v { step = step₁; maximum = v.minimum; minimum = v.maximum }
        else record v { step = step₁ })
    else if (v.ctrl_type == type_menu) || (v.ctrl_type == type_integer_menu)
    then record v { step = step₁ }
    else if v.ctrl_type == type_boolean
    then record v { step = pos 1; minimum = pos 0; maximum = pos 1 }
    else if v.ctrl_type == type_button
    then record v { step = pos 0; minimum = pos 0; maximum = pos 0 }
    else if v.ctrl_type == type_integer64
    then record v { step = pos 1; minimum = pos 0; maximum = pos 0 }
    else if v.ctrl_type == type_bitmask
    then record v { minimum = pos 0 }
    else v

-- the types whose values fix_quirky_values keeps between the minimum and the maximum
abbrev pub is_ranged : ℕ → Bool
is_ranged k =
    (k == type_integer)
    || (k == type_boolean)
    || (k == type_menu)
    || (k == type_button)
    || (k == type_integer_menu)

unfoldable pub fix_quirky_values : QueryCtrl → ℤ → ℤ
fix_quirky_values qc v =
    if is_ranged qc.ctrl_type
    then (if ltb_ℤ v qc.minimum then qc.minimum else if ltb_ℤ qc.maximum v then qc.maximum else v)
    else if qc.ctrl_type == type_bitmask
    then (if ltb (u32_of qc.maximum) (u32_of v) then qc.maximum else v)
    else v
