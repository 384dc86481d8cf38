-- ===== src/Control/Quirks/Tests.antt =====
-- The repairs on broken controls, and the theorems at them.
use v4l4j.Prelude.{◌≡◌, refl, arith}
use v4l4j.Prelude.Int.{pos, negsuc}
use v4l4j.Driver.{QueryCtrl}
use v4l4j.Control.Kinds.{type_integer, type_bitmask}
use v4l4j.Control.Quirks.{fix_quirky_struct, fix_quirky_values}
use v4l4j.Control.Quirks.Range.{IsSane, fix_quirky_struct-IsSane}

-- an integer control with its limits swapped and no step
abbrev swapped : QueryCtrl
swapped = record {
  id = 0x980900;
  ctrl_type = type_integer;
  minimum = pos 10;
  maximum = negsuc 9;
  step = pos 0;
  flags = 0;
  reserved0 = 0;
  reserved1 = 0;
}

abbrev in_order : QueryCtrl
in_order = record swapped { minimum = negsuc 9; maximum = pos 10; step = pos 1 }

abbrev mask : QueryCtrl
mask = record in_order { ctrl_type = type_bitmask; minimum = pos 0; maximum = pos 15 }

fix_quirky_struct_swaps : fix_quirky_struct swapped ≡ in_order
unfolding fix_quirky_struct
fix_quirky_struct_swaps = refl

-- -1 is a large unsigned number.
fix_quirky_values-mask : fix_quirky_values mask (negsuc 0) ≡ pos 15
unfolding fix_quirky_values
fix_quirky_values-mask = refl

fix_quirky_struct-IsSane_example : IsSane (fix_quirky_struct swapped)
fix_quirky_struct-IsSane_example = fix_quirky_struct-IsSane swapped

in_order-IsSane : IsSane in_order
in_order-IsSane = ground arith
