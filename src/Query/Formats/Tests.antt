-- ===== src/Query/Formats/Tests.antt =====
-- The formats of a small camera, and the theorems at it.
use v4l4j.Prelude.{ℕ, true, false, none, some, [], ◌∷◌, ◌≡◌, ◌==◌, refl, get_elem?, if◌then◌else◌}
use v4l4j.Prelude.Int.{pos, negsuc}
use v4l4j.Driver.{Driver, Trace, one_size}
use v4l4j.Samples.{obliging}
use v4l4j.Palettes.{find_v4l2_palette, palette_code}
use v4l4j.Query.Sizes.{no_sizes}
use v4l4j.Query.Intervals.Termination.{EndsAt}
use v4l4j.Query.Formats.{PaletteInfo, add_supported_palette}
use v4l4j.Query.Formats.Described.{Describes, add_supported_palette-Describes}

-- V4L2_PIX_FMT_YUYV and V4L2_PIX_FMT_RGB24
abbrev yuyv_code : ℕ
yuyv_code = 0x5659_5559

abbrev rgb24_code : ℕ
rgb24_code = 0x3342_4752

-- It captures YUYV at one size; libv4lconvert makes RGB24 of it.
abbrev small_camera : Driver
small_camera = record obliging {
  on_enum_fmt = λ t i. get_elem? (yuyv_code ∷ rgb24_code ∷ []) i;
  on_enum_framesizes = λ t f i. if i == 0 then some (one_size 320 240) else none;
  on_try_format = λ t f. (true, f, record f { pixelformat = yuyv_code });
  needs_conversion = λ src dst. if src.pixelformat == dst.pixelformat then false else true;
}

small_camera-EndsAt : EndsAt small_camera 1
small_camera-EndsAt = record { intervals = λ t f w h. refl; sizes = λ t f. refl }

-- RGB24 is row 7 of the table, YUYV row 18.
abbrev from_yuyv : PaletteInfo
from_yuyv = record { index = 7; raw_palettes = pos 18 ∷ negsuc 0 ∷ []; sizes = no_sizes }

-- the calls of add_supported_palette
abbrev calls : Trace
calls = elim (add_supported_palette small_camera 3 7 []) [ none ↦ [] | some (b, p, t) ↦ t ]

rgb24_is_converted : add_supported_palette small_camera 3 7 [] ≡ some (true, from_yuyv, calls)
unfolding add_supported_palette find_v4l2_palette palette_code
rgb24_is_converted = refl

add_supported_palette-Describes_example : Describes small_camera 3 7 [] from_yuyv calls
add_supported_palette-Describes_example =
    add_supported_palette-Describes small_camera 3 7 [] calls from_yuyv rgb24_is_converted
