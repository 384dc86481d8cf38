-- ===== src/Capture/Format/Tests.antt =====
-- The image format on small drivers, and the theorems at them.
use v4l4j.Prelude.{true, [], ◌≡◌, refl}
use v4l4j.Driver.{Driver}
use v4l4j.Palettes.{palette_code, get_palette_index}
use v4l4j.Samples.{obliging, camera}
use v4l4j.Capture.Format.{no_palette, set_image_format}

-- libv4lconvert serves RGB24 at 320 by 240 from YUYV (fourcc 0x56595559, index 18).
abbrev converting : Driver
converting = record obliging {
  on_try_format = λ t f. (
    true,
    record f { width = 320; height = 240; sizeimage = 230400 },
    record f { width = 320; height = 240; pixelformat = 0x56595559; sizeimage = 153600 },
  );
  needs_conversion = λ f g. true;
}

set_image_format_converts :
    let c = (set_image_format converting camera no_palette 7 []).1 in
    (c.width ≡ 320) × (c.imagesize ≡ 230400) × (c.convert.src_palette ≡ 18)
unfolding set_image_format palette_code get_palette_index
set_image_format_converts = (refl, refl, refl)
