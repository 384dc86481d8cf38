-- ===== src/Jni/Conversion.antt =====
-- The choice of formats and converters of src/v4l4j_FrameGrabber.c: get_buffer_length,
-- init_format_converter, release_format_converter and init_capture_format.
pub mod Sizes
pub mod Balance
use v4l4j.Prelude.{
  ℕ, ◌+◌, ◌*◌, ◌/◌, ◌%◌, Bool, true, false, ◌&&◌, ◌||◌, Option, none, some, ◌==◌, if◌then◌else◌,
  not,
}
use v4l4j.Prelude.Int.{ℤ, pos, negsuc, eqb_ℤ}
use v4l4j.Capture.Records.{CaptureDevice}
use v4l4j.Capture.Format.{no_palette}
use v4l4j.Jni.State.{V4l4jDevice, xfree}
use v4l4j.Jni.Compressor.{
  init_jpeg_compressor, destroy_jpeg_compressor, is_yuv, bgr24, rgb24, yuv420, yvu420,
}

-- enum output_format (src/common.h)
abbrev pub output_raw : ℕ
output_raw = 0

abbrev pub output_jpg : ℕ
output_jpg = 1

abbrev pub output_rgb24 : ℕ
output_rgb24 = 2

abbrev pub output_bgr24 : ℕ
output_bgr24 = 3

abbrev pub output_yuv420 : ℕ
output_yuv420 = 4

abbrev pub output_yvu420 : ℕ
output_yvu420 = 5

-- w * h * 3 in int
unfoldable pub rgb_size : CaptureDevice → ℕ
rgb_size c = (c.width * c.height * 3) % 4_294_967_296

unfoldable pub get_buffer_length : CaptureDevice → V4l4jDevice → ℕ
unfolding rgb_size
get_buffer_length c d =
    if (d.output_fmt == output_raw) || (d.output_fmt == output_jpg)
    then c.imagesize
    else if (d.output_fmt == output_rgb24) || (d.output_fmt == output_bgr24)
    then rgb_size c
    else if (d.output_fmt == output_yuv420) || (d.output_fmt == output_yvu420)
    then rgb_size c / 2
    else 0

-- The size that the encoders of src/jpeg.c give the compressor for its output, in
-- destmgr->free_in_buffer.
pub free_in_buffer : CaptureDevice → ℕ
unfolding rgb_size
free_in_buffer c = if is_yuv c.palette && not (c.palette == yuv420) then c.imagesize else rgb_size c

unfoldable pub init_format_converter : CaptureDevice → V4l4jDevice → ℤ × V4l4jDevice
init_format_converter c d =
    let (ret, d₁) =
      if d.output_fmt == output_jpg then init_jpeg_compressor c (pos 80) d else (pos 0, d) in
    if d.need_conv
    then (
      ret,
      (if not c.is_native
          then record d₁ { double_conversion_buffer = some c.imagesize; blocks = d₁.blocks + 1 }
          else d₁),
    )
    else (pos 0, d)

pub release_format_converter : CaptureDevice → V4l4jDevice → V4l4jDevice
unfolding xfree
release_format_converter c d =
    let d₁ = if d.output_fmt == output_jpg then destroy_jpeg_compressor c d else d in
    if d.need_conv
    then (if not c.is_native
        then record d₁ {
          double_conversion_buffer = none;
          blocks = xfree d₁.double_conversion_buffer d₁.blocks;
        }
        else d₁)
    else d

-- What init_capture_format sets: the result, the source and destination formats, need_conv.
pub record FormatChoice : Type 0 where
  pub ret : ℤ
  pub src_fmt : ℕ
  pub dest_fmt : Option ℕ
  pub need_conv : Bool

-- `before` is the flag's value before the call. The destination is not set for an unknown output
-- format.
unfoldable pub init_capture_format : ℕ → ℕ → Bool → FormatChoice
init_capture_format fg_out_fmt src_fmt before =
    if fg_out_fmt == output_jpg
    then record { ret = pos 0; src_fmt = no_palette; dest_fmt = some src_fmt; need_conv = true }
    else if fg_out_fmt == output_rgb24
    then record { ret = pos 0; src_fmt = src_fmt; dest_fmt = some rgb24; need_conv = false }
    else if fg_out_fmt == output_raw
    then record { ret = pos 0; src_fmt = no_palette; dest_fmt = some src_fmt; need_conv = false }
    else if fg_out_fmt == output_bgr24
    then record { ret = pos 0; src_fmt = src_fmt; dest_fmt = some bgr24; need_conv = false }
    else if fg_out_fmt == output_yuv420
    then record { ret = pos 0; src_fmt = src_fmt; dest_fmt = some yuv420; need_conv = false }
    else if fg_out_fmt == output_yvu420
    then record { ret = pos 0; src_fmt = src_fmt; dest_fmt = some yvu420; need_conv = false }
    else record { ret = negsuc 0; src_fmt = src_fmt; dest_fmt = none; need_conv = before }
