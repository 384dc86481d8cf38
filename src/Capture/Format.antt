-- ===== src/Capture/Format.antt =====
-- libvideo/v4l2-input.c: the image format (apply_image_format, try_image_format, set_image_format).
pub mod Geometry
mod Tests
use v4l4j.Prelude.{
  ℕ, Bool, true, false, Option, none, some, ◌∷◌, ◌==◌, ◌&&◌, ◌||◌, if◌then◌else◌, not,
}
use v4l4j.Driver.{Driver, Trace, PixFormat, s_fmt, try_format, try_format_alone}
use v4l4j.Capture.Records.{CaptureDevice, ConvertData}
use v4l4j.Palettes.{get_palette_index, palette_code}

-- V4L2_MAX_WIDTH and V4L2_MAX_HEIGHT, used for a width or height of 0
abbrev pub max_size : ℕ
max_size = 4096

-- -1u: no native palette asked for, and the value of a palette index that was not found
abbrev pub no_palette : ℕ
no_palette = 0xffff_ffff

-- (unsigned) of an index that may be -1
pub to_unsigned : Option ℕ → ℕ
to_unsigned none = no_palette
to_unsigned (some i) = i

-- the destination format that try_image_format asks libv4lconvert for
pub requested_format : CaptureDevice → ℕ → PixFormat
requested_format c palette_idx = record {
  width = c.width;
  height = c.height;
  pixelformat = palette_code palette_idx;
  field_order = 0;
  bytesperline = 0;
  sizeimage = 0;
}

pub clamp_to_max : ℕ → ℕ
clamp_to_max size = if size == 0 then max_size else size

-- a width or height of 0 asks for the largest
pub with_size_limits : CaptureDevice → CaptureDevice
unfolding clamp_to_max
with_size_limits c = record c { width = clamp_to_max c.width; height = clamp_to_max c.height }

module _ (d : Driver) where
  -- whether the format was accepted, and the format as the driver adjusted it
  pub apply_image_format : PixFormat → Trace → Bool × PixFormat × Trace
  apply_image_format fmt t = elim (d.on_s_fmt t fmt) [
    | none ↦ (false, fmt, s_fmt fmt ∷ t)
    | some fmt' ↦ (fmt'.pixelformat == fmt.pixelformat, fmt', s_fmt fmt ∷ t)
  ]

  -- the index of the source palette (`none` is -1), the source and the destination format
  pub try_image_format : CaptureDevice → ℕ → Trace → Option ℕ × PixFormat × PixFormat × Trace
  unfolding requested_format
  try_image_format c palette_idx t =
      let want = requested_format c palette_idx in
      let (accepted, dst, src) = d.on_try_format t want in
      (
        (if accepted && (dst.pixelformat == palette_code palette_idx)
            then get_palette_index src.pixelformat
            else none),
        src,
        dst,
        try_format want ∷ t,
      )

  -- The part of set_image_format before the format is applied: the device with its size limits,
  -- the source palette and the two formats, a palette asked for in place of libv4lconvert's.
  pub choose_source :
      CaptureDevice → ℕ → ℕ → Trace → CaptureDevice × ℕ × PixFormat × PixFormat × Trace
  unfolding with_size_limits try_image_format to_unsigned
  choose_source c native output t =
      let c₁ = with_size_limits c in
      let (index, src, dst, t₁) = try_image_format c₁ output t in
      let chosen = to_unsigned index in
      if not (native == no_palette) && not (chosen == native)
      then (c₁, native, record src { pixelformat = palette_code native }, dst, t₁)
      else (c₁, chosen, src, dst, t₁)

  unfoldable pub set_image_format : CaptureDevice → ℕ → ℕ → Trace → Bool × CaptureDevice × Trace
  unfolding choose_source apply_image_format
  set_image_format c native output t =
      let (c₁, src_palette, src, dst, t₁) = choose_source c native output t in
      let test_fmt = d.on_try_format_alone t₁ src in
      let force_native_fmt = not (test_fmt.pixelformat == src.pixelformat) in
      let (applied, src', t₂) = apply_image_format src (try_format_alone src ∷ t₁) in
      let convert : ConvertData = record {
        src_fmt = some src';
        dst_fmt = some dst;
        src_palette = src_palette;
      } in
      let needs = d.needs_conversion src' dst in
      if applied
      then (
        true,
        record c₁ {
          convert = convert;
          palette = output;
          needs_conversion = needs;
          is_native = force_native_fmt || not needs;
          width = dst.width;
          height = dst.height;
          imagesize = if not needs then src'.sizeimage else dst.sizeimage;
        },
        t₂,
      )
      else (false, record c₁ { convert = convert }, t₂)
