-- ===== src/Capture/Format/Geometry.antt =====
-- What set_image_format (libvideo/v4l2-input.c) leaves in the device.
use v4l4j.Prelude.{
  ℕ, ◌<◌, true, false, Option, none, some, ◌∷◌, ◌≡◌, ◌≢◌, ◌⊎◌, refl, is_some, arith,
}
use v4l4j.Driver.{Driver, Trace, PixFormat, s_fmt, try_format_alone}
use v4l4j.Palettes.{palette_code}
use v4l4j.Palettes.Lookup.{palette_code-get_palette_index}
use v4l4j.Palettes.Table.{nb_supported_palettes}
use v4l4j.Capture.Records.{CaptureDevice}
use v4l4j.Capture.Format.{
  no_palette, requested_format, try_image_format, with_size_limits, choose_source,
  apply_image_format, set_image_format,
}

-- The latest call of the trace set a format of this pixel format, and the driver answered `src`.
abbrev pub Applied : Driver → PixFormat → Trace → Type 0
Applied d src (s_fmt asked ∷ t) =
    (d.on_s_fmt t asked ≡ some src) × (src.pixelformat ≡ asked.pixelformat)
Applied d src _ = ⊥

-- The device's fields agree with its two formats.
pub record IsConsistent (d : Driver) (c : CaptureDevice) (src dst : PixFormat) : Type 0 where
  pub source : c.convert.src_fmt ≡ some src
  pub destination : c.convert.dst_fmt ≡ some dst
  pub frame_width : c.width ≡ dst.width
  pub frame_height : c.height ≡ dst.height
  pub conversion : c.needs_conversion ≡ d.needs_conversion src dst
  pub native_image :
      c.needs_conversion ≡ false → (c.is_native ≡ true) × (c.imagesize ≡ src.sizeimage)
  pub converted_image : c.needs_conversion ≡ true → c.imagesize ≡ dst.sizeimage

palette_code-try_image_format :
    (d : Driver) (c : CaptureDevice) (output i : ℕ) (t : Trace)
    → (try_image_format d c output t).0 ≡ some i
    → palette_code i ≡ (try_image_format d c output t).1.pixelformat
unfolding try_image_format
palette_code-try_image_format d c output i t h =
    let (accepted, dst, src) = d.on_try_format t (requested_format c output) in
    ground (arith, palette_code-get_palette_index src.pixelformat i)

-- A native palette of the table was asked for, or none was and libv4lconvert serves the request.
abbrev pub IsServed : Driver → CaptureDevice → ℕ → ℕ → Trace → Type 0
IsServed d c native output t =
    (native < nb_supported_palettes)
    ⊎ ((native ≡ no_palette)
        × (is_some (try_image_format d (with_size_limits c) output t).0 ≡ true))

palette_code-choose_source :
    (d : Driver) (c : CaptureDevice) (native output : ℕ) (t : Trace) (o : Option ℕ)
    → (try_image_format d (with_size_limits c) output t).0 ≡ o
    → IsServed d c native output t
    → let (c₁, src_palette, src, dst, t₁) = choose_source d c native output t in
      (palette_code src_palette ≡ src.pixelformat) × (native ≢ no_palette → src_palette ≡ native)
unfolding choose_source
palette_code-choose_source d c native output t none e k = ground arith
palette_code-choose_source d c native output t (some i) e k =
    ground (arith, palette_code-try_image_format d (with_size_limits c) output i t)

module _ (d : Driver) (c : CaptureDevice) (native output : ℕ) (t : Trace) where
  -- Where set_image_format applied a format, and libv4lconvert could serve the request or a native
  -- palette was asked for, the source palette recorded is an index of the table whose code was the
  -- one given to the driver; it is the native palette where one was asked for.
  pub set_image_format-src_palette :
      (set_image_format d c native output t).0 ≡ true
      → IsServed d c native output t
      → let (ok, c', t') = set_image_format d c native output t in
        (src : PixFormat) × Applied d src t'
        × (palette_code c'.convert.src_palette ≡ src.pixelformat)
        × ((native ≢ no_palette) → c'.convert.src_palette ≡ native)
  unfolding set_image_format
  set_image_format-src_palette h k =
      let (c₁, src_palette, src, dst, t₁) = choose_source d c native output t in
      let src' = (apply_image_format d src (try_format_alone src ∷ t₁)).1 in
      let index = (try_image_format d (with_size_limits c) output t).0 in
      let code = palette_code-choose_source d c native output t index refl k in
      (src', ground arith, ground (arith, code), ground (arith, code))

  -- Where no native palette is asked for and libv4lconvert cannot serve the request, the source
  -- palette recorded is 0xffffffff, which is no index of the table, whatever the driver answers.
  pub set_image_format-unserved :
      native ≡ no_palette
      → (try_image_format d (with_size_limits c) output t).0 ≡ none
      → (set_image_format d c native output t).1.convert.src_palette ≡ no_palette
  unfolding set_image_format
  set_image_format-unserved n e = ground arith
