-- ===== src/Query/Formats.antt =====
-- libvideo/v4l2-query.c: the image formats of a device, with the raw formats that converted ones are
-- made from (try_format, add_raw_format, has_raw_format, get_current_resolution,
-- add_supported_palette, check_palettes_v4l2).
pub mod Rows
pub mod Raw
pub mod Described
pub mod Termination
pub mod Listing
mod Tests
use v4l4j.Prelude.{
  ℕ, zero, suc, ◌+◌, Bool, true, false, Option, none, some, List, [], ◌∷◌, ◌++◌, ◌==◌, ◌&&◌, ◌||◌,
  not, length, if◌then◌else◌,
}
use v4l4j.Prelude.Int.{ℤ, pos, negsuc, eqb_ℤ}
use v4l4j.Errors.{err_ioctl}
use v4l4j.Driver.{
  Driver, Trace, PixFormat, SizeReply, one_size, size_range, g_fmt, try_format, enum_fmt,
  enum_framesizes,
}
use v4l4j.Palettes.{find_v4l2_palette, palette_code}
use v4l4j.Query.Sizes.{Sizes, no_sizes, lookup_frame_sizes}

-- struct palette_info; `raw_palettes` is empty for NULL.
pub record PaletteInfo : Type 0 where
  pub index : ℕ
  pub raw_palettes : List ℤ
  pub sizes : Sizes

-- the destination format that try_format asks libv4lconvert for
pub wanted_format : ℕ → ℕ → ℕ → PixFormat
wanted_format index width height = record {
  width = width;
  height = height;
  pixelformat = palette_code index;
  field_order = 0;
  bytesperline = 0;
  sizeimage = 0;
}

-- among the elements of the array of raw formats
pub has_raw_format : List ℤ → ℕ → Bool
has_raw_format [] fmt = false
has_raw_format (x ∷ xs) fmt = eqb_ℤ x (pos fmt) || has_raw_format xs fmt

pub is_zero : ℕ → Bool
is_zero zero = true
is_zero (suc n) = false

module _ (d : Driver) where
  -- whether the call succeeded, the destination and the source format
  pub try_format_query : ℕ → ℕ → ℕ → Trace → (Bool × PixFormat × PixFormat) × Trace
  unfolding wanted_format
  try_format_query index width height t = (
    d.on_try_format t (wanted_format index width height),
    try_format (wanted_format index width height) ∷ t,
  )

  pub get_current_resolution : Trace → (ℕ × ℕ) × Trace
  get_current_resolution t =
      (elim (d.on_g_fmt t) [ none ↦ (640, 480) | some size ↦ size ], g_fmt ∷ t)

  -- The result and the palette; `size` is the length of `raw_palettes`.
  pub add_raw_format : ℕ → ℕ → ℕ → PaletteInfo → ℕ → Trace → Option (Bool × PaletteInfo × Trace)
  unfolding try_format_query
  add_raw_format fuel width height p fmt t =
      let ((accepted, dst, src), t₁) = try_format_query fmt width height t in
      let sizes = lookup_frame_sizes d (palette_code fmt) fuel t₁ in
      if dst.pixelformat == palette_code fmt
      then some (true, record p { raw_palettes = p.raw_palettes ++ pos fmt ∷ [] }, t₁)
      else if is_zero (length p.raw_palettes)
      then elim sizes [
        | none ↦ none
        | some (s, t₂) ↦ some (false, record p { raw_palettes = []; sizes = s }, t₂)
      ]
      else some (false, p, t₁)

  -- The end of the list: -1.
  pub end_raw_formats : PaletteInfo → PaletteInfo
  end_raw_formats p = record p { raw_palettes = p.raw_palettes ++ negsuc 0 ∷ [] }

  -- One of the other image sizes: false where the source format is in no row of the table.
  pub add_source : ℕ → ℕ → ℕ → ℕ → PaletteInfo → Trace → Option (Bool × PaletteInfo × Trace)
  unfolding add_raw_format has_raw_format
  add_source fuel fmt width height p t =
      let ((accepted, dst, src), t₁) = try_format_query fmt width height t in
      elim (find_v4l2_palette src.pixelformat) [
        | none ↦ some (false, p, t₁)
        | some src_palette ↦
            let added = add_raw_format fuel width height p src_palette t₁ in
            if d.needs_conversion src dst && not (has_raw_format p.raw_palettes src_palette)
            then elim added [ none ↦ none | some (done, p₁, t₂) ↦ some (true, p₁, t₂) ]
            else some (true, p, t₁)
      ]

  -- The loop over the discrete sizes of the format with the code `dst_code`; a range ends it.
  pub add_other_sources :
      ℕ → ℕ → ℕ → ℕ → ℕ → PaletteInfo → Trace → Option (Bool × PaletteInfo × Trace)
  unfolding add_source
  add_other_sources intv_fuel zero fmt dst_code index p t = none
  add_other_sources intv_fuel (suc fuel) fmt dst_code index p t =
      let t₁ = enum_framesizes dst_code index ∷ t in
      elim (d.on_enum_framesizes t dst_code index) [
        | none ↦ some (true, p, t₁)
        | some (size_range r) ↦ some (true, p, t₁)
        | some (one_size width height) ↦ elim (add_source intv_fuel fmt width height p t₁) [
          | none ↦ none
          | some (true, p₁, t₂) ↦ add_other_sources intv_fuel fuel fmt dst_code (index + 1) p₁ t₂
          | some (false, p₁, t₂) ↦ some (false, p₁, t₂)
        ]
      ]

  -- A converted palette, from the source palette of the current resolution on.
  pub add_converted :
      ℕ → ℕ → ℕ → ℕ → ℕ → ℕ → PaletteInfo → Trace → Option (Bool × PaletteInfo × Trace)
  unfolding add_raw_format add_other_sources end_raw_formats
  add_converted fuel fmt width height src_palette dst_code p t =
      elim (add_raw_format fuel width height p src_palette t) [
        | none ↦ none
        | some (false, p₁, t₁) ↦ some (true, p₁, t₁)
        | some (true, p₁, t₁) ↦ elim (add_other_sources fuel fuel fmt dst_code 0 p₁ t₁) [
          | none ↦ none
          | some (false, p₂, t₂) ↦ some (false, p₂, t₂)
          | some (true, p₂, t₂) ↦ some (true, end_raw_formats p₂, t₂)
        ]
      ]

  abbrev pub new_palette : ℕ → PaletteInfo
  new_palette fmt = record { index = fmt; raw_palettes = []; sizes = no_sizes }

  -- true stands for the result 0, false for LIBVIDEO_ERR_IOCTL
  pub add_supported_palette : ℕ → ℕ → Trace → Option (Bool × PaletteInfo × Trace)
  unfolding get_current_resolution try_format_query add_converted
  add_supported_palette fuel fmt t =
      let ((width, height), t₁) = get_current_resolution t in
      let ((accepted, dst, src), t₂) = try_format_query fmt width height t₁ in
      let curr = new_palette fmt in
      let converted =
        elim (find_v4l2_palette src.pixelformat) as (λ o. Option (Bool × PaletteInfo × Trace)) [
          | none ↦ some (false, curr, t₂)
          | some src_palette ↦
              add_converted fuel fmt width height src_palette dst.pixelformat curr t₂
        ] in
      let native =
        elim (lookup_frame_sizes d (palette_code fmt) fuel t₂)
          as (λ o. Option (Bool × PaletteInfo × Trace)) [
            | none ↦ none
            | some (s, t₃) ↦ some (true, record curr { sizes = s }, t₃)
          ] in
      if not accepted
      then some (false, curr, t₂)
      else if d.needs_conversion src dst
      then converted
      else native

  -- The loop over the formats that libv4lconvert enumerates, with the palettes found so far; the
  -- result is `none` for LIBVIDEO_ERR_IOCTL, after which the palettes are freed.
  pub list_palettes :
      ℕ → ℕ → ℕ → List PaletteInfo → Trace → Option (Option (List PaletteInfo) × Trace)
  unfolding add_supported_palette
  list_palettes query_fuel zero index ps t = none
  list_palettes query_fuel (suc fuel) index ps t =
      let t₁ = enum_fmt index ∷ t in
      elim (d.on_enum_fmt t index) [
        | none ↦ some (some ps, t₁)
        | some code ↦ elim (find_v4l2_palette code) [
          | none ↦ list_palettes query_fuel fuel (index + 1) ps t₁
          | some fmt ↦ elim (add_supported_palette query_fuel fmt t₁) [
            | none ↦ none
            | some (false, p, t₂) ↦ some (none, t₂)
            | some (true, p, t₂) ↦ list_palettes query_fuel fuel (index + 1) (ps ++ p ∷ []) t₂
          ]
        ]
      ]

  -- the result and the palettes
  pub check_palettes : ℕ → Trace → Option (ℤ × List PaletteInfo × Trace)
  unfolding list_palettes
  check_palettes fuel t = elim (list_palettes fuel fuel 0 [] t) [
    | none ↦ none
    | some (none, t₁) ↦ some (err_ioctl, [], t₁)
    | some (some ps, t₁) ↦ some (pos (length ps), ps, t₁)
  ]
