-- ===== src/V4l1/Listing.antt =====
-- libvideo/v4l1-input.c: list_cap_v4l1 and the functions that it calls. What they print is left out;
-- their ioctls are here, as they try every palette on the driver.
use v4l4j.Prelude.{ℕ, zero, suc, ◌+◌, none, some, List, [], ◌∷◌}
use v4l4j.V4l1.Driver.{V4l1Driver, V4l1Trace, Picture, gcap, gchan, gpict, spict, gwin}

-- a struct video_picture after CLEAR, with a palette and a depth
abbrev pub cleared_picture : (palette depth : ℕ) → Picture
cleared_picture palette depth = record {
  brightness = 0;
  hue = 0;
  colour = 0;
  contrast = 0;
  whiteness = 0;
  depth = depth;
  palette = palette;
}

-- VIDEO_PALETTE_GREY, HI240, RGB565, RGB555, RGB24, RGB32, YUV422, YUYV, UYVY, YUV420, YUV411, RAW,
-- YUV422P, YUV411P, YUV420P and YUV410P, in the order tried
abbrev pub listed_palettes : List ℕ
listed_palettes = 1 ∷ 2 ∷ 3 ∷ 6 ∷ 4 ∷ 5 ∷ 7 ∷ 8 ∷ 9 ∷ 10 ∷ 11 ∷ 12 ∷ 13 ∷ 14 ∷ 15 ∷ 16 ∷ []

-- PRINT_PALETTE_SUPPORT for each palette of a list
try_palettes : List ℕ → V4l1Trace → V4l1Trace
try_palettes [] t = t
try_palettes (p ∷ ps) t = try_palettes ps (spict (cleared_picture p 0) ∷ t)

module _ (d : V4l1Driver) where
  enum_image_fmt : V4l1Trace → V4l1Trace
  unfolding try_palettes
  enum_image_fmt t = elim (d.on_gpict t) [
    | none ↦ gpict ∷ t
    | some pic ↦ try_palettes listed_palettes (gpict ∷ t)
  ]

  query_current_image_fmt : V4l1Trace → V4l1Trace
  query_current_image_fmt t = gwin ∷ t

  -- the loop over the channels, for the rounds left from `i` on
  query_channels : ℕ → ℕ → V4l1Trace → V4l1Trace
  query_channels zero i t = t
  query_channels (suc rounds) i t = elim (d.on_gchan t i) [
    | none ↦ gchan i ∷ t
    | some chan ↦ query_channels rounds (i + 1) (gchan i ∷ t)
  ]

  query_capture_intf : V4l1Trace → V4l1Trace
  unfolding query_channels
  query_capture_intf t = elim (d.on_gcap t) [
    | none ↦ gcap ∷ t
    | some vc ↦ query_channels vc.channels 0 (gcap ∷ t)
  ]

  query_frame_sizes : V4l1Trace → V4l1Trace
  query_frame_sizes t = gcap ∷ t

  pub list_cap_v4l1 : V4l1Trace → V4l1Trace
  unfolding enum_image_fmt query_current_image_fmt query_capture_intf query_frame_sizes
  list_cap_v4l1 t = elim (d.on_gcap t) [
    | none ↦ gcap ∷ t
    | some vc ↦
        query_frame_sizes (query_current_image_fmt (enum_image_fmt (query_capture_intf (gcap ∷ t))))
  ]
