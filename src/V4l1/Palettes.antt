-- ===== src/V4l1/Palettes.antt =====
-- libvideo/v4l1-query.c: the image formats of a V4L1 device, which are found by setting each of them
-- on the driver (set_palette_info, check_palettes_v4l1).
pub mod Reset
use v4l4j.Prelude.{
  ℕ, zero, suc, ◌+◌, ◌-◌, Bool, true, false, Option, none, some, List, [], ◌∷◌, ◌++◌, ◌==◌, length,
  not, if◌then◌else◌,
}
use v4l4j.Palettes.Table.{Palette, libvideo_palettes, undefined_v4l1}
use v4l4j.Driver.{SizeRange}
use v4l4j.Query.Intervals.{unsupported}
use v4l4j.Query.Sizes.{continuous_sizes}
use v4l4j.Query.Formats.{PaletteInfo}
use v4l4j.V4l1.Driver.{V4l1Driver, V4l1Trace, Capability, Picture, gcap, spict}
use v4l4j.V4l1.Listing.{cleared_picture}
use v4l4j.V4l1.Capture.{
  palette_row, u16, u16_of_int, yuyv, yuv420, yuv420p, yuv422, yuv411, yuv411p,
}

-- the range of sizes that all the palettes share
pub frame_sizes : Capability → SizeRange
frame_sizes vc = record {
  min_width = vc.minwidth;
  max_width = vc.maxwidth;
  step_width = 1;
  min_height = vc.minheight;
  max_height = vc.maxheight;
  step_height = 1;
}

pub set_palette_info : SizeRange → ℕ → PaletteInfo
set_palette_info cont palette = record {
  index = palette;
  raw_palettes = [];
  sizes = continuous_sizes cont unsupported unsupported [];
}

-- the picture that a row of the table is tried with
pub picture_tried : Palette → Picture
picture_tried row = cleared_picture (u16 row.v4l1_palette) (u16_of_int row.depth)

module _ (d : V4l1Driver) (past : Palette) (cont : SizeRange) where
  -- The row `tried` is set on the driver; if it accepts, the palette `listed` is added.
  pub try_palette : (tried listed : ℕ) → List PaletteInfo → V4l1Trace → List PaletteInfo × V4l1Trace
  unfolding picture_tried set_palette_info
  try_palette tried listed ps t =
      let pic = picture_tried (palette_row past tried) in
      ((if d.on_spict t pic then ps ++ set_palette_info cont listed ∷ [] else ps), spict pic ∷ t)

  -- the loop over the rows, for the rounds left from the row `palette` on
  pub try_rows : ℕ → ℕ → List PaletteInfo → V4l1Trace → List PaletteInfo × V4l1Trace
  unfolding try_palette
  try_rows zero palette ps t = (ps, t)
  try_rows (suc rounds) palette ps t =
      let (ps₁, t₁) =
        if (palette_row past palette).v4l1_palette == undefined_v4l1
        then (ps, t)
        else try_palette palette palette ps t in
      try_rows rounds (palette + 1) ps₁ t₁

  -- the loop, and the three palettes with two numbers
  pub try_all : V4l1Trace → List PaletteInfo × V4l1Trace
  unfolding try_rows
  try_all t =
      let (ps₁, t₁) = try_rows (length libvideo_palettes - 3) 0 [] t in
      let (ps₂, t₂) = try_palette yuv420p yuv420 ps₁ t₁ in
      let (ps₃, t₃) = try_palette yuv422 yuyv ps₂ t₂ in try_palette yuv411 yuv411p ps₃ t₃

-- The palettes; the result is their number.
pub check_palettes_v4l1 : V4l1Driver → Palette → V4l1Trace → List PaletteInfo × V4l1Trace
unfolding frame_sizes try_all
check_palettes_v4l1 d past t = elim (d.on_gcap t) [
  | none ↦ ([], gcap ∷ t)
  | some vc ↦ try_all d past (frame_sizes vc) (gcap ∷ t)
]
