-- ===== src/V4l1/Palettes/Reset.antt =====
-- What check_palettes_v4l1 (libvideo/v4l1-query.c) does to the controls of the device.
use v4l4j.Prelude.{
  ℕ, zero, suc, ◌+◌, ◌-◌, List, [], ◌∷◌, ◌++◌, ◌==◌, ◌≡◌, ◌≢◌, ◌⊎◌, inl, inr, refl, ap, ◌∙◌, length,
  Bool-cases, Option-cases, arith,
}
use v4l4j.Palettes.Table.{Palette, libvideo_palettes, undefined_v4l1}
use v4l4j.Driver.{SizeRange}
use v4l4j.Query.Formats.{PaletteInfo}
use v4l4j.V4l1.Driver.{V4l1Driver, V4l1Trace, gcap}
use v4l4j.V4l1.Listing.{cleared_picture}
use v4l4j.V4l1.Capture.{palette_row, yuyv, yuv420, yuv420p, yuv422, yuv411, yuv411p}
use v4l4j.V4l1.Control.{Register, value_of}
use v4l4j.V4l1.Control.Registers.{Remembers}
use v4l4j.V4l1.Palettes.{
  picture_tried, set_palette_info, try_palette, try_rows, try_all, frame_sizes, check_palettes_v4l1,
}

value_of-cleared_picture :
    (r : Register) (palette depth : ℕ) → value_of r (cleared_picture palette depth) ≡ 0
unfolding value_of
value_of-cleared_picture r palette depth = ground arith

value_of-picture_tried : (r : Register) (row : Palette) → value_of r (picture_tried row) ≡ 0
unfolding picture_tried
value_of-picture_tried r row = value_of-cleared_picture r _ _

append-nonempty : (ps : List PaletteInfo) (p : PaletteInfo) → ps ++ p ∷ [] ≢ []
append-nonempty [] p e = cc
append-nonempty (q ∷ ps) p e = cc

module _ (d : V4l1Driver) (memory : Remembers d) (past : Palette) (cont : SizeRange) where
  -- The picture is as it was before `t₀` while no palette is listed, and has its controls at 0 after.
  abbrev Cleared : V4l1Trace → List PaletteInfo × V4l1Trace → Type 0
  Cleared t₀ (ps, t) =
      ((ps ≡ []) × (memory.held t ≡ memory.held t₀))
      ⊎ ((ps ≢ []) × ((r : Register) → value_of r (memory.held t) ≡ 0))

  try_palette-Cleared :
      (tried listed : ℕ) (t₀ : V4l1Trace) (ps : List PaletteInfo) (t : V4l1Trace)
      → Cleared t₀ (ps, t)
      → Cleared t₀ (try_palette d past cont tried listed ps t)
  unfolding try_palette
  try_palette-Cleared tried listed t₀ ps t h =
      let pic = picture_tried (palette_row past tried) in
      elim (Bool-cases (d.on_spict t pic)) [
        | inl e ↦
            rw (try_palette, e)
              (inr (
                append-nonempty ps (set_palette_info cont listed),
                λ r.
                    ap (value_of r) (memory.accepted t pic e)
                    ∙ value_of-picture_tried r (palette_row past tried),
              ))
        | inr e ↦
            let same = memory.rejected t pic e in
            rw (try_palette, e)
              (elim h [
                | inl (n, k) ↦ inl (n, same ∙ k)
                | inr (n, k) ↦ inr (n, λ r. ap (value_of r) same ∙ k r)
              ])
      ]

  try_rows-Cleared :
      (rounds palette : ℕ) (t₀ : V4l1Trace) (ps : List PaletteInfo) (t : V4l1Trace)
      → Cleared t₀ (ps, t)
      → Cleared t₀ (try_rows d past cont rounds palette ps t)
  unfolding try_rows
  try_rows-Cleared zero palette t₀ ps t h = h
  try_rows-Cleared (suc rounds) palette t₀ ps t h =
      elim (Bool-cases ((palette_row past palette).v4l1_palette == undefined_v4l1)) [
        | inl e ↦ rw (try_rows, e) (try_rows-Cleared rounds (palette + 1) t₀ ps t h)
        | inr e ↦
            let (ps₁, t₁) = try_palette d past cont palette palette ps t in
            rw (try_rows, e)
              (try_rows-Cleared rounds (palette + 1) t₀ ps₁ t₁
                (try_palette-Cleared palette palette t₀ ps t h))
      ]

  try_all-Cleared : (t : V4l1Trace) → Cleared t (try_all d past cont t)
  unfolding try_all
  try_all-Cleared t =
      let (ps₁, t₁) = try_rows d past cont (length libvideo_palettes - 3) 0 [] t in
      let (ps₂, t₂) = try_palette d past cont yuv420p yuv420 ps₁ t₁ in
      let (ps₃, t₃) = try_palette d past cont yuv422 yuyv ps₂ t₂ in
      try_palette-Cleared yuv411 yuv411p t ps₃ t₃ (
        try_palette-Cleared yuv422 yuyv t ps₂ t₂ (
          try_palette-Cleared yuv420p yuv420 t ps₁ t₁
            (try_rows-Cleared (length libvideo_palettes - 3) 0 t [] t (inl (refl, refl)))))

-- On a driver that remembers its picture, check_palettes_v4l1 leaves the picture as it was if it lists
-- no palette. If it lists any, the four controls of the device are 0 afterwards, whatever they were.
pub check_palettes_v4l1-Cleared :
    (d : V4l1Driver) (memory : Remembers d) (past : Palette) (t : V4l1Trace)
    → (((check_palettes_v4l1 d past t).0 ≡ [])
        × (memory.held ((check_palettes_v4l1 d past t).1) ≡ memory.held t))
      ⊎ (((check_palettes_v4l1 d past t).0 ≢ [])
          × ((r : Register) → value_of r (memory.held ((check_palettes_v4l1 d past t).1)) ≡ 0))
unfolding check_palettes_v4l1
check_palettes_v4l1-Cleared d memory past t = elim (Option-cases (d.on_gcap t)) [
  | inl e ↦ rw (check_palettes_v4l1, e) (inl (refl, memory.after_caps t))
  | inr (vc, e) ↦
      rw (check_palettes_v4l1, e)
        (elim (try_all-Cleared d memory past (frame_sizes vc) (gcap ∷ t)) [
          | inl (n, k) ↦ inl (n, k ∙ memory.after_caps t)
          | inr (n, k) ↦ inr (n, k)
        ])
]
