-- ===== src/V4l1/Capture/Formats.antt =====
-- The image format and the size that set_cap_param_v4l1 leaves (libvideo/v4l1-input.c), and those that
-- start_capture_v4l1 then captures with.
use v4l4j.Prelude.{
  ℕ, ◌%◌, ◌^◌, Option, none, some, [], ◌∷◌, ◌==◌, ◌≡◌, ◌≢◌, ◌⊎◌, inl, inr, refl, sym, ap, ◌∙◌,
  subst, Bool-cases, arith,
}
use v4l4j.Errors.{success}
use v4l4j.Palettes.Table.{Palette}
use v4l4j.Capture.Records.{CaptureDevice}
use v4l4j.V4l1.Driver.{V4l1Driver, V4l1Trace, Picture, Window, spict, mcapture}
use v4l4j.V4l1.Capture.{
  yuyv, yuv420, yuv420p, yuv422, yuv411, yuv411p, palette_row, u16, resized, v4l1_request,
  requested_picture, with_palette, mmap_format, set_cap_param_v4l1,
}
use v4l4j.V4l1.Capture.Stages.{set_cap_param_v4l1-Configured}
use v4l4j.V4l1.Buffers.{start_capture_v4l1}

-- the picture that the driver was asked for last
abbrev pub latest_picture : V4l1Trace → Option Picture
latest_picture [] = none
latest_picture (spict p ∷ t) = some p
latest_picture (call ∷ t) = latest_picture t

-- The palette set on the driver, and the one that a capture asks for, for a palette asked for.
abbrev pub Formats : (palette in_picture in_capture : ℕ) → Type 0
Formats palette in_picture in_capture =
    ((palette ≡ yuv420) × (in_picture ≡ 15) × (in_capture ≡ 7))
    ⊎ ((palette ≡ yuyv) × (in_picture ≡ 7) × (in_capture ≡ 11))
    ⊎ ((palette ≢ yuv420) × (palette ≢ yuyv) × (in_picture ≡ in_capture % 2 ^ 16))

-- the three formats that are asked for by another number
row_of_yuv420p : (past : Palette) → (palette_row past yuv420p).v4l1_palette ≡ 7
unfolding palette_row
row_of_yuv420p past = refl

row_of_yuv422 : (past : Palette) → (palette_row past yuv422).v4l1_palette ≡ 11
unfolding palette_row
row_of_yuv422 past = refl

row_of_yuv411p : (past : Palette) → (palette_row past yuv411p).v4l1_palette ≡ 14
unfolding palette_row
row_of_yuv411p past = refl

-- the palette to set and the one to capture with, from what v4l1_request gives
abbrev Requests : Palette → ℕ → ℕ × ℕ → Type 0
Requests past palette r = Formats palette r.0 (palette_row past (r.1)).v4l1_palette

v4l1_request-Formats :
    (past : Palette) (palette : ℕ) → Requests past palette (v4l1_request past palette)
unfolding v4l1_request u16
v4l1_request-Formats past palette = elim (Bool-cases (palette == yuv420)) [
  | inl e ↦ rw (v4l1_request, e) (inl (ground arith, refl, row_of_yuv420p past))
  | inr e ↦ elim (Bool-cases (palette == yuyv)) [
    | inl k ↦ rw (v4l1_request, e, k) (inr (inl (ground arith, refl, row_of_yuv422 past)))
    | inr k ↦ elim (Bool-cases (palette == yuv411)) [
      | inl l ↦
          rw (v4l1_request, e, k, l)
            (inr
              (inr (ground arith, ground arith, ap (λ n. n % 2 ^ 16) (sym (row_of_yuv411p past)))))
      | inr l ↦ rw (v4l1_request, e, k, l) (inr (inr (ground arith, ground arith, refl)))
    ]
  ]
]

mmap_format-with_palette :
    (past : Palette) (palette : ℕ) (c : CaptureDevice) (win : Window)
    → mmap_format past (resized win (with_palette past palette c))
      ≡ (palette_row past ((v4l1_request past palette).1)).v4l1_palette
unfolding mmap_format resized with_palette
mmap_format-with_palette past palette c win = refl

palette-requested_picture :
    (past : Palette) (palette : ℕ) (pict : Picture)
    → (requested_picture past palette pict).palette ≡ (v4l1_request past palette).0
unfolding requested_picture
palette-requested_picture past palette pict = refl

module _ (d : V4l1Driver) where
  trace-start_capture :
      (past : Palette) (c : CaptureDevice) (t : V4l1Trace)
      → (start_capture_v4l1 d past c t).2 ≡ mcapture 0 c.width c.height (mmap_format past c) ∷ t
  unfolding start_capture_v4l1
  trace-start_capture past c t = ground arith

  -- After set_cap_param_v4l1 succeeds, start_capture_v4l1 captures at the size that the driver
  -- reported last, with the palette that was set on the driver, except for two formats: for YUV420 it
  -- captures with palette 7 where 15 was set, for YUYV with 11 where 7 was set.
  pub start_capture-set_cap_param_v4l1 :
      (past : Palette) (palette : ℕ) (c c' : CaptureDevice) (t t' : V4l1Trace)
      → set_cap_param_v4l1 d past palette c t ≡ (success, c', t')
      → (p : Picture) × (format : ℕ) × (latest_picture t' ≡ some p)
        × ((start_capture_v4l1 d past c' t').2 ≡ mcapture 0 c'.width c'.height format ∷ t')
        × Formats palette p.palette format
  start_capture-set_cap_param_v4l1 past palette c c' t t' e =
      let done = set_cap_param_v4l1-Configured d past palette c c' t t' e in
      let p = requested_picture past palette done.picture in
      let format =
        ap (mmap_format past) (done.device ∙ ap (resized done.window) done.is_asked)
        ∙ mmap_format-with_palette past palette _ done.window in
      (
        p,
        mmap_format past c',
        ap latest_picture done.calls,
        trace-start_capture past c' t',
        subst (λ n. Formats palette n (mmap_format past c'))
            (sym (palette-requested_picture past palette done.picture))
            (subst (Formats palette ((v4l1_request past palette).0)) (sym format)
              (v4l1_request-Formats past palette)),
      )
