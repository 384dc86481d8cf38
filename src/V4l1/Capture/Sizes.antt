-- ===== src/V4l1/Capture/Sizes.antt =====
-- The image size that set_cap_param_v4l1 (libvideo/v4l1-input.c) asks for, and the sizes it stores.
use v4l4j.Prelude.{
  ℕ, ◌≤◌, ◌<◌, Option, none, some, [], ◌∷◌, ◌≡◌, ◌⊎◌, refl, sym, ap, ◌∙◌, subst, arith,
}
use mathlib.Core.Option.{some-injective}
use v4l4j.Errors.{success}
use v4l4j.Palettes.Table.{Palette}
use v4l4j.Capture.Records.{CaptureDevice}
use v4l4j.V4l1.Driver.{V4l1Driver, V4l1Trace, Capability, Channel, Window, swin}
use v4l4j.V4l1.Capture.{
  palette_row, u16_of_int, fit_size, fitted, resized, tuner_nb_of, image_bytes, with_palette,
  set_cap_param_v4l1,
}
use v4l4j.V4l1.Capture.Stages.{set_cap_param_v4l1-Configured}

-- A size for one asked for: within the limits, and another one only where that is none or beyond them.
abbrev pub Fits : (least greatest asked size : ℕ) → Type 0
Fits least greatest asked size =
    (least ≤ size)
    × (size ≤ greatest)
    × ((size ≡ asked) ⊎ (asked ≡ 0) ⊎ (asked < least) ⊎ (greatest < asked))

fit_size-Fits :
    (least greatest asked : ℕ)
    → least ≤ greatest
    → Fits least greatest asked (fit_size least greatest asked)
unfolding fit_size
fit_size-Fits least greatest asked h = ground (arith, h)

-- the size of the window that the driver was asked for last
abbrev pub latest_window : V4l1Trace → Option (ℕ × ℕ)
latest_window [] = none
latest_window (swin w h ∷ t) = some (w, h)
latest_window (call ∷ t) = latest_window t

imagesize-with_palette :
    (past : Palette) (palette : ℕ) (c : CaptureDevice) (win : Window)
    → (resized win (with_palette past palette c)).imagesize
      ≡ image_bytes
          ((with_palette past palette c).width)
          ((with_palette past palette c).height)
          (u16_of_int ((palette_row past palette).depth))
unfolding resized with_palette
imagesize-with_palette past palette c win = refl

-- the size of the device in the middle of the call
width-asked :
    (past : Palette) (palette : ℕ) (c : CaptureDevice) (vc : Capability) (chan : Channel)
    → (with_palette past palette (record (fitted vc c) { tuner_nb = tuner_nb_of chan })).width
      ≡ fit_size vc.minwidth vc.maxwidth c.width
unfolding fitted with_palette
width-asked past palette c vc chan = refl

height-asked :
    (past : Palette) (palette : ℕ) (c : CaptureDevice) (vc : Capability) (chan : Channel)
    → (with_palette past palette (record (fitted vc c) { tuner_nb = tuner_nb_of chan })).height
      ≡ fit_size vc.minheight vc.maxheight c.height
unfolding fitted with_palette
height-asked past palette c vc chan = refl

module _ (d : V4l1Driver) where
  -- what a successful call has asked for and stored
  abbrev pub Sized : Palette → ℕ → CaptureDevice → Capability → CaptureDevice → V4l1Trace → Type 0
  Sized past palette c vc c' t' =
      (w : ℕ) × (h : ℕ) × (latest_window t' ≡ some (w, h))
      × Fits vc.minwidth vc.maxwidth c.width w
      × Fits vc.minheight vc.maxheight c.height h
      × (c'.imagesize ≡ image_bytes w h (u16_of_int ((palette_row past palette).depth)))

  -- Take a driver whose least size is no greater than its greatest. When set_cap_param_v4l1 succeeds,
  -- the window that it asked the driver for last lies within the driver's limits, and has the width
  -- and the height of the device unless one is 0 or beyond the limits; and the image size stored is
  -- that of this window at the depth of the palette, whatever size the driver then chose.
  pub set_cap_param_v4l1-Sized :
      (past : Palette) (palette : ℕ) (c c' : CaptureDevice) (vc : Capability) (t t' : V4l1Trace)
      → d.on_gcap t ≡ some vc
      → vc.minwidth ≤ vc.maxwidth
      → vc.minheight ≤ vc.maxheight
      → set_cap_param_v4l1 d past palette c t ≡ (success, c', t')
      → Sized past palette c vc c' t'
  set_cap_param_v4l1-Sized past palette c c' vc t t' caps lw lh e =
      let done = set_cap_param_v4l1-Configured d past palette c c' t t' e in
      let same = some-injective done.caps vc (sym done.caps_reply ∙ caps) in
      let w =
        ap (λ x. x.width) done.is_asked
        ∙ width-asked past palette c done.caps done.channel
        ∙ ap (λ v. fit_size v.minwidth v.maxwidth c.width) same in
      let h =
        ap (λ x. x.height) done.is_asked
        ∙ height-asked past palette c done.caps done.channel
        ∙ ap (λ v. fit_size v.minheight v.maxheight c.height) same in
      let depth = u16_of_int ((palette_row past palette).depth) in
      let before = record (fitted done.caps c) { tuner_nb = tuner_nb_of done.channel } in
      (
        done.asked.width,
        done.asked.height,
        ap latest_window done.calls,
        subst (Fits vc.minwidth vc.maxwidth c.width) (sym w)
            (fit_size-Fits vc.minwidth vc.maxwidth c.width lw),
        subst (Fits vc.minheight vc.maxheight c.height) (sym h)
            (fit_size-Fits vc.minheight vc.maxheight c.height lh),
        ap (λ x. x.imagesize) done.device
            ∙ ap (λ x. (resized done.window x).imagesize) done.is_asked
            ∙ imagesize-with_palette past palette before done.window
            ∙ sym (ap (λ x. image_bytes x.width x.height depth) done.is_asked),
      )
