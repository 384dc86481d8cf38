-- ===== src/V4l1/Capture.antt =====
-- libvideo/v4l1-input.c: the capabilities and the capture parameters (check_v4l1,
-- check_capture_capabilities_v4l1, set_cap_param_v4l1).
pub mod Stages
pub mod Formats
pub mod Sizes
mod Tests
use v4l4j.Prelude.{
  ℕ, ◌+◌, ◌-◌, ◌*◌, ◌/◌, ◌%◌, ◌^◌, Bool, true, false, Option, none, some, List, [], ◌∷◌, ◌==◌, ◌||◌,
  ltb, if◌then◌else◌, not, get_elem?,
}
use v4l4j.Prelude.Int.{ℤ, pos, negsuc, ltb_ℤ, eqb_ℤ}
use v4l4j.Errors.{
  success, err_chan_setup, err_nocaps, err_dimensions, err_ioctl, err_format, err_req_mmap,
  err_invalid_buf_nb, err_mmap_buf,
}
use v4l4j.Palettes.Table.{Palette, libvideo_palettes, undefined_v4l1}
use v4l4j.Capture.Records.{CaptureDevice, Mmap, Buffer}
use v4l4j.Capture.Standard.{pal, secam, ntsc}
use v4l4j.Capture.Input.{has_bits}
use v4l4j.V4l1.Driver.{
  V4l1Driver, V4l1Trace, Capability, Channel, Picture, Window, Mbuf, gcap, schan, gchan, gpict,
  spict, swin, gwin, gmbuf, mmap, munmap, mcapture, sync,
}
use v4l4j.V4l1.Listing.{list_cap_v4l1}

-- VID_TYPE_CAPTURE
abbrev pub vid_type_capture : ℕ
vid_type_capture = 1

-- enum libvideo_palettes: YUYV, YUV420, and the three names after the supported formats
abbrev pub yuyv : ℕ
yuyv = 18

abbrev pub yuv420 : ℕ
yuv420 = 31

abbrev pub yuv420p : ℕ
yuv420p = 75

abbrev pub yuv422 : ℕ
yuv422 = 76

abbrev pub yuv411 : ℕ
yuv411 = 77

abbrev pub yuv411p : ℕ
yuv411p = 24

-- libvideo_palettes[i]; `past` is what is read past the end of the table.
pub palette_row : Palette → ℕ → Palette
palette_row past i = elim (get_elem? libvideo_palettes i) [ none ↦ past | some row ↦ row ]

-- (u16) of an unsigned and of a signed number
pub u16 : ℕ → ℕ
u16 n = n % 2 ^ 16

unfoldable pub u16_of_int : ℤ → ℕ
unfolding u16
u16_of_int (pos n) = u16 n
u16_of_int (negsuc n) = 2 ^ 16 - 1 - u16 n

-- The size asked for, moved between the least and the greatest; 0 is MAX_WIDTH and MAX_HEIGHT.
pub fit_size : (least greatest size : ℕ) → ℕ
fit_size least greatest size =
    let fitted = if (size == 0) || ltb greatest size then greatest else size in
    if ltb fitted least then least else fitted

-- VIDEO_MODE_NTSC, VIDEO_MODE_PAL, VIDEO_MODE_SECAM or VIDEO_MODE_AUTO
pub norm_of : ℕ → ℕ
norm_of std = if std == ntsc then 1 else if std == pal then 0 else if std == secam then 2 else 3

-- One tuner at most is supported for an input.
pub tuner_nb_of : Channel → ℤ
tuner_nb_of chan =
    if ltb_ℤ (pos 1) chan.tuners
    then negsuc 0
    else if eqb_ℤ chan.tuners (pos 1)
    then pos 0
    else negsuc 0

-- The palette for the driver, and the real_v4l1_palette to be stored, for a palette asked for.
pub v4l1_request : Palette → ℕ → ℕ × ℕ
unfolding palette_row u16
v4l1_request past palette =
    if palette == yuv420
    then (15, yuv420p)
    else if palette == yuyv
    then (7, yuv422)
    else if palette == yuv411
    then (14, yuv411p)
    else (u16 ((palette_row past palette).v4l1_palette), palette)

-- c->width * c->height * pict.depth / 8, as unsigned numbers
pub image_bytes : (width height depth : ℕ) → ℕ
image_bytes width height depth = width * height * depth % 2 ^ 32 / 8

pub requested_picture : Palette → ℕ → Picture → Picture
unfolding palette_row u16_of_int v4l1_request
requested_picture past palette pict = record pict {
  palette = (v4l1_request past palette).0;
  depth = u16_of_int ((palette_row past palette).depth);
}

pub with_palette : Palette → ℕ → CaptureDevice → CaptureDevice
unfolding palette_row u16_of_int v4l1_request image_bytes
with_palette past palette c = record c {
  palette = palette;
  real_v4l1_palette = (v4l1_request past palette).1;
  imagesize = image_bytes c.width c.height (u16_of_int ((palette_row past palette).depth));
  needs_conversion = false;
}

pub mmap_format : Palette → CaptureDevice → ℕ
unfolding palette_row
mmap_format past c = (palette_row past c.real_v4l1_palette).v4l1_palette

pub fitted : Capability → CaptureDevice → CaptureDevice
unfolding fit_size
fitted vc c = record c {
  width = fit_size vc.minwidth vc.maxwidth c.width;
  height = fit_size vc.minheight vc.maxheight c.height;
}

pub resized : Window → CaptureDevice → CaptureDevice
resized win c = record c { width = win.width; height = win.height }

failed : ℤ → Bool
failed ret = not (eqb_ℤ ret success)

module _ (d : V4l1Driver) where
  pub check_v4l1 : V4l1Trace → Option Capability × V4l1Trace
  check_v4l1 t = (d.on_gcap t, gcap ∷ t)

  pub check_capture_capabilities_v4l1 : V4l1Trace → Bool × V4l1Trace
  unfolding check_v4l1
  check_capture_capabilities_v4l1 t =
      let (caps, t₁) = check_v4l1 t in
      elim caps [
        | none ↦ (false, t₁)
        | some vc ↦
            if has_bits vc.cap_type vid_type_capture
            then (true, t₁)
            else (false, list_cap_v4l1 d t₁)
      ]

  -- The input and its standard, and the tuner of the input.
  pub select_channel : CaptureDevice → V4l1Trace → ℤ × CaptureDevice × V4l1Trace
  unfolding norm_of tuner_nb_of
  select_channel c t =
      let t₁ = schan c.channel (norm_of c.std) ∷ t in
      let t₂ = gchan c.channel ∷ t₁ in
      if d.on_schan t c.channel (norm_of c.std)
      then elim (d.on_gchan t₁ c.channel) [
        | none ↦ (err_chan_setup, c, t₂)
        | some chan ↦ (success, record c { tuner_nb = tuner_nb_of chan }, t₂)
      ]
      else (err_chan_setup, c, list_cap_v4l1 d t₁)

  pub set_picture : Palette → ℕ → CaptureDevice → V4l1Trace → ℤ × CaptureDevice × V4l1Trace
  unfolding requested_picture with_palette
  set_picture past palette c t =
      let t₁ = gpict ∷ t in
      elim (d.on_gpict t) [
        | none ↦ (err_ioctl, c, t₁)
        | some pict ↦
            let asked = requested_picture past palette pict in
            if palette == undefined_v4l1
            then (err_format, c, t₁)
            else if d.on_spict t₁ asked
            then (success, with_palette past palette c, spict asked ∷ t₁)
            else (err_format, c, spict asked ∷ t₁)
      ]

  pub set_window : CaptureDevice → V4l1Trace → ℤ × CaptureDevice × V4l1Trace
  unfolding resized
  set_window c t =
      let t₁ = swin c.width c.height ∷ t in
      if d.on_swin t c.width c.height
      then elim (d.on_gwin t₁) [
        | none ↦ (err_dimensions, c, gwin ∷ t₁)
        | some win ↦ (success, resized win c, gwin ∷ t₁)
      ]
      else (err_dimensions, c, t₁)

  pub set_cap_param_v4l1 : Palette → ℕ → CaptureDevice → V4l1Trace → ℤ × CaptureDevice × V4l1Trace
  unfolding check_v4l1 fitted select_channel set_picture set_window failed
  set_cap_param_v4l1 past palette c t =
      let (caps, t₁) = check_v4l1 t in
      elim caps [
        | none ↦ (err_nocaps, c, t₁)
        | some vc ↦
            let (channel_set, c₂, t₂) = select_channel (fitted vc c) t₁ in
            let (picture_set, c₃, t₃) = set_picture past palette c₂ t₂ in
            let window = set_window c₃ t₃ in
            if failed channel_set
            then (channel_set, c₂, t₂)
            else if failed picture_set
            then (picture_set, c₃, t₃)
            else window
      ]
