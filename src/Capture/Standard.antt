-- ===== src/Capture/Standard.antt =====
-- libvideo/v4l2-input.c: the choice of a video standard (try_std, detect_standard, set_std).
pub mod Agreement
mod Tests
use v4l4j.Prelude.{ℕ, Bool, true, false, Option, none, some, ◌∷◌, ◌==◌, if◌then◌else◌, not}
use v4l4j.Prelude.Int.{ℤ, pos, negsuc}
use v4l4j.Driver.{Driver, Trace, s_std, enumstd}
use v4l4j.Capture.Records.{CaptureDevice}

abbrev pub webcam : ℕ
webcam = 0

abbrev pub pal : ℕ
pal = 1

abbrev pub secam : ℕ
secam = 2

abbrev pub ntsc : ℕ
ntsc = 3

-- The driver's id of a standard: the V4L2_STD_ masks of videodev2.h. A number that is no standard
-- leaves the cleared value.
unfoldable pub std_id : ℕ → ℕ
std_id s =
    if s == webcam
    then 0
    else if s == pal
    then 0xff
    else if s == secam
    then 0xff0000
    else if s == ntsc
    then 0xb000
    else 0

module _ (d : Driver) where
  unfoldable pub try_std : ℕ → Trace → Bool × Trace
  try_std standard t = (d.on_s_std t (std_id standard), s_std (std_id standard) ∷ t)

  -- The PAL branch sets no field, as in the source.
  pub detect_standard : CaptureDevice → Trace → Bool × CaptureDevice × Trace
  unfolding try_std
  detect_standard c t =
      let (is_webcam, t₁) = try_std webcam t in
      let (is_pal, t₂) = try_std pal t₁ in
      let (is_ntsc, t₃) = try_std ntsc t₂ in
      let (is_secam, t₄) = try_std secam t₃ in
      if is_webcam
      then (true, record c { std = webcam }, t₁)
      else if is_pal
      then (true, c, t₂)
      else if is_ntsc
      then (true, record c { std = ntsc }, t₃)
      else if is_secam
      then (true, record c { std = secam }, t₄)
      else (false, c, t₄)

  -- `none` is the error -1.
  fall_back : CaptureDevice → Trace → Bool × CaptureDevice × Trace
  unfolding detect_standard try_std
  fall_back c t =
      let (accepted, t₁) = try_std c.std t in
      if accepted then (true, c, t₁) else detect_standard c t₁

  -- true stands for the result 0, false for -1
  unfoldable pub set_std : CaptureDevice → Trace → Bool × CaptureDevice × Trace
  unfolding fall_back
  set_std c t =
      let t₁ = enumstd ∷ t in
      elim (d.on_enumstd t) [
        | some id ↦
            if not (id == 0)
            then (if c.std == webcam then detect_standard c t₁ else fall_back c t₁)
            else (if not (c.std == webcam) then fall_back c t₁ else (true, c, t₁))
        | none ↦ (true, (if not (c.std == webcam) then record c { std = webcam } else c), t₁)
      ]
