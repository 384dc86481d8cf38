-- ===== src/Capture/Input.antt =====
-- libvideo/v4l2-input.c: capabilities, the choice of an input, cropping and the frame interval
-- (check_capture_capabilities_v4l2, set_input, set_crop, get_video_input_std_v4l2,
-- set_video_input_std_v4l2, set_frame_intv_v4l2, get_frame_intv_v4l2).
pub mod Contracts
mod Tests
use v4l4j.Prelude.{
  ℕ, Bool, true, false, Option, none, some, ◌∷◌, ◌==◌, ◌&&◌, if◌then◌else◌, not, bit_and,
}
use v4l4j.Prelude.Int.{ℤ, pos, negsuc, eqb_ℤ}
use v4l4j.Errors.{success, err_channel, err_std, err_ioctl, err_format}
use v4l4j.Driver.{
  Driver, Trace, InputDesc, querycap, s_input, enuminput, cropcap, s_crop, s_parm, g_parm,
}
use v4l4j.Capture.Records.{CaptureDevice}
use v4l4j.Capture.Standard.{webcam, try_std}

-- V4L2_CAP_VIDEO_CAPTURE and V4L2_CAP_STREAMING
abbrev pub cap_video_capture : ℕ
cap_video_capture = 0x1

abbrev pub cap_streaming : ℕ
cap_streaming = 0x4000000

-- V4L2_INPUT_TYPE_TUNER
abbrev pub input_type_tuner : ℕ
input_type_tuner = 1

-- a & mask, as a condition
abbrev pub has_bits : ℕ → ℕ → Bool
has_bits a mask = not (bit_and a mask == 0)

-- the value of EINVAL
abbrev pub einval : ℤ
einval = pos 22

-- the tuner of an input: its number, or -1
pub tuner_of : InputDesc → ℤ
tuner_of vi = if vi.input_type == input_type_tuner then pos vi.tuner else negsuc 0

module _ (d : Driver) where
  -- The capabilities are listed on an error, for debugging; the listing is left out.
  pub check_capture_capabilities : Trace → Bool × Trace
  check_capture_capabilities t =
      let t₁ = querycap ∷ t in
      elim (d.on_querycap t) [
        | none ↦ (false, t₁)
        | some caps ↦ (has_bits caps cap_video_capture && has_bits caps cap_streaming, t₁)
      ]

  -- true stands for the result 0, false for -1
  unfoldable pub set_input : CaptureDevice → Trace → Bool × CaptureDevice × Trace
  unfolding tuner_of
  set_input c t =
      let t₁ = s_input c.channel ∷ t in
      let t₂ = enuminput c.channel ∷ t₁ in
      if not (c.std == webcam)
      then (if d.on_s_input t c.channel
          then elim (d.on_enuminput t₁ c.channel) [
            | none ↦ (false, c, t₂)
            | some vi ↦ (true, record c { tuner_nb = tuner_of vi }, t₂)
          ]
          else (false, c, t₁))
      else (true, c, t)

  -- A failure of the driver is not an error.
  unfoldable pub set_crop : CaptureDevice → Trace → Bool × Trace
  set_crop c t =
      if not (c.std == webcam)
      then elim (d.on_cropcap t) [
        | none ↦ (true, cropcap ∷ t)
        | some defrect ↦ (true, s_crop defrect ∷ cropcap ∷ t)
      ]
      else (true, t)

  pub set_video_input_std : CaptureDevice → ℕ → ℕ → Trace → ℤ × CaptureDevice × Trace
  unfolding try_std
  set_video_input_std c input_num std t =
      let t₁ = s_input input_num ∷ t in
      if d.on_s_input t input_num
      then (let c₁ = record c { channel = input_num } in
          let (accepted, t₂) = try_std d std t₁ in
          if accepted then (success, record c₁ { std = std }, t₂) else (err_std, c₁, t₂))
      else (err_channel, c, t₁)

  -- The source compares the ioctl's result with EINVAL, although ioctl returns -1 on every error.
  pub set_frame_intv : ℕ → ℕ → Trace → ℤ × Trace
  set_frame_intv num denom t =
      let reply = d.on_s_parm t num denom in
      let t₁ = s_parm num denom ∷ t in
      if eqb_ℤ reply.ret (pos 0)
      then (if (reply.numerator == num) && (reply.denominator == denom)
          then (success, t₁)
          else (err_format, t₁))
      else if eqb_ℤ reply.ret einval
      then (err_ioctl, t₁)
      else (err_format, t₁)

  -- the result, and the numerator and denominator stored
  pub get_frame_intv : Trace → ℤ × Option (ℕ × ℕ) × Trace
  get_frame_intv t =
      let reply = d.on_g_parm t in
      if eqb_ℤ reply.ret (pos 0)
      then (success, some (reply.numerator, reply.denominator), g_parm ∷ t)
      else (err_ioctl, none, g_parm ∷ t)

pub get_video_input_std : CaptureDevice → ℕ × ℕ
get_video_input_std c = (c.channel, c.std)
