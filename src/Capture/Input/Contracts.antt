-- ===== src/Capture/Input/Contracts.antt =====
-- What the input and frame interval calls promise.
use v4l4j.Prelude.{ℕ, ◌≡◌, ◌⊎◌, ◌↔◌, arith}
use v4l4j.Prelude.Int.{pos, negsuc}
use v4l4j.Errors.{success, err_std, err_channel, err_format}
use v4l4j.Driver.{Driver, Trace}
use v4l4j.Capture.Records.{CaptureDevice}
use v4l4j.Capture.Input.{set_video_input_std, get_video_input_std, set_frame_intv}

-- set_video_input_std_v4l2 and get_video_input_std_v4l2 agree: after a success the input and standard
-- asked for are read back, after LIBVIDEO_ERR_STD the new input with the old standard, and after
-- LIBVIDEO_ERR_CHANNEL the old pair. It returns nothing else.
pub get_video_input_std-set_video_input_std :
    (d : Driver) (c : CaptureDevice) (input_num std : ℕ) (t : Trace)
    → let (ret, c', t') = set_video_input_std d c input_num std t in
      ((ret ≡ success) × (get_video_input_std c' ≡ (input_num, std)))
      ⊎ ((ret ≡ err_std) × (get_video_input_std c' ≡ (input_num, c.std)))
      ⊎ ((ret ≡ err_channel) × (get_video_input_std c' ≡ (c.channel, c.std)))
unfolding set_video_input_std get_video_input_std
get_video_input_std-set_video_input_std d c input_num std t = ground arith

-- On an ioctl that returns 0 or -1, as the kernel's do, set_frame_intv_v4l2 returns 0 exactly when the driver stored the
-- very interval asked for, and LIBVIDEO_ERR_FORMAT in every other case, an ioctl that fails included.
pub set_frame_intv_lem :
    (d : Driver) (num denom : ℕ) (t : Trace)
    → (d.on_s_parm t num denom).ret ≡ pos 0 ⊎ (d.on_s_parm t num denom).ret ≡ negsuc 0
    → let reply = d.on_s_parm t num denom in
      let ret = (set_frame_intv d num denom t).0 in
      ((ret ≡ success)
        ↔ ((reply.ret ≡ pos 0) × (reply.numerator ≡ num) × (reply.denominator ≡ denom)))
      × ((ret ≡ success) ⊎ (ret ≡ err_format))
unfolding set_frame_intv
set_frame_intv_lem d num denom t h = ground arith
