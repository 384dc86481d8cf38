-- ===== src/Capture/Setup/Stages.antt =====
-- The outcome of set_cap_param_v4l2 (libvideo/v4l2-input.c), stage by stage.
use v4l4j.Prelude.{ℕ, suc, true, [], ◌∷◌, ◌≡◌, ◌⊎◌, arith}
use v4l4j.Errors.{success, err_std, err_channel, err_format}
use v4l4j.Driver.{Driver, Trace, s_fmt}
use v4l4j.Capture.Records.{CaptureDevice}
use v4l4j.Capture.Standard.{set_std}
use v4l4j.Capture.Input.{set_input, set_crop}
use v4l4j.Capture.Format.{set_image_format}
use v4l4j.Capture.Setup.{set_cap_param}

-- how often the trace sets an image format
abbrev pub formats_set : Trace → ℕ
formats_set [] = 0
formats_set (s_fmt f ∷ t) = suc (formats_set t)
formats_set (_ ∷ t) = formats_set t

set_crop-true : (d : Driver) (c : CaptureDevice) (t : Trace) → (set_crop d c t).0 ≡ true
unfolding set_crop
set_crop-true d c t = ground arith

formats_set-set_std :
    (d : Driver) (c : CaptureDevice) (t : Trace) → formats_set (set_std d c t).2 ≡ formats_set t
unfolding set_std
formats_set-set_std d c t = ground arith

formats_set-set_input :
    (d : Driver) (c : CaptureDevice) (t : Trace) → formats_set (set_input d c t).2 ≡ formats_set t
unfolding set_input
formats_set-set_input d c t = ground arith

formats_set-set_image_format :
    (d : Driver) (c : CaptureDevice) (native output : ℕ) (t : Trace)
    → formats_set (set_image_format d c native output t).2 ≡ suc (formats_set t)
unfolding set_image_format
formats_set-set_image_format d c native output t = ground arith

formats_set-set_crop :
    (d : Driver) (c : CaptureDevice) (t : Trace) → formats_set (set_crop d c t).1 ≡ formats_set t
unfolding set_crop
formats_set-set_crop d c t = ground arith

module _ (d : Driver) (c : CaptureDevice) (src_palette dest_palette : ℕ) (t : Trace) where
  -- set_cap_param_v4l2 returns 0, LIBVIDEO_ERR_STD, LIBVIDEO_ERR_CHANNEL or LIBVIDEO_ERR_FORMAT, and
  -- never LIBVIDEO_ERR_CROP. With the first two errors it has set no image format, with 0 and
  -- LIBVIDEO_ERR_FORMAT it has set one exactly once.
  pub set_cap_param-formats_set :
      let (ret, c', t') = set_cap_param d c src_palette dest_palette t in
      (((ret ≡ err_std) ⊎ (ret ≡ err_channel)) × (formats_set t' ≡ formats_set t))
      ⊎ (((ret ≡ success) ⊎ (ret ≡ err_format)) × (formats_set t' ≡ suc (formats_set t)))
  unfolding set_cap_param
  set_cap_param-formats_set =
      let (std_ok, c₁, t₁) = set_std d c t in
      let (input_ok, c₂, t₂) = set_input d c₁ t₁ in
      let (format_ok, c₃, t₃) = set_image_format d c₂ src_palette dest_palette t₂ in
      ground (
        arith,
        formats_set-set_std d c t,
        formats_set-set_input d c₁ t₁,
        formats_set-set_image_format d c₂ src_palette dest_palette t₂,
        formats_set-set_crop d c₃ t₃,
        set_crop-true d c₃ t₃,
      )
