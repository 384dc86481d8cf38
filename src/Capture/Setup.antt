-- ===== src/Capture/Setup.antt =====
-- libvideo/v4l2-input.c: set_cap_param_v4l2, which sets the standard, the input, the image format and
-- the cropping in turn. On an error the source lists the device's capabilities, for debugging; the
-- listing is left out.
pub mod Stages
mod Tests
use v4l4j.Prelude.{ℕ, Bool, if◌then◌else◌, not}
use v4l4j.Prelude.Int.{ℤ}
use v4l4j.Errors.{success, err_std, err_channel, err_format, err_crop}
use v4l4j.Driver.{Driver, Trace}
use v4l4j.Capture.Records.{CaptureDevice}
use v4l4j.Capture.Standard.{set_std}
use v4l4j.Capture.Input.{set_input, set_crop}
use v4l4j.Capture.Format.{set_image_format}

unfoldable pub set_cap_param : Driver → CaptureDevice → ℕ → ℕ → Trace → ℤ × CaptureDevice × Trace
set_cap_param d c src_palette dest_palette t =
    let (std_ok, c₁, t₁) = set_std d c t in
    let (input_ok, c₂, t₂) = set_input d c₁ t₁ in
    let (format_ok, c₃, t₃) = set_image_format d c₂ src_palette dest_palette t₂ in
    let (crop_ok, t₄) = set_crop d c₃ t₃ in
    if not std_ok
    then (err_std, c₁, t₁)
    else if not input_ok
    then (err_channel, c₂, t₂)
    else if not format_ok
    then (err_format, c₃, t₃)
    else if not crop_ok
    then (err_crop, c₃, t₄)
    else (success, c₃, t₄)
