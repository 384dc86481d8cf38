-- ===== src/V4l1/Capture/Tests.antt =====
-- The capture parameters on a small V4L1 driver, and the theorems at it.
use v4l4j.Prelude.{ℕ, some, ◌∷◌, [], ◌≡◌, refl, arith}
use v4l4j.Errors.{success}
use v4l4j.Samples.{camera}
use v4l4j.Capture.Records.{CaptureDevice}
use v4l4j.V4l1.Driver.{V4l1Trace, Capability, Picture, mcapture}
use v4l4j.V4l1.Samples.{old_driver, zeroes}
use v4l4j.V4l1.Capture.{yuyv, set_cap_param_v4l1}
use v4l4j.V4l1.Capture.Formats.{latest_picture, Formats, start_capture-set_cap_param_v4l1}
use v4l4j.V4l1.Capture.Sizes.{Sized, set_cap_param_v4l1-Sized}
use v4l4j.V4l1.Buffers.{start_capture_v4l1}

-- the device and the calls after the parameters are set
abbrev after : CaptureDevice
after = (set_cap_param_v4l1 old_driver zeroes yuyv camera []).1

abbrev calls : V4l1Trace
calls = (set_cap_param_v4l1 old_driver zeroes yuyv camera []).2

yuyv_accepted : set_cap_param_v4l1 old_driver zeroes yuyv camera [] ≡ (success, after, calls)
unfolding set_cap_param_v4l1
yuyv_accepted = refl

-- The driver reduces the size to 320 by 240; the image size stays that of 640 by 480.
imagesize_kept : (after.width ≡ 320) × (after.imagesize ≡ 614400)
unfolding set_cap_param_v4l1
imagesize_kept = (refl, refl)

start_capture-set_cap_param_v4l1_example :
    (p : Picture) × (format : ℕ) × (latest_picture calls ≡ some p)
    × ((start_capture_v4l1 old_driver zeroes after calls).2
        ≡ mcapture 0 after.width after.height format ∷ calls)
    × Formats yuyv p.palette format
start_capture-set_cap_param_v4l1_example =
    start_capture-set_cap_param_v4l1 old_driver zeroes yuyv camera after [] calls yuyv_accepted

abbrev limits : Capability
limits = record {
  cap_type = 1;
  channels = 1;
  maxwidth = 640;
  maxheight = 480;
  minwidth = 160;
  minheight = 120;
}

set_cap_param_v4l1-Sized_example : Sized old_driver zeroes yuyv camera limits after calls
set_cap_param_v4l1-Sized_example =
    set_cap_param_v4l1-Sized old_driver zeroes yuyv camera after limits [] calls refl (omega arith)
      (omega arith) yuyv_accepted
