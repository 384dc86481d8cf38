-- ===== src/Device/Tests.antt =====
-- A device taken through its interfaces, and the theorems at it.
use v4l4j.Prelude.{true, false, none, some, ◌≡◌, refl}
use v4l4j.Errors.{err_capture_in_use}
use v4l4j.Control.Value.{v4l2_version}
use v4l4j.Device.{
  Held, VideoDevice, OpenReply, close_device, open_device, init_capture_device, free_capture_device,
  get_control_list, release_control_list,
}
use v4l4j.Device.Lifecycle.{
  Calls, no_call, call, init_capture, free_capture, get_controls, release_controls,
  close_device-open_device,
}

abbrev empty : Held
empty = record {
  descriptors = 3;
  devices = 0;
  infos = 0;
  info_handles = 0;
  captures = 0;
  mmaps = 0;
  actions = 0;
  converts = 0;
  capture_handles = 0;
  control_lists = 0;
  control_arrays = 0;
  query_ctrls = 0;
  control_handles = 0;
  tuner_actions = 0;
}

abbrev usb_camera : OpenReply
usb_camera = record { is_named = true; opens = true; is_v4l2 = true; is_v4l1 = false }

abbrev opened : VideoDevice
opened = record {
  v4l_version = v4l2_version;
  info = false;
  capture = false;
  control = none;
  tuner_action = false;
}

first_opening : (open_device usb_camera empty).0 ≡ some opened
unfolding open_device
first_opening = refl

-- A device with its capture interface in use is not closed.
close_device_capturing :
    let (v, h) = init_capture_device opened empty in (close_device v h).0 ≡ err_capture_in_use
unfolding close_device init_capture_device
close_device_capturing = refl

-- the capture interface and five controls, taken and released
abbrev after_calls : VideoDevice × Held
after_calls =
    let (v₁, h₁) = init_capture_device opened (open_device usb_camera empty).1 in
    let (v₂, h₂) = get_control_list 5 v₁ h₁ in
    let (v₃, h₃) = free_capture_device v₂ h₂ in release_control_list v₃ h₃

sequence_made : Calls opened (open_device usb_camera empty).1 after_calls.0 after_calls.1
unfolding init_capture_device get_control_list
sequence_made =
    call
      (call (call (call no_call (init_capture _ _)) (get_controls _ _ 5 refl))
        (free_capture _ _ refl))
      (release_controls _ _)

close_device-open_device_example : (close_device after_calls.0 after_calls.1).1 ≡ empty
unfolding close_device open_device init_capture_device get_control_list free_capture_device
    release_control_list
close_device-open_device_example =
    close_device-open_device empty usb_camera {v = opened} {v' = after_calls.0} {h' = after_calls.1}
      refl sequence_made refl
