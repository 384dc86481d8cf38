-- ===== src/Jni/Device/Tests.antt =====
-- The instances of the theorems on a device's life.
use v4l4j.Prelude.{◌+◌, ◌≡◌, ◌⊎◌, true, false, none, some, is_some}
use v4l4j.Control.Value.{v4l2_version}
use v4l4j.Device.{Held, VideoDevice, OpenReply}
use v4l4j.Jni.Exceptions.{generic}
use v4l4j.Jni.Device.{Objects, do_init}
use v4l4j.Jni.Device.Lifecycle.{released, do_release-opened}

abbrev empty : Held
empty = record {
  descriptors = 3;
  devices = 0;
  infos = 0;
  info_handles = 0;
  captures = 0;
  mmaps = 0;
  actions = 0;
  converts = 0;
  capture_handles = 0;
  control_lists = 0;
  control_arrays = 0;
  query_ctrls = 0;
  control_handles = 0;
  tuner_actions = 0;
}

abbrev usb_camera : OpenReply
usb_camera = record { is_named = true; opens = true; is_v4l2 = true; is_v4l1 = false }

abbrev no_objects : Objects
no_objects = record { held = empty; devices = 0 }

abbrev with_tuner : VideoDevice
with_tuner = record {
  v4l_version = v4l2_version;
  info = false;
  capture = false;
  control = none;
  tuner_action = true;
}

do_release-opened_example :
    let (vdev, thrown, o₁) = do_init usb_camera no_objects in
    ((is_some vdev ≡ true) × (thrown ≡ none) × (released vdev o₁ ≡ (none, no_objects)))
    ⊎ ((vdev ≡ none) × (thrown ≡ some generic) × (o₁ ≡ record { held = empty; devices = 0 + 1 }))
do_release-opened_example = do_release-opened usb_camera no_objects
