-- ===== src/Jni/Device/Lifecycle.antt =====
-- What doInit and doRelease of src/v4l4j_VideoDevice.c hold and give back.
use v4l4j.Prelude.{◌+◌, ◌-◌, ◌≡◌, ◌⊎◌, true, false, Option, none, some, is_some, arith}
use v4l4j.Device.{VideoDevice, OpenReply, open_device, close_device}
use v4l4j.Jni.Exceptions.{Exception, generic, release}
use v4l4j.Jni.Device.{Objects, do_init, do_release}

-- doRelease frees the device's block exactly where none of the four interfaces is in use. It throws
-- a ReleaseException for a description, a capture or a list of controls in use, and for a tuner
-- alone in use neither throws nor frees anything.
pub do_release_lem :
    (v : VideoDevice) (o : Objects)
    → let (thrown, o₁) = do_release v o in
      ((thrown ≡ none)
        × (v.info ≡ false)
        × (v.capture ≡ false)
        × (v.control ≡ none)
        × (v.tuner_action ≡ false)
        × (o₁.devices ≡ o.devices - 1))
      ⊎ ((thrown ≡ some release)
          × ((v.info ≡ true) ⊎ (v.capture ≡ true) ⊎ (is_some v.control ≡ true))
          × (o₁ ≡ o))
      ⊎ ((thrown ≡ none)
          × (v.info ≡ false)
          × (v.capture ≡ false)
          × (v.control ≡ none)
          × (v.tuner_action ≡ true)
          × (o₁ ≡ o))
unfolding do_release close_device
do_release_lem v o = ground arith

-- doRelease of the device, if there is one
abbrev pub released : Option VideoDevice → Objects → Option Exception × Objects
released none o = (none, o)
released (some v) o = do_release v o

-- Where doInit returns a device, doRelease of it right away throws nothing and gives back all that
-- was held before; where it returns none it throws a V4L4JException, libvideo holds what it held, and
-- the block of the struct v4l4j_device is left allocated.
pub do_release-opened :
    (r : OpenReply) (o : Objects)
    → let (vdev, thrown, o₁) = do_init r o in
      ((is_some vdev ≡ true) × (thrown ≡ none) × (released vdev o₁ ≡ (none, o)))
      ⊎ ((vdev ≡ none)
          × (thrown ≡ some generic)
          × (o₁ ≡ record { held = o.held; devices = o.devices + 1 }))
unfolding do_init do_release open_device close_device
do_release-opened r o = ground arith
