-- ===== src/Device/Lifecycle.antt =====
-- What a device holds over any sequence of calls that takes each interface once before releasing it.
use v4l4j.Prelude.{
  ℕ, ◌+◌, Bool, true, false, Option, none, some, ◌==◌, ◌≡◌, ◌≢◌, ◌⊎◌, ◌↔◌, if◌then◌else◌, arith,
}
use v4l4j.Errors.{success}
use v4l4j.Control.Value.{v4l1_version, v4l2_version}
use v4l4j.Device.{
  Held, ControlList, VideoDevice, OpenReply, QueryOutcome, no_palettes, close_device, open_device,
  init_capture_device, free_capture_device, get_device_info, release_device_info, get_control_list,
  release_control_list, get_tuner_actions, release_tuner_actions,
}

abbrev one_if : Bool → ℕ
one_if true = 1
one_if false = 0

abbrev lists_of : Option ControlList → ℕ
lists_of none = 0
lists_of (some l) = 1

abbrev array_of : Option ControlList → ℕ
array_of none = 0
array_of (some l) = one_if l.has_controls

abbrev ctrls_of : Option ControlList → ℕ
ctrls_of none = 0
ctrls_of (some l) = l.count

abbrev handle_of : Option ControlList → ℕ
handle_of none = 0
handle_of (some l) = one_if l.has_priv

-- A device of a known version, with what it holds on top of what was held before it was opened.
pub record Accounted (base : Held) (v : VideoDevice) (h : Held) : Type 0 where
  pub version : (v.v4l_version ≡ v4l1_version) ⊎ (v.v4l_version ≡ v4l2_version)
  pub descriptors : h.descriptors ≡ base.descriptors + 1
  pub devices : h.devices ≡ base.devices + 1
  pub infos : h.infos ≡ base.infos + one_if v.info
  pub info_handles :
      h.info_handles
      ≡ base.info_handles + (if v.v4l_version == v4l2_version then one_if v.info else 0)
  pub captures : h.captures ≡ base.captures + one_if v.capture
  pub mmaps : h.mmaps ≡ base.mmaps + one_if v.capture
  pub actions : h.actions ≡ base.actions + one_if v.capture
  pub converts :
      h.converts ≡ base.converts + (if v.v4l_version == v4l2_version then one_if v.capture else 0)
  pub capture_handles :
      h.capture_handles
      ≡ base.capture_handles + (if v.v4l_version == v4l2_version then one_if v.capture else 0)
  pub control_lists : h.control_lists ≡ base.control_lists + lists_of v.control
  pub control_arrays : h.control_arrays ≡ base.control_arrays + array_of v.control
  pub query_ctrls : h.query_ctrls ≡ base.query_ctrls + ctrls_of v.control
  pub control_handles : h.control_handles ≡ base.control_handles + handle_of v.control
  pub tuner_actions : h.tuner_actions ≡ base.tuner_actions + one_if v.tuner_action

-- A call on an open device. An interface is asked for only while the device does not have it, and
-- released only while it has it; init_capture_device makes that test itself. The query of the
-- device does not fail on the image formats.
pub data Step : VideoDevice → Held → VideoDevice → Held → Type 0 where
  init_capture :
      (v : VideoDevice) (h : Held)
      → Step v h (init_capture_device v h).0 (init_capture_device v h).1
  free_capture :
      (v : VideoDevice) (h : Held)
      → v.capture ≡ true
      → Step v h (free_capture_device v h).0 (free_capture_device v h).1
  get_info :
      (v : VideoDevice) (h : Held) (o : QueryOutcome)
      → v.info ≡ false
      → o ≢ no_palettes
      → Step v h (get_device_info o v h).0 (get_device_info o v h).1
  release_info :
      (v : VideoDevice) (h : Held)
      → v.info ≡ true
      → Step v h (release_device_info v h).0 (release_device_info v h).1
  get_controls :
      (v : VideoDevice) (h : Held) (count : ℕ)
      → v.control ≡ none
      → Step v h (get_control_list count v h).0 (get_control_list count v h).1
  release_controls :
      (v : VideoDevice) (h : Held)
      → Step v h (release_control_list v h).0 (release_control_list v h).1
  get_tuner :
      (v : VideoDevice) (h : Held)
      → v.tuner_action ≡ false
      → Step v h (get_tuner_actions v h).0 (get_tuner_actions v h).1
  release_tuner :
      (v : VideoDevice) (h : Held)
      → v.tuner_action ≡ true
      → Step v h (release_tuner_actions v h).0 (release_tuner_actions v h).1

-- Any number of calls.
pub data Calls (v : VideoDevice) (h : Held) : VideoDevice → Held → Type 0 where
  no_call : Calls v h v h
  call : {v₁ v₂ : VideoDevice} {h₁ h₂ : Held} → Calls v h v₁ h₁ → Step v₁ h₁ v₂ h₂ → Calls v h v₂ h₂

module _ (base : Held) where
  open_device-Accounted :
      (r : OpenReply) {v : VideoDevice}
      → (open_device r base).0 ≡ some v
      → Accounted base v (open_device r base).1
  unfolding open_device
  open_device-Accounted r e = ground arith

  init_capture_device-Accounted :
      (v : VideoDevice) (h : Held)
      → Accounted base v h
      → Accounted base (init_capture_device v h).0 (init_capture_device v h).1
  unfolding init_capture_device
  init_capture_device-Accounted v h a = ground arith

  free_capture_device-Accounted :
      (v : VideoDevice) (h : Held)
      → v.capture ≡ true
      → Accounted base v h
      → Accounted base (free_capture_device v h).0 (free_capture_device v h).1
  unfolding free_capture_device
  free_capture_device-Accounted v h c a = ground arith

  get_device_info-Accounted :
      (v : VideoDevice) (h : Held) (o : QueryOutcome)
      → v.info ≡ false
      → o ≢ no_palettes
      → Accounted base v h
      → Accounted base (get_device_info o v h).0 (get_device_info o v h).1
  unfolding get_device_info
  get_device_info-Accounted v h o e n a = ground arith

  release_device_info-Accounted :
      (v : VideoDevice) (h : Held)
      → v.info ≡ true
      → Accounted base v h
      → Accounted base (release_device_info v h).0 (release_device_info v h).1
  unfolding release_device_info
  release_device_info-Accounted v h e a = ground arith

  get_control_list-Accounted :
      (v : VideoDevice) (h : Held) (count : ℕ)
      → v.control ≡ none
      → Accounted base v h
      → Accounted base (get_control_list count v h).0 (get_control_list count v h).1
  unfolding get_control_list
  get_control_list-Accounted v h count e a = ground arith

  release_control_list-Accounted :
      (v : VideoDevice) (h : Held)
      → Accounted base v h
      → Accounted base (release_control_list v h).0 (release_control_list v h).1
  unfolding release_control_list
  release_control_list-Accounted v h a = ground arith

  Step-Accounted :
      {v : VideoDevice} {h : Held} {v' : VideoDevice} {h' : Held}
      → Step v h v' h'
      → Accounted base v h
      → Accounted base v' h'
  unfolding get_tuner_actions release_tuner_actions
  Step-Accounted (init_capture v h) a = init_capture_device-Accounted v h a
  Step-Accounted (free_capture v h c) a = free_capture_device-Accounted v h c a
  Step-Accounted (get_info v h o e n) a = get_device_info-Accounted v h o e n a
  Step-Accounted (release_info v h e) a = release_device_info-Accounted v h e a
  Step-Accounted (get_controls v h count e) a = get_control_list-Accounted v h count e a
  Step-Accounted (release_controls v h) a = release_control_list-Accounted v h a
  Step-Accounted (get_tuner v h e) a = ground arith
  Step-Accounted (release_tuner v h e) a = ground arith

  Calls-Accounted :
      {v : VideoDevice} {h : Held} {v' : VideoDevice} {h' : Held}
      → Accounted base v h
      → Calls v h v' h'
      → Accounted base v' h'
  Calls-Accounted a no_call = a
  Calls-Accounted a (call r s) = Step-Accounted s (Calls-Accounted a r)

  close_device-Accounted :
      (v : VideoDevice) (h : Held)
      → Accounted base v h
      → (close_device v h).0 ≡ success
      → (close_device v h).1 ≡ base
  unfolding close_device
  close_device-Accounted v h a e = ground arith

  -- Let calls be made on an opened device, each interface being asked for only while the device
  -- does not have it and released only while it has it, and no query failing on the image formats.
  -- Where close_device then returns 0, as many things of each kind that Held counts are held as
  -- before the device was opened.
  pub close_device-open_device :
      (r : OpenReply) {v v' : VideoDevice} {h' : Held}
      → (open_device r base).0 ≡ some v
      → Calls v (open_device r base).1 v' h'
      → (close_device v' h').0 ≡ success
      → (close_device v' h').1 ≡ base
  close_device-open_device r {v' = v'} {h' = h'} e calls ok =
      close_device-Accounted v' h' (Calls-Accounted (open_device-Accounted r e) calls) ok

-- close_device returns 0 exactly when the four interfaces are released; otherwise it returns the
-- code of the first one that is not and releases nothing.
pub close_device_lem :
    (v : VideoDevice) (h : Held)
    → (((close_device v h).0 ≡ success)
        ↔ ((v.info ≡ false) × (v.capture ≡ false) × (v.control ≡ none) × (v.tuner_action ≡ false)))
      × ((close_device v h).0 ≢ success → (close_device v h).1 ≡ h)
unfolding close_device
close_device_lem v h = ground arith

-- On a V4L2 device a query that fails on the image formats leaves the device without information
-- and one libv4lconvert handle more held, which the release of the information does not destroy
-- since close_device succeeds without it.
pub get_device_info-no_palettes :
    (v : VideoDevice) (h : Held)
    → v.v4l_version ≡ v4l2_version
    → v.capture ≡ false
    → v.control ≡ none
    → v.tuner_action ≡ false
    → let (v', h') = get_device_info no_palettes v h in
      ((close_device v' h').0 ≡ success)
      × ((close_device v' h').1.info_handles ≡ h.info_handles + 1)
unfolding get_device_info close_device
get_device_info-no_palettes v h e c l t = ground arith
