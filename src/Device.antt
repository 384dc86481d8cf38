-- ===== src/Device.antt =====
-- libvideo/libvideo.c: a video device and its four interfaces (open_device, close_device,
-- init_capture_device, free_capture_device, get_device_info, release_device_info, get_control_list,
-- release_control_list, get_tuner_actions, release_tuner_actions), with the blocks of memory, the
-- libv4lconvert handles and the file descriptors that they hold.
pub mod Lifecycle
mod Tests
use v4l4j.Prelude.{
  ℕ, ◌+◌, ◌-◌, Bool, true, false, Option, none, some, ◌==◌, ◌||◌, ltb, if◌then◌else◌, not, is_some,
}
use v4l4j.Prelude.Int.{ℤ}
use v4l4j.Errors.{
  success, err_info_in_use, err_capture_in_use, err_control_in_use, err_tuner_in_use,
}
use v4l4j.Control.Value.{v4l1_version, v4l2_version}

-- What is held at a time: how many of each kind. The mapped buffers, the contents of a struct
-- device_info beside its handle, the image formats, the menus and the nodes of the driver probes are
-- not counted.
pub record Held : Type 0 where
  pub descriptors : ℕ
  pub devices : ℕ
  pub infos : ℕ
  pub info_handles : ℕ
  pub captures : ℕ
  pub mmaps : ℕ
  pub actions : ℕ
  pub converts : ℕ
  pub capture_handles : ℕ
  pub control_lists : ℕ
  pub control_arrays : ℕ
  pub query_ctrls : ℕ
  pub control_handles : ℕ
  pub tuner_actions : ℕ

-- struct control_list: the number of controls, whether the array is there and the handle
pub record ControlList : Type 0 where
  pub count : ℕ
  pub has_controls : Bool
  pub has_priv : Bool

-- struct video_device; a pointer that is only tested is a Boolean
pub record VideoDevice : Type 0 where
  pub v4l_version : ℕ
  pub info : Bool
  pub capture : Bool
  pub control : Option ControlList
  pub tuner_action : Bool

-- What the system answers to open_device: whether the name is empty, whether the file opens, and
-- the two checks of its capabilities.
pub record OpenReply : Type 0 where
  pub is_named : Bool
  pub opens : Bool
  pub is_v4l2 : Bool
  pub is_v4l1 : Bool

-- The four interfaces in the order in which they are tested. Where all are released the device and
-- its descriptor go.
unfoldable pub close_device : VideoDevice → Held → ℤ × Held
close_device v h =
    if v.info
    then (err_info_in_use, h)
    else if v.capture
    then (err_capture_in_use, h)
    else if is_some v.control
    then (err_control_in_use, h)
    else if v.tuner_action
    then (err_tuner_in_use, h)
    else (success, record h { descriptors = h.descriptors - 1; devices = h.devices - 1 })

-- a device as XMALLOC clears it
abbrev fresh_device : ℕ → VideoDevice
fresh_device version = record {
  v4l_version = version;
  info = false;
  capture = false;
  control = none;
  tuner_action = false;
}

-- `none` is a NULL device
unfoldable pub open_device : OpenReply → Held → Option VideoDevice × Held
unfolding close_device
open_device r h =
    let h₁ = record h { descriptors = h.descriptors + 1; devices = h.devices + 1 } in
    if not r.is_named || not r.opens
    then (none, h)
    else if r.is_v4l2
    then (some (fresh_device v4l2_version), h₁)
    else if r.is_v4l1
    then (some (fresh_device v4l1_version), h₁)
    else (none, (close_device (fresh_device 0) h₁).1)

-- An interface that is there is returned as it is.
pub init_capture_device : VideoDevice → Held → VideoDevice × Held
init_capture_device v h =
    let h₁ = record h { captures = h.captures + 1; mmaps = h.mmaps + 1; actions = h.actions + 1 } in
    if v.capture then (v, h) else (
      record v { capture = true },
      (if v.v4l_version == v4l2_version
          then record h₁ { converts = h.converts + 1; capture_handles = h.capture_handles + 1 }
          else h₁),
    )

pub free_capture_device : VideoDevice → Held → VideoDevice × Held
free_capture_device v h =
    let h₁ = record h { captures = h.captures - 1; mmaps = h.mmaps - 1; actions = h.actions - 1 } in
    (
      record v { capture = false },
      (if v.v4l_version == v4l2_version
          then record h₁ { converts = h.converts - 1; capture_handles = h.capture_handles - 1 }
          else h₁),
    )

-- How query_device_v4l2 ends: it creates the libv4lconvert handle after the inputs were read, and
-- does not destroy it where the image formats cannot be read.
pub data QueryOutcome : Type 0 where
  described : QueryOutcome
  no_caps : QueryOutcome
  no_palettes : QueryOutcome

creates_handle : ℕ → QueryOutcome → Bool
creates_handle version no_caps = false
creates_handle version described = version == v4l2_version
creates_handle version no_palettes = version == v4l2_version

is_described : QueryOutcome → Bool
is_described described = true
is_described no_caps = false
is_described no_palettes = false

unfoldable pub get_device_info : QueryOutcome → VideoDevice → Held → VideoDevice × Held
unfolding creates_handle is_described
get_device_info outcome v h =
    let h₁ =
      if creates_handle v.v4l_version outcome
      then record h { info_handles = h.info_handles + 1 }
      else h in
    if is_described outcome
    then (record v { info = true }, record h₁ { infos = h.infos + 1 })
    else (record v { info = false }, h₁)

unfoldable pub release_device_info : VideoDevice → Held → VideoDevice × Held
release_device_info v h =
    if v.v4l_version == v4l2_version
    then (
      record v { info = false },
      record h { infos = h.infos - 1; info_handles = h.info_handles - 1 },
    )
    else if v.v4l_version == v4l1_version
    then (record v { info = false }, record h { infos = h.infos - 1 })
    else (v, h)

-- `count` is the number of controls that the dry run and the driver probes found.
unfoldable pub get_control_list : ℕ → VideoDevice → Held → VideoDevice × Held
get_control_list count v h =
    let h₁ = record h { control_lists = h.control_lists + 1 } in
    let is_v4l2 = v.v4l_version == v4l2_version in
    let h₂ = if is_v4l2 then record h₁ { control_handles = h.control_handles + 1 } else h₁ in
    if is_v4l2 || (v.v4l_version == v4l1_version)
    then (
      record v {
        control = some (record { count = count; has_controls = ltb 0 count; has_priv = is_v4l2 });
      },
      (if ltb 0 count
          then record h₂ {
            control_arrays = h.control_arrays + 1;
            query_ctrls = h.query_ctrls + count;
          }
          else h₂),
    )
    else (
      record v { control = some (record { count = 0; has_controls = false; has_priv = false }) },
      h₁,
    )

-- The code releases a list that it does not test for NULL; without one nothing is done here.
unfoldable pub release_control_list : VideoDevice → Held → VideoDevice × Held
release_control_list v h = elim v.control [
  | none ↦ (v, h)
  | some l ↦
      let h₁ = record h {
        query_ctrls = h.query_ctrls - l.count;
        control_lists = h.control_lists - 1;
      } in
      let h₂ = if l.has_controls then record h₁ { control_arrays = h.control_arrays - 1 } else h₁ in
      (
        record v { control = none },
        (if l.has_priv then record h₂ { control_handles = h.control_handles - 1 } else h₂),
      )
]

pub get_tuner_actions : VideoDevice → Held → VideoDevice × Held
get_tuner_actions v h =
    (record v { tuner_action = true }, record h { tuner_actions = h.tuner_actions + 1 })

pub release_tuner_actions : VideoDevice → Held → VideoDevice × Held
release_tuner_actions v h =
    (record v { tuner_action = false }, record h { tuner_actions = h.tuner_actions - 1 })
