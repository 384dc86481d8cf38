-- ===== src/Jni/Grabber.antt =====
-- The capture functions of src/v4l4j_FrameGrabber.c, which join a grabber of the Java side to the
-- capture interface of libvideo.
pub mod Fields
pub mod Frames
pub mod Owners
pub mod Balance
pub mod Mapping
pub mod Thrown
mod Tests
use v4l4j.Prelude.{
  ℕ, Bool, true, false, Option, none, some, List, [], ◌==◌, if◌then◌else◌, not, is_some,
}
use v4l4j.Prelude.Int.{ℤ, pos, negsuc, eqb_ℤ, ltb_ℤ}
use v4l4j.Errors.{err_channel, err_std, err_chan_setup, err_dimensions, err_ioctl, err_format}
use v4l4j.Capture.Records.{CaptureDevice}
use v4l4j.Jni.State.{JpegData, V4l4jDevice}
use v4l4j.Jni.Exceptions.{
  Exception, generic, initialisation, dimension, channel, format, standard, invalid_value,
  unsupported,
}
use v4l4j.Jni.Actions.{CaptureActions}
use v4l4j.Jni.Conversion.{
  FormatChoice, init_capture_format, init_format_converter, release_format_converter, output_jpg,
}
use Fields.{FieldIds, FieldReplies, JavaFields, look_up_ids, update_width_height}

-- A struct v4l4j_device, the capture interface of its device (`none` is NULL), the field
-- identifiers and fields of the Java object, and what is below libvideo.
pub record Grabber (W : Type 0) : Type 0 where
  pub device : V4l4jDevice
  pub capture : Option CaptureDevice
  pub ids : FieldIds
  pub fields : JavaFields
  pub world : W

-- The arguments of doInit.
pub record Request : Type 0 where
  pub num_buffers : ℕ
  pub w : ℕ
  pub h : ℕ
  pub ch : ℕ
  pub std : ℕ
  pub in_fmt : ℕ
  pub fg_out_fmt : ℕ

-- init_capture_device (libvideo/libvideo.c): a capture interface that is there is returned as it is.
pub init_capture_device : Option CaptureDevice → Request → CaptureDevice
init_capture_device (some c) q = c
init_capture_device none q = record {
  mmap = record {
    req_buffer_nr = q.num_buffers;
    buffer_nr = 0;
    buffers = [];
    tmp = 0;
    v4l1_mmap_size = 0;
  };
  palette = 0;
  width = q.w;
  height = q.h;
  std = q.std;
  channel = q.ch;
  imagesize = 0;
  tuner_nb = pos 0;
  is_native = false;
  real_v4l1_palette = 0;
  needs_conversion = false;
  convert = record { src_fmt = none; dst_fmt = none; src_palette = 0 };
}

-- The exception for a result of set_cap_param.
unfoldable pub cap_param_exception : ℤ → Exception
cap_param_exception ret =
    if eqb_ℤ ret err_dimensions
    then dimension
    else if eqb_ℤ ret err_chan_setup
    then channel
    else if eqb_ℤ ret err_format
    then format
    else if eqb_ℤ ret err_std
    then standard
    else generic

-- the destination format, which an unknown output format leaves unset and unread
pub dest_of : Option ℕ → ℕ
dest_of none = 0
dest_of (some p) = p

module _ {W : Type 0} (actions : CaptureActions W) where
  -- doInit: the value returned, and the exception thrown by it; those of update_width_height are
  -- thrown beside a value.
  pub do_init : FieldReplies → Request → Grabber W → ℕ × Option Exception × Grabber W
  unfolding init_capture_device dest_of look_up_ids
  do_init r q g =
      let (ids_ok, ids_thrown, ids) = look_up_ids r g.ids in
      let c = init_capture_device g.capture q in
      let choice = init_capture_format q.fg_out_fmt q.in_fmt (g.device).need_conv in
      let d = record (g.device) { output_fmt = q.fg_out_fmt; need_conv = choice.need_conv } in
      let (ret, c₁, t₁) =
        actions.set_cap_param c choice.src_fmt (dest_of choice.dest_fmt) g.world in
      let (mapped, c₂, t₂) = actions.init_capture c₁ t₁ in
      let (converts, d₁) = init_format_converter c₂ d in
      let (c₃, t₃) = actions.free_capture c₂ t₂ in
      let (thrown, fields) = update_width_height r c₂ d₁ g.fields in
      let g₁ = record g { ids = ids; device = d; capture = none } in
      if not ids_ok
      then (0, ids_thrown, record g { ids = ids })
      else if eqb_ℤ choice.ret (negsuc 0)
      then (0, some initialisation, g₁)
      else if not (eqb_ℤ ret (pos 0))
      then (0, some (cap_param_exception ret), record g₁ { world = t₁ })
      else if ltb_ℤ mapped (pos 0)
      then (0, some generic, record g₁ { world = t₂ })
      else if not (eqb_ℤ converts (pos 0))
      then (0, some generic, record g₁ { device = d₁; world = t₃ })
      else (
        (c₂.mmap).buffer_nr,
        thrown,
        record g₁ { device = d₁; capture = some c₂; fields = fields; world = t₂ },
      )

  -- The functions from here on follow vdev->capture, which is NULL before doInit succeeds; nothing
  -- is done then here.
  pub do_release : Grabber W → Grabber W
  do_release g = elim g.capture [
    | none ↦ g
    | some c ↦
        let (c₁, t₁) = actions.free_capture c g.world in
        record g { device = release_format_converter c g.device; capture = none; world = t₁ }
  ]

  pub start : Grabber W → Option Exception × Grabber W
  start g = elim g.capture [
    | none ↦ (none, g)
    | some c ↦
        let (ret, t₁) = actions.start_capture c g.world in
        ((if ltb_ℤ ret (pos 0) then some generic else none), record g { world = t₁ })
  ]

  -- A failure is only logged.
  pub stop : Grabber W → Grabber W
  stop g = elim g.capture [
    | none ↦ g
    | some c ↦ record g { world = (actions.stop_capture g.world).1 }
  ]

  -- doSetFrameIntv: other results of libvideo throw nothing.
  pub do_set_frame_intv : ℕ → ℕ → Grabber W → Option Exception × Grabber W
  do_set_frame_intv num denom g =
      let (ret, t₁) = actions.set_frame_interval num denom g.world in
      (
        (if eqb_ℤ ret err_format
            then some invalid_value
            else if eqb_ℤ ret err_ioctl
            then some unsupported
            else none),
        record g { world = t₁ },
      )

  -- doGetFrameIntv, with `what` as whether it is not 0
  pub do_get_frame_intv : Bool → Grabber W → ℕ × Option Exception × Grabber W
  do_get_frame_intv what g =
      let (ret, stored, t₁) = actions.get_frame_interval g.world in
      elim stored [
        | none ↦ (0, some unsupported, record g { world = t₁ })
        | some intv ↦
            if not (eqb_ℤ ret (pos 0))
            then (0, some unsupported, record g { world = t₁ })
            else ((if what then intv.1 else intv.0), none, record g { world = t₁ })
      ]

  -- doSetVideoInputNStandard
  pub do_set_video_input_std : ℕ → ℕ → Grabber W → Option Exception × Grabber W
  do_set_video_input_std input_num std g = elim g.capture [
    | none ↦ (none, g)
    | some c ↦
        let (ret, c₁, t₁) = actions.set_video_input_std c input_num std g.world in
        (
          (if eqb_ℤ ret err_channel
              then some channel
              else if eqb_ℤ ret err_std
              then some standard
              else none),
          record g { capture = some c₁; world = t₁ },
        )
  ]

  -- doGetVideoInput and doGetVideoStandard in one
  pub do_get_video_input_std : Grabber W → Option (ℕ × ℕ)
  do_get_video_input_std g = elim g.capture [
    | none ↦ none
    | some c ↦ some (actions.get_video_input_std c)
  ]

  unfoldable pub enqueue_buffer : ℕ → Grabber W → Grabber W
  enqueue_buffer index g = record g { world = actions.enqueue_buffer index g.world }

-- setQuality
pub set_quality : ℤ → V4l4jDevice → V4l4jDevice
set_quality quality d = elim d.j [
  | none ↦ d
  | some j ↦
      if d.output_fmt == output_jpg
      then record d { j = some (record j { jpeg_quality = quality }) }
      else d
]
