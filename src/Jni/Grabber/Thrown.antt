-- ===== src/Jni/Grabber/Thrown.antt =====
-- The exceptions that the functions of src/v4l4j_FrameGrabber.c throw on a V4L2 device.
use v4l4j.Prelude.{ℕ, ◌≡◌, ◌≢◌, ◌⊎◌, Option, none, some, arith}
use v4l4j.Prelude.Int.{pos, negsuc}
use v4l4j.Driver.{Driver, Trace}
use v4l4j.Capture.Records.{CaptureDevice}
use v4l4j.Capture.Setup
use v4l4j.Capture.Buffers
use v4l4j.Capture.Input.Contracts.{get_video_input_std-set_video_input_std, set_frame_intv_lem}
use v4l4j.Capture.Setup.Stages.{set_cap_param-formats_set}
use v4l4j.Jni.Exceptions.{
  Exception, generic, initialisation, channel, format, standard, invalid_value, jni,
}
use v4l4j.Jni.State.{V4l4jDevice}
use v4l4j.Jni.Actions.{v4l2_actions}
use v4l4j.Jni.Conversion.{init_capture_format, init_format_converter}
use v4l4j.Jni.Grabber.{
  Grabber, Request, do_init, init_capture_device, dest_of, cap_param_exception,
  do_set_video_input_std, do_get_video_input_std, do_set_frame_intv,
}
use v4l4j.Jni.Grabber.Fields.{FieldIds, FieldReplies, JavaFields, look_up_ids, update_width_height}

-- The field functions throw nothing but JNIException.
abbrev Fields : Option Exception → Type 0
Fields thrown = (thrown ≡ none) ⊎ (thrown ≡ some jni)

look_up_ids-Fields : (r : FieldReplies) (ids : FieldIds) → Fields (look_up_ids r ids).1
unfolding look_up_ids
look_up_ids-Fields r ids = ground arith

update_width_height-Fields :
    (r : FieldReplies) (c : CaptureDevice) (d : V4l4jDevice) (f : JavaFields)
    → Fields (update_width_height r c d f).0
unfolding update_width_height
update_width_height-Fields r c d f = ground arith

module _ (d : Driver) (convert : CaptureDevice → ℕ → ℕ → Trace → ℕ) (r : FieldReplies) (q : Request)
    (g : Grabber Trace) where
  -- On a V4L2 device doInit throws JNIException, InitialisationException, ImageFormatException,
  -- VideoStandardException, V4L4JException or nothing: never CaptureChannelException, although an
  -- input that cannot be selected is among the errors of libvideo, nor ImageDimensionException.
  pub do_init-thrown :
      let thrown = (do_init (v4l2_actions d convert) r q g).1 in
      (thrown ≡ none)
      ⊎ (thrown ≡ some jni)
      ⊎ (thrown ≡ some initialisation)
      ⊎ (thrown ≡ some format)
      ⊎ (thrown ≡ some standard)
      ⊎ (thrown ≡ some generic)
  unfolding do_init v4l2_actions cap_param_exception
  do_init-thrown =
      let c = init_capture_device g.capture q in
      let choice = init_capture_format q.fg_out_fmt q.in_fmt (g.device).need_conv in
      let dest = dest_of choice.dest_fmt in
      let device = record (g.device) { output_fmt = q.fg_out_fmt; need_conv = choice.need_conv } in
      let (ret, c₁, t₁) = Setup.set_cap_param d c choice.src_fmt dest g.world in
      let (mapped, c₂, t₂) = Buffers.init_capture d c₁ t₁ in
      let (converts, device₁) = init_format_converter c₂ device in
      ground (
        arith,
        look_up_ids-Fields r g.ids,
        set_cap_param-formats_set d c choice.src_fmt dest g.world,
        update_width_height-Fields r c₂ device₁ g.fields,
      )

  -- On a V4L2 device that is being captured from: where doSetVideoInputNStandard throws nothing,
  -- doGetVideoInput and doGetVideoStandard read the input and the standard asked for; otherwise it
  -- throws CaptureChannelException and they read what they read before, or VideoStandardException and
  -- they read the new input and the standard of before.
  pub do_get_video_input_std-do_set_video_input_std :
      (input_num std : ℕ) (c : CaptureDevice)
      → g.capture ≡ some c
      → let (thrown, g₁) = do_set_video_input_std (v4l2_actions d convert) input_num std g in
        let read = do_get_video_input_std (v4l2_actions d convert) g₁ in
        ((thrown ≡ none) × (read ≡ some (input_num, std)))
        ⊎ ((thrown ≡ some channel) × (read ≡ some (c.channel, c.std)))
        ⊎ ((thrown ≡ some standard) × (read ≡ some (input_num, c.std)))
  unfolding do_get_video_input_std do_set_video_input_std v4l2_actions
  do_get_video_input_std-do_set_video_input_std input_num std c e =
      rw (do_get_video_input_std, do_set_video_input_std, e)
        (ground (arith, get_video_input_std-set_video_input_std d c input_num std g.world))

  -- On a V4L2 device whose ioctl returns 0 or -1, doSetFrameIntv throws nothing where the driver took
  -- the interval as it was asked for, and else InvalidValueException: it never says that setting the
  -- interval is not supported.
  pub do_set_frame_intv-thrown :
      (num denom : ℕ)
      → ((d.on_s_parm g.world num denom).ret ≡ pos 0)
        ⊎ ((d.on_s_parm g.world num denom).ret ≡ negsuc 0)
      → let reply = d.on_s_parm g.world num denom in
        let thrown = (do_set_frame_intv (v4l2_actions d convert) num denom g).0 in
        ((thrown ≡ none)
          × (reply.ret ≡ pos 0)
          × (reply.numerator ≡ num)
          × (reply.denominator ≡ denom))
        ⊎ ((thrown ≡ some invalid_value)
            × ((reply.ret ≡ negsuc 0) ⊎ (reply.numerator ≢ num) ⊎ (reply.denominator ≢ denom)))
  unfolding do_set_frame_intv v4l2_actions
  do_set_frame_intv-thrown num denom errno = ground (arith, set_frame_intv_lem d num denom g.world)
