-- ===== src/Jni/Grabber/Mapping.antt =====
-- The memory that doInit and doRelease (src/v4l4j_FrameGrabber.c) map and unmap through the
-- functions for V4L2.
use v4l4j.Prelude.{ℕ, ◌≡◌, true, Option, none, some, List, [], is_some, arith}
use v4l4j.Driver.{Driver, Trace}
use v4l4j.Capture.Records.{CaptureDevice, Buffer}
use v4l4j.Capture.Standard.{set_std}
use v4l4j.Capture.Input.{set_input, set_crop}
use v4l4j.Capture.Format.{set_image_format}
use v4l4j.Capture.Setup.{set_cap_param}
use v4l4j.Capture.Buffers.Mapping.{
  rev_append, mapped, unmapped, init_capture-sign, free_capture-init_capture,
}
use v4l4j.Jni.Actions.{v4l2_actions}
use v4l4j.Jni.Conversion.{init_capture_format}
use v4l4j.Jni.Grabber.{Grabber, Request, do_init, do_release, init_capture_device, dest_of}
use v4l4j.Jni.Grabber.Fields.{FieldReplies}
use v4l4j.Jni.Grabber.Balance.{IsIdle}

-- The two lists of buffers of a trace.
abbrev Same : Driver → Trace → Trace → Type 0
Same d t t' = (mapped d t' ≡ mapped d t) × (unmapped t' ≡ unmapped t)

module _ (d : Driver) where
  Same-set_std : (c : CaptureDevice) (t : Trace) → Same d t (set_std d c t).2
  unfolding set_std
  Same-set_std c t = ground arith

  Same-set_input : (c : CaptureDevice) (t : Trace) → Same d t (set_input d c t).2
  unfolding set_input
  Same-set_input c t = ground arith

  Same-set_image_format :
      (c : CaptureDevice) (native output : ℕ) (t : Trace)
      → Same d t (set_image_format d c native output t).2
  unfolding set_image_format
  Same-set_image_format c native output t = ground arith

  Same-set_crop : (c : CaptureDevice) (t : Trace) → Same d t (set_crop d c t).1
  unfolding set_crop
  Same-set_crop c t = ground arith

  Same-set_cap_param :
      (c : CaptureDevice) (src dest : ℕ) (t : Trace) → Same d t (set_cap_param d c src dest t).2
  unfolding set_cap_param
  Same-set_cap_param c src dest t =
      let (std_ok, c₁, t₁) = set_std d c t in
      let (input_ok, c₂, t₂) = set_input d c₁ t₁ in
      let (format_ok, c₃, t₃) = set_image_format d c₂ src dest t₂ in
      ground (
        arith,
        Same-set_std c t,
        Same-set_input c₁ t₁,
        Same-set_image_format c₂ src dest t₂,
        Same-set_crop c₃ t₃,
      )

-- the buffers of a capture interface
abbrev pub buffers_in : Option CaptureDevice → List Buffer
buffers_in none = []
buffers_in (some c) = (c.mmap).buffers

module _ (d : Driver) (convert : CaptureDevice → ℕ → ℕ → Trace → ℕ) (r : FieldReplies) (q : Request)
    (g : Grabber Trace) where
  -- On a V4L2 device that was idle, when doInit leaves a capture interface, every buffer mapped
  -- since is one of the interface's, and doRelease unmaps each of them once, in the order of mapping.
  pub do_release-unmaps :
      IsIdle g
      → is_some (do_init (v4l2_actions d convert) r q g).2.capture ≡ true
      → let g₁ = (do_init (v4l2_actions d convert) r q g).2 in
        let g₂ = do_release (v4l2_actions d convert) g₁ in
        (mapped d g₂.world ≡ rev_append (buffers_in g₁.capture) (mapped d g.world))
        × (unmapped g₂.world ≡ rev_append (buffers_in g₁.capture) (unmapped g.world))
  unfolding do_init do_release v4l2_actions
  do_release-unmaps idle some_capture =
      let c = init_capture_device g.capture q in
      let choice = init_capture_format q.fg_out_fmt q.in_fmt (g.device).need_conv in
      let dest = dest_of choice.dest_fmt in
      let (ret, c₁, t₁) = set_cap_param d c choice.src_fmt dest g.world in
      ground (
        arith,
        idle,
        Same-set_cap_param d c choice.src_fmt dest g.world,
        init_capture-sign d c₁ t₁,
        free_capture-init_capture d c₁ t₁,
      )
