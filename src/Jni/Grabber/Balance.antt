-- ===== src/Jni/Grabber/Balance.antt =====
-- What doInit (src/v4l4j_FrameGrabber.c) holds after each of its ends, and what doRelease frees of
-- it.
use v4l4j.Prelude.{
  ℕ, ◌+◌, ◌≡◌, ◌⊎◌, Bool, true, false, ◌&&◌, not, if◌then◌else◌, Option, none, some, is_some, arith,
}
use v4l4j.Capture.Records.{CaptureDevice}
use v4l4j.Prelude.Int.{pos, negsuc, eqb_ℤ, ltb_ℤ}
use v4l4j.Jni.Actions.{CaptureActions}
use v4l4j.Jni.Conversion.{init_capture_format, init_format_converter}
use v4l4j.Jni.Conversion.Balance.{release_format_converter-init_format_converter}
use v4l4j.Jni.Grabber.{Grabber, Request, do_init, do_release, init_capture_device, dest_of}
use v4l4j.Jni.Grabber.Fields.{FieldIds, FieldReplies, look_up_ids}

look_up_ids-thrown :
    (r : FieldReplies) (ids : FieldIds)
    → (look_up_ids r ids).0 ≡ false
    → is_some (look_up_ids r ids).1 ≡ true
unfolding look_up_ids
look_up_ids-thrown r ids e = ground arith

-- A device that no grabber uses: no capture interface and no converters.
abbrev pub IsIdle : {W : Type 0} → Grabber W → Type 0
IsIdle g =
    (g.capture ≡ none)
    × ((g.device).conversion_buffer ≡ none)
    × ((g.device).double_conversion_buffer ≡ none)
    × ((g.device).j ≡ none)

-- the number of buffers of a capture interface
abbrev pub buffers_of : Option CaptureDevice → ℕ
buffers_of none = 0
buffers_of (some c) = (c.mmap).buffer_nr

module _ {W : Type 0} (actions : CaptureActions W) (r : FieldReplies) (q : Request)
    (g : Grabber W) where
  -- whether doInit comes as far as init_format_converter, the capture format is not native, and
  -- init_format_converter fails
  abbrev pub leaks_double_buffer : Bool
  leaks_double_buffer =
      let choice = init_capture_format q.fg_out_fmt q.in_fmt (g.device).need_conv in
      let d = record (g.device) { output_fmt = q.fg_out_fmt; need_conv = choice.need_conv } in
      let (ret, c₁, t₁) =
        actions.set_cap_param (init_capture_device g.capture q) choice.src_fmt
          (dest_of choice.dest_fmt) g.world in
      let (mapped, c₂, t₂) = actions.init_capture c₁ t₁ in
      (look_up_ids r g.ids).0
      && not (eqb_ℤ choice.ret (negsuc 0))
      && eqb_ℤ ret (pos 0)
      && not (ltb_ℤ mapped (pos 0))
      && not c₂.is_native
      && not (eqb_ℤ (init_format_converter c₂ d).0 (pos 0))

  -- For any implementation of the capture functions, doInit on an idle device either throws,
  -- returns 0 and leaves no capture interface; the blocks that the struct v4l4j_device holds for
  -- conversion are then as they were, and one more exactly where init_format_converter was reached
  -- and failed and the capture format is not native. Or it leaves a capture interface and returns
  -- its number of buffers, and doRelease then frees the interface, these blocks and their pointers.
  pub do_release-do_init :
      IsIdle g
      → let (value, thrown, g₁) = do_init actions r q g in
        let g₂ = do_release actions g₁ in
        ((g₁.capture ≡ none)
          × (value ≡ 0)
          × (is_some thrown ≡ true)
          × ((g₁.device).blocks ≡ (g.device).blocks + (if leaks_double_buffer then 1 else 0)))
        ⊎ ((is_some g₁.capture ≡ true)
            × (value ≡ buffers_of g₁.capture)
            × (leaks_double_buffer ≡ false)
            × IsIdle g₂
            × ((g₂.device).blocks ≡ (g.device).blocks))
  unfolding do_init do_release
  do_release-do_init idle =
      let (ids_ok, ids_thrown, ids) = look_up_ids r g.ids in
      let c = init_capture_device g.capture q in
      let choice = init_capture_format q.fg_out_fmt q.in_fmt (g.device).need_conv in
      let d = record (g.device) { output_fmt = q.fg_out_fmt; need_conv = choice.need_conv } in
      let (ret, c₁, t₁) =
        actions.set_cap_param c choice.src_fmt (dest_of choice.dest_fmt) g.world in
      let (mapped, c₂, t₂) = actions.init_capture c₁ t₁ in
      ground (
        arith,
        look_up_ids-thrown r g.ids,
        release_format_converter-init_format_converter c₂ d idle.1 idle.2 idle.3,
      )
