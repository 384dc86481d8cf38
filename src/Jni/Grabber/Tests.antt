-- ===== src/Jni/Grabber/Tests.antt =====
-- Runs of the grabber's functions, and the instances of their theorems.
use v4l4j.Prelude.{◌+◌, ◌≡◌, refl, ◌⊎◌, true, false, none, some, [], ◌∷◌, is_some, if◌then◌else◌}
use v4l4j.Driver.{Driver, Dequeued, Trace, dqbuf, qbuf}
use v4l4j.Samples.{obliging, camera}
use v4l4j.Palettes.{palette_code, get_palette_index}
use v4l4j.Capture.Standard.{set_std}
use v4l4j.Capture.Input.{set_input, set_crop}
use v4l4j.Capture.Format.{set_image_format}
use v4l4j.Capture.Setup.{set_cap_param}
use v4l4j.Capture.Buffers.{init_capture, map_buffers}
use v4l4j.Capture.Buffers.Mapping.{rev_append, mapped, unmapped}
use v4l4j.Jni.Samples.{
  idle_grabber, all_found, raw_request, array_buffer, same_length, captured_length,
}
use v4l4j.Jni.Exceptions.{generic, initialisation, format, standard, jni}
use v4l4j.Jni.Actions.{v4l2_actions}
use v4l4j.Jni.Compressor.{init_jpeg_compressor}
use v4l4j.Jni.Conversion.{init_format_converter, init_capture_format, output_jpg}
use v4l4j.Jni.Grabber.{Grabber, init_capture_device, dest_of, do_init, do_release, enqueue_buffer}
use v4l4j.Jni.Grabber.Fields.{look_up_ids}
use v4l4j.Jni.Grabber.Frames.{fill_buffer}
use v4l4j.Jni.Grabber.Balance.{IsIdle, buffers_of, leaks_double_buffer, do_release-do_init}
use v4l4j.Jni.Grabber.Mapping.{buffers_in, do_release-unmaps}
use v4l4j.Jni.Grabber.Owners.{enqueue_buffer-fill_buffer}
use v4l4j.Jni.Grabber.Thrown.{do_init-thrown}

grabbing_succeeds :
    is_some
      (do_init (v4l2_actions obliging same_length) all_found raw_request idle_grabber).2.capture
    ≡ true
unfolding do_init v4l2_actions look_up_ids init_format_converter init_capture_format set_cap_param
    init_capture map_buffers set_std set_input set_image_format set_crop palette_code
    get_palette_index
grabbing_succeeds = refl

-- No JPEG is made of the palette 0, and libv4lconvert is needed for it: the second buffer is left.
converting_grab_leaks :
    leaks_double_buffer
      (v4l2_actions (record obliging { needs_conversion = λ src dst. true }) same_length)
      all_found
      (record raw_request { fg_out_fmt = output_jpg; in_fmt = 0 })
      idle_grabber
    ≡ true
unfolding v4l2_actions look_up_ids init_format_converter init_capture_format set_cap_param
    init_capture map_buffers set_std set_input set_image_format set_crop palette_code
    get_palette_index init_jpeg_compressor init_capture_device dest_of
converting_grab_leaks = refl

do_release-do_init_example :
    let (value, thrown, g₁) =
      do_init (v4l2_actions obliging same_length) all_found raw_request idle_grabber in
    let g₂ = do_release (v4l2_actions obliging same_length) g₁ in
    let leaks =
      leaks_double_buffer (v4l2_actions obliging same_length) all_found raw_request idle_grabber in
    ((g₁.capture ≡ none)
      × (value ≡ 0)
      × (is_some thrown ≡ true)
      × ((g₁.device).blocks ≡ 0 + (if leaks then 1 else 0)))
    ⊎ ((is_some g₁.capture ≡ true)
        × (value ≡ buffers_of g₁.capture)
        × (leaks ≡ false)
        × IsIdle g₂
        × ((g₂.device).blocks ≡ 0))
do_release-do_init_example =
    do_release-do_init (v4l2_actions obliging same_length) all_found raw_request idle_grabber
      (refl, refl, refl, refl)

do_release-unmaps_example :
    let g₁ = (do_init (v4l2_actions obliging same_length) all_found raw_request idle_grabber).2 in
    let g₂ = do_release (v4l2_actions obliging same_length) g₁ in
    (mapped obliging g₂.world ≡ rev_append (buffers_in g₁.capture) [])
    × (unmapped g₂.world ≡ rev_append (buffers_in g₁.capture) [])
do_release-unmaps_example =
    do_release-unmaps obliging same_length all_found raw_request idle_grabber
      (refl, refl, refl, refl) grabbing_succeeds

do_init-thrown_example :
    let thrown =
      (do_init (v4l2_actions obliging same_length) all_found raw_request idle_grabber).1 in
    (thrown ≡ none)
    ⊎ (thrown ≡ some jni)
    ⊎ (thrown ≡ some initialisation)
    ⊎ (thrown ≡ some format)
    ⊎ (thrown ≡ some standard)
    ⊎ (thrown ≡ some generic)
do_init-thrown_example = do_init-thrown obliging same_length all_found raw_request idle_grabber

abbrev busy_grabber : Grabber Trace
busy_grabber = record idle_grabber { capture = some camera }

abbrev one_frame : Driver
one_frame = record obliging {
  on_dqbuf = λ t. some (record { index = 1; bytesused = 9; timestamp = 40; sequence = 3 });
}

enqueue_buffer-fill_buffer_example :
    let f =
      fill_buffer
        (v4l2_actions one_frame same_length)
        captured_length
        (array_buffer 10)
        0
        busy_grabber in
    let g₁ = f.grabber in
    (f.refs ≡ 0)
    × (((f.thrown ≡ some generic) × (one_frame.on_dqbuf [] ≡ none) × (g₁.world ≡ dqbuf ∷ []))
        ⊎ ((b : Dequeued) × (one_frame.on_dqbuf [] ≡ some b)
            × (((f.thrown ≡ some generic)
                  × (f.output_len ≡ 0)
                  × (g₁.world ≡ qbuf b.index ∷ dqbuf ∷ []))
                ⊎ ((f.thrown ≡ none)
                    × (g₁.world ≡ dqbuf ∷ [])
                    × ((enqueue_buffer
                          (v4l2_actions one_frame same_length)
                          (g₁.fields).buffer_index
                          g₁).world
                        ≡ qbuf b.index ∷ dqbuf ∷ [])))))
enqueue_buffer-fill_buffer_example =
    enqueue_buffer-fill_buffer one_frame same_length captured_length (array_buffer 10) 0
      busy_grabber camera refl
