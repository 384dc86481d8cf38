-- ===== src/Jni/Grabber/Frames.antt =====
-- fillBuffer of src/v4l4j_FrameGrabber.c: a frame is dequeued, converted where that is needed, and
-- put in the memory behind a Java buffer.
use v4l4j.Prelude.{◌%◌, ℕ, Option, none, some, if◌then◌else◌}
use v4l4j.Driver.{Dequeued}
use v4l4j.Capture.Records.{CaptureDevice}
use v4l4j.Jni.State.{V4l4jDevice}
use v4l4j.Jni.Exceptions.{Exception, generic}
use v4l4j.Jni.Actions.{CaptureActions}
use v4l4j.Jni.Pointers.{BufferReplies, null, direct, elements, get_buffer_pointer, release}
use v4l4j.Jni.Grabber.{Grabber}
use v4l4j.Jni.Grabber.Fields.{JavaFields}

-- The length returned, the exception thrown, the local references held, and the grabber.
pub record Filled (W : Type 0) : Type 0 where
  pub output_len : ℕ
  pub thrown : Option Exception
  pub refs : ℕ
  pub grabber : Grabber W

-- The three fields of the Java object; the time is the driver's, in microseconds.
unfoldable pub record_frame : Dequeued → JavaFields → JavaFields
record_frame b f = record f {
  sequence = b.sequence;
  time_usec = b.timestamp;
  buffer_index = b.index;
}

-- `encode` is the length that (*d->convert) returns for the frame.
module _ {W : Type 0} (actions : CaptureActions W)
    (encode : V4l4jDevice → CaptureDevice → W → ℕ) where
  -- The length of the output: libv4lconvert, the encoder, both, or a copy of the frame.
  output_length : CaptureDevice → V4l4jDevice → Dequeued → W → ℕ
  output_length c d b t =
      if c.is_native
      then (if d.need_conv then encode d c t % 4_294_967_296 else d.capture_len)
      else if d.need_conv
      then encode d c t % 4_294_967_296
      else actions.convert_buffer c b.index d.capture_len t

  unfoldable pub fill_frame :
      CaptureDevice → Dequeued → BufferReplies → ℕ → W → Grabber W → Filled W
  unfolding output_length record_frame
  fill_frame c b r refs t g =
      let d = record (g.device) { capture_len = b.bytesused } in
      let g₁ = record g { device = d; world = t } in
      let (pointer, thrown, refs₁) = get_buffer_pointer r refs in
      let filled : Filled W = record {
        output_len = output_length c d b t;
        thrown = none;
        refs = release pointer refs₁;
        grabber = record g₁ { fields = record_frame b g.fields };
      } in
      elim pointer [
        | null ↦ record {
          output_len = 0;
          thrown = some generic;
          refs = refs₁;
          grabber = record g₁ { world = actions.enqueue_buffer b.index t };
        }
        | direct len ↦ filled
        | elements len ↦ filled
      ]

  -- What follows the frame's dequeueing; `none` is a NULL frame.
  unfoldable pub fill_dequeued :
      CaptureDevice → Option (Dequeued × Option ℕ) → W → BufferReplies → ℕ → Grabber W → Filled W
  unfolding fill_frame
  fill_dequeued c none t r refs g = record {
    output_len = 0;
    thrown = some generic;
    refs = refs;
    grabber = record g { world = t };
  }
  fill_dequeued c (some frame) t r refs g = fill_frame c frame.0 r refs t g

  -- A device that is not captured from has no functions to call; nothing is done then here.
  unfoldable pub fill_captured : Option CaptureDevice → BufferReplies → ℕ → Grabber W → Filled W
  unfolding fill_dequeued
  fill_captured none r refs g = record { output_len = 0; thrown = none; refs = refs; grabber = g }
  fill_captured (some c) r refs g =
      let (dequeued, t) = actions.dequeue_buffer c g.world in fill_dequeued c dequeued t r refs g

  unfoldable pub fill_buffer : BufferReplies → ℕ → Grabber W → Filled W
  unfolding fill_captured
  fill_buffer r refs g = fill_captured g.capture r refs g
