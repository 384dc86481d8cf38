-- ===== src/Jni/Actions.antt =====
-- struct capture_actions (libvideo/libvideo.h), the table of functions through which src/ reaches
-- a capture device, over the state W of what is below libvideo; and the table that
-- setup_capture_actions_v4l2 (libvideo/v4l2-input.c) fills.
use v4l4j.Prelude.{ℕ, ◌%◌, Option}
use v4l4j.Prelude.Int.{ℤ}
use v4l4j.Driver.{Driver, Trace, Dequeued}
use v4l4j.Capture.Records.{CaptureDevice}
use v4l4j.Capture.Setup
use v4l4j.Capture.Buffers
use v4l4j.Capture.Input

-- `convert_buffer` returns the length of the result.
pub record CaptureActions (W : Type 0) : Type 0 where
  pub set_cap_param : CaptureDevice → ℕ → ℕ → W → ℤ × CaptureDevice × W
  pub set_frame_interval : ℕ → ℕ → W → ℤ × W
  pub get_frame_interval : W → ℤ × Option (ℕ × ℕ) × W
  pub set_video_input_std : CaptureDevice → ℕ → ℕ → W → ℤ × CaptureDevice × W
  pub get_video_input_std : CaptureDevice → ℕ × ℕ
  pub init_capture : CaptureDevice → W → ℤ × CaptureDevice × W
  pub start_capture : CaptureDevice → W → ℤ × W
  pub dequeue_buffer : CaptureDevice → W → Option (Dequeued × Option ℕ) × W
  pub enqueue_buffer : ℕ → W → W
  pub convert_buffer : CaptureDevice → ℕ → ℕ → W → ℕ
  pub stop_capture : W → ℤ × W
  pub free_capture : CaptureDevice → W → CaptureDevice × W

-- libv4lconvert's conversion is an argument: the length that v4lconvert_convert returns for a
-- buffer, cast to unsigned.
unfoldable pub v4l2_actions : Driver → (CaptureDevice → ℕ → ℕ → Trace → ℕ) → CaptureActions Trace
v4l2_actions d convert = record {
  set_cap_param = Setup.set_cap_param d;
  set_frame_interval = Input.set_frame_intv d;
  get_frame_interval = Input.get_frame_intv d;
  set_video_input_std = Input.set_video_input_std d;
  get_video_input_std = Input.get_video_input_std;
  init_capture = Buffers.init_capture d;
  start_capture = Buffers.start_capture d;
  dequeue_buffer = Buffers.dequeue_buffer d;
  enqueue_buffer = Buffers.enqueue_buffer d;
  convert_buffer = λ c index len t. convert c index len t % 4_294_967_296;
  stop_capture = Buffers.stop_capture d;
  free_capture = Buffers.free_capture;
}
