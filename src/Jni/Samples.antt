-- ===== src/Jni/Samples.antt =====
-- Devices, requests and replies for the tests of the native side.
use v4l4j.Prelude.{ℕ, true, false, none, some, []}
use v4l4j.Driver.{Trace}
use v4l4j.Capture.Records.{CaptureDevice}
use v4l4j.Jni.State.{V4l4jDevice}
use v4l4j.Jni.Grabber.{Grabber, Request}
use v4l4j.Jni.Grabber.Fields.{FieldReplies}
use v4l4j.Jni.Pointers.{BufferReplies}

-- a struct v4l4j_device as XMALLOC clears it
abbrev pub idle_device : V4l4jDevice
idle_device = record {
  convert = none;
  conversion_buffer = none;
  double_conversion_buffer = none;
  j = none;
  output_fmt = 0;
  capture_len = 0;
  need_conv = false;
  blocks = 0;
}

-- the virtual machine finds all fields
abbrev pub all_found : FieldReplies
all_found = record {
  class = true;
  sequence = true;
  time_usec = true;
  buffer_index = true;
  width = true;
  height = true;
  standard = true;
  format = true;
}

-- two buffers of RGB24 frames at 640 by 480, copied as they are
abbrev pub raw_request : Request
raw_request = record {
  num_buffers = 2;
  w = 640;
  h = 480;
  ch = 0;
  std = 1;
  in_fmt = 7;
  fg_out_fmt = 0;
}

abbrev pub idle_grabber : Grabber Trace
idle_grabber = record {
  device = idle_device;
  capture = none;
  ids = record { sequence = false; time_usec = false; buffer_index = false };
  fields = record {
    width = 0;
    height = 0;
    standard = 0;
    format = 0;
    sequence = 0;
    time_usec = 0;
    buffer_index = 0;
  };
  world = [];
}

-- a Java buffer over an array of that length
abbrev pub array_buffer : ℕ → BufferReplies
array_buffer length = record {
  direct = none;
  is_null = false;
  has_class = true;
  finds_has_array = true;
  call_throws = false;
  has_array = true;
  finds_array = true;
  gives_array = true;
  elements = some length;
}

-- libv4lconvert and an encoder that return the captured length
abbrev pub same_length : CaptureDevice → ℕ → ℕ → Trace → ℕ
same_length c index len t = len

abbrev pub captured_length : V4l4jDevice → CaptureDevice → Trace → ℕ
captured_length d c t = d.capture_len
