-- ===== src/Jni/Conversion/Sizes.antt =====
-- The room for a JPEG image: what the encoders of src/jpeg.c tell the compressor, and the length of
-- the Java buffer by src/v4l4j_FrameGrabber.c.
use v4l4j.Prelude.{◌*◌, ◌<◌, ◌≡◌, arith}
use v4l4j.Capture.Records.{CaptureDevice}
use v4l4j.Jni.State.{V4l4jDevice}
use v4l4j.Jni.Compressor.{yuv420}
use v4l4j.Jni.Conversion.{output_jpg, rgb_size, get_buffer_length, free_in_buffer}

-- For JPEG output of YUV420 frames of w h 3 / 2 bytes, the encoder tells the compressor that there
-- is twice the room that the Java buffer has.
pub free_in_buffer-get_buffer_length :
    (c : CaptureDevice) (d : V4l4jDevice)
    → d.output_fmt ≡ output_jpg
    → c.palette ≡ yuv420
    → c.imagesize * 2 ≡ c.width * c.height * 3
    → c.width * c.height * 3 < 4_294_967_296
    → free_in_buffer c ≡ 2 * get_buffer_length c d
unfolding free_in_buffer get_buffer_length rgb_size
free_in_buffer-get_buffer_length c d out fmt size small = ground arith
