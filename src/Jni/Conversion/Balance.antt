-- ===== src/Jni/Conversion/Balance.antt =====
-- What init_format_converter allocates (src/v4l4j_FrameGrabber.c), and what is freed of it.
use v4l4j.Prelude.{◌+◌, ◌≡◌, ◌⊎◌, true, false, none, arith}
use v4l4j.Prelude.Int.{pos, negsuc}
use v4l4j.Capture.Records.{CaptureDevice}
use v4l4j.Jni.State.{V4l4jDevice, xfree}
use v4l4j.Jni.Compressor.{init_jpeg_compressor, destroy_jpeg_compressor}
use v4l4j.Jni.Conversion.{init_format_converter, release_format_converter}

-- For a device without converters: where init_format_converter returns 0,
-- release_format_converter frees all that it allocated and leaves no pointer behind. Where it
-- returns an error, the buffer of the double conversion is still allocated if the capture format is
-- not native.
pub release_format_converter-init_format_converter :
    (c : CaptureDevice) (d : V4l4jDevice)
    → d.conversion_buffer ≡ none
    → d.double_conversion_buffer ≡ none
    → d.j ≡ none
    → let (ret, d₁) = init_format_converter c d in
      let d₂ = release_format_converter c d₁ in
      ((ret ≡ pos 0)
        × (d₂.blocks ≡ d.blocks)
        × (d₂.j ≡ none)
        × (d₂.conversion_buffer ≡ none)
        × (d₂.double_conversion_buffer ≡ none))
      ⊎ ((ret ≡ negsuc 0)
          × ((c.is_native ≡ true) × (d₁.blocks ≡ d.blocks)
              ⊎ (c.is_native ≡ false) × (d₁.blocks ≡ d.blocks + 1)))
unfolding init_format_converter release_format_converter xfree init_jpeg_compressor
    destroy_jpeg_compressor
release_format_converter-init_format_converter c d p q r = ground arith
