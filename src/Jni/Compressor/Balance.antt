-- ===== src/Jni/Compressor/Balance.antt =====
-- What init_jpeg_compressor allocates is what destroy_jpeg_compressor frees.
use v4l4j.Prelude.{◌≡◌, ◌⊎◌, true, none, is_some, arith}
use v4l4j.Prelude.Int.{ℤ, pos, negsuc}
use v4l4j.Capture.Records.{CaptureDevice}
use v4l4j.Jni.State.{V4l4jDevice, xfree}
use v4l4j.Jni.Compressor.{
  init_jpeg_compressor, destroy_jpeg_compressor, set_up_yuv420, set_up_packed, set_up_rgb,
  packed_encoder, free_jpeg_data,
}

-- For a device without a conversion buffer: where init_jpeg_compressor returns 0 it has installed
-- an encoder, and destroy_jpeg_compressor then frees all it allocated and leaves no pointer behind;
-- where it returns an error it has freed its one block itself.
pub destroy_jpeg_compressor-init_jpeg_compressor :
    (c : CaptureDevice) (q : ℤ) (d : V4l4jDevice)
    → d.conversion_buffer ≡ none
    → let (ret, d₁) = init_jpeg_compressor c q d in
      let d₂ = destroy_jpeg_compressor c d₁ in
      ((ret ≡ pos 0)
        × (is_some d₁.convert ≡ true)
        × (d₂.blocks ≡ d.blocks)
        × (d₂.j ≡ none)
        × (d₂.conversion_buffer ≡ none))
      ⊎ ((ret ≡ negsuc 0) × (d₁.blocks ≡ d.blocks) × (d₁.j ≡ none) × (d₁.conversion_buffer ≡ none))
unfolding init_jpeg_compressor destroy_jpeg_compressor free_jpeg_data packed_encoder set_up_yuv420
    set_up_packed set_up_rgb xfree
destroy_jpeg_compressor-init_jpeg_compressor c q d clean = ground arith
