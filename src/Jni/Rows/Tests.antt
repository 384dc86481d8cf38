-- ===== src/Jni/Rows/Tests.antt =====
-- Runs of the row set-up, and the instances of its theorems.
use v4l4j.Prelude.{◌%◌, ◌≡◌, refl, ◌↔◌, true, arith}
use v4l4j.Jni.Rows.{jpeg_encode_yuv420}
use v4l4j.Jni.Rows.Columns.{handed_over}
use v4l4j.Jni.Rows.Bounds.{frame_fits, jpeg_encode_yuv420-fits}

-- 1080 lines are no multiple of 16
jpeg_encode_yuv420-fits_example :
    (frame_fits 3110400 1920 (handed_over (jpeg_encode_yuv420 1920 1080)) ≡ true) ↔ (1080 % 16 ≡ 0)
jpeg_encode_yuv420-fits_example =
    jpeg_encode_yuv420-fits 1920 1080 (omega arith) (omega arith) refl refl (omega arith)
      (omega arith)
