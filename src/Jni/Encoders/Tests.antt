-- ===== src/Jni/Encoders/Tests.antt =====
-- A run of an encoder, and the instances of the encoders' theorems.
use v4l4j.Prelude.{ℕ, ◌+◌, ◌≡◌, refl, some, [], ◌∷◌, arith}
use v4l4j.Jni.Encoders.{
  jpeg_encode_yuyv, jpeg_encode_uyvy, jpeg_encode_yvyu, jpeg_encode_rgb32, jpeg_encode_bgr32,
  jpeg_encode_rgb24, jpeg_encode_bgr24,
}
use v4l4j.Jni.Encoders.Planes.{Encodes, jpeg_encode_packed-HandsOver}
use v4l4j.Jni.Encoders.Lines.{Gives, jpeg_encode_rgb-IsFrame}

-- byte i of the source is i + 10, the buffer is empty
abbrev counting : ℕ → ℕ
counting i = i + 10

abbrev empty : ℕ → ℕ
empty i = 0

-- a compressor that takes every line
abbrev taking : ℕ → ℕ
taking n = 1

two_lines :
    jpeg_encode_bgr32 taking counting 2 2 3
    ≡ some ((12 ∷ 11 ∷ 10 ∷ 16 ∷ 15 ∷ 14 ∷ []) ∷ (20 ∷ 19 ∷ 18 ∷ 24 ∷ 23 ∷ 22 ∷ []) ∷ [])
unfolding jpeg_encode_bgr32
two_lines = refl

jpeg_encode_packed-HandsOver_example :
    Encodes jpeg_encode_yuyv 0 1 3 129 counting empty 16 8
    × Encodes jpeg_encode_uyvy 1 0 2 129 counting empty 16 8
    × Encodes jpeg_encode_yvyu 0 3 1 129 counting empty 16 8
jpeg_encode_packed-HandsOver_example =
    jpeg_encode_packed-HandsOver 129 16 8 counting empty refl (omega arith) (omega arith)
      (omega arith)

jpeg_encode_rgb-IsFrame_example :
    Gives (jpeg_encode_rgb32 taking counting 4 3 4) counting 1 2 3 4 4 3
    × Gives (jpeg_encode_bgr32 taking counting 4 3 4) counting 2 1 0 4 4 3
    × Gives (jpeg_encode_rgb24 taking counting 4 3 4) counting 0 1 2 3 4 3
    × Gives (jpeg_encode_bgr24 taking counting 4 3 4) counting 2 1 0 3 4 3
jpeg_encode_rgb-IsFrame_example =
    jpeg_encode_rgb-IsFrame counting taking 4 3 4 (λ n. refl) (omega arith) (omega arith)
