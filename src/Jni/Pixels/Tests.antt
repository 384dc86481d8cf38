-- ===== src/Jni/Pixels/Tests.antt =====
-- Runs of the pixel conversions, and the instances of their theorems.
use v4l4j.Prelude.{ℕ, ◌+◌, ◌≡◌, refl, Option, none, some, List, [], ◌∷◌, map, arith}
use v4l4j.Jni.Pixels.{
  Cursor, convert_yuyv_to_yuv422p, convert_uyvy_to_yuv422p, convert_yvyu_to_yuv422p,
}
use v4l4j.Jni.Pixels.Planes.{Converts, yuv422p-IsPlanar}

-- byte i of the source is i + 10, the destination is empty
abbrev counting : ℕ → ℕ
counting i = i + 10

abbrev empty : ℕ → ℕ
empty i = 0

abbrev offsets : List ℕ
offsets = 0 ∷ 1 ∷ 2 ∷ 3 ∷ 4 ∷ 5 ∷ 6 ∷ 7 ∷ 8 ∷ []

abbrev bytes : Option Cursor → Option (List ℕ)
bytes none = none
bytes (some c) = some (map c.dst offsets)

repacked_yuyv :
    bytes (convert_yuyv_to_yuv422p 5 counting empty 2 2)
    ≡ some (10 ∷ 12 ∷ 14 ∷ 16 ∷ 11 ∷ 15 ∷ 13 ∷ 17 ∷ 0 ∷ [])
unfolding convert_yuyv_to_yuv422p
repacked_yuyv = refl

yuv422p-IsPlanar_example :
    Converts convert_yuyv_to_yuv422p 0 1 3 5 counting empty 2 2
    × Converts convert_uyvy_to_yuv422p 1 0 2 5 counting empty 2 2
    × Converts convert_yvyu_to_yuv422p 0 3 1 5 counting empty 2 2
yuv422p-IsPlanar_example = yuv422p-IsPlanar 5 2 2 counting empty (omega arith) refl (omega arith)
