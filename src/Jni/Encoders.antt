-- ===== src/Jni/Encoders.antt =====
-- The encoders of src/jpeg.c on top of the conversions: jpeg_encode_yuyv, jpeg_encode_uyvy,
-- jpeg_encode_yvyu and those for RGB24, BGR24, RGB32 and BGR32, as far as the pixels that they give to
-- the JPEG compressor. The compressor is an argument: how many lines a call of
-- jpeg_write_scanlines with one line takes, from the lines that were taken before.
pub mod Planes
pub mod Lines
mod Tests
use v4l4j.Prelude.{ℕ, zero, suc, ◌+◌, ◌*◌, ◌%◌, true, false, Option, none, some, List, [], ◌∷◌, ltb}
use mathlib.Core.Option
use v4l4j.Jni.Pixels.{
  Cursor, convert_yuyv_to_yuv422p, convert_uyvy_to_yuv422p, convert_yvyu_to_yuv422p,
}
use v4l4j.Jni.Rows.{Rows, jpeg_encode_yuv422p}
use v4l4j.Jni.Mjpeg.{copy}

-- The conversion buffer as the compressor finds it, and the rows of each call.
pub record Encoded : Type 0 where
  pub buffer : ℕ → ℕ
  pub calls : List Rows

encode_converted : ℕ → ℕ → Cursor → Encoded
encode_converted width height c = record {
  buffer = c.dst;
  calls = jpeg_encode_yuv422p width height;
}

-- `none` is a conversion that does not end; `buffer` is the conversion buffer before.
pub jpeg_encode_yuyv : ℕ → (ℕ → ℕ) → (ℕ → ℕ) → ℕ → ℕ → Option Encoded
unfolding encode_converted
jpeg_encode_yuyv fuel src buffer width height =
    Option.map (encode_converted width height)
      (convert_yuyv_to_yuv422p fuel src buffer width height)

pub jpeg_encode_uyvy : ℕ → (ℕ → ℕ) → (ℕ → ℕ) → ℕ → ℕ → Option Encoded
unfolding encode_converted
jpeg_encode_uyvy fuel src buffer width height =
    Option.map (encode_converted width height)
      (convert_uyvy_to_yuv422p fuel src buffer width height)

pub jpeg_encode_yvyu : ℕ → (ℕ → ℕ) → (ℕ → ℕ) → ℕ → ℕ → Option Encoded
unfolding encode_converted
jpeg_encode_yvyu fuel src buffer width height =
    Option.map (encode_converted width height)
      (convert_yvyu_to_yuv422p fuel src buffer width height)

-- The inner loop of the RGB encoders: three bytes for each pixel, from their places in it.
packed_line : (ℕ → ℕ) → ℕ → ℕ → ℕ → ℕ → ℕ → ℕ → List ℕ
packed_line mem red green blue size zero src = []
packed_line mem red green blue size (suc n) src =
    mem (src + red)
    ∷ mem (src + green)
    ∷ mem (src + blue)
    ∷ packed_line mem red green blue size n (src + size)

module _ (write_scanlines : ℕ → ℕ) (mem : ℕ → ℕ) (width height : ℕ) where
  -- while (cinfo->next_scanline < height) with the lines given to the compressor; `src` moves on by a
  -- line in every round. `none` is a loop that has not ended within the fuel.
  encode_packed : ℕ → ℕ → ℕ → ℕ → ℕ → ℕ → ℕ → Option (List (List ℕ))
  unfolding packed_line
  encode_packed red green blue size zero next src = none
  encode_packed red green blue size (suc fuel) next src = elim (ltb next height) [
    | false ↦ some []
    | true ↦
        Option.map (λ ls. packed_line mem red green blue size width src ∷ ls)
          (encode_packed red green blue size fuel (next + write_scanlines next)
            (src + size * width))
  ]

  -- The same loop of jpeg_encode_rgb24, where the line is found by next_scanline.
  encode_lines : ℕ → ℕ → Option (List (List ℕ))
  unfolding copy
  encode_lines zero next = none
  encode_lines (suc fuel) next = elim (ltb next height) [
    | false ↦ some []
    | true ↦
        Option.map
          (λ ls. copy mem ((next * ((width * 3) % 4_294_967_296)) % 4_294_967_296) (width * 3) ∷ ls)
          (encode_lines fuel (next + write_scanlines next))
  ]

  pub jpeg_encode_rgb32 : ℕ → Option (List (List ℕ))
  unfolding encode_packed
  jpeg_encode_rgb32 fuel = encode_packed 1 2 3 4 fuel 0 0

  pub jpeg_encode_bgr32 : ℕ → Option (List (List ℕ))
  unfolding encode_packed
  jpeg_encode_bgr32 fuel = encode_packed 2 1 0 4 fuel 0 0

  pub jpeg_encode_rgb24 : ℕ → Option (List (List ℕ))
  unfolding encode_lines
  jpeg_encode_rgb24 fuel = encode_lines fuel 0

  pub jpeg_encode_bgr24 : ℕ → Option (List (List ℕ))
  unfolding encode_packed
  jpeg_encode_bgr24 fuel = encode_packed 2 1 0 3 fuel 0 0
