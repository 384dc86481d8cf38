-- ===== src/Jni/Encoders/Planes.antt =====
-- What the compressor is given of interleaved 4:2:2 frames (src/jpeg.c over src/pixfmt-conv.h): the
-- conversion and the rows on the converted planes, together.
use v4l4j.Prelude.{
  ℕ, zero, suc, ◌+◌, ◌*◌, ◌/◌, ◌%◌, ◌<◌, ◌≡◌, ap, ◌∙◌, Option, some, List, get_elem?, arith,
}
use mathlib.Core.Option
use v4l4j.Jni.Pixels.{
  Cursor, convert_yuyv_to_yuv422p, convert_uyvy_to_yuv422p, convert_yvyu_to_yuv422p,
}
use v4l4j.Jni.Pixels.Planes.{IsPlanar, Converter, Converts, yuv422p-IsPlanar}
use v4l4j.Jni.Rows.Columns.{column, planes, handed_over}
use v4l4j.Jni.Rows.Planes.{jpeg_encode_yuv422p-planes}
use v4l4j.Jni.Encoders.{
  Encoded, encode_converted, jpeg_encode_yuyv, jpeg_encode_uyvy, jpeg_encode_yvyu,
}

-- Row `line` of a plane is handed over, and its bytes are these.
abbrev pub RowHolds : (ℕ → ℕ) → List ℕ → ℕ → ℕ → (ℕ → ℕ) → Type 0
RowHolds buffer rows line length bytes =
    (row : ℕ) × (get_elem? rows line ≡ some row)
    × ((x : ℕ) → x < length → buffer (row + x) ≡ bytes x)

-- Every line of the image is handed over, with its lumas and the two chromas of each pair of pixels.
pub record HandsOver (luma blue red width height : ℕ) (src : ℕ → ℕ) (e : Encoded) : Type 0 where
  pub lumas :
      (line : ℕ)
      → line < height
      → RowHolds e.buffer
          (handed_over e.calls).y
          line
          width
          λ x. src (2 * (width * line + x) + luma)
  pub blues :
      (line : ℕ)
      → line < height
      → RowHolds e.buffer
          (handed_over e.calls).cb
          line
          (width / 2)
          λ x. src (4 * (width / 2 * line + x) + blue)
  pub reds :
      (line : ℕ)
      → line < height
      → RowHolds e.buffer
          (handed_over e.calls).cr
          line
          (width / 2)
          λ x. src (4 * (width / 2 * line + x) + red)

get_elem?-column :
    (start stride n i : ℕ) → i < n → get_elem? (column start stride n) i ≡ some (start + stride * i)
unfolding column
get_elem?-column start stride zero i h = absurd (omega arith)
get_elem?-column start stride (suc n) zero h = ap some (omega arith)
get_elem?-column start stride (suc n) (suc i) h =
    get_elem?-column (start + stride) stride n i (omega arith) ∙ ap some (omega arith)

column-RowHolds :
    (buffer : ℕ → ℕ) (start stride n line : ℕ) (bytes : ℕ → ℕ)
    → line < n
    → ((x : ℕ) → x < stride → buffer (start + (stride * line + x)) ≡ bytes x)
    → RowHolds buffer (column start stride n) line stride bytes
column-RowHolds buffer start stride n line bytes h holds = (
  start + stride * line,
  get_elem?-column start stride n line h,
  λ x p. ap buffer (omega arith) ∙ holds x p,
)

in_plane : (width height line x : ℕ) → line < height → x < width → width * line + x < width * height
in_plane width height line x p q = grind arith

in_chroma :
    (width height line x : ℕ)
    → width % 2 ≡ 0
    → line < height
    → x < width / 2
    → width / 2 * line + x < width * height / 2
in_chroma width height line x even p q =
    let whole : width ≡ 2 * (width / 2) = omega arith in
    let product : width * height ≡ 2 * (width / 2 * height) =
      ap (λ (w : ℕ). w * height) whole ∙ omega arith in
    let inside : width / 2 * line + x < width / 2 * height =
      in_plane (width / 2) height line x p q in
    omega arith

-- Every plane of the converted image is handed over row by row.
encode_converted-HandsOver :
    (luma blue red width height : ℕ) (src dst : ℕ → ℕ) (c : Cursor)
    → width % 2 ≡ 0
    → width * height < 4_294_967_296
    → width * 16 < 4_294_967_296
    → IsPlanar luma blue red (width * height) src dst c.dst
    → HandsOver luma blue red width height src (encode_converted width height c)
unfolding encode_converted planes
encode_converted-HandsOver luma blue red width height src dst c even small stride is =
    let e = jpeg_encode_yuv422p-planes width height even small stride in
    record {
      lumas = λ line p. rw e (
          column-RowHolds c.dst 0 width ((height + 7) / 8 * 8) line _ (omega arith)
            (λ x q. ap c.dst (omega arith) ∙ is.lumas _ (in_plane width height line x p q)));
      blues = λ line p. rw e (
          column-RowHolds c.dst (width * height) (width / 2) ((height + 7) / 8 * 8) line _
            (omega arith) (λ x q. is.blues _ (in_chroma width height line x even p q)));
      reds = λ line p. rw e (
          column-RowHolds c.dst (width * height + width * height / 2) (width / 2)
            ((height + 7) / 8 * 8) line _ (omega arith)
            (λ x q. is.reds _ (in_chroma width height line x even p q)));
    }

-- An encoder ends, and hands over every line of the image.
abbrev pub Encodes :
    (ℕ → (ℕ → ℕ) → (ℕ → ℕ) → ℕ → ℕ → Option Encoded)
    → ℕ
    → ℕ
    → ℕ
    → ℕ
    → (ℕ → ℕ)
    → (ℕ → ℕ)
    → ℕ
    → ℕ
    → Type 0
Encodes encode luma blue red fuel src buffer width height =
    (e : Encoded) × (encode fuel src buffer width height ≡ some e)
    × HandsOver luma blue red width height src e

encodes :
    (convert : Converter) (luma blue red fuel width height : ℕ) (src buffer : ℕ → ℕ)
    → width % 2 ≡ 0
    → width * height < 4_294_967_296
    → width * 16 < 4_294_967_296
    → Converts convert luma blue red fuel src buffer width height
    → Encodes
        (λ f s b w h. Option.map (encode_converted w h) (convert f s b w h))
        luma
        blue
        red
        fuel
        src
        buffer
        width
        height
encodes convert luma blue red fuel width height src buffer even small stride (c, e, is) = (
  encode_converted width height c,
  ap (Option.map (encode_converted width height)) e,
  encode_converted-HandsOver luma blue red width height src buffer c even small stride is,
)

even_area : (width height : ℕ) → width % 2 ≡ 0 → (width * height) % 2 ≡ 0
even_area width height even =
    let whole : width ≡ 2 * (width / 2) = omega arith in
    let product : width * height ≡ 2 * (width / 2 * height) =
      ap (λ (w : ℕ). w * height) whole ∙ omega arith in
    omega arith

-- For an even width, and counts that fit in 32 bits, the encoders for YUYV, UYVY and YVYU end with
-- fuel above the number of pixels, and the compressor is given every line of the frame: row `line`
-- of the luma plane holds the lumas of that line's pixels, and the rows of the chroma planes the two
-- chromas of each of its pairs of pixels, each from its place in the frame of the driver.
pub jpeg_encode_packed-HandsOver :
    (fuel width height : ℕ) (src buffer : ℕ → ℕ)
    → width % 2 ≡ 0
    → width * height < 4_294_967_296
    → width * 16 < 4_294_967_296
    → width * height < fuel
    → Encodes jpeg_encode_yuyv 0 1 3 fuel src buffer width height
      × Encodes jpeg_encode_uyvy 1 0 2 fuel src buffer width height
      × Encodes jpeg_encode_yvyu 0 3 1 fuel src buffer width height
unfolding jpeg_encode_yuyv jpeg_encode_uyvy jpeg_encode_yvyu
jpeg_encode_packed-HandsOver fuel width height src buffer even small stride enough =
    let (yuyv, uyvy, yvyu) =
      yuv422p-IsPlanar fuel width height src buffer small (even_area width height even) enough in
    (
      encodes convert_yuyv_to_yuv422p 0 1 3 fuel width height src buffer even small stride yuyv,
      encodes convert_uyvy_to_yuv422p 1 0 2 fuel width height src buffer even small stride uyvy,
      encodes convert_yvyu_to_yuv422p 0 3 1 fuel width height src buffer even small stride yvyu,
    )
