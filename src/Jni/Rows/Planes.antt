-- ===== src/Jni/Rows/Planes.antt =====
-- The rows handed to the compressor are those of the image's planes in their order, and for which
-- images they all lie within the planes.
use v4l4j.Prelude.{
  ℕ, zero, suc, ◌+◌, ◌*◌, ◌/◌, ◌%◌, ◌<◌, ◌≡◌, refl, ap, ap₂, ◌∙◌, true, false, ◌∷◌, ◌==◌, arith,
}
use v4l4j.Jni.Rows.{uint, rows_420, rows_422, jpeg_encode_yuv420, jpeg_encode_yuv422p}
use v4l4j.Jni.Rows.Columns.{column, handed_over, planes, rows_eq, written-planes}

module _ (width half height size : ℕ) where
  -- The first loop of jpeg_encode_yuv420 from the line 2 l on, for 2 m lines.
  rows_420-column :
      (m n line l : ℕ)
      → n ≡ 2 * m
      → line ≡ 2 * l
      → width ≡ 2 * half
      → size ≡ width * height
      → size < 4_294_967_296
      → width * (line + n) < 4_294_967_296
      → rows_420 width height n line ≡ record {
        y = column (width * line) width n;
        cb = column (size + half * l) half m;
        cr = column (size + half * l + size / 4) half m;
      }
  unfolding rows_420 column uint
  rows_420-column zero zero line l e f g p q r = refl
  rows_420-column zero (suc n) line l e f g p q r = absurd (omega arith)
  rows_420-column (suc m) zero line l e f g p q r = absurd (omega arith)
  rows_420-column (suc m) (suc zero) line l e f g p q r = absurd (omega arith)
  rows_420-column (suc m) (suc (suc n)) line l e f g p q r =
      let even : (line % 2 == 0) ≡ true = ground arith in
      let odd : ((line + 1) % 2 == 0) ≡ false = ground arith in
      let quarter : width * line ≡ 4 * (half * l) = rw (g, f) (omega arith) in
      let y₀ : uint (width * line) ≡ width * line = omega arith in
      let y₁ : uint (width * (line + 1)) ≡ width * line + width = omega arith in
      let y₂ : width * (line + 1 + 1) ≡ width * line + width + width = omega arith in
      let cb₀ : uint (width * height) + uint (width * line) / 4 ≡ size + half * l = omega arith in
      let cb₁ : size + half * (l + 1) ≡ size + half * l + half = omega arith in
      let cr₀ : uint (width * height) + uint (width * line) / 4 + uint (width * height) / 4
          ≡ size + half * l + size / 4 =
        omega arith in
      let cr₁ : size + half * (l + 1) + size / 4 ≡ size + half * l + size / 4 + half =
        omega arith in
      let ih =
        rows_420-column m n (line + 1 + 1) (l + 1) (omega arith) (omega arith) g p q
          (omega arith) in
      rw (even, odd, ih)
        (rows_eq (ap₂ ◌∷◌ y₀ (ap₂ ◌∷◌ y₁ (ap (λ a. column a width n) y₂)))
          (ap₂ ◌∷◌ cb₀ (ap (λ a. column a half m) cb₁))
          (ap₂ ◌∷◌ cr₀ (ap (λ a. column a half m) cr₁)))

  -- The same for jpeg_encode_yuv422p, for n lines.
  rows_422-column :
      (n line : ℕ)
      → width ≡ 2 * half
      → size ≡ width * height
      → size < 4_294_967_296
      → width * (line + n) < 4_294_967_296
      → rows_422 width height n line ≡ record {
        y = column (width * line) width n;
        cb = column (size + half * line) half n;
        cr = column (size + half * line + size / 2) half n;
      }
  unfolding rows_422 column uint
  rows_422-column zero line g p q r = refl
  rows_422-column (suc n) line g p q r =
      let double : width * line ≡ 2 * (half * line) = rw g (omega arith) in
      let y₀ : uint (width * line) ≡ width * line = omega arith in
      let y₁ : width * (line + 1) ≡ width * line + width = omega arith in
      let cb₀ : uint (width * height) + uint (width * line) / 2 ≡ size + half * line =
        omega arith in
      let cb₁ : size + half * (line + 1) ≡ size + half * line + half = omega arith in
      let cr₀ : uint (width * height) + uint (width * line) / 2 + uint (width * height) / 2
          ≡ size + half * line + size / 2 =
        omega arith in
      let cr₁ : size + half * (line + 1) + size / 2 ≡ size + half * line + size / 2 + half =
        omega arith in
      let ih = rows_422-column n (line + 1) g p q (omega arith) in
      rw ih (
        rows_eq (ap₂ ◌∷◌ y₀ (ap (λ a. column a width n) y₁))
          (ap₂ ◌∷◌ cb₀ (ap (λ a. column a half n) cb₁))
          (ap₂ ◌∷◌ cr₀ (ap (λ a. column a half n) cr₁)))

start_420 :
    (width height : ℕ)
    → width % 2 ≡ 0
    → width * height < 4_294_967_296
    → width * 16 < 4_294_967_296
    → rows_420 width height 16 0
      ≡ planes 16 8 width (width / 2) 0 (width * height) (width * height + width * height / 4) 1
unfolding planes
start_420 width height even small stride =
    rows_420-column width (width / 2) height (width * height) 8 16 0 0 refl refl (omega arith) refl
      small (omega arith)
    ∙ rows_eq (ap (λ a. column a width 16) (omega arith))
        (ap (λ a. column a (width / 2) 8) (omega arith))
        (ap (λ a. column a (width / 2) 8) (omega arith))

start_422 :
    (width height : ℕ)
    → width % 2 ≡ 0
    → width * height < 4_294_967_296
    → width * 16 < 4_294_967_296
    → rows_422 width height 8 0
      ≡ planes 8 8 width (width / 2) 0 (width * height) (width * height + width * height / 2) 1
unfolding planes
start_422 width height even small stride =
    rows_422-column width (width / 2) height (width * height) 8 0 (omega arith) refl small
      (omega arith)
    ∙ rows_eq (ap (λ a. column a width 8) (omega arith))
        (ap (λ a. column a (width / 2) 8) (omega arith))
        (ap (λ a. column a (width / 2) 8) (omega arith))

-- For an even width, and counts that fit in 32 bits, jpeg_encode_yuv420 hands over the rows of the
-- three planes in their order and without a gap, each plane from its start: 16 luma rows and 8 of
-- each chroma in every one of the ⌈height / 16⌉ calls.
pub jpeg_encode_yuv420-planes :
    (width height : ℕ)
    → width % 2 ≡ 0
    → width * height < 4_294_967_296
    → width * 16 < 4_294_967_296
    → handed_over (jpeg_encode_yuv420 width height)
      ≡ planes 16 8 width
          (width / 2)
          0
          (width * height)
          (width * height + width * height / 4)
          ((height + 15) / 16)
unfolding jpeg_encode_yuv420 uint
jpeg_encode_yuv420-planes width height even small stride =
    rw (start_420 width height even small stride) (
      written-planes 16 8 width (width / 2) _ _ height height 0 _ _ _ _ (omega arith) (omega arith)
        (omega arith) (omega arith) (omega arith))

-- For an even width, and counts that fit in 32 bits, jpeg_encode_yuv422p hands over the rows of
-- the three planes in their order and without a gap: 8 rows of each in every one of the
-- ⌈height / 8⌉ calls.
pub jpeg_encode_yuv422p-planes :
    (width height : ℕ)
    → width % 2 ≡ 0
    → width * height < 4_294_967_296
    → width * 16 < 4_294_967_296
    → handed_over (jpeg_encode_yuv422p width height)
      ≡ planes 8 8 width
          (width / 2)
          0
          (width * height)
          (width * height + width * height / 2)
          ((height + 7) / 8)
unfolding jpeg_encode_yuv422p uint
jpeg_encode_yuv422p-planes width height even small stride =
    rw (start_422 width height even small stride) (
      written-planes 8 8 width (width / 2) _ _ height height 0 _ _ _ _ (omega arith) (omega arith)
        (omega arith) (omega arith) (omega arith))
