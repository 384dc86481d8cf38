-- ===== src/Jni/Rows/Bounds.antt =====
-- For which images the rows handed to the compressor lie within the planes.
use v4l4j.Prelude.{
  ℕ, zero, suc, ◌+◌, ◌*◌, ◌/◌, ◌%◌, ◌≤◌, ◌<◌, ◌≡◌, refl, ap, ap₂, ◌∙◌, ◌↔◌, Bool, true, List, [],
  ◌∷◌, leb, ◌&&◌, arith,
}
use native.Mathlib.Nat.{le_of_mul-le-mul_right}
use v4l4j.Jni.Rows.{Rows, jpeg_encode_yuv420, jpeg_encode_yuv422p}
use v4l4j.Jni.Rows.Columns.{column, planes, handed_over}
use v4l4j.Jni.Rows.Planes.{jpeg_encode_yuv420-planes, jpeg_encode_yuv422p-planes}

-- whether rows of `n` bytes end within `size` bytes
rows_fit : ℕ → ℕ → List ℕ → Bool
rows_fit size n [] = true
rows_fit size n (row ∷ rows) = leb (row + n) size && rows_fit size n rows

-- whether all rows of an image of this width end within `size` bytes
pub frame_fits : ℕ → ℕ → Rows → Bool
unfolding rows_fit
frame_fits size width rows =
    rows_fit size width rows.y
    && rows_fit size (width / 2) rows.cb
    && rows_fit size (width / 2) rows.cr

column-fits :
    (size w start n : ℕ) → start + n * w ≤ size → rows_fit size w (column start w n) ≡ true
unfolding rows_fit column
column-fits size w start zero p = refl
column-fits size w start (suc n) p = ground (arith, column-fits size w (start + w) n (omega arith))

fits-column :
    (size w start n : ℕ) → 0 < n → rows_fit size w (column start w n) ≡ true → start + n * w ≤ size
unfolding rows_fit column
fits-column size w start zero p q = absurd (omega arith)
fits-column size w start (suc zero) p q = ground arith
fits-column size w start (suc (suc n)) p q =
    let ih : start + w + suc n * w ≤ size =
      ground (arith, fits-column size w (start + w) (suc n) (omega arith)) in
    omega arith

-- The rows of the three planes fit where those of the last one do.
planes-fit :
    (size lines chromas width a b c k : ℕ)
    → 0 < k * chromas
    → a + k * lines * width ≤ size
    → b + k * chromas * (width / 2) ≤ size
    → c + k * chromas * (width / 2) ≤ size
    → frame_fits size width (planes lines chromas width (width / 2) a b c k) ≡ true
unfolding frame_fits planes
planes-fit size lines chromas width a b c k n p q r =
    rw
      (
        column-fits size width a (k * lines) p,
        column-fits size (width / 2) b (k * chromas) q,
        column-fits size (width / 2) c (k * chromas) r,
      )
      refl

fit-planes :
    (size lines chromas width a b c k : ℕ)
    → 0 < k * chromas
    → frame_fits size width (planes lines chromas width (width / 2) a b c k) ≡ true
    → c + k * chromas * (width / 2) ≤ size
unfolding frame_fits planes
fit-planes size lines chromas width a b c k n p =
    fits-column size (width / 2) c (k * chromas) n (ground arith)

-- For an even width and height, and counts that fit in 32 bits, the rows that jpeg_encode_yuv420
-- hands over all end within the image's bytes exactly when the height is a multiple of 16.
pub jpeg_encode_yuv420-fits :
    (width height : ℕ)
    → 0 < width
    → 0 < height
    → width % 2 ≡ 0
    → height % 2 ≡ 0
    → width * height < 4_294_967_296
    → width * 16 < 4_294_967_296
    → (frame_fits (width * height * 3 / 2) width (handed_over (jpeg_encode_yuv420 width height))
        ≡ true)
      ↔ (height % 16 ≡ 0)
jpeg_encode_yuv420-fits width height w h even even' small stride =
    rw (jpeg_encode_yuv420-planes width height even small stride) (
      λ fits.
          let last =
            fit-planes (width * height * 3 / 2) 16 8 width 0 (width * height)
              (width * height + width * height / 4) ((height + 15) / 16) (omega arith) fits in
          let enough : (height + 15) / 16 * 8 ≤ height / 2 =
            le_of_mul-le-mul_right {k = width / 2} (omega (arith, area)) (omega arith) in
          omega arith,
      λ whole.
          let lumas : (height + 15) / 16 * 16 ≡ height = omega arith in
          let chromas : (height + 15) / 16 * 8 ≡ height / 2 = omega arith in
          planes-fit _ _ _ _ _ _ _ _ (omega arith) (rw lumas (omega arith))
            (rw chromas (omega (arith, area))) (rw chromas (omega (arith, area))),
    )
  where
    area : width * height ≡ 4 * (height / 2 * (width / 2))
    area =
        let x : width ≡ 2 * (width / 2) = omega arith in
        let y : height ≡ 2 * (height / 2) = omega arith in ap₂ ◌*◌ x y ∙ omega arith

-- The same for jpeg_encode_yuv422p and the conversion buffer: all rows end within it exactly when
-- the height is a multiple of 8, for an even width.
pub jpeg_encode_yuv422p-fits :
    (width height : ℕ)
    → 0 < width
    → 0 < height
    → width % 2 ≡ 0
    → width * height < 4_294_967_296
    → width * 16 < 4_294_967_296
    → (frame_fits (width * height * 2) width (handed_over (jpeg_encode_yuv422p width height))
        ≡ true)
      ↔ (height % 8 ≡ 0)
jpeg_encode_yuv422p-fits width height w h even small stride =
    rw (jpeg_encode_yuv422p-planes width height even small stride) (
      λ fits.
          let last =
            fit-planes (width * height * 2) 8 8 width 0 (width * height)
              (width * height + width * height / 2) ((height + 7) / 8) (omega arith) fits in
          let enough : (height + 7) / 8 * 8 ≤ height =
            le_of_mul-le-mul_right {k = width / 2} (omega (arith, area)) (omega arith) in
          omega arith,
      λ whole.
          let rows : (height + 7) / 8 * 8 ≡ height = omega arith in
          planes-fit _ _ _ _ _ _ _ _ (omega arith) (rw rows (omega arith))
            (rw rows (omega (arith, area))) (rw rows (omega (arith, area))),
    )
  where
    area : width * height ≡ 2 * (height * (width / 2))
    area = let x : width ≡ 2 * (width / 2) = omega arith in ap (λ n. n * height) x ∙ omega arith
