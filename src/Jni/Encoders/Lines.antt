-- ===== src/Jni/Encoders/Lines.antt =====
-- The lines that the encoders for RGB24, BGR24, RGB32 and BGR32 (src/jpeg.c) give to the compressor.
use v4l4j.Prelude.{
  ℕ, zero, suc, ◌+◌, ◌*◌, ◌%◌, ◌<◌, ◌≤◌, ◌≡◌, refl, ap, ap₂, ◌∙◌, true, false, Option, some, List,
  [], ◌∷◌, length, get_elem?, ltb, arith,
}
use v4l4j.Jni.Mjpeg.{copy}
use v4l4j.Jni.Encoders.{
  packed_line, encode_packed, encode_lines, jpeg_encode_rgb32, jpeg_encode_bgr32, jpeg_encode_rgb24,
  jpeg_encode_bgr24,
}

-- A line of n pixels from a place in memory on, where a pixel has `size` bytes: red, green and blue
-- in this order, and nothing else.
pub record IsLine (mem : ℕ → ℕ) (red green blue size n src : ℕ) (line : List ℕ) : Type 0 where
  pub bytes : length line ≡ 3 * n
  pub reds : (x : ℕ) → x < n → get_elem? line (3 * x) ≡ some (mem (src + size * x + red))
  pub greens : (x : ℕ) → x < n → get_elem? line (3 * x + 1) ≡ some (mem (src + size * x + green))
  pub blues : (x : ℕ) → x < n → get_elem? line (3 * x + 2) ≡ some (mem (src + size * x + blue))

-- The lines of a frame, each in its place and in their order.
pub record IsFrame (mem : ℕ → ℕ) (red green blue size width height : ℕ) (lines : List (List ℕ))
    : Type 0 where
  pub count : length lines ≡ height
  pub each :
      (y : ℕ)
      → y < height
      → (line : List ℕ) × (get_elem? lines y ≡ some line)
        × IsLine mem red green blue size width (size * width * y) line

module _ (mem : ℕ → ℕ) where
  length-packed_line :
      (red green blue size n src : ℕ) → length (packed_line mem red green blue size n src) ≡ 3 * n
  unfolding packed_line
  length-packed_line red green blue size zero src = omega arith
  length-packed_line red green blue size (suc n) src =
      omega (arith, length-packed_line red green blue size n (src + size))

  -- byte c of pixel x, whose place in the pixel is `place`
  packed_byte :
      (red green blue size n src x c place : ℕ)
      → x < n
      → get_elem? (red ∷ green ∷ blue ∷ []) c ≡ some place
      → get_elem? (packed_line mem red green blue size n src) (3 * x + c)
        ≡ some (mem (src + size * x + place))
  unfolding packed_line
  packed_byte red green blue size zero src x c place h e = absurd (omega arith)
  packed_byte red green blue size (suc n) src (suc x) c place h e =
      let three : 3 * suc x + c ≡ suc (suc (suc (3 * x + c))) = omega arith in
      rw three (
        packed_byte red green blue size n (src + size) x c place (omega arith) e
        ∙ ap (λ i. some (mem i)) (omega arith))
  packed_byte red green blue size (suc n) src zero zero place h e = ground arith
  packed_byte red green blue size (suc n) src zero (suc zero) place h e = ground arith
  packed_byte red green blue size (suc n) src zero (suc (suc zero)) place h e = ground arith
  packed_byte red green blue size (suc n) src zero (suc (suc (suc c))) place h e = cc

  packed_line-IsLine :
      (red green blue size n src : ℕ)
      → IsLine mem red green blue size n src (packed_line mem red green blue size n src)
  packed_line-IsLine red green blue size n src = record {
    bytes = length-packed_line red green blue size n src;
    reds = λ x h.
        ap (get_elem? (packed_line mem red green blue size n src)) (omega arith)
        ∙ packed_byte red green blue size n src x 0 red h refl;
    greens = λ x h. packed_byte red green blue size n src x 1 green h refl;
    blues = λ x h. packed_byte red green blue size n src x 2 blue h refl;
  }

  copy-packed_line : (n src : ℕ) → copy mem src (n * 3) ≡ packed_line mem 0 1 2 3 n src
  unfolding copy packed_line
  copy-packed_line zero src = refl
  copy-packed_line (suc n) src =
      let three : suc n * 3 ≡ suc (suc (suc (n * 3))) = omega arith in
      rw three (
        ap₂ ◌∷◌ (ap mem (omega arith)) (
          ap₂ ◌∷◌ refl (
            ap₂ ◌∷◌ (ap mem (omega arith))
              (ap (λ i. copy mem i (n * 3)) (omega arith) ∙ copy-packed_line n (src + 3)))))

-- A loop that is taken once more shows one line before the others.
each_line :
    (shown : ℕ → List ℕ) (line : List ℕ) (lines : List (List ℕ)) (k y : ℕ)
    → line ≡ shown 0
    → ((y : ℕ) → y < k → get_elem? lines y ≡ some (shown (suc y)))
    → y < suc k
    → get_elem? (line ∷ lines) y ≡ some (shown y)
each_line shown line lines k zero e each h = ap some e
each_line shown line lines k (suc y) e each h = each y (omega arith)

-- The loop ends with k lines, each as shown.
abbrev Shows : Option (List (List ℕ)) → ℕ → (ℕ → List ℕ) → Type 0
Shows encoded k shown =
    (lines : List (List ℕ)) × (encoded ≡ some lines)
    × (length lines ≡ k)
    × ((y : ℕ) → y < k → get_elem? lines y ≡ some (shown y))

line_below : (stride next height : ℕ) → next < height → next * stride + stride ≤ stride * height
line_below stride next height h = grind arith

-- unsigned arithmetic finds the line
line_place :
    (width height next : ℕ)
    → next < height
    → width * 3 * height < 4_294_967_296
    → (next * ((width * 3) % 4_294_967_296)) % 4_294_967_296 ≡ 3 * width * next
line_place width height next h small =
    let below = line_below (width * 3) next height h in
    let stride : (width * 3) % 4_294_967_296 ≡ width * 3 = omega arith in rw stride (omega arith)

module _ (mem write_scanlines : ℕ → ℕ) (takes_one : (n : ℕ) → write_scanlines n ≡ 1)
    (width height : ℕ) where
  -- k lines are still to come
  encode_packed-Shows :
      (red green blue size k fuel next src : ℕ)
      → k < fuel
      → next + k ≡ height
      → Shows
          (encode_packed write_scanlines mem width height red green blue size fuel next src)
          k
          λ y. packed_line mem red green blue size width (src + size * width * y)
  unfolding encode_packed
  encode_packed-Shows red green blue size k zero next src enough e = absurd (omega arith)
  encode_packed-Shows red green blue size zero (suc fuel) next src enough e =
      let stop : ltb next height ≡ false = ground arith in
      ([], rw (encode_packed, stop) refl, refl, λ y h. absurd (omega arith))
  encode_packed-Shows red green blue size (suc k) (suc fuel) next src enough e =
      let go : ltb next height ≡ true = ground arith in
      let (lines, encoded, count, each) =
        encode_packed-Shows red green blue size k fuel (next + 1) (src + size * width) (omega arith)
          (omega arith) in
      let line : ℕ → List ℕ = packed_line mem red green blue size width in
      (
        line src ∷ lines,
        rw (encode_packed, go, takes_one next, encoded) refl,
        omega (arith, count),
        λ y.
            each_line (λ y. line (src + size * width * y)) (line src) lines k y
              (ap line (omega arith)) λ y h. each y h ∙ ap (λ i. some (line i)) (omega arith),
      )

  encode_lines-Shows :
      (k fuel next : ℕ)
      → k < fuel
      → next + k ≡ height
      → width * 3 * height < 4_294_967_296
      → Shows
          (encode_lines write_scanlines mem width height fuel next)
          k
          λ y. packed_line mem 0 1 2 3 width (3 * width * (next + y))
  unfolding encode_lines
  encode_lines-Shows k zero next enough e small = absurd (omega arith)
  encode_lines-Shows zero (suc fuel) next enough e small =
      let stop : ltb next height ≡ false = ground arith in
      ([], rw (encode_lines, stop) refl, refl, λ y h. absurd (omega arith))
  encode_lines-Shows (suc k) (suc fuel) next enough e small =
      let go : ltb next height ≡ true = ground arith in
      let (lines, encoded, count, each) =
        encode_lines-Shows k fuel (next + 1) (omega arith) (omega arith) small in
      let place : (next * ((width * 3) % 4_294_967_296)) % 4_294_967_296 ≡ 3 * width * next =
        line_place width height next (omega arith) small in
      let line : ℕ → List ℕ = packed_line mem 0 1 2 3 width in
      (
        copy mem ((next * ((width * 3) % 4_294_967_296)) % 4_294_967_296) (width * 3) ∷ lines,
        rw (encode_lines, go, takes_one next, encoded) refl,
        omega (arith, count),
        λ y.
            each_line (λ y. line (3 * width * (next + y))) _ lines k y
              (copy-packed_line mem width _ ∙ ap line (place ∙ omega arith))
              λ y h. each y h ∙ ap (λ i. some (line i)) (omega arith),
      )

-- For an encoder's result: it ends with a frame of such pixels.
abbrev pub Gives : Option (List (List ℕ)) → (ℕ → ℕ) → ℕ → ℕ → ℕ → ℕ → ℕ → ℕ → Type 0
Gives encoded mem red green blue size width height =
    (lines : List (List ℕ)) × (encoded ≡ some lines)
    × IsFrame mem red green blue size width height lines

gives :
    (encoded : Option (List (List ℕ))) (mem : ℕ → ℕ) (red green blue size width height : ℕ)
    (start : ℕ → ℕ)
    → ((y : ℕ) → start y ≡ size * width * y)
    → Shows encoded height (λ y. packed_line mem red green blue size width (start y))
    → Gives encoded mem red green blue size width height
gives encoded mem red green blue size width height start place (lines, e, count, each) = (
  lines,
  e,
  record {
    count = count;
    each = λ y h. (
      _,
      each y h ∙ ap (λ i. some (packed_line mem red green blue size width i)) (place y),
      packed_line-IsLine mem red green blue size width (size * width * y),
    );
  },
)

-- When the compressor takes the one line that each call offers, the frame has fewer than 2³² bytes
-- of RGB24, and the fuel is above the height, the four RGB encoders end and have given the
-- compressor the lines of the frame in their order: each with three bytes for every pixel, the
-- red, green and blue of that pixel of the frame, which stand in it at the places 1, 2, 3 of 4
-- (RGB32), 2, 1, 0 of 4 (BGR32), 0, 1, 2 of 3 (RGB24) and 2, 1, 0 of 3 (BGR24).
pub jpeg_encode_rgb-IsFrame :
    (mem write_scanlines : ℕ → ℕ) (width height fuel : ℕ)
    → ((n : ℕ) → write_scanlines n ≡ 1)
    → width * 3 * height < 4_294_967_296
    → height < fuel
    → Gives (jpeg_encode_rgb32 write_scanlines mem width height fuel) mem 1 2 3 4 width height
      × Gives (jpeg_encode_bgr32 write_scanlines mem width height fuel) mem 2 1 0 4 width height
      × Gives (jpeg_encode_rgb24 write_scanlines mem width height fuel) mem 0 1 2 3 width height
      × Gives (jpeg_encode_bgr24 write_scanlines mem width height fuel) mem 2 1 0 3 width height
unfolding jpeg_encode_rgb32 jpeg_encode_bgr32 jpeg_encode_rgb24 jpeg_encode_bgr24
jpeg_encode_rgb-IsFrame mem write_scanlines width height fuel takes_one small enough = (
  packed 1 2 3 4,
  packed 2 1 0 4,
  gives _ mem 0 1 2 3 width height (λ y. 3 * width * (0 + y)) (λ y. omega arith)
      (encode_lines-Shows mem write_scanlines takes_one width height height fuel 0 enough
        (omega arith) small),
  packed 2 1 0 3,
)
  where
    packed :
        (red green blue size : ℕ)
        → Gives
            (encode_packed write_scanlines mem width height red green blue size fuel 0 0)
            mem
            red
            green
            blue
            size
            width
            height
    packed red green blue size =
        gives _ mem red green blue size width height (λ y. 0 + size * width * y) (λ y. omega arith)
          (encode_packed-Shows mem write_scanlines takes_one width height red green blue size height
            fuel 0 0 enough (omega arith))
