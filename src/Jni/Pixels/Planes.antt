-- ===== src/Jni/Pixels/Planes.antt =====
-- What the conversions of src/pixfmt-conv.h leave in the destination, and for which images their
-- loops end.
use v4l4j.Prelude.{
  ℕ, zero, suc, ◌+◌, ◌-◌, ◌*◌, ◌/◌, ◌%◌, ◌≤◌, ◌<◌, ◌≡◌, refl, sym, subst, ◌∙◌, Bool, false, Option,
  none, some, ltb, leb, ◌==◌, ◌&&◌, if◌then◌else◌, arith,
}
use v4l4j.Jni.Pixels.{
  Cursor, store, nb_pixels, put_y, put_u, put_v, yuyv_pair, uyvy_pair, yvyu_pair, repack,
  start_planes, convert_yuyv_to_yuv422p, convert_uyvy_to_yuv422p, convert_yvyu_to_yuv422p,
}

-- whether x is one of the n offsets from a on
within : ℕ → ℕ → ℕ → Bool
within a n x = leb a x && ltb x (a + n)

module _ (mem : ℕ → ℕ) (luma blue red : ℕ) where
  -- The byte at x once k pairs of pixels from the cursor on are repacked, when a pair has its
  -- luma at the offsets `luma` and `luma + 2` and its chroma at `blue` and `red`.
  planes : ℕ → Cursor → ℕ → ℕ
  unfolding within
  planes k c x =
      if within c.y (2 * k) x
      then mem (c.src + (2 * (x - c.y) + luma))
      else if within c.u k x
      then mem (c.src + (4 * (x - c.u) + blue))
      else if within c.v k x
      then mem (c.src + (4 * (x - c.v) + red))
      else c.dst x

  record IsPair (pair : Cursor → Cursor) : Type 0 where
    y_moves : (c : Cursor) → (pair c).y ≡ c.y + 2
    u_moves : (c : Cursor) → (pair c).u ≡ c.u + 1
    v_moves : (c : Cursor) → (pair c).v ≡ c.v + 1
    src_moves : (c : Cursor) → (pair c).src ≡ c.src + 4
    writes : (c : Cursor) → c.y + 2 ≤ c.u → c.u + 1 ≤ c.v → (x : ℕ) → (pair c).dst x ≡ planes 1 c x

  -- A further pair, then the k others.
  planes_step :
      (pair : Cursor → Cursor)
      → IsPair pair
      → (k : ℕ) (c : Cursor) → c.y + 2 * suc k ≤ c.u
      → c.u + suc k ≤ c.v
      → (x : ℕ) → planes k (pair c) x ≡ planes (suc k) c x
  unfolding planes within
  planes_step pair is k c p q x =
      rw (is.y_moves c, is.u_moves c, is.v_moves c, is.src_moves c)
        (ground (arith, is.writes c (omega arith) (omega arith) x))

yuyv-IsPair : (mem : ℕ → ℕ) → IsPair mem 0 1 3 (yuyv_pair mem)
unfolding yuyv_pair put_y put_u put_v store planes within
yuyv-IsPair mem = record {
  y_moves = λ c. omega arith;
  u_moves = λ c. refl;
  v_moves = λ c. refl;
  src_moves = λ c. omega arith;
  writes = λ c p q x. ground arith;
}

uyvy-IsPair : (mem : ℕ → ℕ) → IsPair mem 1 0 2 (uyvy_pair mem)
unfolding uyvy_pair put_y put_u put_v store planes within
uyvy-IsPair mem = record {
  y_moves = λ c. omega arith;
  u_moves = λ c. refl;
  v_moves = λ c. refl;
  src_moves = λ c. omega arith;
  writes = λ c p q x. ground arith;
}

yvyu-IsPair : (mem : ℕ → ℕ) → IsPair mem 0 3 1 (yvyu_pair mem)
unfolding yvyu_pair put_y put_u put_v store planes within
yvyu-IsPair mem = record {
  y_moves = λ c. omega arith;
  u_moves = λ c. refl;
  v_moves = λ c. refl;
  src_moves = λ c. omega arith;
  writes = λ c p q x. ground arith;
}

planes_none :
    (mem : ℕ → ℕ) (luma blue red : ℕ) (c : Cursor) (x : ℕ)
    → planes mem luma blue red 0 c x ≡ c.dst x
unfolding planes within
planes_none mem luma blue red c x = ground arith

repack_pair :
    (pair : Cursor → Cursor) (fuel k : ℕ) (c : Cursor)
    → 2 * suc k < 4_294_967_296
    → repack pair (suc fuel) (2 * suc k) c ≡ repack pair fuel (2 * k) (pair c)
unfolding repack
repack_pair pair fuel k c w =
    let less : (2 * suc k + 4_294_967_294) % 4_294_967_296 ≡ 2 * k = omega arith in
    let more : (2 * suc k == 0) ≡ false = ground arith in rw (repack, more, less) refl

-- The loop over k pairs ends after k rounds.
repack-planes :
    (mem : ℕ → ℕ) (luma blue red : ℕ) (pair : Cursor → Cursor)
    → IsPair mem luma blue red pair
    → (k fuel : ℕ) (c : Cursor) → k < fuel
    → 2 * k < 4_294_967_296
    → c.y + 2 * k ≤ c.u
    → c.u + k ≤ c.v
    → (out : Cursor) × (repack pair fuel (2 * k) c ≡ some out)
      × ((x : ℕ) → out.dst x ≡ planes mem luma blue red k c x)
unfolding repack
repack-planes mem luma blue red pair is k zero c f w p q = absurd (omega arith)
repack-planes mem luma blue red pair is zero (suc fuel) c f w p q =
    (c, refl, λ x. sym (planes_none mem luma blue red c x))
repack-planes mem luma blue red pair is (suc k) (suc fuel) c f w p q =
    let (out, e, g) =
      repack-planes mem luma blue red pair is k fuel (pair c) (omega arith) (omega arith)
        (rw (is.y_moves c, is.u_moves c) (omega arith))
        (rw (is.u_moves c, is.v_moves c) (omega arith)) in
    (
      out,
      repack_pair pair fuel k c w ∙ e,
      λ x. g x ∙ planes_step mem luma blue red pair is k c (omega arith) (omega arith) x,
    )

-- With an odd count the counter steps over zero for ever.
repack-odd :
    (pair : Cursor → Cursor) (fuel n : ℕ) (c : Cursor) → n % 2 ≡ 1 → repack pair fuel n c ≡ none
unfolding repack
repack-odd pair zero n c o = refl
repack-odd pair (suc fuel) n c o =
    let more : (n == 0) ≡ false = ground arith in
    rw (repack, more) (repack-odd pair fuel _ (pair c) (omega arith))

module _ (fuel width height : ℕ) (src dst : ℕ → ℕ) where
  even_planes :
      (luma blue red : ℕ) (pair : Cursor → Cursor)
      → IsPair src luma blue red pair
      → width * height < 4_294_967_296
      → (width * height) % 2 ≡ 0
      → width * height < fuel
      → (out : Cursor) × (repack pair fuel (nb_pixels width height) (start_planes width height dst)
          ≡ some out)
        × ((x : ℕ)
            → out.dst x
              ≡ planes src luma blue red (width * height / 2) (start_planes width height dst) x)
  unfolding start_planes nb_pixels
  even_planes luma blue red pair is small even enough =
      let n : nb_pixels width height ≡ width * height = omega arith in
      let h : 2 * (width * height / 2) ≡ width * height = omega arith in
      let (out, e, g) =
        repack-planes src luma blue red pair is (width * height / 2) fuel
          (start_planes width height dst) (omega arith) (omega arith) (omega arith) (omega arith) in
      (
        out,
        subst (λ m. repack pair fuel m (start_planes width height dst) ≡ some out) (h ∙ sym n) e,
        g,
      )

-- The destination holds the lumas of n pixels, then a blue and then a red chroma for every second
-- one, each taken from its place in the interleaved source, and nothing behind these 2 n bytes is
-- written.
pub record IsPlanar (luma blue red n : ℕ) (src dst out : ℕ → ℕ) : Type 0 where
  pub lumas : (i : ℕ) → i < n → out i ≡ src (2 * i + luma)
  pub blues : (j : ℕ) → j < n / 2 → out (n + j) ≡ src (4 * j + blue)
  pub reds : (j : ℕ) → j < n / 2 → out (n + n / 2 + j) ≡ src (4 * j + red)
  pub behind : (x : ℕ) → 2 * n ≤ x → out x ≡ dst x

planes-IsPlanar :
    (luma blue red width height : ℕ) (src dst out : ℕ → ℕ)
    → width * height < 4_294_967_296
    → (width * height) % 2 ≡ 0
    → ((x : ℕ)
        → out x ≡ planes src luma blue red (width * height / 2) (start_planes width height dst) x)
    → IsPlanar luma blue red (width * height) src dst out
unfolding planes within start_planes nb_pixels
planes-IsPlanar luma blue red width height src dst out small even g = record {
  lumas = λ i p. ground (arith, g i);
  blues = λ j p. ground (arith, g (width * height + j));
  reds = λ j p. ground (arith, g (width * height + width * height / 2 + j));
  behind = λ x p. ground (arith, g x);
}

abbrev pub Converter : Type 0
Converter = ℕ → (ℕ → ℕ) → (ℕ → ℕ) → ℕ → ℕ → Option Cursor

-- The conversion ends within the fuel, with the planes described above.
abbrev pub Converts : Converter → ℕ → ℕ → ℕ → ℕ → (ℕ → ℕ) → (ℕ → ℕ) → ℕ → ℕ → Type 0
Converts convert luma blue red fuel src dst width height =
    (out : Cursor) × (convert fuel src dst width height ≡ some out)
    × IsPlanar luma blue red (width * height) src dst out.dst

-- For fewer than 2³² pixels, an even number of them, the three conversions end when the fuel is
-- above that number, and leave the planes of the image: the luma of pixel i comes from the byte
-- 2 i (2 i + 1 in UYVY), and the chromas of pair j from the bytes 4 j + 1 and 4 j + 3 (YUYV),
-- 4 j and 4 j + 2 (UYVY), 4 j + 3 and 4 j + 1 (YVYU). No byte behind the planes is written.
pub yuv422p-IsPlanar :
    (fuel width height : ℕ) (src dst : ℕ → ℕ)
    → width * height < 4_294_967_296
    → (width * height) % 2 ≡ 0
    → width * height < fuel
    → Converts convert_yuyv_to_yuv422p 0 1 3 fuel src dst width height
      × Converts convert_uyvy_to_yuv422p 1 0 2 fuel src dst width height
      × Converts convert_yvyu_to_yuv422p 0 3 1 fuel src dst width height
unfolding convert_yuyv_to_yuv422p convert_uyvy_to_yuv422p convert_yvyu_to_yuv422p
yuv422p-IsPlanar fuel width height src dst small even enough = (
  with_planes 0 1 3 _ (yuyv-IsPair src),
  with_planes 1 0 2 _ (uyvy-IsPair src),
  with_planes 0 3 1 _ (yvyu-IsPair src),
)
  where
    with_planes :
        (luma blue red : ℕ) (pair : Cursor → Cursor)
        → IsPair src luma blue red pair
        → (out : Cursor) × (repack pair fuel
              (nb_pixels width height)
              (start_planes width height dst)
            ≡ some out)
          × IsPlanar luma blue red (width * height) src dst out.dst
    with_planes luma blue red pair is =
        let (out, e, g) =
          even_planes fuel width height src dst luma blue red pair is small even enough in
        (out, e, planes-IsPlanar luma blue red width height src dst out.dst small even g)

-- For an odd number of pixels, below 2³², none of the three conversions ends, whatever the fuel:
-- the unsigned counter goes down by two and steps over zero.
pub yuv422p-odd :
    (fuel width height : ℕ) (src dst : ℕ → ℕ)
    → width * height < 4_294_967_296
    → (width * height) % 2 ≡ 1
    → (convert_yuyv_to_yuv422p fuel src dst width height ≡ none)
      × (convert_uyvy_to_yuv422p fuel src dst width height ≡ none)
      × (convert_yvyu_to_yuv422p fuel src dst width height ≡ none)
unfolding convert_yuyv_to_yuv422p convert_uyvy_to_yuv422p convert_yvyu_to_yuv422p nb_pixels
yuv422p-odd fuel width height src dst small odd =
    (repack-odd _ fuel _ _ o, repack-odd _ fuel _ _ o, repack-odd _ fuel _ _ o)
  where
    o : ((width * height) % 4_294_967_296) % 2 ≡ 1
    o = omega arith
