-- ===== src/Jni/Pixels.antt =====
-- The conversions of src/pixfmt-conv.h from interleaved 4:2:2 pixels to the planes that the JPEG
-- compressor reads. A memory is a function from an offset to the byte there.
pub mod Planes
mod Tests
use v4l4j.Prelude.{
  ℕ, zero, suc, ◌+◌, ◌*◌, ◌/◌, ◌%◌, Bool, true, false, Option, none, some, ◌==◌, if◌then◌else◌,
}

-- the pointers of a conversion as offsets, those into the destination and the one into the source,
-- and the destination's bytes
pub record Cursor : Type 0 where
  pub y : ℕ
  pub u : ℕ
  pub v : ℕ
  pub src : ℕ
  pub dst : ℕ → ℕ

store : (ℕ → ℕ) → ℕ → ℕ → ℕ → ℕ
store dst a byte x = if x == a then byte else dst x

-- uint32_t nb_pixels = width * height
unfoldable pub nb_pixels : ℕ → ℕ → ℕ
nb_pixels width height = (width * height) % 4_294_967_296

module _ (mem : ℕ → ℕ) where
  -- *y++ = *src++, and the same for the other two planes
  put_y : Cursor → Cursor
  unfolding store
  put_y c = record {
    y = c.y + 1;
    u = c.u;
    v = c.v;
    src = c.src + 1;
    dst = store c.dst c.y (mem c.src);
  }

  put_u : Cursor → Cursor
  unfolding store
  put_u c = record {
    y = c.y;
    u = c.u + 1;
    v = c.v;
    src = c.src + 1;
    dst = store c.dst c.u (mem c.src);
  }

  put_v : Cursor → Cursor
  unfolding store
  put_v c = record {
    y = c.y;
    u = c.u;
    v = c.v + 1;
    src = c.src + 1;
    dst = store c.dst c.v (mem c.src);
  }

  -- The bodies of the three loops: the four bytes of two pixels.
  yuyv_pair : Cursor → Cursor
  unfolding put_y put_u put_v
  yuyv_pair c = put_v (put_y (put_u (put_y c)))

  uyvy_pair : Cursor → Cursor
  unfolding put_y put_u put_v
  uyvy_pair c = put_y (put_v (put_y (put_u c)))

  yvyu_pair : Cursor → Cursor
  unfolding put_y put_u put_v
  yvyu_pair c = put_u (put_y (put_v (put_y c)))

-- while(nb_pixels > 0) { ...; nb_pixels -= 2; } on an unsigned counter; `none` is a loop that has
-- not ended within the fuel
repack : (Cursor → Cursor) → ℕ → ℕ → Cursor → Option Cursor
repack pair zero n c = none
repack pair (suc fuel) n c = elim (n == 0) [
  | true ↦ some c
  | false ↦ repack pair fuel ((n + 4_294_967_294) % 4_294_967_296) (pair c)
]

-- y = dst; u = y + width * height; v = u + width * height / 2
start_planes : ℕ → ℕ → (ℕ → ℕ) → Cursor
unfolding nb_pixels
start_planes width height dst = record {
  y = 0;
  u = nb_pixels width height;
  v = nb_pixels width height + nb_pixels width height / 2;
  src = 0;
  dst = dst;
}

pub convert_yuyv_to_yuv422p : ℕ → (ℕ → ℕ) → (ℕ → ℕ) → ℕ → ℕ → Option Cursor
unfolding yuyv_pair repack start_planes nb_pixels
convert_yuyv_to_yuv422p fuel src dst width height =
    repack (yuyv_pair src) fuel (nb_pixels width height) (start_planes width height dst)

pub convert_uyvy_to_yuv422p : ℕ → (ℕ → ℕ) → (ℕ → ℕ) → ℕ → ℕ → Option Cursor
unfolding uyvy_pair repack start_planes nb_pixels
convert_uyvy_to_yuv422p fuel src dst width height =
    repack (uyvy_pair src) fuel (nb_pixels width height) (start_planes width height dst)

pub convert_yvyu_to_yuv422p : ℕ → (ℕ → ℕ) → (ℕ → ℕ) → ℕ → ℕ → Option Cursor
unfolding yvyu_pair repack start_planes nb_pixels
convert_yvyu_to_yuv422p fuel src dst width height =
    repack (yvyu_pair src) fuel (nb_pixels width height) (start_planes width height dst)
