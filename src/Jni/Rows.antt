-- ===== src/Jni/Rows.antt =====
-- The rows that src/jpeg.c hands to the JPEG compressor: jpeg_encode_yuv420 and
-- jpeg_encode_yuv422p. A row is its offset from the start of the planes; the compressor is not
-- modelled, only what it is given.
pub mod Columns
pub mod Planes
pub mod Bounds
mod Tests
use v4l4j.Prelude.{
  ℕ, zero, suc, ◌+◌, ◌*◌, ◌/◌, ◌%◌, Bool, true, false, List, [], ◌∷◌, map, ◌==◌, ltb, if◌then◌else◌,
}

-- the arrays y, cb and cr of struct jpeg_data
pub record Rows : Type 0 where
  pub y : List ℕ
  pub cb : List ℕ
  pub cr : List ℕ

-- the arithmetic of unsigned int
unfoldable pub uint : ℕ → ℕ
uint x = x % 4_294_967_296

-- The first loop of jpeg_encode_yuv420, `rounds` lines from `line` on: a chroma row for every
-- second line.
rows_420 : ℕ → ℕ → ℕ → ℕ → Rows
rows_420 width height zero line = record { y = []; cb = []; cr = [] }
rows_420 width height (suc rounds) line =
    let rest = rows_420 width height rounds (line + 1) in
    let y = uint (width * line) ∷ rest.y in
    let cb = uint (width * height) + uint (width * line) / 4 in
    if line % 2 == 0
    then record { y = y; cb = cb ∷ rest.cb; cr = (cb + uint (width * height) / 4) ∷ rest.cr }
    else record { y = y; cb = rest.cb; cr = rest.cr }

-- The first loop of jpeg_encode_yuv422p: a chroma row for every line.
rows_422 : ℕ → ℕ → ℕ → ℕ → Rows
rows_422 width height zero line = record { y = []; cb = []; cr = [] }
rows_422 width height (suc rounds) line =
    let rest = rows_422 width height rounds (line + 1) in
    let cb = uint (width * height) + uint (width * line) / 2 in
    record {
      y = uint (width * line) ∷ rest.y;
      cb = cb ∷ rest.cb;
      cr = (cb + uint (width * height) / 2) ∷ rest.cr;
    }

-- The inner loop: every row moves on by its stride.
advance : ℕ → ℕ → Rows → Rows
advance y_stride uv_stride rows = record {
  y = map (λ row. row + y_stride) rows.y;
  cb = map (λ row. row + uv_stride) rows.cb;
  cr = map (λ row. row + uv_stride) rows.cr;
}

-- for (line = 0; line < height; line += lines_written_per_loop): the rows at each call of
-- jpeg_write_raw_data
pub written : ℕ → ℕ → ℕ → ℕ → ℕ → ℕ → Rows → List Rows
written zero lines height y_stride uv_stride line rows = []
written (suc fuel) lines height y_stride uv_stride line rows = elim (ltb line height) [
  | true ↦
      rows
      ∷ written fuel lines height y_stride uv_stride (line + lines)
          (advance y_stride uv_stride rows)
  | false ↦ []
]

-- jpeg_encode_yuv420, with lines_written_per_loop at 16
unfoldable pub jpeg_encode_yuv420 : ℕ → ℕ → List Rows
unfolding rows_420 written advance uint
jpeg_encode_yuv420 width height =
    written height 16 height (uint (width * 16)) (uint (width * 16) / 4) 0
      (rows_420 width height 16 0)

-- jpeg_encode_yuv422p, with lines_written_per_loop at 8
unfoldable pub jpeg_encode_yuv422p : ℕ → ℕ → List Rows
unfolding rows_422 written advance uint
jpeg_encode_yuv422p width height =
    written height 8 height (uint (width * 8)) (uint (width * 8) / 2) 0 (rows_422 width height 8 0)
