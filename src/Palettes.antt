-- ===== src/Palettes.antt =====
-- The lookups of libvideo/palettes.c by V4L2 code: get_palette_index (v4l2-input.c) scans the
-- supported formats, find_v4l2_palette (v4l2-query.c) every row of the table.
pub mod Table
pub mod Lookup
mod Tests
use v4l4j.Prelude.{
  ℕ, zero, suc, ◌+◌, Option, none, some, List, [], ◌∷◌, ◌==◌, if◌then◌else◌, length, get_elem?,
}
use Table.{Palette, libvideo_palettes, nb_supported_palettes}

-- The loop shared by the two lookups: the first of the next `rounds` rows with the code.
find_from : List Palette → ℕ → ℕ → ℕ → Option ℕ
find_from rows zero i code = none
find_from [] (suc rounds) i code = none
find_from (p ∷ rows) (suc rounds) i code =
    let rest = find_from rows rounds (i + 1) code in if p.v4l2_palette == code then some i else rest

-- get_palette_index; `none` is -1
unfoldable pub get_palette_index : ℕ → Option ℕ
unfolding find_from
get_palette_index code = find_from libvideo_palettes nb_supported_palettes 0 code

-- find_v4l2_palette; `none` is -1
unfoldable pub find_v4l2_palette : ℕ → Option ℕ
unfolding find_from
find_v4l2_palette code = find_from libvideo_palettes (length libvideo_palettes) 0 code

v4l2_of_row : Option Palette → ℕ
v4l2_of_row none = 0
v4l2_of_row (some p) = p.v4l2_palette

-- libvideo_palettes[i].v4l2_palette; the code reads the table at its own indices only, and a read
-- past the end is 0 here
unfoldable pub palette_code : ℕ → ℕ
unfolding v4l2_of_row
palette_code i = v4l2_of_row (get_elem? libvideo_palettes i)
