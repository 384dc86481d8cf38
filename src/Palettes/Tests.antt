-- ===== src/Palettes/Tests.antt =====
-- Lookups in the table, and the theorems at them.
use v4l4j.Prelude.{ℕ, none, some, ◌≡◌, refl}
use v4l4j.Palettes.{get_palette_index, find_v4l2_palette}

abbrev yuyv_code : ℕ
yuyv_code = 0x56595559

yuyv_found : get_palette_index yuyv_code ≡ some 18
unfolding get_palette_index
yuyv_found = refl

-- The code 0 stands in a row past the supported formats.
zero_found : (get_palette_index 0 ≡ none) × (find_v4l2_palette 0 ≡ some 74)
unfolding get_palette_index find_v4l2_palette
zero_found = (refl, refl)
