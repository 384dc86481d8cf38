-- ===== src/Query/Formats/Rows.antt =====
-- What the comments on struct palette_info (libvideo/libvideo.h) say of the raw formats of a palette.
use v4l4j.Prelude.{
  ℕ, Bool, true, false, some, List, [], ◌∷◌, ◌++◌, map, ◌≡◌, ◌≢◌, ◌⊎◌, refl, subst, ◌==◌, ◌||◌,
  ◌&&◌, not, get_elem?, arith,
}
use v4l4j.Prelude.Int.{pos, negsuc}
use v4l4j.Driver.{Driver, Trace}
use v4l4j.Palettes.{find_v4l2_palette, palette_code}
use v4l4j.Palettes.Table.{libvideo_palettes}
use v4l4j.Palettes.Lookup.{row_code, Outcome, IsFirst, find_v4l2_palette_lem}
use v4l4j.Query.Sizes.{no_sizes, lookup_frame_sizes}
use v4l4j.Query.Formats.{PaletteInfo, has_raw_format, try_format_query}

-- an index of a row of the table
abbrev pub IsRow : ℕ → Type 0
IsRow i = (code : ℕ) × (row_code (get_elem? libvideo_palettes i) ≡ some code)

abbrev pub has : List ℕ → ℕ → Bool
has [] y = false
has (x ∷ xs) y = (x == y) || has xs y

-- At some time and for some size, libv4lconvert answers a request for this format of the table with
-- the format itself: it can be captured.
abbrev pub IsUsable : Driver → ℕ → Type 0
IsUsable d i =
    (t : Trace) × (width : ℕ) × (height : ℕ) × ((try_format_query d i width height
        t).0.1.pixelformat
      ≡ palette_code i)

-- indices of rows, each of a format that can be captured, no two of them the same
abbrev pub DistinctRows : Driver → List ℕ → Type 0
DistinctRows d [] = Unit
DistinctRows d (x ∷ xs) = IsRow x × IsUsable d x × (has xs x ≡ false) × DistinctRows d xs

pub find_v4l2_palette-IsRow : (code : ℕ) {i : ℕ} → find_v4l2_palette code ≡ some i → IsRow i
find_v4l2_palette-IsRow code {i} e =
    let first : IsFirst libvideo_palettes code i =
      subst (Outcome code) e (find_v4l2_palette_lem code) in
    (code, first.found)

has-append : (xs : List ℕ) (y z : ℕ) → has (xs ++ y ∷ []) z ≡ (has xs z || (y == z))
has-append [] y z = ground arith
has-append (x ∷ xs) y z = ground (arith, has-append xs y z)

pub DistinctRows-append :
    (d : Driver) (xs : List ℕ) (y : ℕ)
    → DistinctRows d xs
    → IsRow y
    → IsUsable d y
    → has xs y ≡ false
    → DistinctRows d (xs ++ y ∷ [])
DistinctRows-append d [] y h r u n = (r, u, refl, tt)
DistinctRows-append d (x ∷ xs) y (row, usable, once, h) r u n = (
  row,
  usable,
  (let e : (x == y) ≡ false = ground arith in ground (arith, has-append xs y x)),
  DistinctRows-append d xs y h r u (ground arith),
)

pub has_raw_format-map : (xs : List ℕ) (y : ℕ) → has_raw_format (map pos xs) y ≡ has xs y
unfolding has_raw_format
has_raw_format-map [] y = refl
has_raw_format-map (x ∷ xs) y = ground (arith, has_raw_format-map xs y)

pub fresh : (a b : Bool) → (a && not b) ≡ true → b ≡ false
fresh a b h = ground arith

-- A palette whose list of raw formats is being filled.
pub record Collects (d : Driver) (index : ℕ) (xs : List ℕ) (p : PaletteInfo) : Type 0 where
  pub index_kept : p.index ≡ index
  pub raws : p.raw_palettes ≡ map pos xs
  pub rows : DistinctRows d xs
  pub sizes : p.sizes ≡ no_sizes

-- A converted palette has raw formats, the first of them `x`, each a row of the table that can be
-- captured, no two the same, with -1 at the end, and no sizes of its own.
abbrev pub IsConverted : Driver → ℕ → PaletteInfo → Type 0
IsConverted d x p =
    (xs : List ℕ) × DistinctRows d (x ∷ xs)
    × (p.raw_palettes ≡ map pos (x ∷ xs) ++ negsuc 0 ∷ [])
    × (p.sizes ≡ no_sizes)

-- A palette is native, with no raw formats, or converted.
abbrev pub IsDescribed : Driver → PaletteInfo → Type 0
IsDescribed d p = (p.raw_palettes ≡ []) ⊎ ((x : ℕ) × IsConverted d x p)

-- The source format cannot be captured, and its sizes are the palette's.
abbrev pub StandsIn :
    Driver → (fuel : ℕ) → (width : ℕ) → (height : ℕ) → ℕ → Trace → PaletteInfo → Trace → Type 0
StandsIn d fuel width height x t p t' =
    let ((accepted, dst, src), t₁) = try_format_query d x width height t in
    (p.raw_palettes ≡ [])
    × (dst.pixelformat ≢ palette_code x)
    × (lookup_frame_sizes d (palette_code x) fuel t₁ ≡ some (p.sizes, t'))
