-- ===== src/Palettes/Lookup.antt =====
-- What the lookups find.
use v4l4j.Prelude.{
  ℕ, zero, suc, ◌+◌, ◌≤◌, ◌<◌, ◌≡◌, ◌≢◌, refl, Bool, true, false, ◌&&◌, Option, none, some, List,
  [], ◌∷◌, ◌==◌, length, get_elem?, arith, Bool-cases, ap, Option-cases, inl, inr, sym, ◌∙◌,
}
use native.Mathlib.Nat.{suc-add, add-zero, zero-add}
use v4l4j.Palettes.Table.{Palette, libvideo_palettes, nb_supported_palettes}
use v4l4j.Palettes.{find_from, get_palette_index, find_v4l2_palette, v4l2_of_row, palette_code}

is_found : Option ℕ → ℕ → Bool
is_found none i = false
is_found (some j) i = j == i

is_found-eq : (o : Option ℕ) (i : ℕ) → is_found o i ≡ true → o ≡ some i
unfolding is_found
is_found-eq none i h = cc
is_found-eq (some j) i h = ground arith

abbrev pub row_code : Option Palette → Option ℕ
row_code none = none
row_code (some p) = some p.v4l2_palette

-- The row at the distance `k` is the first of the rows with the code.
pub record IsFirst (rows : List Palette) (code k : ℕ) : Type 0 where
  pub found : row_code (get_elem? rows k) ≡ some code
  pub none_before : (m : ℕ) → m < k → row_code (get_elem? rows m) ≢ some code

IsFirst-cons :
    (p : Palette) (rows : List Palette) (code k : ℕ)
    → p.v4l2_palette ≢ code
    → IsFirst rows code k
    → IsFirst (p ∷ rows) code (suc k)
IsFirst-cons p rows code k h f = record { found = f.found; none_before = earlier }
  where
    earlier : (m : ℕ) → m < suc k → row_code (get_elem? (p ∷ rows) m) ≢ some code
    earlier zero lt e = h (cc)
    earlier (suc m) lt e = f.none_before m (omega arith) e

find_from-IsFirst :
    (rows : List Palette) (rounds i code j : ℕ)
    → find_from rows rounds i code ≡ some j
    → (k : ℕ) × (j ≡ i + k) × (k < rounds) × IsFirst rows code k
unfolding find_from
find_from-IsFirst rows zero i code j h = cc
find_from-IsFirst [] (suc rounds) i code j h = cc
find_from-IsFirst (p ∷ rows) (suc rounds) i code j h = elim (Bool-cases (p.v4l2_palette == code)) [
  | inl e ↦ (
    0,
    ground arith,
    omega arith,
    record { found = ground arith; none_before = λ m lt. absurd (omega arith) },
  )
  | inr ne ↦ later ne (find_from-IsFirst rows rounds (i + 1) code j (rw ne at h))
]
  where
    later :
        (p.v4l2_palette == code) ≡ false
        → (k : ℕ) × (j ≡ (i + 1) + k) × (k < rounds) × IsFirst rows code k
        → (k : ℕ) × (j ≡ i + k) × (k < suc rounds) × IsFirst (p ∷ rows) code k
    later ne (k, at, inside, first) =
        (suc k, omega arith, omega arith, IsFirst-cons p rows code k (λ e. ground arith) first)

find_from-none :
    (rows : List Palette) (rounds i code : ℕ)
    → length rows ≤ rounds
    → find_from rows rounds i code ≡ none
    → (k : ℕ) → row_code (get_elem? rows k) ≢ some code
unfolding find_from
find_from-none [] rounds i code fits h k = λ e. cc
find_from-none (p ∷ rows) zero i code fits h k = absurd (omega arith)
find_from-none (p ∷ rows) (suc rounds) i code fits h zero = λ e. ground arith
find_from-none (p ∷ rows) (suc rounds) i code fits h (suc k) =
    find_from-none rows rounds (i + 1) code (omega arith) (ground arith) k

-- the rows from the index `n` on
abbrev skip : List Palette → ℕ → List Palette
skip rows zero = rows
skip [] (suc n) = []
skip (p ∷ rows) (suc n) = skip rows n

nothing : (s i code : ℕ) → none ≡ find_from [] s i code
unfolding find_from
nothing zero i code = refl
nothing (suc s) i code = refl

abbrev pub Outcome : ℕ → Option ℕ → Type 0
Outcome code none = (k : ℕ) → row_code (get_elem? libvideo_palettes k) ≢ some code
Outcome code (some j) = IsFirst libvideo_palettes code j

find_v4l2_palette-cases : (code : ℕ) (o : Option ℕ) → find_v4l2_palette code ≡ o → Outcome code o
unfolding find_v4l2_palette
find_v4l2_palette-cases code none h =
    find_from-none libvideo_palettes (length libvideo_palettes) 0 code (omega arith) h
find_v4l2_palette-cases code (some j) h =
    let (k, at, inside, first) =
      find_from-IsFirst libvideo_palettes (length libvideo_palettes) 0 code j h in
    let e : j ≡ k = omega arith in rw e first

-- find_v4l2_palette returns the first row of the table that has the code it was given, and -1 only
-- when no row has it.
pub find_v4l2_palette_lem : (code : ℕ) → Outcome code (find_v4l2_palette code)
find_v4l2_palette_lem code = find_v4l2_palette-cases code (find_v4l2_palette code) refl

find_from-split :
    (rows : List Palette) (n s i code : ℕ)
    → find_from rows n i code ≡ none
    → find_from rows (n + s) i code ≡ find_from (skip rows n) s (i + n) code
unfolding find_from
find_from-split rows zero s i code h = rw (add-zero, zero-add)
find_from-split [] (suc n) s i code h = rw suc-add (nothing s (i + suc n) code)
find_from-split (p ∷ rows) (suc n) s i code h =
    rw suc-add (ground (arith, find_from-split rows n s (i + 1) code, shift))
  where
    shift : (i + 1) + n ≡ i + suc n
    shift = omega arith

find_from-more :
    (rows : List Palette) (n s i code j : ℕ)
    → find_from rows n i code ≡ some j
    → find_from rows (n + s) i code ≡ some j
unfolding find_from
find_from-more rows zero s i code j h = cc
find_from-more [] (suc n) s i code j h = cc
find_from-more (p ∷ rows) (suc n) s i code j h =
    rw suc-add (ground (arith, find_from-more rows n s (i + 1) code j))

-- the code of YUV411P, which the last row repeats
abbrev yuv411p_code : ℕ
yuv411p_code = 0x50313134

yuv411p_found : ¬ (find_from libvideo_palettes nb_supported_palettes 0 yuv411p_code ≡ none)
unfolding find_from
yuv411p_found h = cc

duplicates_miss :
    (code : ℕ)
    → code ≢ 0
    → code ≢ yuv411p_code
    → find_from (skip libvideo_palettes nb_supported_palettes) 3 nb_supported_palettes code ≡ none
unfolding find_from
duplicates_miss code nz ny = ground arith

-- The rows past the supported formats repeat a code or have the code 0.
find_from-none_more :
    (code : ℕ)
    → code ≢ 0
    → find_from libvideo_palettes nb_supported_palettes 0 code ≡ none
    → find_from libvideo_palettes (length libvideo_palettes) 0 code ≡ none
find_from-none_more code nz h =
    find_from-split libvideo_palettes nb_supported_palettes 3 0 code h
    ∙ duplicates_miss code nz (λ e. yuv411p_found (rw e at h))

-- On every code but 0 the two lookups agree, though one scans three more rows.
pub get_palette_index-eq-find_v4l2_palette :
    (code : ℕ) → code ≢ 0 → get_palette_index code ≡ find_v4l2_palette code
unfolding get_palette_index find_v4l2_palette
get_palette_index-eq-find_v4l2_palette code nz =
    elim (Option-cases (find_from libvideo_palettes nb_supported_palettes 0 code)) [
      | inl e ↦ e ∙ sym (find_from-none_more code nz e)
      | inr (j, e) ↦ e ∙ sym (find_from-more libvideo_palettes 74 3 0 code j e)
    ]

-- Whether get_palette_index finds, for the code of each of the next `rounds` rows, that row.
codes_lead_back : List Palette → ℕ → ℕ → Bool
codes_lead_back rows zero i = true
codes_lead_back [] (suc rounds) i = true
codes_lead_back (p ∷ rows) (suc rounds) i =
    is_found (get_palette_index p.v4l2_palette) i && codes_lead_back rows rounds (i + 1)

codes_lead_back-get_elem? :
    (rows : List Palette) (rounds i k : ℕ) {code : ℕ}
    → codes_lead_back rows rounds i ≡ true
    → k < rounds
    → row_code (get_elem? rows k) ≡ some code
    → get_palette_index code ≡ some (i + k)
unfolding codes_lead_back
codes_lead_back-get_elem? rows zero i k h lt e = absurd (omega arith)
codes_lead_back-get_elem? [] (suc rounds) i k h lt e = cc
codes_lead_back-get_elem? (p ∷ rows) (suc rounds) i zero {code} h lt e =
    ground (arith, is_found-eq (get_palette_index code) i)
codes_lead_back-get_elem? (p ∷ rows) (suc rounds) i (suc k) h lt e =
    let deeper = codes_lead_back-get_elem? rows rounds (i + 1) k (ground arith) (omega arith) e in
    let shift : (i + 1) + k ≡ i + suc k = omega arith in deeper ∙ ap some shift

table_leads_back : codes_lead_back libvideo_palettes nb_supported_palettes 0 ≡ true
unfolding codes_lead_back is_found get_palette_index
table_leads_back = refl

row_code_of_lt :
    (rows : List Palette) (k : ℕ)
    → k < length rows
    → row_code (get_elem? rows k) ≡ some (v4l2_of_row (get_elem? rows k))
unfolding v4l2_of_row
row_code_of_lt [] k h = absurd (omega arith)
row_code_of_lt (p ∷ rows) zero h = refl
row_code_of_lt (p ∷ rows) (suc k) h = row_code_of_lt rows k (omega arith)

-- The code of every supported format leads back to that format: no two of them share a code.
pub get_palette_index-palette_code :
    (i : ℕ) → i < nb_supported_palettes → get_palette_index (palette_code i) ≡ some i
unfolding palette_code
get_palette_index-palette_code i h =
    codes_lead_back-get_elem? libvideo_palettes nb_supported_palettes 0 i table_leads_back h
      (row_code_of_lt libvideo_palettes i (omega arith))
    ∙ ap some (zero-add i)

-- An index that get_palette_index returns is a row of the table with the code looked up.
pub palette_code-get_palette_index :
    (code i : ℕ)
    → get_palette_index code ≡ some i
    → (palette_code i ≡ code) × (i < nb_supported_palettes)
unfolding get_palette_index palette_code
palette_code-get_palette_index code i h =
    let (k, at, inside, first) =
      find_from-IsFirst libvideo_palettes nb_supported_palettes 0 code i h in
    let e : i ≡ k = omega arith in
    (code_of_row (get_elem? libvideo_palettes i) code (rw e first.found), omega arith)
  where
    code_of_row : (o : Option Palette) (x : ℕ) → row_code o ≡ some x → v4l2_of_row o ≡ x
    code_of_row none x h = cc
    code_of_row (some p) x h = cc
