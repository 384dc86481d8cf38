-- ===== src/Query/Formats/Described.antt =====
-- The palettes that add_supported_palette (libvideo/v4l2-query.c) adds, against what the comments on
-- struct palette_info (libvideo/libvideo.h) say of them.
use v4l4j.Prelude.{
  ℕ, Bool, true, false, some, [], ◌∷◌, ◌++◌, ◌≡◌, ◌⊎◌, inl, inr, refl, sym, ap, ap₂, subst, ◌∙◌,
  Bool-cases, Option-cases, triple_eq_of_some, none-ne-some,
}
use v4l4j.Prelude.Int.{negsuc}
use v4l4j.Driver.{Driver, Trace}
use v4l4j.Palettes.{find_v4l2_palette, palette_code}
use v4l4j.Query.Sizes.{lookup_frame_sizes}
use v4l4j.Query.Formats.{
  PaletteInfo, is_zero, get_current_resolution, try_format_query, add_raw_format, end_raw_formats,
  add_other_sources, add_converted, add_supported_palette, new_palette,
}
use v4l4j.Query.Formats.Rows.{
  IsRow, Collects, IsConverted, IsDescribed, StandsIn, find_v4l2_palette-IsRow,
}
use v4l4j.Query.Formats.Raw.{CollectsSome, add_raw_format-Collects, add_other_sources-CollectsSome}

-- The palette of a format that is had from the source format `i` is converted, or the source format
-- cannot be captured and the palette is advertised as native with the sizes of that.
abbrev pub HadFrom :
    Driver
    → (fuel : ℕ) → (fmt : ℕ) → (width : ℕ) → (height : ℕ) → ℕ
    → Trace
    → PaletteInfo
    → Trace
    → Type 0
HadFrom d fuel fmt width height i t p t' =
    (p.index ≡ fmt) × (IsConverted d i p ⊎ StandsIn d fuel width height i t p t')

end_raw_formats-IsConverted :
    (d : Driver) (fmt x : ℕ) (p : PaletteInfo)
    → CollectsSome d fmt x p
    → ((end_raw_formats d p).index ≡ fmt) × IsConverted d x (end_raw_formats d p)
unfolding end_raw_formats
end_raw_formats-IsConverted d fmt x p (xs, c) =
    (c.index_kept, (xs, c.rows, ap (λ l. l ++ negsuc 0 ∷ []) c.raws, c.sizes))

new_palette-Collects : (d : Driver) (fmt : ℕ) → Collects d fmt [] (new_palette d fmt)
new_palette-Collects d fmt = record { index_kept = refl; raws = refl; rows = tt; sizes = refl }

module _ (d : Driver) (fuel fmt width height i dst_code : ℕ) (t : Trace) (row : IsRow i) where
  -- the first raw format, of a converted palette
  first_raw :
      (p : PaletteInfo) (t' : Trace) (b : Bool)
      → add_raw_format d fuel width height (new_palette d fmt) i t ≡ some (b, p, t')
      → ((b ≡ true) × CollectsSome d fmt i p)
        ⊎ ((b ≡ false) × (p.index ≡ fmt) × StandsIn d fuel width height i t p t')
  unfolding is_zero
  first_raw p t' b e =
      elim (add_raw_format-Collects d fmt fuel width height [] (new_palette d fmt) p i t t' b
        (new_palette-Collects d fmt) row refl e) [
          | inl (eb, c) ↦ inl (eb, ([], c))
          | inr (inl (eb, y, m, k)) ↦ inr (eb, m, k)
          | inr (inr (eb, y, ep)) ↦ absurd (cc)
        ]

  add_converted-HadFrom :
      (p : PaletteInfo) (t' : Trace)
      → add_converted d fuel fmt width height i dst_code (new_palette d fmt) t ≡ some (true, p, t')
      → HadFrom d fuel fmt width height i t p t'
  unfolding add_converted
  add_converted-HadFrom p t' e =
      elim (Option-cases (add_raw_format d fuel width height (new_palette d fmt) i t)) [
        | inl z ↦ absurd (none-ne-some (sym (rw (add_converted, z) refl) ∙ e))
        | inr ((false, p₁, t₁), z) ↦ elim (first_raw p₁ t₁ false z) [
          | inl (eb, c) ↦ absurd (cc)
          | inr (eb, m, k) ↦
              let (eb', ep, et) =
                triple_eq_of_some true p₁ t₁ (sym (rw (add_converted, z) refl) ∙ e) in
              rw (sym ep, sym et) (m, inr k)
        ]
        | inr ((true, p₁, t₁), z) ↦ elim (first_raw p₁ t₁ true z) [
          | inr (eb, m, k) ↦ absurd (cc)
          | inl (eb, c) ↦ elim (Option-cases (add_other_sources d fuel fuel fmt dst_code 0 p₁ t₁)) [
            | inl y ↦ absurd (none-ne-some (sym (rw (add_converted, z, y) refl) ∙ e))
            | inr ((false, p₂, t₂), y) ↦
                let (eb, ep, et) =
                  triple_eq_of_some false p₂ t₂ (sym (rw (add_converted, z, y) refl) ∙ e) in
                absurd (cc)
            | inr ((true, p₂, t₂), y) ↦
                let (eb, ep, et) =
                  triple_eq_of_some true (end_raw_formats d p₂) t₂
                    (sym (rw (add_converted, z, y) refl) ∙ e) in
                let some_raws =
                  add_other_sources-CollectsSome d fmt i fuel fuel fmt dst_code 0 p₁ p₂ t₁ t₂ true c
                    y in
                let (m, k) = end_raw_formats-IsConverted d fmt i p₂ some_raws in
                (subst (λ q. q.index ≡ fmt) ep m, inl (subst (IsConverted d i) ep k))
          ]
        ]
      ]

-- The palette that is added for a format, against the answer of libv4lconvert for that format and the
-- current resolution.
abbrev pub Describes : Driver → ℕ → ℕ → Trace → PaletteInfo → Trace → Type 0
Describes d fuel fmt t p t' =
    let ((width, height), t₁) = get_current_resolution d t in
    let ((accepted, dst, src), t₂) = try_format_query d fmt width height t₁ in
    (accepted ≡ true)
    × (p.index ≡ fmt)
    × (((d.needs_conversion src dst ≡ false)
          × (p.raw_palettes ≡ [])
          × (lookup_frame_sizes d (palette_code fmt) fuel t₂ ≡ some (p.sizes, t')))
        ⊎ ((d.needs_conversion src dst ≡ true)
            × (i : ℕ) × (find_v4l2_palette src.pixelformat ≡ some i)
            × (IsConverted d i p ⊎ StandsIn d fuel width height i t₂ p t')))

-- Whatever the driver and libv4lconvert, a palette that add_supported_palette adds is the one asked
-- for, and libv4lconvert accepted it at the current resolution. Where it then needs no conversion,
-- the palette is native: it has no raw formats, and the sizes of its format. Where it needs one, from
-- a source format of the table, the palette is converted: it has raw formats, the source format the
-- first, each a row of the table that libv4lconvert gives, at some time and for some size, when it is
-- asked for it, no two the same, with -1 at their end, and no sizes; or libv4lconvert does not give
-- the source format when it is asked for it, and the palette has no raw formats and the sizes of the
-- source format.
pub add_supported_palette-Describes :
    (d : Driver) (fuel fmt : ℕ) (t t' : Trace) (p : PaletteInfo)
    → add_supported_palette d fuel fmt t ≡ some (true, p, t')
    → Describes d fuel fmt t p t'
unfolding add_supported_palette
add_supported_palette-Describes d fuel fmt t t' p e =
    let ((width, height), t₁) = get_current_resolution d t in
    let ((accepted, dst, src), t₂) = try_format_query d fmt width height t₁ in
    elim (Bool-cases accepted) [
      | inr a ↦
          let (eb, ep, et) =
            triple_eq_of_some false (new_palette d fmt) t₂
              (sym (rw (add_supported_palette, a) refl) ∙ e) in
          absurd (cc)
      | inl a ↦ elim (Bool-cases (d.needs_conversion src dst)) [
        | inl c ↦ elim (Option-cases (find_v4l2_palette src.pixelformat)) [
          | inl z ↦
              let (eb, ep, et) =
                triple_eq_of_some false (new_palette d fmt) t₂
                  (sym (rw (add_supported_palette, a, c, z) refl) ∙ e) in
              absurd (cc)
          | inr (i, z) ↦
              let (m, k) =
                add_converted-HadFrom d fuel fmt width height i dst.pixelformat t₂
                  (find_v4l2_palette-IsRow src.pixelformat z) p t'
                  (sym (rw (add_supported_palette, a, c, z) refl) ∙ e) in
              (a, m, inr (c, i, z, k))
        ]
        | inr c ↦ elim (Option-cases (lookup_frame_sizes d (palette_code fmt) fuel t₂)) [
          | inl z ↦ absurd (none-ne-some (sym (rw (add_supported_palette, a, c, z) refl) ∙ e))
          | inr ((s, t₃), z) ↦
              let (eb, ep, et) =
                triple_eq_of_some true (record (new_palette d fmt) { sizes = s }) t₃
                  (sym (rw (add_supported_palette, a, c, z) refl) ∙ e) in
              (
                a,
                subst (λ q. q.index ≡ fmt) ep refl,
                inl (
                  c,
                  subst (λ q. q.raw_palettes ≡ []) ep refl,
                  z ∙ ap₂ (λ (q : PaletteInfo) (u : Trace). some (q.sizes, u)) ep et,
                ),
              )
        ]
      ]
    ]

-- the palette of a format: native or converted
abbrev pub IsPaletteOf : Driver → ℕ → PaletteInfo → Type 0
IsPaletteOf d fmt p = (p.index ≡ fmt) × IsDescribed d p

Describes-IsPaletteOf :
    (d : Driver) (fuel fmt : ℕ) (t t' : Trace) (p : PaletteInfo)
    → Describes d fuel fmt t p t'
    → IsPaletteOf d fmt p
Describes-IsPaletteOf d fuel fmt t t' p (a, m, inl (c, raws, sizes)) = (m, inl raws)
Describes-IsPaletteOf d fuel fmt t t' p (a, m, inr (c, i, z, inl k)) = (m, inr (i, k))
Describes-IsPaletteOf d fuel fmt t t' p (a, m, inr (c, i, z, inr k)) = (m, inl k.0)

pub add_supported_palette-IsPaletteOf :
    (d : Driver) (fuel fmt : ℕ) (t t' : Trace) (p : PaletteInfo)
    → add_supported_palette d fuel fmt t ≡ some (true, p, t')
    → IsPaletteOf d fmt p
add_supported_palette-IsPaletteOf d fuel fmt t t' p e =
    Describes-IsPaletteOf d fuel fmt t t' p (add_supported_palette-Describes d fuel fmt t t' p e)
