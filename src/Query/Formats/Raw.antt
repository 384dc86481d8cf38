-- ===== src/Query/Formats/Raw.antt =====
-- The raw formats of a converted palette (add_supported_palette of libvideo/v4l2-query.c), against
-- what the comments on struct palette_info (libvideo/libvideo.h) say of them.
use v4l4j.Prelude.{
  ℕ, zero, suc, ◌+◌, Bool, true, false, some, List, [], ◌∷◌, ◌++◌, ◌≡◌, ◌⊎◌, inl, inr, refl, sym,
  ap, ap₂, subst, ◌∙◌, ◌==◌, ◌&&◌, not, length, Bool-cases, Option-cases, triple_eq_of_some,
  none-ne-some, arith,
}
use mathlib.Core.List.{map-append}
use v4l4j.Prelude.Int.{pos}
use v4l4j.Driver.{Driver, Trace, enum_framesizes}
use v4l4j.Palettes.{find_v4l2_palette, palette_code}
use v4l4j.Query.Sizes.{lookup_frame_sizes}
use v4l4j.Query.Sizes.Replies.{reply_cases}
use v4l4j.Query.Formats.{
  PaletteInfo, has_raw_format, is_zero, try_format_query, add_raw_format, add_source,
  add_other_sources,
}
use v4l4j.Query.Formats.Rows.{
  IsRow, IsUsable, has, DistinctRows-append, find_v4l2_palette-IsRow, has_raw_format-map, fresh,
  Collects, StandsIn,
}

module _ (d : Driver) (index : ℕ) where
  append-Collects :
      (xs : List ℕ) (p : PaletteInfo) (fmt : ℕ)
      → Collects d index xs p
      → IsRow fmt
      → IsUsable d fmt
      → has xs fmt ≡ false
      → Collects d index
          (xs ++ fmt ∷ [])
          (record p { raw_palettes = p.raw_palettes ++ pos fmt ∷ [] })
  append-Collects xs p fmt c r u n = record {
    index_kept = c.index_kept;
    raws = ap (λ l. l ++ pos fmt ∷ []) c.raws ∙ sym (map-append pos xs (fmt ∷ []));
    rows = DistinctRows-append d xs fmt c.rows r u n;
    sizes = c.sizes;
  }

  pub add_raw_format-Collects :
      (fuel width height : ℕ) (xs : List ℕ) (p p' : PaletteInfo) (fmt : ℕ) (t t' : Trace) (b : Bool)
      → Collects d index xs p
      → IsRow fmt
      → has xs fmt ≡ false
      → add_raw_format d fuel width height p fmt t ≡ some (b, p', t')
      → ((b ≡ true) × Collects d index (xs ++ fmt ∷ []) p')
        ⊎ ((b ≡ false)
            × (is_zero (length p.raw_palettes) ≡ true)
            × (p'.index ≡ index)
            × StandsIn d fuel width height fmt t p' t')
        ⊎ ((b ≡ false) × (is_zero (length p.raw_palettes) ≡ false) × (p ≡ p'))
  unfolding add_raw_format
  add_raw_format-Collects fuel width height xs p p' fmt t t' b c r n e =
      let ((accepted, dst, src), t₁) = try_format_query d fmt width height t in
      elim (Bool-cases (dst.pixelformat == palette_code fmt)) [
        | inl x ↦
            let (eb, ep, et) =
              triple_eq_of_some true (record p { raw_palettes = p.raw_palettes ++ pos fmt ∷ [] }) t₁
                (sym (rw (add_raw_format, x) refl) ∙ e) in
            let usable : IsUsable d fmt = (t, width, height, ground arith) in
            inl (
              sym eb,
              subst (Collects d index (xs ++ fmt ∷ [])) ep (append-Collects xs p fmt c r usable n),
            )
        | inr x ↦ elim (Bool-cases (is_zero (length p.raw_palettes))) [
          | inl y ↦ elim (Option-cases (lookup_frame_sizes d (palette_code fmt) fuel t₁)) [
            | inl z ↦ absurd (none-ne-some (sym (rw (add_raw_format, x, y, z) refl) ∙ e))
            | inr ((s, t₂), z) ↦
                let (eb, ep, et) =
                  triple_eq_of_some false (record p { raw_palettes = []; sizes = s }) t₂
                    (sym (rw (add_raw_format, x, y, z) refl) ∙ e) in
                inr (
                  inl (
                    sym eb,
                    y,
                    subst (λ q. q.index ≡ index) ep c.index_kept,
                    (
                      subst (λ q. q.raw_palettes ≡ []) ep refl,
                      ground arith,
                      z ∙ ap₂ (λ (q : PaletteInfo) (u : Trace). some (q.sizes, u)) ep et,
                    ),
                  ))
          ]
          | inr y ↦
              let (eb, ep, et) =
                triple_eq_of_some false p t₁ (sym (rw (add_raw_format, x, y) refl) ∙ e) in
              inr (inr (sym eb, y, ep))
        ]
      ]

  -- A palette with some raw formats, of which `x` is the first.
  abbrev pub CollectsSome : ℕ → PaletteInfo → Type 0
  CollectsSome x p = (xs : List ℕ) × Collects d index (x ∷ xs) p

  not_empty :
      (x : ℕ) (xs : List ℕ) (p : PaletteInfo)
      → Collects d index (x ∷ xs) p
      → ¬ (is_zero (length p.raw_palettes) ≡ true)
  unfolding is_zero
  not_empty x xs p c e = ground (arith, c.raws)

  add_raw_format-CollectsSome :
      (fuel width height x : ℕ) (xs : List ℕ) (p p' : PaletteInfo) (fmt : ℕ) (t t' : Trace)
      (b : Bool)
      → Collects d index (x ∷ xs) p
      → IsRow fmt
      → has_raw_format p.raw_palettes fmt ≡ false
      → add_raw_format d fuel width height p fmt t ≡ some (b, p', t')
      → CollectsSome x p'
  add_raw_format-CollectsSome fuel width height x xs p p' fmt t t' b c r n e =
      let known = sym (ap (λ l. has_raw_format l fmt) c.raws ∙ has_raw_format-map (x ∷ xs) fmt) in
      elim (add_raw_format-Collects fuel width height (x ∷ xs) p p' fmt t t' b c r (known ∙ n) e) [
        | inl (eb, c') ↦ (xs ++ fmt ∷ [], c')
        | inr (inl (eb, y, m, k)) ↦ absurd (not_empty x xs p c y)
        | inr (inr (eb, y, ep)) ↦ (xs, subst (Collects d index (x ∷ xs)) ep c)
      ]

  add_source-CollectsSome :
      (x fuel fmt width height : ℕ) (p p' : PaletteInfo) (t t' : Trace) (b : Bool)
      → CollectsSome x p
      → add_source d fuel fmt width height p t ≡ some (b, p', t')
      → CollectsSome x p'
  unfolding add_source
  add_source-CollectsSome x fuel fmt width height p p' t t' b (xs, c) e =
      let ((accepted, dst, src), t₁) = try_format_query d fmt width height t in
      elim (Option-cases (find_v4l2_palette src.pixelformat)) [
        | inl z ↦
            let (eb, ep, et) = triple_eq_of_some false p t₁ (sym (rw (add_source, z) refl) ∙ e) in
            (xs, subst (Collects d index (x ∷ xs)) ep c)
        | inr (i, z) ↦
            elim (Bool-cases
              (d.needs_conversion src dst && not (has_raw_format p.raw_palettes i))) [
                | inr w ↦
                    let (eb, ep, et) =
                      triple_eq_of_some true p t₁ (sym (rw (add_source, z, w) refl) ∙ e) in
                    (xs, subst (Collects d index (x ∷ xs)) ep c)
                | inl w ↦ elim (Option-cases (add_raw_format d fuel width height p i t₁)) [
                  | inl u ↦ absurd (none-ne-some (sym (rw (add_source, z, w, u) refl) ∙ e))
                  | inr ((done, p₁, t₂), u) ↦
                      let (eb, ep, et) =
                        triple_eq_of_some true p₁ t₂ (sym (rw (add_source, z, w, u) refl) ∙ e) in
                      subst (CollectsSome x) ep (
                        add_raw_format-CollectsSome fuel width height x xs p p₁ i t₁ t₂ done c
                          (find_v4l2_palette-IsRow src.pixelformat z)
                          (fresh (d.needs_conversion src dst) (has_raw_format p.raw_palettes i) w)
                          u)
                ]
              ]
      ]

  pub add_other_sources-CollectsSome :
      (x intv_fuel fuel fmt dst_code i : ℕ) (p p' : PaletteInfo) (t t' : Trace) (b : Bool)
      → CollectsSome x p
      → add_other_sources d intv_fuel fuel fmt dst_code i p t ≡ some (b, p', t')
      → CollectsSome x p'
  unfolding add_other_sources
  add_other_sources-CollectsSome x intv_fuel zero fmt dst_code i p p' t t' b c e =
      absurd (none-ne-some e)
  add_other_sources-CollectsSome x intv_fuel (suc fuel) fmt dst_code i p p' t t' b c e =
      let t₁ = enum_framesizes dst_code i ∷ t in
      elim (reply_cases (d.on_enum_framesizes t dst_code i)) [
        | inl z ↦
            let (eb, ep, et) =
              triple_eq_of_some true p t₁ (sym (rw (add_other_sources, z) refl) ∙ e) in
            subst (CollectsSome x) ep c
        | inr (inr (range, z)) ↦
            let (eb, ep, et) =
              triple_eq_of_some true p t₁ (sym (rw (add_other_sources, z) refl) ∙ e) in
            subst (CollectsSome x) ep c
        | inr (inl (w, h, z)) ↦ elim (Option-cases (add_source d intv_fuel fmt w h p t₁)) [
          | inl y ↦ absurd (none-ne-some (sym (rw (add_other_sources, z, y) refl) ∙ e))
          | inr ((true, p₁, t₂), y) ↦
              add_other_sources-CollectsSome x intv_fuel fuel fmt dst_code (i + 1) p₁ p' t₂ t' b
                (add_source-CollectsSome x intv_fuel fmt w h p p₁ t₁ t₂ true c y)
                (sym (rw (add_other_sources, z, y) refl) ∙ e)
          | inr ((false, p₁, t₂), y) ↦
              let (eb, ep, et) =
                triple_eq_of_some false p₁ t₂ (sym (rw (add_other_sources, z, y) refl) ∙ e) in
              subst (CollectsSome x) ep
                (add_source-CollectsSome x intv_fuel fmt w h p p₁ t₁ t₂ false c y)
        ]
      ]
