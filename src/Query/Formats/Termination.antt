-- ===== src/Query/Formats/Termination.antt =====
-- That add_supported_palette (libvideo/v4l2-query.c) ends on a driver whose lists end.
use v4l4j.Prelude.{
  ℕ, zero, suc, ◌+◌, ◌≤◌, ◌<◌, ◌∷◌, inl, inr, refl, sym, ap, ◌∙◌, ◌==◌, ◌&&◌, not, length,
  Bool-cases, Option-cases, none-ne-some, arith,
}
use v4l4j.Driver.{Driver, Trace, enum_framesizes}
use v4l4j.Control.Enumerate.Termination.{at_last}
use v4l4j.Palettes.{find_v4l2_palette, palette_code}
use v4l4j.Query.Intervals.Termination.{EndsAt, Ends, Ends-eq}
use v4l4j.Query.Sizes.Replies.{reply_cases}
use v4l4j.Query.Sizes.Termination.{lookup_frame_sizes-Ends}
use v4l4j.Query.Formats.{
  PaletteInfo, is_zero, try_format_query, get_current_resolution, has_raw_format, add_raw_format,
  add_source, add_other_sources, add_converted, add_supported_palette, new_palette,
}

module _ (d : Driver) (n : ℕ) (ends : EndsAt d n) where
  add_raw_format-Ends :
      (fuel w h : ℕ) (p : PaletteInfo) (fmt : ℕ) (t : Trace)
      → n < fuel
      → Ends (add_raw_format d fuel w h p fmt t)
  unfolding add_raw_format
  add_raw_format-Ends fuel w h p fmt t lt =
      let ((accepted, dst, src), t₁) = try_format_query d fmt w h t in
      let ((s, t₂), e) = lookup_frame_sizes-Ends d n ends (palette_code fmt) fuel t₁ lt in
      elim (Bool-cases (dst.pixelformat == palette_code fmt)) [
        | inl x ↦ rw (add_raw_format, x) (_, refl)
        | inr x ↦ elim (Bool-cases (is_zero (length p.raw_palettes))) [
          | inl y ↦ rw (add_raw_format, x, y, e) (_, refl)
          | inr y ↦ rw (add_raw_format, x, y) (_, refl)
        ]
      ]

  add_source-Ends :
      (fuel fmt w h : ℕ) (p : PaletteInfo) (t : Trace)
      → n < fuel
      → Ends (add_source d fuel fmt w h p t)
  unfolding add_source
  add_source-Ends fuel fmt w h p t lt =
      let ((accepted, dst, src), t₁) = try_format_query d fmt w h t in
      elim (Option-cases (find_v4l2_palette src.pixelformat)) [
        | inl x ↦ rw (add_source, x) (_, refl)
        | inr (i, x) ↦
            let (r, e) = add_raw_format-Ends fuel w h p i t₁ lt in
            elim (Bool-cases
              (d.needs_conversion src dst && not (has_raw_format p.raw_palettes i))) [
                | inl y ↦ rw (add_source, x, y, e) (_, refl)
                | inr y ↦ rw (add_source, x, y) (_, refl)
              ]
      ]

  add_other_sources-Ends :
      (intv_fuel fuel fmt code i : ℕ) (p : PaletteInfo) (t : Trace)
      → n < intv_fuel
      → i ≤ n
      → n < i + fuel
      → Ends (add_other_sources d intv_fuel fuel fmt code i p t)
  unfolding add_other_sources
  add_other_sources-Ends intv_fuel zero fmt code i p t big le lt = absurd (omega arith)
  add_other_sources-Ends intv_fuel (suc fuel) fmt code i p t big le lt =
      let t₁ = enum_framesizes code i ∷ t in
      elim (reply_cases (d.on_enum_framesizes t code i)) [
        | inl e ↦ rw (add_other_sources, e) (_, refl)
        | inr (inr (r, e)) ↦ rw (add_other_sources, e) (_, refl)
        | inr (inl (w, h, e)) ↦ elim (at_last i n le) [
          | inl last ↦
              absurd
                (none-ne-some (sym (ap (d.on_enum_framesizes t code) last ∙ ends.sizes t code) ∙ e))
          | inr more ↦
              let ((found, p₁, t₂), k) = add_source-Ends intv_fuel fmt w h p t₁ big in
              elim (Bool-cases found) [
                | inl x ↦ Ends-eq (rw (add_other_sources, e, k, x) refl) (
                    add_other_sources-Ends intv_fuel fuel fmt code (i + 1) p₁ t₂ big (omega arith)
                      (omega arith))
                | inr x ↦ rw (add_other_sources, e, k, x) (_, refl)
              ]
        ]
      ]

  add_converted-Ends :
      (fuel fmt w h i code : ℕ) (p : PaletteInfo) (t : Trace)
      → n < fuel
      → Ends (add_converted d fuel fmt w h i code p t)
  unfolding add_converted
  add_converted-Ends fuel fmt w h i code p t lt =
      let ((added, p₁, t₁), e) = add_raw_format-Ends fuel w h p i t lt in
      let ((found, p₂, t₂), k) =
        add_other_sources-Ends fuel fuel fmt code 0 p₁ t₁ lt (omega arith) (omega arith) in
      elim (Bool-cases added) [
        | inr x ↦ rw (add_converted, e, x) (_, refl)
        | inl x ↦ elim (Bool-cases found) [
          | inl y ↦ rw (add_converted, e, x, k, y) (_, refl)
          | inr y ↦ rw (add_converted, e, x, k, y) (_, refl)
        ]
      ]

  pub add_supported_palette-Ends :
      (fuel fmt : ℕ) (t : Trace) → n < fuel → Ends (add_supported_palette d fuel fmt t)
  unfolding add_supported_palette
  add_supported_palette-Ends fuel fmt t lt =
      let ((w, h), t₁) = get_current_resolution d t in
      let ((accepted, dst, src), t₂) = try_format_query d fmt w h t₁ in
      let curr = new_palette d fmt in
      let ((s, t₃), e) = lookup_frame_sizes-Ends d n ends (palette_code fmt) fuel t₂ lt in
      elim (Bool-cases accepted) [
        | inr a ↦ rw (add_supported_palette, a) (_, refl)
        | inl a ↦ elim (Bool-cases (d.needs_conversion src dst)) [
          | inr c ↦ rw (add_supported_palette, a, c, e) (_, refl)
          | inl c ↦ elim (Option-cases (find_v4l2_palette src.pixelformat)) [
            | inl z ↦ rw (add_supported_palette, a, c, z) (_, refl)
            | inr (i, z) ↦
                Ends-eq (rw (add_supported_palette, a, c, z) refl)
                  (add_converted-Ends fuel fmt w h i dst.pixelformat curr t₂ lt)
          ]
        ]
      ]
