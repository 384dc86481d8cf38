-- ===== src/Query/Formats/Listing.antt =====
-- The palettes that check_palettes_v4l2 (libvideo/v4l2-query.c) lists.
use v4l4j.Prelude.{
  ℕ, zero, suc, ◌+◌, ◌<◌, Option, none, some, List, [], ◌∷◌, ◌++◌, ◌≡◌, ◌⊎◌, inl, inr, refl, sym,
  ap, subst, ◌∙◌, length, get_elem?, Bool-cases, Option-cases, arith,
}
use native.Mathlib.Nat.{add-zero, zero-add}
use mathlib.Core.List.{append-nil, append_assoc}
use v4l4j.Prelude.Int.{ℤ, pos}
use v4l4j.Errors.{err_ioctl}
use v4l4j.Driver.{Driver, Trace, enum_fmt}
use v4l4j.Palettes.{find_v4l2_palette}
use v4l4j.Query.Intervals.Termination.{EndsAt}
use v4l4j.Query.Formats.{PaletteInfo, list_palettes, check_palettes}
use v4l4j.Query.Formats.Rows.{IsDescribed}
use v4l4j.Query.Formats.Described.{IsPaletteOf, add_supported_palette-IsPaletteOf}
use v4l4j.Query.Formats.Termination.{add_supported_palette-Ends}

-- the rows of the table with the codes of a list, for those that have one
abbrev pub known : List ℕ → List ℕ
known [] = []
known (code ∷ codes) = elim (find_v4l2_palette code) [
  | none ↦ known codes
  | some i ↦ i ∷ known codes
]

-- The palettes are those of a list of rows, in order, each native or converted.
abbrev pub DescribesAll : Driver → List ℕ → List PaletteInfo → Type 0
DescribesAll d [] [] = Unit
DescribesAll d [] (p ∷ ps) = ⊥
DescribesAll d (i ∷ is) [] = ⊥
DescribesAll d (i ∷ is) (p ∷ ps) = (p.index ≡ i) × IsDescribed d p × DescribesAll d is ps

DescribesAll-append :
    (d : Driver) (is : List ℕ) (ps : List PaletteInfo) (i : ℕ) (p : PaletteInfo)
    → DescribesAll d is ps
    → IsPaletteOf d i p
    → DescribesAll d (is ++ i ∷ []) (ps ++ p ∷ [])
DescribesAll-append d [] [] i p h (e, k) = (e, k, tt)
DescribesAll-append d [] (q ∷ ps) i p h k = absurd h
DescribesAll-append d (j ∷ is) [] i p h k = absurd h
DescribesAll-append d (j ∷ is) (q ∷ ps) i p (e, l, h) k =
    (e, l, DescribesAll-append d is ps i p h k)

next_index : (i k : ℕ) → i + 1 + k ≡ i + suc k
next_index i k = omega arith

-- How list_palettes ends: with an error, or with the palettes of some rows.
abbrev Lists : Driver → List ℕ → Option (Option (List PaletteInfo) × Trace) → Type 0
Lists d is r =
    ((t : Trace) × (r ≡ some (none, t)))
    ⊎ ((ps : List PaletteInfo) × (t : Trace) × (r ≡ some (some ps, t)) × DescribesAll d is ps)

Lists-eq :
    (d : Driver) (is js : List ℕ) {r s : Option (Option (List PaletteInfo) × Trace)}
    → r ≡ s
    → is ≡ js
    → Lists d is s
    → Lists d js r
Lists-eq d is js e k (inl (t, h)) = inl (t, e ∙ h)
Lists-eq d is js e k (inr (ps, t, h, l)) = inr (ps, t, e ∙ h, subst (λ x. DescribesAll d x ps) k l)

module _ (d : Driver) (n : ℕ) (ends : EndsAt d n) where
  list_palettes-Lists :
      (query_fuel : ℕ) (codes : List ℕ) (fuel i : ℕ) (is : List ℕ) (ps : List PaletteInfo)
      (t : Trace)
      → n < query_fuel
      → length codes < fuel
      → ((t : Trace) (k : ℕ) → d.on_enum_fmt t (i + k) ≡ get_elem? codes k)
      → DescribesAll d is ps
      → Lists d (is ++ known codes) (list_palettes d query_fuel fuel i ps t)
  unfolding list_palettes
  list_palettes-Lists query_fuel codes zero i is ps t big lt formats h = absurd (omega arith)
  list_palettes-Lists query_fuel [] (suc fuel) i is ps t big lt formats h =
      let e = ap (d.on_enum_fmt t) (sym (add-zero i)) ∙ formats t 0 in
      inr (
        ps,
        enum_fmt i ∷ t,
        rw (list_palettes, e) refl,
        subst (λ x. DescribesAll d x ps) (sym (append-nil is)) h,
      )
  list_palettes-Lists query_fuel (code ∷ codes) (suc fuel) i is ps t big lt formats h =
      let e = ap (d.on_enum_fmt t) (sym (add-zero i)) ∙ formats t 0 in
      let t₁ = enum_fmt i ∷ t in
      let formats' =
        λ (t : Trace) (k : ℕ). ap (d.on_enum_fmt t) (next_index i k) ∙ formats t (suc k) in
      elim (Option-cases (find_v4l2_palette code)) [
        | inl x ↦
            Lists-eq d (is ++ known codes) (is ++ known (code ∷ codes))
              (rw (list_palettes, e, x) refl) (rw (known, x) refl)
              (list_palettes-Lists query_fuel codes fuel (i + 1) is ps t₁ big (omega arith) formats'
                h)
        | inr (fmt, x) ↦
            let ((added, p, t₂), k) = add_supported_palette-Ends d n ends query_fuel fmt t₁ big in
            elim (Bool-cases added) [
              | inr y ↦ inl (t₂, rw (list_palettes, e, x, k, y) refl)
              | inl y ↦
                  let described =
                    add_supported_palette-IsPaletteOf d query_fuel fmt t₁ t₂ p
                      (k ∙ ap (λ b. some (b, p, t₂)) y) in
                  Lists-eq d ((is ++ fmt ∷ []) ++ known codes) (is ++ known (code ∷ codes))
                    (rw (list_palettes, e, x, k, y) refl)
                    (rw (known, x) (append_assoc is (fmt ∷ []) (known codes)))
                    (list_palettes-Lists query_fuel codes fuel (i + 1) (is ++ fmt ∷ [])
                      (ps ++ p ∷ []) t₂ big (omega arith) formats'
                      (DescribesAll-append d is ps fmt p h described))
            ]
      ]

  -- Take a driver whose lists of intervals and sizes end at an index, and whose list of formats does
  -- not change. With fuel beyond both lists check_palettes_v4l2 returns: either LIBVIDEO_ERR_IOCTL and
  -- no palettes, or the number of its palettes, which are those of the rows of the table with the
  -- driver's codes, in the driver's order, each native or converted as documented in libvideo.h.
  pub check_palettes-DescribesAll :
      (codes : List ℕ) (fuel : ℕ) (t : Trace)
      → n < fuel
      → length codes < fuel
      → ((t : Trace) (k : ℕ) → d.on_enum_fmt t k ≡ get_elem? codes k)
      → (ret : ℤ) × (ps : List PaletteInfo) × (t' : Trace) × (check_palettes d fuel t
          ≡ some (ret, ps, t'))
        × (((ret ≡ err_ioctl) × (ps ≡ []))
            ⊎ ((ret ≡ pos (length ps)) × DescribesAll d (known codes) ps))
  unfolding check_palettes
  check_palettes-DescribesAll codes fuel t big lt formats =
      elim (list_palettes-Lists fuel codes fuel 0 [] [] t big lt
        (λ t k. ap (d.on_enum_fmt t) (zero-add k) ∙ formats t k) tt) [
          | inl (t₁, e) ↦ (err_ioctl, [], t₁, rw (check_palettes, e) refl, inl (refl, refl))
          | inr (ps, t₁, e, l) ↦
              (pos (length ps), ps, t₁, rw (check_palettes, e) refl, inr (refl, l))
        ]
