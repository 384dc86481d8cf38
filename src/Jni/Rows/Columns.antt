-- ===== src/Jni/Rows/Columns.antt =====
-- Rows at equal distances, and the loop over the calls of the compressor (src/jpeg.c), which hands
-- over the rows of the planes in their order.
use v4l4j.Prelude.{
  ℕ, zero, suc, ◌+◌, ◌*◌, ◌≤◌, ◌<◌, ◌≡◌, refl, ap, ap₂, ◌∙◌, true, false, List, [], ◌∷◌, ◌++◌, map,
  ltb, arith,
}
use v4l4j.Jni.Rows.{Rows, advance, written}

-- n rows, `stride` apart
unfoldable pub column : ℕ → ℕ → ℕ → List ℕ
column start stride zero = []
column start stride (suc n) = start ∷ column (start + stride) stride n

-- The rows of all calls, one plane after the other.
pub handed_over : List Rows → Rows
handed_over [] = record { y = []; cb = []; cr = [] }
handed_over (r ∷ rs) =
    let rest = handed_over rs in
    record { y = r.y ++ rest.y; cb = r.cb ++ rest.cb; cr = r.cr ++ rest.cr }

map-column :
    (start stride k n : ℕ)
    → map (λ row. row + k) (column start stride n) ≡ column (start + k) stride n
unfolding column
map-column start stride k zero = refl
map-column start stride k (suc n) =
    ap₂ ◌∷◌ refl
      (map-column (start + stride) stride k n ∙ ap (λ s. column s stride n) (omega arith))

column-add :
    (start stride m n next : ℕ)
    → next ≡ start + m * stride
    → column start stride m ++ column next stride n ≡ column start stride (m + n)
unfolding column
column-add start stride zero n next e = ap₂ (λ a k. column a stride k) (omega arith) (omega arith)
column-add start stride (suc m) n next e =
    ap₂ ◌∷◌ refl (column-add (start + stride) stride m n next (omega arith))
    ∙ (let e' : suc (m + n) ≡ suc m + n = omega arith in ap (column start stride) e')

-- The planes from the rows a, b and c on, k calls of them.
unfoldable pub planes : ℕ → ℕ → ℕ → ℕ → ℕ → ℕ → ℕ → ℕ → Rows
unfolding column
planes lines chromas width half a b c k = record {
  y = column a width (k * lines);
  cb = column b half (k * chromas);
  cr = column c half (k * chromas);
}

pub rows_eq :
    {y y' cb cb' cr cr' : List ℕ}
    → y ≡ y'
    → cb ≡ cb'
    → cr ≡ cr'
    → ◌≡◌ {A = Rows} (record { y = y; cb = cb; cr = cr }) (record { y = y'; cb = cb'; cr = cr' })
rows_eq p q r = rw (p, q, r) refl

shift-column :
    (start stride stride' d n : ℕ)
    → stride' ≡ d
    → map (λ row. row + stride') (column start stride n) ≡ column (start + d) stride n
shift-column start stride stride' d n e = map-column start stride stride' n ∙ rw e refl

more-column :
    (start stride m k : ℕ)
    → column start stride (1 * m) ++ column (start + m * stride) stride (k * m)
      ≡ column start stride (suc k * m)
more-column start stride m k =
    let e : 1 * m + k * m ≡ suc k * m = omega arith in
    column-add start stride (1 * m) (k * m) _ (omega arith) ∙ ap (column start stride) e

no-column : (start stride m : ℕ) → [] ≡ column start stride (0 * m)
unfolding column
no-column start stride m = let e : 0 ≡ 0 * m = omega arith in ap (column start stride) e

module _ (lines chromas width half y_stride uv_stride height : ℕ) where
  advance-planes :
      (a b c : ℕ)
      → y_stride ≡ lines * width
      → uv_stride ≡ chromas * half
      → advance y_stride uv_stride (planes lines chromas width half a b c 1)
        ≡ planes lines chromas width half
            (a + lines * width)
            (b + chromas * half)
            (c + chromas * half)
            1
  unfolding advance planes
  advance-planes a b c e f =
      rows_eq (shift-column a width _ _ _ e) (shift-column b half _ _ _ f)
        (shift-column c half _ _ _ f)

  handed_over-planes :
      (a b c k : ℕ) (rs : List Rows)
      → handed_over rs
        ≡ planes lines chromas width half
            (a + lines * width)
            (b + chromas * half)
            (c + chromas * half)
            k
      → handed_over (planes lines chromas width half a b c 1 ∷ rs)
        ≡ planes lines chromas width half a b c (suc k)
  unfolding handed_over planes
  handed_over-planes a b c k rs e =
      rows_eq (ap (λ r. column a width (1 * lines) ++ r.y) e ∙ more-column a width lines k)
        (ap (λ r. column b half (1 * chromas) ++ r.cb) e ∙ more-column b half chromas k)
        (ap (λ r. column c half (1 * chromas) ++ r.cr) e ∙ more-column c half chromas k)

  nothing_left : (a b c : ℕ) → handed_over [] ≡ planes lines chromas width half a b c 0
  unfolding handed_over planes
  nothing_left a b c =
      rows_eq (no-column a width lines) (no-column b half chromas) (no-column c half chromas)

  -- k calls are still to come.
  pub written-planes :
      (fuel line a b c k : ℕ)
      → y_stride ≡ lines * width
      → uv_stride ≡ chromas * half
      → k ≤ fuel
      → height ≤ line + k * lines
      → line + k * lines < height + lines
      → handed_over (
          written fuel lines height y_stride uv_stride line
            (planes lines chromas width half a b c 1))
        ≡ planes lines chromas width half a b c k
  unfolding written
  written-planes zero line a b c zero e f enough ends last = nothing_left a b c
  written-planes zero line a b c (suc k) e f enough ends last = absurd (omega arith)
  written-planes (suc fuel) line a b c zero e f enough ends last =
      let stop : ltb line height ≡ false = ground arith in rw (written, stop) (nothing_left a b c)
  written-planes (suc fuel) line a b c (suc k) e f enough ends last =
      let go : ltb line height ≡ true = ground arith in
      rw (written, go, advance-planes a b c e f)
        (handed_over-planes a b c k _ (
          written-planes fuel (line + lines) _ _ _ k e f (omega arith) (omega arith) (omega arith)))
