-- ===== src/Control/Enumerate/Capacity.antt =====
-- create_v4l2_controls (libvideo/v4l2-input.c) fills as many elements as count_v4l2_controls counts.
use v4l4j.Prelude.{
  ℕ, zero, suc, ◌+◌, ◌%◌, ◌≤◌, Option, none, some, [], ◌∷◌, ◌≡◌, inl, inr, refl, ap, sym, subst,
  ◌∙◌, length, if◌then◌else◌, Option-cases, arith,
}
use v4l4j.Driver.{Driver, Trace, QueryCtrl, QueryReply, found, refused, queryctrl}
use v4l4j.Control.Enumerate.{
  Counted, Created, cid_base, cid_private_base, nb_std_ids, next_ctrl, moved_on, is_new,
  append_control, count_std, create_std, count_priv, count_ext, create_ext, count_v4l2_controls,
  create_v4l2_controls,
}
use v4l4j.Control.Enumerate.Extended.{counted_with, count_ext-refused, query_cases}
use v4l4j.Control.Enumerate.Termination.{IsHonest}
use v4l4j.Control.Enumerate.Agreement.{
  Matches, append_control-Matches, Grows, count_priv-Grows, count_std-create_std,
  count_priv-create_priv, counted_eq,
}

-- the array and the trace after a round of create_ext
abbrev created_with : Driver → QueryCtrl → Created → Trace → Created × Trace
created_with d q m u = if is_new m.ids q then append_control d q m u else (m, u)

created_with-Matches :
    (d : Driver) (q : QueryCtrl) (f : Counted) (m : Created) (u : Trace)
    → Matches f m
    → Matches (counted_with q f) (created_with d q m u).0
created_with-Matches d q f m u h = ground (arith, append_control-Matches d q f m u h)

count_ext-zero :
    (d : Driver) (id current : ℕ) (f g : Counted) (t t' : Trace)
    → ¬ (count_ext d zero id current f t ≡ some (g, t'))
unfolding count_ext
count_ext-zero d id current f g t t' e = ground arith

count_le : (q : QueryCtrl) (f g : Counted) → (counted_with q f).count ≤ g.count → f.count ≤ g.count
count_le q f g h = ground arith

module _ (d : Driver) (fuel id current : ℕ) where
  count_ext-round :
      (q : QueryCtrl) (f : Counted) (t : Trace)
      → d.on_queryctrl t id ≡ found q
      → let next = moved_on q.id current % next_ctrl in
        count_ext d (suc fuel) id current f t
        ≡ count_ext d fuel (next + next_ctrl) next (counted_with q f) (queryctrl id ∷ t)
  unfolding count_ext
  count_ext-round q f t e = rw (count_ext, e) refl

  create_ext-round :
      (q : QueryCtrl) (m : Created) (u : Trace)
      → d.on_queryctrl u id ≡ found q
      → let next = moved_on q.id current % next_ctrl in
        let (m₁, u₁) = created_with d q m (queryctrl id ∷ u) in
        create_ext d (suc fuel) id current m u ≡ create_ext d fuel (next + next_ctrl) next m₁ u₁
  unfolding create_ext
  create_ext-round q m u e = rw (create_ext, e) refl

  create_ext-refused :
      (errno : ℕ) (m : Created) (u : Trace)
      → d.on_queryctrl u id ≡ refused errno
      → create_ext d (suc fuel) id current m u ≡ some (m, queryctrl id ∷ u)
  unfolding create_ext
  create_ext-refused errno m u e = rw (create_ext, e) refl

count_ext_count :
    (d : Driver) (fuel id current : ℕ) (f g : Counted) (t t' : Trace)
    → count_ext d fuel id current f t ≡ some (g, t')
    → f.count ≤ g.count
count_ext_count d zero id current f g t t' e = absurd (count_ext-zero d id current f g t t' e)
count_ext_count d (suc fuel) id current f g t t' e = elim (query_cases (d.on_queryctrl t id)) [
  | inl (errno, r) ↦
      let stopped = sym (count_ext-refused d fuel id current errno f t r) ∙ e in
      omega (arith, ap (λ y. y.count) (counted_eq f g (queryctrl id ∷ t) t' stopped))
  | inr (q, r) ↦
      let next = moved_on q.id current % next_ctrl in
      count_le q f g (
        count_ext_count d fuel (next + next_ctrl) next (counted_with q f) g (queryctrl id ∷ t) t'
          (sym (count_ext-round d fuel id current q f t r) ∙ e))
]

count_bound :
    (f g h : Counted) (n max : ℕ)
    → Grows f g
    → g.count ≤ h.count
    → h.count ≡ n
    → n ≤ max
    → f.count ≤ max
count_bound f g h n max a le e k = ground arith

result_eq :
    (a b : ℕ) (t t' : Trace)
    → ◌≡◌ {A = Option (ℕ × Trace)} (some (a, t)) (some (b, t'))
    → (a ≡ b) × (t ≡ t')
result_eq a b t t' e = ground (arith, e)

abbrev nothing_created : Created
nothing_created = record { controls = []; count = 0; ids = [] }

abbrev nothing_counted : Counted
nothing_counted = record { count = 0; ids = [] }

-- count_v4l2_controls, loop by loop
abbrev Stages : Driver → ℕ → ℕ → Trace → Trace → Type 0
Stages d fuel n t t' =
    let (f, t₁) = count_std d nb_std_ids cid_base nothing_counted t in
    (g : Counted) × (t₂ : Trace) × (g' : Counted) × (count_priv d fuel cid_private_base f t₁
      ≡ some (g, t₂))
    × (count_ext d fuel next_ctrl 0 g t₂ ≡ some (g', t'))
    × (g'.count ≡ n)

count_v4l2_controls-Stages :
    (d : Driver) (fuel n : ℕ) (t t' : Trace)
    → count_v4l2_controls d fuel t ≡ some (n, t')
    → Stages d fuel n t t'
unfolding count_v4l2_controls
count_v4l2_controls-Stages d fuel n t t' e =
    let (f, t₁) = count_std d nb_std_ids cid_base nothing_counted t in
    elim (Option-cases (count_priv d fuel cid_private_base f t₁)) [
      | inl e₁ ↦
          let failed : none ≡ some (n, t') = sym (rw (count_v4l2_controls, e₁) refl) ∙ e in
          absurd (ground (arith, failed))
      | inr ((g, t₂), e₁) ↦ elim (Option-cases (count_ext d fuel next_ctrl 0 g t₂)) [
        | inl e₂ ↦
            let failed : none ≡ some (n, t') = sym (rw (count_v4l2_controls, e₁, e₂) refl) ∙ e in
            absurd (ground (arith, failed))
        | inr ((g', t₃), e₂) ↦
            let ended : some (g'.count, t₃) ≡ some (n, t') =
              sym (rw (count_v4l2_controls, e₁, e₂) refl) ∙ e in
            let (same_count, same_trace) = result_eq g'.count n t₃ t' ended in
            (g, t₂, g', e₁, e₂ ∙ ap (λ y. some (g', y)) same_trace, same_count)
      ]
    ]

module _ (d : Driver) (answer : ℕ → QueryReply)
    (steady : (t : Trace) (id : ℕ) → d.on_queryctrl t id ≡ answer id) where
  count_ext-create_ext :
      (fuel id current : ℕ) (f g : Counted) (m : Created) (t t' u : Trace)
      → Matches f m
      → count_ext d fuel id current f t ≡ some (g, t')
      → (m' : Created) × (u' : Trace) × (create_ext d fuel id current m u ≡ some (m', u'))
        × Matches g m'
  count_ext-create_ext zero id current f g m t t' u h e =
      absurd (count_ext-zero d id current f g t t' e)
  count_ext-create_ext (suc fuel) id current f g m t t' u h e =
      let same = steady u id ∙ sym (steady t id) in
      elim (query_cases (d.on_queryctrl t id)) [
        | inl (errno, r) ↦
            let stopped = sym (count_ext-refused d fuel id current errno f t r) ∙ e in
            (
              m,
              queryctrl id ∷ u,
              create_ext-refused d fuel id current errno m u (same ∙ r),
              subst (λ y. Matches y m) (counted_eq f g (queryctrl id ∷ t) t' stopped) h,
            )
        | inr (q, r) ↦
            let next = moved_on q.id current % next_ctrl in
            let (m₁, u₁) = created_with d q m (queryctrl id ∷ u) in
            let (m', u', e', h') =
              count_ext-create_ext fuel (next + next_ctrl) next (counted_with q f) g m₁
                (queryctrl id ∷ t) t' u₁ (created_with-Matches d q f m (queryctrl id ∷ u) h)
                (sym (count_ext-round d fuel id current q f t r) ∙ e) in
            (m', u', create_ext-round d fuel id current q m u (same ∙ r) ∙ e', h')
      ]

  -- Take a driver that answers a query of a control always alike, and reports the control asked for.
  -- If count_v4l2_controls ends with n, for fuel that keeps the private ids below the flag
  -- V4L2_CTRL_FLAG_NEXT_CTRL, then create_v4l2_controls, given an array of n elements or
  -- more, ends and fills exactly n of them.
  pub create_v4l2_controls-count_v4l2_controls :
      (fuel max n : ℕ) (t t' u : Trace)
      → IsHonest d
      → cid_private_base + fuel ≤ next_ctrl
      → count_v4l2_controls d fuel t ≡ some (n, t')
      → n ≤ max
      → (m : Created) × (u' : Trace) × (create_v4l2_controls d fuel max u ≡ some (m, u'))
        × (m.count ≡ n)
        × (length m.controls ≡ n)
  unfolding create_v4l2_controls
  create_v4l2_controls-count_v4l2_controls fuel max n t t' u honest b e k =
      let (g, t₂, g', e₁, e₂, c) = count_v4l2_controls-Stages d fuel n t t' e in
      let (f, t₁) = count_std d nb_std_ids cid_base nothing_counted t in
      let (m₀, u₁) = create_std d max nb_std_ids cid_base nothing_created u in
      let more = count_ext_count d fuel next_ctrl 0 g g' t₂ t' e₂ in
      let grown = count_priv-Grows d answer steady fuel cid_private_base f g t₁ t₂ e₁ in
      let h₀ =
        count_std-create_std d answer steady max nb_std_ids cid_base nothing_counted nothing_created
          t u (record { count = refl; ids = refl; filled = refl })
          (count_bound f g g' n max grown more c k) in
      let (m₁, u₂, k₁, h₁) =
        count_priv-create_priv d answer steady max fuel cid_private_base f g m₀ t₁ t₂ u₁ honest b h₀
          e₁ (omega (arith, more, c, k)) in
      let (m₂, u₃, k₂, h₂) = count_ext-create_ext fuel next_ctrl 0 g g' m₁ t₂ t' u₂ h₁ e₂ in
      (m₂, u₃, rw (create_v4l2_controls, k₁, k₂) refl, h₂.count ∙ c, h₂.filled ∙ h₂.count ∙ c)
