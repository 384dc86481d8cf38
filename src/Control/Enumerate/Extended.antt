-- ===== src/Control/Enumerate/Extended.antt =====
-- Whether the loop over the extended controls ends (count_v4l2_controls of libvideo/v4l2-input.c).
use v4l4j.Prelude.{
  ℕ, zero, suc, ◌+◌, ◌≤◌, ◌<◌, none, some, ◌∷◌, ◌≡◌, refl, inl, inr, if◌then◌else◌, ◌∙◌, ◌⊎◌, arith,
}
use native.Mathlib.Nat.{mod-eq_of_lt}
use v4l4j.Driver.{Driver, Trace, QueryCtrl, QueryReply, found, refused, queryctrl}
use v4l4j.Control.Enumerate.{Counted, next_ctrl, moved_on, is_new, count_ext}

-- Asked for the control after `id`, the driver reports one with a greater id, up to `last`.
abbrev pub MovesOn : Driver → ℕ → Type 0
MovesOn d last =
    (t : Trace) (id : ℕ) (q : QueryCtrl)
    → d.on_queryctrl t (id + next_ctrl) ≡ found q
    → (id < q.id) × (q.id ≤ last)

moved_on-greater : (id current : ℕ) → current < id → moved_on id current ≡ id
unfolding moved_on
moved_on-greater id current h = ground arith

moved_on_bound : (id current : ℕ) → suc id < next_ctrl → moved_on id current ≤ suc id
unfolding moved_on
moved_on_bound id current h = ground arith

pub query_cases :
    (r : QueryReply) → ((errno : ℕ) × (r ≡ refused errno)) ⊎ ((q : QueryCtrl) × (r ≡ found q))
query_cases (refused errno) = inl (errno, refl)
query_cases (found q) = inr (q, refl)

-- the number of controls after a round of the loop
abbrev pub counted_with : QueryCtrl → Counted → Counted
counted_with q f = if is_new f.ids q then record f { count = f.count + 1 } else f

module _ (d : Driver) where
  count_ext-found :
      (fuel id current next : ℕ) (q : QueryCtrl) (f : Counted) (t : Trace)
      → d.on_queryctrl t id ≡ found q
      → moved_on q.id current ≡ next
      → next < next_ctrl
      → count_ext d (suc fuel) id current f t
        ≡ count_ext d fuel (next + next_ctrl) next (counted_with q f) (queryctrl id ∷ t)
  unfolding count_ext
  count_ext-found fuel id current next q f t e m h = rw (count_ext, e, m, mod-eq_of_lt h) refl

  pub count_ext-refused :
      (fuel id current errno : ℕ) (f : Counted) (t : Trace)
      → d.on_queryctrl t id ≡ refused errno
      → count_ext d (suc fuel) id current f t ≡ some (f, queryctrl id ∷ t)
  unfolding count_ext
  count_ext-refused fuel id current errno f t e = rw (count_ext, e) refl

  -- One round of the loop, from the reply to the control after `current`.
  count_ext-next :
      (last fuel current : ℕ) (f : Counted) (t : Trace)
      → MovesOn d last
      → last < next_ctrl
      → ((r : Counted × Trace) × (count_ext d (suc fuel) (current + next_ctrl) current f t
            ≡ some r))
        ⊎ ((next : ℕ) × (g : Counted) × (current < next)
            × (next ≤ last)
            × (count_ext d (suc fuel) (current + next_ctrl) current f t
                ≡ count_ext d fuel (next + next_ctrl) next g (queryctrl (current + next_ctrl) ∷ t)))
  count_ext-next last fuel current f t moves b =
      elim (query_cases (d.on_queryctrl t (current + next_ctrl))) [
        | inl (errno, e) ↦ inl (_, count_ext-refused fuel (current + next_ctrl) current errno f t e)
        | inr (q, e) ↦
            let (lo, hi) = moves t current q e in
            inr (
              q.id,
              counted_with q f,
              lo,
              hi,
              count_ext-found fuel (current + next_ctrl) current q.id q f t e
                  (moved_on-greater q.id current lo) (omega arith),
            )
      ]

  -- Where the driver moves on, up to an id `last` below the flag, the loop over the extended
  -- controls ends: fuel for the ids from the current one to the last is enough.
  pub count_ext-terminates :
      (last fuel current : ℕ) (f : Counted) (t : Trace)
      → MovesOn d last
      → last < next_ctrl
      → current ≤ last
      → last < current + fuel
      → (r : Counted × Trace) × (count_ext d fuel (current + next_ctrl) current f t ≡ some r)
  count_ext-terminates last zero current f t moves b c h = absurd (omega arith)
  count_ext-terminates last (suc fuel) current f t moves b c h =
      elim (count_ext-next last fuel current f t moves b) [
        | inl done ↦ done
        | inr (next, g, lo, hi, e) ↦
            let (r, k) =
              count_ext-terminates last fuel next g (queryctrl (current + next_ctrl) ∷ t) moves b hi
                (omega arith) in
            (r, e ∙ k)
      ]

  -- A driver that answers with one and the same control whenever it is asked for the control after
  -- an id up to that control's own, plus one, keeps the loop over the extended controls going
  -- whatever the fuel, although the loop steps over a repeated id.
  pub count_ext-stuck :
      (q : QueryCtrl)
      → suc q.id < next_ctrl
      → ((t : Trace) (id : ℕ) → id ≤ suc q.id → d.on_queryctrl t (id + next_ctrl) ≡ found q)
      → (fuel current : ℕ) (f : Counted) (t : Trace) → current ≤ suc q.id
      → count_ext d fuel (current + next_ctrl) current f t ≡ none
  unfolding count_ext
  count_ext-stuck q b same zero current f t c = refl
  count_ext-stuck q b same (suc fuel) current f t c =
      let next = moved_on q.id current in
      let n = moved_on_bound q.id current b in
      count_ext-found fuel (current + next_ctrl) current next q f t (same t current c) refl
        (omega (arith, n))
      ∙ count_ext-stuck q b same fuel next (counted_with q f) (queryctrl (current + next_ctrl) ∷ t)
          n
