-- ===== src/Control/Enumerate/Termination.antt =====
-- Whether count_v4l2_controls (libvideo/v4l2-input.c) ends, with the loop over private controls.
use v4l4j.Prelude.{
  ℕ, zero, suc, ◌+◌, ◌≤◌, ◌<◌, true, false, some, [], ◌∷◌, ◌≡◌, ◌⊎◌, inl, inr, refl, ap, ◌∙◌, ◌==◌,
  Bool-cases, arith,
}
use v4l4j.Driver.{Driver, Trace, QueryCtrl, QueryReply, found, refused, queryctrl}
use v4l4j.Control.Enumerate.{
  Counted, cid_base, cid_private_base, next_ctrl, next_id, nb_std_ids, note_control, count_std,
  count_priv, count_v4l2_controls,
}
use v4l4j.Control.Enumerate.Extended.{MovesOn, count_ext-terminates}

-- Asked for a control by its id, the driver reports that control.
abbrev pub IsHonest : Driver → Type 0
IsHonest d =
    (t : Trace) (id : ℕ) (q : QueryCtrl)
    → id < next_ctrl
    → d.on_queryctrl t id ≡ found q
    → q.id ≡ id

pub next_id-suc : (id : ℕ) → id < next_ctrl → next_id id ≡ suc id
next_id-suc id h = omega arith

-- a control, EINVAL or another error
pub reply_cases :
    (r : QueryReply)
    → ((q : QueryCtrl) × (r ≡ found q))
      ⊎ (((errno : ℕ) × (r ≡ refused errno) × ((errno == 22) ≡ true))
          ⊎ ((errno : ℕ) × (r ≡ refused errno) × ((errno == 22) ≡ false)))
reply_cases (found q) = inl (q, refl)
reply_cases (refused errno) = elim (Bool-cases (errno == 22)) [
  | inl k ↦ inr (inl (errno, refl, k))
  | inr k ↦ inr (inr (errno, refl, k))
]

pub at_last : (id last : ℕ) → id ≤ last → (id ≡ last) ⊎ (id < last)
at_last id last h = grind arith

module _ (d : Driver) where
  pub count_priv-found :
      (fuel id : ℕ) (f : Counted) (t : Trace) (q : QueryCtrl)
      → d.on_queryctrl t id ≡ found q
      → count_priv d (suc fuel) id f t
        ≡ count_priv d fuel (next_id q.id) (note_control q q.id f) (queryctrl id ∷ t)
  unfolding count_priv
  count_priv-found fuel id f t q e = rw (count_priv, e) refl

  pub count_priv-error :
      (fuel id errno : ℕ) (f : Counted) (t : Trace)
      → d.on_queryctrl t id ≡ refused errno
      → (errno == 22) ≡ false
      → count_priv d (suc fuel) id f t ≡ count_priv d fuel (next_id id) f (queryctrl id ∷ t)
  unfolding count_priv
  count_priv-error fuel id errno f t e k = rw (count_priv, e, k) refl

  pub count_priv-einval :
      (fuel id errno : ℕ) (f : Counted) (t : Trace)
      → d.on_queryctrl t id ≡ refused errno
      → (errno == 22) ≡ true
      → count_priv d (suc fuel) id f t ≡ some (f, queryctrl id ∷ t)
  unfolding count_priv
  count_priv-einval fuel id errno f t e k = rw (count_priv, e, k) refl

  -- A round of the loop ends it, or goes on to the next id.
  count_priv-next :
      (fuel id : ℕ) (f : Counted) (t : Trace)
      → IsHonest d
      → id < next_ctrl
      → ((r : Counted × Trace) × (count_priv d (suc fuel) id f t ≡ some r))
        ⊎ ((g : Counted) × (count_priv d (suc fuel) id f t
              ≡ count_priv d fuel (suc id) g (queryctrl id ∷ t)))
  count_priv-next fuel id f t honest h = elim (reply_cases (d.on_queryctrl t id)) [
    | inl (q, e) ↦ inr (
      note_control q q.id f,
      count_priv-found fuel id f t q e
          ∙ ap (λ n. count_priv d fuel n (note_control q q.id f) (queryctrl id ∷ t))
              (ap next_id (honest t id q h e) ∙ next_id-suc id h),
    )
    | inr (inl (errno, e, k)) ↦ inl ((f, queryctrl id ∷ t), count_priv-einval fuel id errno f t e k)
    | inr (inr (errno, e, k)) ↦ inr (
      f,
      count_priv-error fuel id errno f t e k
          ∙ ap (λ n. count_priv d fuel n f (queryctrl id ∷ t)) (next_id-suc id h),
    )
  ]

  count_priv-terminates :
      (last fuel id : ℕ) (f : Counted) (t : Trace)
      → IsHonest d
      → ((t : Trace) → d.on_queryctrl t last ≡ refused 22)
      → last < next_ctrl
      → id ≤ last
      → last < id + fuel
      → (r : Counted × Trace) × (count_priv d fuel id f t ≡ some r)
  count_priv-terminates last zero id f t honest ends b c h = absurd (omega arith)
  count_priv-terminates last (suc fuel) id f t honest ends b c h = elim (at_last id last c) [
    | inl e ↦ (
      (f, queryctrl id ∷ t),
      count_priv-einval fuel id 22 f t (ap (d.on_queryctrl t) e ∙ ends t) refl,
    )
    | inr lt ↦ elim (count_priv-next fuel id f t honest (omega arith)) [
      | inl done ↦ done
      | inr (g, e) ↦
          let (r, k) =
            count_priv-terminates last fuel (suc id) g (queryctrl id ∷ t) honest ends b lt
              (omega arith) in
          (r, e ∙ k)
    ]
  ]

  -- Take a driver that reports the control asked for, answers with EINVAL to a private id `last`,
  -- and moves on when asked for the next control, up to an id `last_ext`, both ids below the flag
  -- V4L2_CTRL_FLAG_NEXT_CTRL. count_v4l2_controls ends: fuel for the ids that its two open loops can
  -- pass is enough.
  pub count_v4l2_controls-terminates :
      (last last_ext fuel : ℕ) (t : Trace)
      → IsHonest d
      → ((t : Trace) → d.on_queryctrl t last ≡ refused 22)
      → MovesOn d last_ext
      → cid_private_base ≤ last
      → last < next_ctrl
      → last_ext < next_ctrl
      → last < cid_private_base + fuel
      → last_ext < fuel
      → (r : ℕ × Trace) × (count_v4l2_controls d fuel t ≡ some r)
  unfolding count_v4l2_controls
  count_v4l2_controls-terminates last last_ext fuel t honest ends moves lo b c h k =
      let (f, t₁) = count_std d nb_std_ids cid_base (record { count = 0; ids = [] }) t in
      let ((g, t₂), e₁) =
        count_priv-terminates last fuel cid_private_base f t₁ honest ends b lo h in
      let ((r, t₃), e₂) =
        count_ext-terminates d last_ext fuel 0 g t₂ moves c (omega arith) (omega arith) in
      ((r.count, t₃), rw (count_v4l2_controls, e₁, e₂) refl)
