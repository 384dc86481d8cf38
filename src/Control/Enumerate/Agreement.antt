-- ===== src/Control/Enumerate/Agreement.antt =====
-- The two enumerations of the controls (libvideo/v4l2-input.c) find the same ones, for a driver whose
-- answers do not change in between.
use v4l4j.Prelude.{
  ℕ, zero, suc, ◌+◌, ◌≤◌, ◌<◌, true, false, Option, some, [], ◌∷◌, ◌≡◌, ◌⊎◌, inl, inr, refl, ap,
  sym, subst, ◌∙◌, ◌==◌, ltb, length, length-append, Bool-cases, arith,
}
use v4l4j.Driver.{Driver, Trace, QueryCtrl, QueryReply, found, refused, queryctrl}
use v4l4j.Control.Enumerate.{
  Counted, Created, next_ctrl, next_id, note_control, note_reply, create_control, append_control,
  create_found, create_reply, count_std, create_std, count_priv, create_priv,
}
use v4l4j.Control.Enumerate.Termination.{
  IsHonest, reply_cases, next_id-suc, count_priv-found, count_priv-error, count_priv-einval,
}

-- what was counted and what was created, side by side
pub record Matches (f : Counted) (m : Created) : Type 0 where
  pub count : m.count ≡ f.count
  pub ids : m.ids ≡ f.ids
  pub filled : length m.controls ≡ m.count

module _ (d : Driver) where
  pub append_control-Matches :
      (q : QueryCtrl) (f : Counted) (m : Created) (t : Trace)
      → Matches f m
      → Matches (record f { count = f.count + 1 }) (append_control d q m t).0
  unfolding append_control
  append_control-Matches q f m t h =
      ground (arith, length-append m.controls ((create_control d q t).0 ∷ []))

  create_found-Matches :
      (q : QueryCtrl) (id : ℕ) (f : Counted) (m : Created) (t : Trace)
      → Matches f m
      → Matches (note_control q id f) (create_found d q id m t).0
  unfolding create_found note_control
  create_found-Matches q id f m t h = ground (arith, append_control-Matches q f m t h)

  create_reply-Matches :
      (r : QueryReply) (id : ℕ) (f : Counted) (m : Created) (t : Trace)
      → Matches f m
      → Matches (note_reply r id f) (create_reply d r id m t).0
  unfolding create_reply note_reply
  create_reply-Matches (refused errno) id f m t h = h
  create_reply-Matches (found q) id f m t h = create_found-Matches q id f m t h

-- `g` is what was counted after `f`: nothing, or at least one control.
abbrev pub Grows : Counted → Counted → Type 0
Grows f g = (g ≡ f) ⊎ (f.count < g.count)

Grows-trans : (f g h : Counted) → Grows f g → Grows g h → Grows f h
Grows-trans f g h a b = ground arith

Grows-stop : (f g : Counted) → Grows f g → g.count ≤ f.count → g ≡ f
Grows-stop f g a h = ground arith

pub counted_eq :
    (f g : Counted) (t t' : Trace)
    → ◌≡◌ {A = Option (Counted × Trace)} (some (f, t)) (some (g, t'))
    → f ≡ g
counted_eq f g t t' e = ground (arith, e)

note_control-Grows : (q : QueryCtrl) (id : ℕ) (f : Counted) → Grows f (note_control q id f)
unfolding note_control
note_control-Grows q id f = ground arith

note_reply-Grows : (r : QueryReply) (id : ℕ) (f : Counted) → Grows f (note_reply r id f)
unfolding note_reply
note_reply-Grows (refused errno) id f = inl refl
note_reply-Grows (found q) id f = note_control-Grows q id f

module _ (d : Driver) (answer : ℕ → QueryReply)
    (steady : (t : Trace) (id : ℕ) → d.on_queryctrl t id ≡ answer id) where
  pub count_std-Grows :
      (rounds i : ℕ) (f : Counted) (t : Trace) → Grows f (count_std d rounds i f t).0
  unfolding count_std
  count_std-Grows zero i f t = inl refl
  count_std-Grows (suc rounds) i f t =
      let g = note_reply (d.on_queryctrl t i) i f in
      Grows-trans f g (count_std d rounds (i + 1) g (queryctrl i ∷ t)).0
        (note_reply-Grows (d.on_queryctrl t i) i f)
        (count_std-Grows rounds (i + 1) g (queryctrl i ∷ t))

  pub count_std-create_std :
      (max rounds i : ℕ) (f : Counted) (m : Created) (t u : Trace)
      → Matches f m
      → (count_std d rounds i f t).0.count ≤ max
      → Matches (count_std d rounds i f t).0 (create_std d max rounds i m u).0
  unfolding count_std create_std
  count_std-create_std max zero i f m t u h k = h
  count_std-create_std max (suc rounds) i f m t u h k = elim (Bool-cases (ltb m.count max)) [
    | inl e ↦
        let r = d.on_queryctrl t i in
        rw (e, steady u i ∙ sym (steady t i))
          (count_std-create_std max rounds (i + 1) (note_reply r i f)
            (create_reply d r i m (queryctrl i ∷ u)).0 (queryctrl i ∷ t)
            (create_reply d r i m (queryctrl i ∷ u)).1
            (create_reply-Matches d r i f m (queryctrl i ∷ u) h) k)
    | inr e ↦
        let g = (count_std d (suc rounds) i f t).0 in
        let same =
          Grows-stop f g (count_std-Grows (suc rounds) i f t) (grind (arith, e, h.count, k)) in
        rw e (subst (λ x. Matches x m) (sym same) h)
  ]

  pub count_priv-Grows :
      (fuel id : ℕ) (f g : Counted) (t t' : Trace)
      → count_priv d fuel id f t ≡ some (g, t')
      → Grows f g
  unfolding count_priv
  count_priv-Grows zero id f g t t' e = ground arith
  count_priv-Grows (suc fuel) id f g t t' e = elim (reply_cases (d.on_queryctrl t id)) [
    | inl (q, r) ↦
        let f₁ = note_control q q.id f in
        Grows-trans f f₁ g (note_control-Grows q q.id f) (
          count_priv-Grows fuel (next_id q.id) f₁ g (queryctrl id ∷ t) t'
            (sym (count_priv-found d fuel id f t q r) ∙ e))
    | inr (inl (errno, r, k)) ↦
        let stopped = sym (count_priv-einval d fuel id errno f t r k) ∙ e in ground (arith, stopped)
    | inr (inr (errno, r, k)) ↦
        count_priv-Grows fuel (next_id id) f g (queryctrl id ∷ t) t'
          (sym (count_priv-error d fuel id errno f t r k) ∙ e)
  ]

  module _ (max fuel id : ℕ) (m : Created) (u : Trace) where
    create_priv-full : ltb m.count max ≡ false → create_priv d max (suc fuel) id m u ≡ some (m, u)
    unfolding create_priv
    create_priv-full x = rw (create_priv, x) refl

    create_priv-found :
        (q : QueryCtrl)
        → ltb m.count max ≡ true
        → d.on_queryctrl u id ≡ found q
        → create_priv d max (suc fuel) id m u
          ≡ create_priv d max fuel
              (next_id id)
              (create_found d q id m (queryctrl id ∷ u)).0
              (create_found d q id m (queryctrl id ∷ u)).1
    unfolding create_priv
    create_priv-found q x e = rw (create_priv, x, e) refl

    create_priv-einval :
        (errno : ℕ)
        → ltb m.count max ≡ true
        → d.on_queryctrl u id ≡ refused errno
        → (errno == 22) ≡ true
        → create_priv d max (suc fuel) id m u ≡ some (m, queryctrl id ∷ u)
    unfolding create_priv
    create_priv-einval errno x e k = rw (create_priv, x, e, k) refl

    create_priv-error :
        (errno : ℕ)
        → ltb m.count max ≡ true
        → d.on_queryctrl u id ≡ refused errno
        → (errno == 22) ≡ false
        → create_priv d max (suc fuel) id m u
          ≡ create_priv d max fuel (next_id id) m (queryctrl id ∷ u)
    unfolding create_priv
    create_priv-error errno x e k = rw (create_priv, x, e, k) refl

  count_priv-zero :
      (id : ℕ) (f g : Counted) (t t' : Trace) → ¬ (count_priv d zero id f t ≡ some (g, t'))
  unfolding count_priv
  count_priv-zero id f g t t' e = ground arith

  -- what create_priv does with a counted run
  abbrev pub Creates : ℕ → ℕ → ℕ → Counted → Created → Trace → Type 0
  Creates max fuel id g m u =
      (m' : Created) × (u' : Trace) × (create_priv d max fuel id m u ≡ some (m', u')) × Matches g m'

  pub count_priv-create_priv :
      (max fuel id : ℕ) (f g : Counted) (m : Created) (t t' u : Trace)
      → IsHonest d
      → id + fuel ≤ next_ctrl
      → Matches f m
      → count_priv d fuel id f t ≡ some (g, t')
      → g.count ≤ max
      → Creates max fuel id g m u
  count_priv-create_priv max zero id f g m t t' u honest b h e k =
      absurd (count_priv-zero id f g t t' e)
  count_priv-create_priv max (suc fuel) id f g m t t' u honest b h e k =
      elim (Bool-cases (ltb m.count max)) [
        | inr x ↦
            let same =
              Grows-stop f g (count_priv-Grows (suc fuel) id f g t t' e)
                (grind (arith, x, h.count, k)) in
            (m, u, create_priv-full max fuel id m u x, subst (λ y. Matches y m) (sym same) h)
        | inl x ↦
            let next = next_id-suc id (omega arith) in
            let b' : next_id id + fuel ≤ next_ctrl = omega (arith, next) in
            let same = steady u id ∙ sym (steady t id) in
            elim (reply_cases (d.on_queryctrl t id)) [
              | inl (q, r) ↦
                  let f₁ = note_control q id f in
                  let asked =
                    ap (λ n. count_priv d fuel (next_id n) (note_control q n f) (queryctrl id ∷ t))
                      (honest t id q (omega arith) r) in
                  let (m₁, u₁) = create_found d q id m (queryctrl id ∷ u) in
                  let (m', u', e', h') =
                    count_priv-create_priv max fuel (next_id id) f₁ g m₁ (queryctrl id ∷ t) t' u₁
                      honest b' (create_found-Matches d q id f m (queryctrl id ∷ u) h)
                      (sym (count_priv-found d fuel id f t q r ∙ asked) ∙ e) k in
                  (m', u', create_priv-found max fuel id m u q x (same ∙ r) ∙ e', h')
              | inr (inl (errno, r, l)) ↦
                  let stopped = sym (count_priv-einval d fuel id errno f t r l) ∙ e in
                  (
                    m,
                    queryctrl id ∷ u,
                    create_priv-einval max fuel id m u errno x (same ∙ r) l,
                    subst (λ y. Matches y m) (counted_eq f g _ t' stopped) h,
                  )
              | inr (inr (errno, r, l)) ↦
                  let (m', u', e', h') =
                    count_priv-create_priv max fuel (next_id id) f g m (queryctrl id ∷ t) t'
                      (queryctrl id ∷ u) honest b' h
                      (sym (count_priv-error d fuel id errno f t r l) ∙ e) k in
                  (m', u', create_priv-error max fuel id m u errno x (same ∙ r) l ∙ e', h')
            ]
      ]
