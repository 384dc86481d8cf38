-- ===== src/Probes/Fps/RoundTrip.antt =====
-- The frame rate read after it has been set (libvideo/fps-param-probe.c).
use v4l4j.Prelude.{
  ℕ, ◌/◌, ◌^◌, ◌<◌, true, false, some, ◌∷◌, ◌==◌, ◌≡◌, refl, sym, ap, ◌∙◌, Bool-cases, pair_eq, inl,
  inr, subst, arith,
}
use native.Mathlib.Nat.{div-eq_of_lt}
use v4l4j.Prelude.Int.{ℤ, pos}
use v4l4j.Errors.{success, err_streaming}
use v4l4j.Control.Kinds.{u32_of}
use v4l4j.Probes.Driver.{ProbeDriver, ProbeTrace, get_parm, set_parm}
use v4l4j.Probes.Fps.{int_of, fps_param_get_ctrl, fps_param_set_ctrl}

-- a driver that tells the time per frame that it has been given
pub record KeepsRate (d : ProbeDriver) : Type 0 where
  pub capability : ℕ
  pub kept :
      (t : ProbeTrace) (n m : ℕ)
      → d.on_set_parm t n m ≡ true
      → d.on_get_parm (set_parm n m ∷ t)
        ≡ some (record { capability = capability; numerator = n; denominator = m })

rate_of :
    (to_float : ℤ → ℤ) (v : ℕ)
    → to_float (pos v) ≡ pos v
    → v < 2 ^ 31
    → u32_of (to_float (pos v)) ≡ v
rate_of to_float v exact small = ap u32_of exact ∙ omega (arith, small)

not_zero : (v : ℕ) → 1 < v → (v == 0) ≡ false
not_zero v lt = ground (arith, lt)

int_of_below : (v : ℕ) → 1 < v → int_of (1 / v) ≡ pos 0
unfolding int_of
int_of_below v lt = let none_of_one : 1 / v ≡ 0 = div-eq_of_lt lt in rw (none_of_one) refl

module _ (d : ProbeDriver) (keeps : KeepsRate d) where
  get-kept :
      (v : ℕ) (t : ProbeTrace)
      → 1 < v
      → d.on_set_parm t 1 v ≡ true
      → fps_param_get_ctrl d (set_parm 1 v ∷ t)
        ≡ (success, some (pos 0), get_parm ∷ set_parm 1 v ∷ t)
  unfolding fps_param_get_ctrl
  get-kept v t lt ok =
      rw (fps_param_get_ctrl, keeps.kept t 1 v ok, not_zero v lt, int_of_below v lt) refl

  -- Take a driver that keeps the time per frame that it is given, and a frame rate above 1 that a float
  -- holds exactly. Once fps_param_set_ctrl has set it, fps_param_get_ctrl succeeds and reads 0: it
  -- divides the time per frame's numerator, 1, by its denominator.
  pub fps_param_get_ctrl-fps_param_set_ctrl :
      (to_float : ℤ → ℤ) (v : ℕ) (t t' : ProbeTrace)
      → 1 < v
      → v < 2 ^ 31
      → to_float (pos v) ≡ pos v
      → fps_param_set_ctrl d to_float (pos v) t ≡ (success, t')
      → fps_param_get_ctrl d t' ≡ (success, some (pos 0), get_parm ∷ t')
  unfolding fps_param_set_ctrl
  fps_param_get_ctrl-fps_param_set_ctrl to_float v t t' lt small exact e =
      let is_v = rate_of to_float v exact small in
      let t₁ = set_parm 1 (u32_of (to_float (pos v))) ∷ t in
      elim (Bool-cases (d.on_set_parm t 1 (u32_of (to_float (pos v))))) [
        | inr h ↦
            let (er, et) = pair_eq err_streaming t₁ (sym (rw (fps_param_set_ctrl, h) refl) ∙ e) in
            absurd (ground arith)
        | inl h ↦
            let (er, et) = pair_eq success t₁ (sym (rw (fps_param_set_ctrl, h) refl) ∙ e) in
            subst (λ x. fps_param_get_ctrl d x ≡ (success, some (pos 0), get_parm ∷ x))
              (ap (λ n. set_parm 1 n ∷ t) (sym is_v) ∙ et)
              (get-kept v t lt (sym (ap (d.on_set_parm t 1) is_v) ∙ h))
      ]
