-- ===== src/Probes/Gspca/RoundTrip.antt =====
-- The private controls of gspca: a value set is the one read (libvideo/gspca-probe.c).
use v4l4j.Prelude.{
  ℕ, zero, suc, Bool, true, ◌||◌, some, ◌∷◌, ◌==◌, ◌≡◌, inl, inr, refl, sym, ap, ◌∙◌, subst,
  get_elem?, if◌then◌else◌, Bool-cases, none-ne-some, pair_eq, arith,
}
use mathlib.Core.Option.{some-injective}
use v4l4j.Prelude.Int.{pos, ◌≤ℤ◌}
use v4l4j.Errors.{success, err_ioctl}
use v4l4j.Driver.{QueryCtrl}
use v4l4j.Probes.Driver.{ProbeDriver, ProbeTrace, VideoParam, gparam, sparam}
use v4l4j.Probes.Gspca.{
  chg_abright, chg_quality, chg_light_freq, chg_tinter, private_control, gspca_list_ctrl, param_of,
  change_of, gspca_get_ctrl, gspca_set_ctrl,
}

-- the parameters with one of them changed, by its number
abbrev pub changed : ℕ → ℕ → VideoParam → VideoParam
changed field n p =
    if field == chg_abright
    then record p { autobright = n }
    else if field == chg_quality
    then record p { quality = n }
    else if field == chg_light_freq
    then record p { light_freq = n }
    else if field == chg_tinter
    then record p { time_interval = n }
    else p

-- The values of the light frequency that gspca knows. It takes any other for 0, and this is what
-- gspca_driver_probe tells it by.
abbrev pub is_frequency : ℕ → Bool
is_frequency n = n == 0 || n == 50 || n == 60

-- the value that gspca keeps for a parameter, by its number
abbrev pub accepted : ℕ → ℕ → ℕ
accepted field n = if field == chg_light_freq then (if is_frequency n then n else 0) else n

-- A driver that tells the parameters that it has been given, but for a light frequency that it does
-- not know.
pub record KeepsParams (d : ProbeDriver) : Type 0 where
  pub held : ProbeTrace → VideoParam
  pub told : (t : ProbeTrace) → d.on_gparam t ≡ some (held t)
  pub kept :
      (t : ProbeTrace) (field n : ℕ)
      → d.on_sparam t field n ≡ true
      → held (sparam field n ∷ t) ≡ changed field (accepted field n) (held t)

-- what is read of a control of gspca, by its id, after a value was set
abbrev pub read_back : ℕ → ℕ → ℕ
read_back id v = if id == 3 then (if is_frequency v then v else 0) else v

-- A value in the range of a control is handed over as it is, and is found again as the driver keeps
-- it.
abbrev HandsOver : QueryCtrl → ℕ → VideoParam → Type 0
HandsOver q v p =
    (field : ℕ) × (change_of q.id (pos v) ≡ some (field, v))
    × (param_of q.id (changed field (accepted field v) p) ≡ some (read_back q.id v))

gspca_list_ctrl-HandsOver :
    (i v : ℕ) (q : QueryCtrl) (p : VideoParam)
    → get_elem? (gspca_list_ctrl.0) i ≡ some q
    → pos v ≤ℤ q.maximum
    → HandsOver q v p
unfolding gspca_list_ctrl private_control change_of param_of
gspca_list_ctrl-HandsOver zero v q p e =
    subst (λ q. pos v ≤ℤ q.maximum → HandsOver q v p) (some-injective _ q e)
      (λ h. (chg_abright, ap (λ n. some (chg_abright, n)) (omega (arith, h)), refl))
gspca_list_ctrl-HandsOver (suc zero) v q p e =
    subst (λ q. pos v ≤ℤ q.maximum → HandsOver q v p) (some-injective _ q e)
      (λ h. (chg_quality, ap (λ n. some (chg_quality, n)) (omega (arith, h)), refl))
gspca_list_ctrl-HandsOver (suc (suc zero)) v q p e =
    subst (λ q. pos v ≤ℤ q.maximum → HandsOver q v p) (some-injective _ q e)
      (λ h. (chg_tinter, ap (λ n. some (chg_tinter, n)) (omega (arith, h)), refl))
gspca_list_ctrl-HandsOver (suc (suc (suc zero))) v q p e =
    subst (λ q. pos v ≤ℤ q.maximum → HandsOver q v p) (some-injective _ q e)
      (λ h. (chg_light_freq, ap (λ n. some (chg_light_freq, n)) (omega (arith, h)), refl))
gspca_list_ctrl-HandsOver (suc (suc (suc (suc i)))) v q p e = λ h. absurd (none-ne-some e)

-- Take a driver that keeps the parameters that it is given, but takes a light frequency that is none
-- of 0, 50 and 60 for 0, as gspca_driver_probe expects of gspca; one of the controls that
-- gspca_list_ctrl lists; and a value that is not negative and at most the control's maximum. When
-- gspca_set_ctrl succeeds, gspca_get_ctrl then succeeds and reads that value, except for the light
-- frequency, control 3, where it reads 0 for a value other than 50 and 60.
pub gspca_get_ctrl-gspca_set_ctrl :
    (d : ProbeDriver) (keeps : KeepsParams d) (i v : ℕ) (q : QueryCtrl) (t t' : ProbeTrace)
    → get_elem? (gspca_list_ctrl.0) i ≡ some q
    → pos v ≤ℤ q.maximum
    → gspca_set_ctrl d q.id (pos v) t ≡ (success, t')
    → gspca_get_ctrl d q.id t' ≡ (success, some (pos (read_back q.id v)), gparam ∷ t')
unfolding gspca_set_ctrl gspca_get_ctrl
gspca_get_ctrl-gspca_set_ctrl d keeps i v q t t' listed h e =
    let (field, asked, found) = gspca_list_ctrl-HandsOver i v q (keeps.held t) listed h in
    let t₁ = sparam field v ∷ t in
    elim (Bool-cases (d.on_sparam t field v)) [
      | inr bad ↦
          let (er, et) = pair_eq err_ioctl t₁ (sym (rw (gspca_set_ctrl, asked, bad) refl) ∙ e) in
          absurd (ground arith)
      | inl ok ↦
          let (er, et) = pair_eq success t₁ (sym (rw (gspca_set_ctrl, asked, ok) refl) ∙ e) in
          let reads = ap (param_of q.id) (keeps.kept t field v ok) ∙ found in
          subst
            (λ x. gspca_get_ctrl d q.id x ≡ (success, some (pos (read_back q.id v)), gparam ∷ x)) et
            (rw (gspca_get_ctrl, keeps.told t₁, reads) refl)
    ]
