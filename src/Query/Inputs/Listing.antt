-- ===== src/Query/Inputs/Listing.antt =====
-- The inputs that check_inputs_v4l2 lists (libvideo/v4l2-query.c), for a driver whose answers do not
-- change while it is asked.
use v4l4j.Prelude.{
  ℕ, zero, suc, ◌+◌, ◌<◌, true, false, Option, none, some, List, [], ◌∷◌, ◌≡◌, ◌⊎◌, inl, inr, refl,
  ap, sym, ◌∙◌, Bool-cases, Option-cases, arith,
}
use native.Mathlib.Nat.{add-zero, zero-add}
use v4l4j.Prelude.Int.{ℤ}
use v4l4j.Errors.{success, err_ioctl}
use v4l4j.Driver.{Driver, Trace, InputDesc, TunerDesc, enuminput}
use v4l4j.Capture.Input.{has_bits, input_type_tuner}
use v4l4j.Query.Inputs.{
  InputInfo, tuner_info, supported_stds, input_info, count_inputs, query_input, fill_inputs,
  check_inputs,
}

module _ (inputs : ℕ → Option InputDesc) (tuners : ℕ → Option TunerDesc) where
  -- The information on input `i` is what the driver says of it: its tuner's is there exactly where
  -- the input has one.
  pub record Describes (i : ℕ) (info : InputInfo) : Type 0 where
    pub vi : InputDesc
    pub answer : inputs i ≡ some vi
    pub index : info.index ≡ i
    pub stds : info.supported_stds ≡ supported_stds vi.std_ids
    pub tuner :
        ((has_bits vi.input_type input_type_tuner ≡ false) × (info.tuner ≡ none))
        ⊎ ((has_bits vi.input_type input_type_tuner ≡ true)
            × ((td : TunerDesc) × (tuners vi.tuner ≡ some td)
                × (info.tuner ≡ some (tuner_info vi.tuner td))))

  -- The list describes every input from `i` on, up to the first one that the driver does not have.
  abbrev pub Listed : ℕ → List InputInfo → Type 0
  Listed i [] = inputs i ≡ none
  Listed i (info ∷ infos) = Describes i info × Listed (i + 1) infos

  -- an input with a tuner that the driver does not describe
  abbrev pub LacksTuner : Type 0
  LacksTuner =
      (i : ℕ) × (vi : InputDesc) × (inputs i ≡ some vi)
      × (has_bits vi.input_type input_type_tuner ≡ true)
      × (tuners vi.tuner ≡ none)

  -- the driver has `r` inputs from `i` on
  abbrev Present : ℕ → ℕ → Type 0
  Present zero i = inputs i ≡ none
  Present (suc r) i = ((vi : InputDesc) × (inputs i ≡ some vi)) × Present r (i + 1)

  module _ (d : Driver) (steady : (t : Trace) (i : ℕ) → d.on_enuminput t i ≡ inputs i)
      (steady_tuners : (t : Trace) (i : ℕ) → d.on_g_tuner t i ≡ tuners i) where
    count_inputs-last :
        (fuel i : ℕ) (t : Trace)
        → inputs i ≡ none
        → (r : ℕ) × (t' : Trace) × (count_inputs d (suc fuel) i t ≡ some (i + r, t')) × Present r i
    unfolding count_inputs
    count_inputs-last fuel i t e =
        (0, enuminput i ∷ t, rw (count_inputs, steady t i ∙ e, add-zero i) refl, e)

    count_inputs-Present :
        (k fuel i : ℕ) (t : Trace)
        → inputs (i + k) ≡ none
        → k < fuel
        → (r : ℕ) × (t' : Trace) × (count_inputs d fuel i t ≡ some (i + r, t')) × Present r i
    unfolding count_inputs
    count_inputs-Present k zero i t e h = absurd (omega arith)
    count_inputs-Present zero (suc fuel) i t e h =
        count_inputs-last fuel i t (ap inputs (sym (add-zero i)) ∙ e)
    count_inputs-Present (suc k) (suc fuel) i t e h = elim (Option-cases (inputs i)) [
      | inl last ↦ count_inputs-last fuel i t last
      | inr (vi, p) ↦
          let shift : i + 1 + k ≡ i + suc k = omega arith in
          let (r, t', c, present) =
            count_inputs-Present k fuel (i + 1) (enuminput i ∷ t) (ap inputs shift ∙ e)
              (omega arith) in
          let back : i + 1 + r ≡ i + suc r = omega arith in
          (
            suc r,
            t',
            rw (count_inputs, steady t i ∙ p) (c ∙ ap (λ n. some (n, t')) back),
            ((vi, p), present),
          )
    ]

    query_input-Describes :
        (i : ℕ) (t : Trace) (vi : InputDesc)
        → inputs i ≡ some vi
        → ((info : InputInfo) × ((query_input d i t).0 ≡ some info) × Describes i info)
          ⊎ (((query_input d i t).0 ≡ none) × LacksTuner)
    unfolding query_input input_info
    query_input-Describes i t vi e = elim (Bool-cases (has_bits vi.input_type input_type_tuner)) [
      | inl b ↦ elim (Option-cases (tuners vi.tuner)) [
        | inl k ↦ inr (
          rw (query_input, steady t i ∙ e, b, steady_tuners (enuminput i ∷ t) vi.tuner ∙ k) refl,
          (i, vi, e, b, k),
        )
        | inr (td, k) ↦ inl (
          input_info i vi (some (tuner_info vi.tuner td)),
          rw (query_input, steady t i ∙ e, b, steady_tuners (enuminput i ∷ t) vi.tuner ∙ k) refl,
          record { vi = vi; answer = e; index = refl; stds = refl; tuner = inr (b, (td, k, refl)) },
        )
      ]
      | inr b ↦ inl (
        input_info i vi none,
        rw (query_input, steady t i ∙ e, b) refl,
        record { vi = vi; answer = e; index = refl; stds = refl; tuner = inl (b, refl) },
      )
    ]

    fill_inputs-Listed :
        (r i : ℕ) (t : Trace)
        → Present r i
        → ((infos : List InputInfo) × ((fill_inputs d r i t).0 ≡ some infos) × Listed i infos)
          ⊎ (((fill_inputs d r i t).0 ≡ none) × LacksTuner)
    unfolding fill_inputs
    fill_inputs-Listed zero i t h = inl ([], refl, h)
    fill_inputs-Listed (suc r) i t ((vi, e), h) = elim (query_input-Describes i t vi e) [
      | inr (q, lacks) ↦ inr (rw (fill_inputs, q) refl, lacks)
      | inl (info, q, describes) ↦ elim (fill_inputs-Listed r (i + 1) (query_input d i t).1 h) [
        | inr (f, lacks) ↦ inr (rw (fill_inputs, q, f) refl, lacks)
        | inl (infos, f, listed) ↦
            inl (info ∷ infos, rw (fill_inputs, q, f) refl, (describes, listed))
      ]
    ]

    -- Take a driver that answers alike each time, and does not have the input `last`. With fuel for
    -- that many inputs check_inputs_v4l2 returns: either 0 with a description of every input up to
    -- the first one that the driver does not have, or LIBVIDEO_ERR_IOCTL with no input, and then one
    -- of the inputs has a tuner that the driver does not describe.
    pub check_inputs-Listed :
        (last fuel : ℕ) (t : Trace)
        → inputs last ≡ none
        → last < fuel
        → (ret : ℤ) × (infos : List InputInfo) × (t' : Trace) × (check_inputs d fuel t
            ≡ some (ret, infos, t'))
          × (((ret ≡ success) × Listed 0 infos) ⊎ ((ret ≡ err_ioctl) × (infos ≡ []) × LacksTuner))
    unfolding check_inputs
    check_inputs-Listed last fuel t e h =
        let zero_last : 0 + last ≡ last = omega arith in
        let (r, t₁, c, present) = count_inputs-Present last fuel 0 t (ap inputs zero_last ∙ e) h in
        let c' = c ∙ ap (λ n. some (n, t₁)) (zero-add r) in
        let (filled, t₂) = fill_inputs d r 0 t₁ in
        elim (fill_inputs-Listed r 0 t₁ present) [
          | inl (infos, f, listed) ↦
              (success, infos, t₂, rw (check_inputs, c', f) refl, inl (refl, listed))
          | inr (f, lacks) ↦
              (err_ioctl, [], t₂, rw (check_inputs, c', f) refl, inr (refl, refl, lacks))
        ]
