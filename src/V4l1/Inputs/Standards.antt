-- ===== src/V4l1/Inputs/Standards.antt =====
-- The inputs that check_inputs_v4l1 (libvideo/v4l1-query.c) describes, and their standards.
use v4l4j.Prelude.{
  ℕ, zero, suc, ◌+◌, Bool, true, false, Option, none, some, List, [], ◌∷◌, ◌++◌, ◌==◌, ◌≡◌, ◌⊎◌,
  inl, inr, refl, subst, length, length-append, if◌then◌else◌, Bool-cases, Option-cases, arith,
}
use native.Mathlib.Nat.{zero-add}
use v4l4j.Prelude.Int.{ℤ, pos, ltb_ℤ}
use v4l4j.Errors.{success, err_nocaps, err_ioctl}
use v4l4j.Capture.Standard.{webcam, pal, secam, ntsc}
use v4l4j.Capture.Input.{has_bits}
use v4l4j.Query.Inputs.{InputInfo}
use v4l4j.V4l1.Driver.{V4l1Driver, V4l1Trace, Capability, Channel, V4l1Tuner, gcap, gchan}
use v4l4j.V4l1.Inputs.{
  tuner_info_v4l1, vc_tuner, tuner_pal, tuner_ntsc, tuner_secam, stds_of_tuner, input_info_v4l1,
  query_channel, query_inputs, check_inputs_v4l1,
}

-- where a list of standards has one
abbrev pub has_std : List ℕ → ℕ → Bool
has_std [] std = false
has_std (s ∷ stds) std = if s == std then true else has_std stds std

-- The standards of an input: WEBCAM only if it has no tuner, and those that its tuner has otherwise.
abbrev pub HasStandards : InputInfo → Type 0
HasStandards input =
    ((input.tuner ≡ none) × (input.supported_stds ≡ webcam ∷ []))
    ⊎ ((tuner : V4l1Tuner) × (input.tuner ≡ some (tuner_info_v4l1 tuner))
        × (has_std input.supported_stds webcam ≡ false)
        × (has_std input.supported_stds pal ≡ has_bits tuner.flags tuner_pal)
        × (has_std input.supported_stds ntsc ≡ has_bits tuner.flags tuner_ntsc)
        × (has_std input.supported_stds secam ≡ has_bits tuner.flags tuner_secam))

-- the standards for three flags
has_std-stds :
    (a b c : Bool)
    → let stds =
        (if a then pal ∷ [] else [])
        ++ ((if b then ntsc ∷ [] else []) ++ (if c then secam ∷ [] else [])) in
      (has_std stds webcam ≡ false)
      × (has_std stds pal ≡ a)
      × (has_std stds ntsc ≡ b)
      × (has_std stds secam ≡ c)
has_std-stds true true true = (refl, refl, refl, refl)
has_std-stds true true false = (refl, refl, refl, refl)
has_std-stds true false true = (refl, refl, refl, refl)
has_std-stds true false false = (refl, refl, refl, refl)
has_std-stds false true true = (refl, refl, refl, refl)
has_std-stds false true false = (refl, refl, refl, refl)
has_std-stds false false true = (refl, refl, refl, refl)
has_std-stds false false false = (refl, refl, refl, refl)

input_info-HasStandards :
    (chan : Channel) (tuner : Option V4l1Tuner) → HasStandards (input_info_v4l1 chan tuner)
unfolding input_info_v4l1 stds_of_tuner
input_info-HasStandards chan none = inl (refl, refl)
input_info-HasStandards chan (some tuner) =
    let stds =
      has_std-stds (has_bits tuner.flags tuner_pal) (has_bits tuner.flags tuner_ntsc)
        (has_bits tuner.flags tuner_secam) in
    inr (tuner, refl, stds.0, stds.1, stds.2, stds.3)

abbrev pub AllHaveStandards : List InputInfo → Type 0
AllHaveStandards [] = Unit
AllHaveStandards (input ∷ inputs) = HasStandards input × AllHaveStandards inputs

AllHaveStandards-append :
    (inputs : List InputInfo) (input : InputInfo)
    → AllHaveStandards inputs
    → HasStandards input
    → AllHaveStandards (inputs ++ input ∷ [])
AllHaveStandards-append [] input h k = (k, tt)
AllHaveStandards-append (x ∷ inputs) input h k = (h.0, AllHaveStandards-append inputs input h.1 k)

-- the errors of the driver, and of an input with several tuners
abbrev pub IsFailure : ℤ → Type 0
IsFailure ret = (ret ≡ err_ioctl) ⊎ (ret ≡ err_nocaps)

module _ (d : V4l1Driver) where
  -- the result of one input
  abbrev Described : ℤ → Option InputInfo → Type 0
  Described ret none = IsFailure ret
  Described ret (some input) = HasStandards input

  query_channel-Described :
      (i : ℕ) (t : V4l1Trace) → Described (query_channel d i t).0.0 (query_channel d i t).0.1
  unfolding query_channel
  query_channel-Described i t =
      let t₁ = gchan i ∷ t in
      elim (Option-cases (d.on_gchan t i)) [
        | inl h ↦ rw (query_channel, h) (inl refl)
        | inr (chan, h) ↦ elim (Bool-cases (ltb_ℤ (pos 1) chan.tuners)) [
          | inl k ↦ rw (query_channel, h, k) (inr refl)
          | inr k ↦ elim (Bool-cases (has_bits chan.flags vc_tuner)) [
            | inr l ↦ rw (query_channel, h, k, l) (input_info-HasStandards chan none)
            | inl l ↦ elim (Option-cases (d.on_gtuner t₁ 0)) [
              | inl m ↦ rw (query_channel, h, k, l, m) (inl refl)
              | inr (tuner, m) ↦
                  rw (query_channel, h, k, l, m) (input_info-HasStandards chan (some tuner))
            ]
          ]
        ]
      ]

  -- all the inputs: of `n` of them, or none on an error
  abbrev Listed : ℕ → (ℤ × List InputInfo) × V4l1Trace → Type 0
  Listed n ((ret, inputs), t) =
      ((ret ≡ success) × (length inputs ≡ n) × AllHaveStandards inputs)
      ⊎ (IsFailure ret × (inputs ≡ []))

  query_inputs-Listed :
      (rounds i : ℕ) (inputs : List InputInfo) (t : V4l1Trace)
      → AllHaveStandards inputs
      → Listed (length inputs + rounds) (query_inputs d rounds i inputs t)
  unfolding query_inputs
  query_inputs-Listed zero i inputs t h = inl (refl, omega arith, h)
  query_inputs-Listed (suc rounds) i inputs t h =
      let ((ret, input), t₁) = query_channel d i t in
      elim (Option-cases input) [
        | inl e ↦
            rw (query_inputs, e) (inr (subst (Described ret) e (query_channel-Described i t), refl))
        | inr (info, e) ↦
            let described = subst (Described ret) e (query_channel-Described i t) in
            let rest =
              query_inputs-Listed rounds (i + 1) (inputs ++ info ∷ []) t₁
                (AllHaveStandards-append inputs info h described) in
            rw (query_inputs, e)
              (subst (λ n. Listed n (query_inputs d rounds (i + 1) (inputs ++ info ∷ []) t₁))
                (omega (arith, length-append inputs (info ∷ []))) rest)
      ]

  -- check_inputs_v4l1 returns 0 with as many inputs as the driver has channels, or
  -- LIBVIDEO_ERR_IOCTL or LIBVIDEO_ERR_NOCAPS with none. An input without a tuner has the standard
  -- WEBCAM alone; one with a tuner has PAL, NTSC and SECAM just where the tuner's flags say so, and
  -- not WEBCAM.
  pub check_inputs_v4l1-Listed :
      (vc : Capability) (t : V4l1Trace)
      → d.on_gcap t ≡ some vc
      → let r = (check_inputs_v4l1 d t).0 in
        ((r.0 ≡ success) × (length (r.1) ≡ vc.channels) × AllHaveStandards (r.1))
        ⊎ (((r.0 ≡ err_ioctl) ⊎ (r.0 ≡ err_nocaps)) × (r.1 ≡ []))
  unfolding check_inputs_v4l1
  check_inputs_v4l1-Listed vc t e =
      rw (check_inputs_v4l1, e)
        (subst (λ n. Listed n (query_inputs d vc.channels 0 [] (gcap ∷ t))) (zero-add vc.channels)
          (query_inputs-Listed vc.channels 0 [] (gcap ∷ t) tt))
