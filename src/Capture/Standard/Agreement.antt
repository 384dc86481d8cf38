-- ===== src/Capture/Standard/Agreement.antt =====
-- What the outcome of set_std (libvideo/v4l2-input.c) says about the driver and the device.
use v4l4j.Prelude.{ℕ, true, false, none, some, ◌∷◌, ◌≡◌, ◌≢◌, ◌⊎◌, is_some, arith}
use v4l4j.Driver.{Driver, Trace, s_std, enumstd}
use v4l4j.Capture.Records.{CaptureDevice}
use v4l4j.Capture.Standard.{webcam, pal, secam, ntsc, std_id, detect_standard, set_std}

-- The latest call of the trace asked for the standard, and the driver accepted it.
abbrev pub Accepted : Driver → ℕ → Trace → Type 0
Accepted d standard (s_std id ∷ t) = (id ≡ std_id standard) × (d.on_s_std t id ≡ true)
Accepted d standard _ = ⊥

-- The driver refused the standard after the calls of the trace.
abbrev pub Refused : Driver → Trace → ℕ → Type 0
Refused d t standard = d.on_s_std t (std_id standard) ≡ false

-- Autodetection ended on a standard that the driver accepted: the device's own, or PAL with the
-- device's field left as it was.
abbrev pub Negotiated : Driver → CaptureDevice → CaptureDevice → Trace → Type 0
Negotiated d c c' t = Accepted d c'.std t ⊎ (Accepted d pal t × (c' ≡ c))

-- The four standards were refused one after the other.
abbrev pub AllRefused : Driver → Trace → Type 0
AllRefused d t =
    let t₁ = s_std (std_id webcam) ∷ t in
    let t₂ = s_std (std_id pal) ∷ t₁ in
    let t₃ = s_std (std_id ntsc) ∷ t₂ in
    Refused d t webcam × Refused d t₁ pal × Refused d t₂ ntsc × Refused d t₃ secam

module _ (d : Driver) (c : CaptureDevice) (t : Trace) where
  -- detect_standard fails exactly when the four standards are refused in turn.
  detect_standard-fails :
      (detect_standard d c t).0 ≡ false → AllRefused d t × ((detect_standard d c t).1 ≡ c)
  unfolding detect_standard
  detect_standard-fails h = ground arith

  detect_standard-Negotiated :
      (detect_standard d c t).0 ≡ true
      → Negotiated d c (detect_standard d c t).1 (detect_standard d c t).2
  unfolding detect_standard
  detect_standard-Negotiated h = ground arith

  -- Where set_std succeeds, either the driver has no standards and the device is a webcam, or both
  -- sides say webcam and nothing is set, or the driver's latest call is the accepted standard: the
  -- one in the device's field, or PAL found by autodetection with the field left as it was.
  pub set_std-success :
      (set_std d c t).0 ≡ true
      → ((d.on_enumstd t ≡ none) × ((set_std d c t).1.std ≡ webcam))
        ⊎ ((d.on_enumstd t ≡ some 0) × (c.std ≡ webcam) × ((set_std d c t).1 ≡ c))
        ⊎ Negotiated d c (set_std d c t).1 (set_std d c t).2
  unfolding set_std
  set_std-success h = ground arith

  -- set_std fails only on a driver that has standards, after it refused the device's own (unless
  -- that is webcam) and all four of the autodetection; the device is then unchanged.
  pub set_std-failure :
      (set_std d c t).0 ≡ false
      → ((set_std d c t).1 ≡ c)
        × (is_some (d.on_enumstd t) ≡ true)
        × (((c.std ≡ webcam) × AllRefused d (enumstd ∷ t))
            ⊎ (Refused d (enumstd ∷ t) c.std × AllRefused d (s_std (std_id c.std) ∷ enumstd ∷ t)))
  unfolding set_std
  set_std-failure h = ground arith

  -- A driver that refuses the device's standard and webcam, and accepts PAL, is switched to PAL,
  -- and set_std succeeds with the refused standard still in the device's field.
  pub set_std-pal_unrecorded :
      {id : ℕ}
      → d.on_enumstd t ≡ some id
      → c.std ≢ webcam
      → Refused d (enumstd ∷ t) c.std
      → Refused d (s_std (std_id c.std) ∷ enumstd ∷ t) webcam
      → d.on_s_std (s_std (std_id webcam) ∷ s_std (std_id c.std) ∷ enumstd ∷ t) (std_id pal) ≡ true
      → ((set_std d c t).0 ≡ true)
        × ((set_std d c t).1.std ≡ c.std)
        × Accepted d pal (set_std d c t).2
  unfolding set_std
  set_std-pal_unrecorded e ne own web accepted = ground arith
