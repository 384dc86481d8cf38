-- ===== src/V4l1/Capture/Stages.antt =====
-- The stages of set_cap_param_v4l1 (libvideo/v4l1-input.c), where they succeed.
use v4l4j.Prelude.{
  ℕ, true, false, some, ◌∷◌, ◌≡◌, ◌≢◌, inl, inr, refl, sym, ap, ◌∙◌, Bool-cases, Option-cases,
  triple_eq, arith,
}
use v4l4j.Prelude.Int.{ℤ, eq_of_parts}
use v4l4j.Errors.{success, err_chan_setup, err_nocaps}
use v4l4j.Palettes.Table.{Palette}
use v4l4j.Capture.Records.{CaptureDevice}
use v4l4j.V4l1.Driver.{
  V4l1Driver, V4l1Trace, Capability, Channel, Picture, Window, gcap, schan, gchan, gpict, spict,
  swin, gwin,
}
use v4l4j.V4l1.Listing.{list_cap_v4l1}
use v4l4j.V4l1.Capture.{
  fitted, resized, norm_of, tuner_nb_of, requested_picture, with_palette, select_channel,
  set_picture, set_window, failed, set_cap_param_v4l1,
}

true-failed : (r : ℤ) → failed r ≡ true → r ≢ success
unfolding failed
true-failed r h e = ground (arith, h, e)

false-failed : (r : ℤ) → failed r ≡ false → r ≡ success
unfolding failed
false-failed r h = ground (arith, h, eq_of_parts r success)

-- What a successful call of set_cap_param_v4l1 with the palette `palette` has done: the replies of the
-- driver, the device it leaves, and its calls.
pub record Configured (d : V4l1Driver) (past : Palette) (palette : ℕ) (c : CaptureDevice)
    (t : V4l1Trace) (c' : CaptureDevice) (t' : V4l1Trace) : Type 0 where
  pub caps : Capability
  pub channel : Channel
  pub picture : Picture
  pub window : Window
  pub caps_reply : d.on_gcap t ≡ some caps
  pub asked : CaptureDevice
  pub is_asked :
      asked ≡ with_palette past palette (record (fitted caps c) { tuner_nb = tuner_nb_of channel })
  pub device : c' ≡ resized window asked
  pub calls :
      t'
      ≡ gwin
        ∷ swin asked.width asked.height
        ∷ spict (requested_picture past palette picture)
        ∷ gpict
        ∷ gchan c.channel
        ∷ schan c.channel (norm_of c.std)
        ∷ gcap
        ∷ t

module _ (d : V4l1Driver) where
  select_channel-success :
      (c c' : CaptureDevice) (t t' : V4l1Trace)
      → select_channel d c t ≡ (success, c', t')
      → (chan : Channel) × (c' ≡ record c { tuner_nb = tuner_nb_of chan })
        × (t' ≡ gchan c.channel ∷ schan c.channel (norm_of c.std) ∷ t)
  unfolding select_channel
  select_channel-success c c' t t' e =
      let t₁ = schan c.channel (norm_of c.std) ∷ t in
      elim (Bool-cases (d.on_schan t c.channel (norm_of c.std))) [
        | inr h ↦
            let (er, ec, et) =
              triple_eq err_chan_setup c (list_cap_v4l1 d t₁)
                (sym (rw (select_channel, h) refl) ∙ e) in
            absurd (ground arith)
        | inl h ↦ elim (Option-cases (d.on_gchan t₁ c.channel)) [
          | inl k ↦
              let (er, ec, et) =
                triple_eq err_chan_setup c (gchan c.channel ∷ t₁)
                  (sym (rw (select_channel, h, k) refl) ∙ e) in
              absurd (ground arith)
          | inr (chan, k) ↦
              let (er, ec, et) =
                triple_eq success (record c { tuner_nb = tuner_nb_of chan }) (gchan c.channel ∷ t₁)
                  (sym (rw (select_channel, h, k) refl) ∙ e) in
              (chan, sym ec, sym et)
        ]
      ]

  set_picture-success :
      (past : Palette) (palette : ℕ) (c c' : CaptureDevice) (t t' : V4l1Trace)
      → set_picture d past palette c t ≡ (success, c', t')
      → (pict : Picture) × (c' ≡ with_palette past palette c)
        × (t' ≡ spict (requested_picture past palette pict) ∷ gpict ∷ t)
  unfolding set_picture
  set_picture-success past palette c c' t t' e = ground arith

  set_window-success :
      (c c' : CaptureDevice) (t t' : V4l1Trace)
      → set_window d c t ≡ (success, c', t')
      → (win : Window) × (d.on_gwin (swin c.width c.height ∷ t) ≡ some win)
        × (c' ≡ resized win c)
        × (t' ≡ gwin ∷ swin c.width c.height ∷ t)
  unfolding set_window
  set_window-success c c' t t' e = ground arith

  pub set_cap_param_v4l1-Configured :
      (past : Palette) (palette : ℕ) (c c' : CaptureDevice) (t t' : V4l1Trace)
      → set_cap_param_v4l1 d past palette c t ≡ (success, c', t')
      → Configured d past palette c t c' t'
  unfolding set_cap_param_v4l1 fitted with_palette
  set_cap_param_v4l1-Configured past palette c c' t t' e = elim (Option-cases (d.on_gcap t)) [
    | inl h ↦
        let (er, ec, et) =
          triple_eq err_nocaps c (gcap ∷ t) (sym (rw (set_cap_param_v4l1, h) refl) ∙ e) in
        absurd (ground arith)
    | inr (vc, h) ↦
        let (r₂, c₂, t₂) = select_channel d (fitted vc c) (gcap ∷ t) in
        let (r₃, c₃, t₃) = set_picture d past palette c₂ t₂ in
        elim (Bool-cases (failed r₂)) [
          | inl k ↦
              let (er, ec, et) =
                triple_eq r₂ c₂ t₂ (sym (rw (set_cap_param_v4l1, h, k) refl) ∙ e) in
              absurd (true-failed r₂ k er)
          | inr k ↦ elim (Bool-cases (failed r₃)) [
            | inl l ↦
                let (er, ec, et) =
                  triple_eq r₃ c₃ t₃ (sym (rw (set_cap_param_v4l1, h, k, l) refl) ∙ e) in
                absurd (true-failed r₃ l er)
            | inr l ↦
                let (chan, ec₂, et₂) =
                  select_channel-success (fitted vc c) c₂ (gcap ∷ t) t₂
                    (ap (λ r. (r, c₂, t₂)) (false-failed r₂ k)) in
                let (pict, ec₃, et₃) =
                  set_picture-success past palette c₂ c₃ t₂ t₃
                    (ap (λ r. (r, c₃, t₃)) (false-failed r₃ l)) in
                let (win, ew, ec, et) =
                  set_window-success c₃ c' t₃ t'
                    (sym (rw (set_cap_param_v4l1, h, k, l) refl) ∙ e) in
                record {
                  caps = vc;
                  channel = chan;
                  picture = pict;
                  window = win;
                  caps_reply = h;
                  asked = c₃;
                  is_asked = ec₃ ∙ ap (with_palette past palette) ec₂;
                  device = ec;
                  calls =
                      et
                      ∙ ap (λ x. gwin ∷ swin c₃.width c₃.height ∷ x)
                          (et₃
                            ∙ ap (λ x. spict (requested_picture past palette pict) ∷ gpict ∷ x)
                                et₂);
                }
          ]
        ]
  ]
