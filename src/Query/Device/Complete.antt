-- ===== src/Query/Device/Complete.antt =====
-- The description that query_device_v4l2 (libvideo/v4l2-query.c) gives of a device.
use v4l4j.Prelude.{
  ℕ, ◌<◌, false, Option, none, some, List, ◌∷◌, ◌≡◌, ◌≢◌, inl, inr, refl, length, get_elem?,
  Option-cases, arith,
}
use v4l4j.Prelude.Int.{ℤ, pos, eqb_ℤ}
use v4l4j.Errors.{success, err_nocaps, err_ioctl}
use v4l4j.Driver.{Driver, Trace, InputDesc, TunerDesc, querycap}
use v4l4j.Device.{QueryOutcome, described, no_caps, no_palettes}
use v4l4j.Query.Inputs.Listing.{Listed, check_inputs-Listed}
use v4l4j.Query.Intervals.Termination.{EndsAt}
use v4l4j.Query.Formats.Listing.{known, DescribesAll, check_palettes-DescribesAll}
use v4l4j.Query.Device.{DeviceInfo, query_device}

-- What a query has found, for inputs, tuners and formats of the driver.
abbrev pub Complete :
    Driver
    → (inputs : ℕ → Option InputDesc) (tuners : ℕ → Option TunerDesc) (codes : List ℕ) → ℤ
    → QueryOutcome
    → Option DeviceInfo
    → Type 0
Complete d inputs tuners codes ret outcome none = (ret ≡ err_nocaps) × (outcome ≢ described)
Complete d inputs tuners codes ret outcome (some info) =
    (ret ≡ success)
    × (outcome ≡ described)
    × Listed inputs tuners 0 info.inputs
    × DescribesAll d (known codes) info.palettes

not_an_error : (n : ℕ) → eqb_ℤ (pos n) err_ioctl ≡ false
not_an_error n = ground arith

no_caps-described : no_caps ≢ described
no_caps-described e = cc

no_palettes-described : no_palettes ≢ described
no_palettes-described e = cc

module _ (d : Driver) (inputs : ℕ → Option InputDesc) (tuners : ℕ → Option TunerDesc)
    (codes : List ℕ) (steady : (t : Trace) (i : ℕ) → d.on_enuminput t i ≡ inputs i)
    (steady_tuners : (t : Trace) (i : ℕ) → d.on_g_tuner t i ≡ tuners i)
    (formats : (t : Trace) (k : ℕ) → d.on_enum_fmt t k ≡ get_elem? codes k) where
  -- Take a driver that answers alike each time on its inputs, tuners and formats, does not have the
  -- input `last`, and ends its lists of sizes and intervals at the index `n`. With fuel beyond these
  -- query_device_v4l2 returns: either 0 with every input of the driver and every format of the table
  -- that the driver has, native or converted as documented, or LIBVIDEO_ERR_NOCAPS with no
  -- description.
  pub query_device-Complete :
      (n : ℕ) (ends : EndsAt d n) (last fuel : ℕ) (t : Trace)
      → inputs last ≡ none
      → n < fuel
      → last < fuel
      → length codes < fuel
      → (ret : ℤ) × (outcome : QueryOutcome) × (info : Option DeviceInfo) × (t' : Trace)
        × (query_device d fuel t ≡ some (ret, outcome, info, t'))
        × Complete d inputs tuners codes ret outcome info
  unfolding query_device
  query_device-Complete n ends last fuel t no_last big more most =
      let t₁ = querycap ∷ t in
      let (ret, infos, t₂, e, found) =
        check_inputs-Listed inputs tuners d steady steady_tuners last fuel t₁ no_last more in
      let (nb, ps, t₃, k, listed) =
        check_palettes-DescribesAll d n ends codes fuel t₂ big most formats in
      elim (Option-cases (d.on_querycap t)) [
        | inl c ↦
            (err_nocaps, no_caps, none, t₁, rw (query_device, c) refl, (refl, no_caps-described))
        | inr (caps, c) ↦ elim found [
          | inr (r, none_listed, lacks) ↦ (
            err_nocaps,
            no_caps,
            none,
            t₂,
            rw (query_device, c, e, r) refl,
            (refl, no_caps-described),
          )
          | inl (r, inputs_listed) ↦ elim listed [
            | inl (failed, empty) ↦ (
              err_nocaps,
              no_palettes,
              none,
              t₃,
              rw (query_device, c, e, r, k, failed) refl,
              (refl, no_palettes-described),
            )
            | inr (count, all) ↦ (
              success,
              described,
              some (record { inputs = infos; palettes = ps }),
              t₃,
              rw (query_device, c, e, r, k, count, not_an_error (length ps)) refl,
              (refl, refl, inputs_listed, all),
            )
          ]
        ]
      ]
