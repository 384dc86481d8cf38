-- ===== src/Query/Device.antt =====
-- libvideo/v4l2-query.c: the description of a device (query_device_v4l2). Its name is left out.
pub mod Complete
mod Tests
use v4l4j.Prelude.{ℕ, Bool, true, false, Option, none, some, List, [], ◌∷◌, if◌then◌else◌}
use v4l4j.Prelude.Int.{ℤ, eqb_ℤ}
use v4l4j.Errors.{success, err_nocaps, err_ioctl}
use v4l4j.Driver.{Driver, Trace, querycap}
use v4l4j.Device.{QueryOutcome, described, no_caps, no_palettes}
use v4l4j.Query.Inputs.{InputInfo, check_inputs}
use v4l4j.Query.Formats.{PaletteInfo, check_palettes}

-- struct device_info, as it is filled in
pub record DeviceInfo : Type 0 where
  pub inputs : List InputInfo
  pub palettes : List PaletteInfo

-- The result, how the query ended, and the description. It is `none` after a failure: the counts of
-- inputs and palettes stay as they were set then, but the inputs are freed and still pointed to, and
-- the struct is to be freed unread, which get_device_info does. The outer `none` is for fuel that
-- does not suffice.
pub query_device : Driver → ℕ → Trace → Option (ℤ × QueryOutcome × Option DeviceInfo × Trace)
query_device d fuel t =
    let t₁ = querycap ∷ t in
    elim (d.on_querycap t) [
      | none ↦ some (err_nocaps, no_caps, none, t₁)
      | some caps ↦ elim (check_inputs d fuel t₁) [
        | none ↦ none
        | some (ret, inputs, t₂) ↦
            let with_palettes =
              elim (check_palettes d fuel t₂)
                as (λ o. Option (ℤ × QueryOutcome × Option DeviceInfo × Trace)) [
                  | none ↦ none
                  | some (nb, palettes, t₃) ↦
                      if eqb_ℤ nb err_ioctl
                      then some (err_nocaps, no_palettes, none, t₃)
                      else some (
                        success,
                        described,
                        some (record { inputs = inputs; palettes = palettes }),
                        t₃,
                      )
                ] in
            if eqb_ℤ ret success then with_palettes else some (err_nocaps, no_caps, none, t₂)
      ]
    ]
