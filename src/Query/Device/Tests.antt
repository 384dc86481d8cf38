-- ===== src/Query/Device/Tests.antt =====
-- The description of a small camera, and the theorem at it.
use v4l4j.Prelude.{
  ℕ, Option, none, some, List, [], ◌∷◌, ◌≡◌, refl, get_elem?, ◌==◌, if◌then◌else◌, arith,
}
use v4l4j.Prelude.Int.{ℤ}
use v4l4j.Driver.{Driver, Trace, InputDesc}
use v4l4j.Samples.{obliging}
use v4l4j.Device.{QueryOutcome}
use v4l4j.Query.Intervals.Termination.{EndsAt}
use v4l4j.Query.Device.{DeviceInfo, query_device}
use v4l4j.Query.Device.Complete.{Complete, query_device-Complete}

-- one input without a tuner
abbrev inputs : ℕ → Option InputDesc
inputs i = if i == 0 then some (record { input_type = 2; tuner = 0; std_ids = 0 }) else none

-- V4L2_PIX_FMT_YUYV
abbrev codes : List ℕ
codes = 0x5659_5559 ∷ []

abbrev plain_camera : Driver
plain_camera = record obliging {
  on_enuminput = λ t i. inputs i;
  on_enum_fmt = λ t i. get_elem? codes i;
}

plain_camera-EndsAt : EndsAt plain_camera 0
plain_camera-EndsAt = record { intervals = λ t f w h. refl; sizes = λ t f. refl }

query_device-Complete_example :
    (ret : ℤ) × (outcome : QueryOutcome) × (info : Option DeviceInfo) × (t' : Trace) × (query_device
        plain_camera 2 []
      ≡ some (ret, outcome, info, t'))
    × Complete plain_camera inputs (λ i. none) codes ret outcome info
query_device-Complete_example =
    query_device-Complete plain_camera inputs (λ i. none) codes (λ t i. refl) (λ t i. refl)
      (λ t k. refl) 0 plain_camera-EndsAt 1 2 [] refl (omega arith) (omega arith) (omega arith)
