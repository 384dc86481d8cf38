-- ===== src/Query/Inputs/Tests.antt =====
-- The standards listed for the input of a card.
use v4l4j.Prelude.{ℕ, Option, none, some, [], ◌∷◌, ◌≡◌, ◌==◌, refl, if◌then◌else◌}
use v4l4j.Prelude.Int.{pos}
use v4l4j.Driver.{Driver, InputDesc, TunerDesc}
use v4l4j.Samples.{obliging}
use v4l4j.Capture.Standard.{pal, ntsc}
use v4l4j.Query.Inputs.{supported_stds}

abbrev composite : InputDesc
composite = record { input_type = 2; tuner = 0; std_ids = 0xb0ff }

abbrev television : InputDesc
television = record { input_type = 1; tuner = 0; std_ids = 0xff }

abbrev inputs : ℕ → Option InputDesc
inputs i = if i == 0 then some composite else if i == 1 then some television else none

abbrev tv_tuner : TunerDesc
tv_tuner = record {
  capability = 2;
  tuner_type = 2;
  rangelow = 704;
  rangehigh = 13808;
  signal = pos 0;
  afc = pos 0;
}

abbrev tuners : ℕ → Option TunerDesc
tuners i = if i == 0 then some tv_tuner else none

abbrev tv_card : Driver
tv_card = record obliging { on_enuminput = λ t i. inputs i; on_g_tuner = λ t i. tuners i }

composite_stds : supported_stds 0xb0ff ≡ pal ∷ ntsc ∷ []
unfolding supported_stds
composite_stds = refl
