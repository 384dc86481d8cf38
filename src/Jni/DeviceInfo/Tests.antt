-- ===== src/Jni/DeviceInfo/Tests.antt =====
-- The description and the frame intervals of a small device on the Java side, and the theorems at
-- them.
use v4l4j.Prelude.{ℕ, ◌≡◌, refl, true, false, none, some, List, [], ◌∷◌, arith}
use v4l4j.Prelude.Int.{pos}
use v4l4j.Driver.{Driver, Trace, Fract}
use v4l4j.Samples.{obliging}
use v4l4j.Control.Value.{v4l2_version}
use v4l4j.Device.{Held, VideoDevice, described}
use v4l4j.Query.Inputs.{InputInfo}
use v4l4j.Query.Intervals.Outcome.{reply_at}
use v4l4j.Jni.Resolutions.{Designated, do_get_discrete_intervals}
use v4l4j.Jni.DeviceInfo.{InfoReplies, get_info, intervals, do_list_intervals}
use v4l4j.Jni.DeviceInfo.Objects.{Informs, get_info-Informs}
use v4l4j.Jni.DeviceInfo.Rates.{do_get_discrete_intervals-do_list_intervals}

-- The class of tuners is missing.
abbrev no_tuners : InfoReplies
no_tuners = record {
  finds_name = true;
  finds_inputs = true;
  makes_stds = λ i. true;
  finds_tuner = λ i. false;
  makes_input = λ i. true;
  finds_formats = true;
  makes_formats = true;
}

abbrev television : List InputInfo
television =
    record { index = 0; input_type = 2; supported_stds = 1 ∷ []; tuner = none }
    ∷ record {
      index = 1;
      input_type = 1;
      supported_stds = 1 ∷ 3 ∷ [];
      tuner = some (record {
        index = 0;
        unit = 2;
        rssi = pos 0;
        tuner_type = 2;
        rangelow = 704;
        rangehigh = 13808;
      });
    }
    ∷ []

abbrev opened : VideoDevice
opened = record {
  v4l_version = v4l2_version;
  info = false;
  capture = false;
  control = none;
  tuner_action = false;
}

abbrev nothing_held : Held
nothing_held = record {
  descriptors = 1;
  devices = 1;
  infos = 0;
  info_handles = 0;
  captures = 0;
  mmaps = 0;
  actions = 0;
  converts = 0;
  capture_handles = 0;
  control_lists = 0;
  control_arrays = 0;
  query_ctrls = 0;
  control_handles = 0;
  tuner_actions = 0;
}

get_info-Informs_example :
    Informs described television opened nothing_held
      (get_info no_tuners described television opened nothing_held)
get_info-Informs_example =
    get_info-Informs no_tuners described television opened nothing_held refl refl

abbrev fps : ℕ → Fract
fps n = record { numerator = 1; denominator = n }

abbrev two_rates : List Fract
two_rates = fps 30 ∷ fps 25 ∷ []

abbrev two_speeds : Driver
two_speeds = record obliging { on_enum_frameintervals = λ t fmt w h i. reply_at two_rates none i }

do_get_discrete_intervals-do_list_intervals_example :
    (o : Designated) × (t' : Trace) × (do_list_intervals two_speeds true true 18 640 480 3 []
      ≡ some (some (intervals o), none, t'))
    × (do_get_discrete_intervals o ≡ some two_rates)
do_get_discrete_intervals-do_list_intervals_example =
    do_get_discrete_intervals-do_list_intervals two_speeds 18 640 480 two_rates 3 [] (λ e. cc)
      (λ e. absurd (omega arith), (λ e. absurd (omega arith), tt)) (λ t k. refl) (omega arith)
