-- ===== src/Capture/Input/Tests.antt =====
-- The input and frame interval calls on small drivers, and the theorems at them.
use v4l4j.Prelude.{true, false, some, [], ◌≡◌, refl}
use v4l4j.Prelude.Int.{pos}
use v4l4j.Errors.{err_format}
use v4l4j.Driver.{Driver}
use v4l4j.Samples.{obliging, camera}
use v4l4j.Capture.Input.{check_capture_capabilities, set_input, set_frame_intv}

abbrev no_standards : Driver
no_standards = record obliging { on_s_std = λ t s. false }

-- It rounds every interval to 1/25.
abbrev rounding : Driver
rounding = record obliging {
  on_s_parm = λ t n m. record { ret = pos 0; numerator = 1; denominator = 25 };
  on_enuminput = λ t i. some (record { input_type = 1; tuner = 4; std_ids = 0xff });
}

capabilities_suffice : (check_capture_capabilities obliging []).0 ≡ true
unfolding check_capture_capabilities
capabilities_suffice = refl

set_input_tuner : (set_input rounding camera []).1.tuner_nb ≡ pos 4
unfolding set_input
set_input_tuner = refl

set_frame_intv_rounded : (set_frame_intv rounding 1 30 []).0 ≡ err_format
unfolding set_frame_intv
set_frame_intv_rounded = refl
