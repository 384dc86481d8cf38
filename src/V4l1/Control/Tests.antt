-- ===== src/V4l1/Control/Tests.antt =====
-- The controls of a driver that remembers its picture, and the theorem at it.
use v4l4j.Prelude.{List, [], ◌∷◌, ◌≡◌, refl, length}
use v4l4j.Prelude.Int.{pos}
use v4l4j.Errors.{success, err_ioctl}
use v4l4j.V4l1.Capture.{u16_of_int}
use v4l4j.V4l1.Samples.{remembered, remembering, remembering-Remembers}
use v4l4j.V4l1.Control.{
  cid_brightness, cid_hue, get_control_value_v4l1, set_control_value_v4l1, create_v4l1_controls,
  count_v4l1_controls,
}
use v4l4j.V4l1.Control.Registers.{
  ControlCall, get, set, Answer, contents, Steps, run_calls, run_calls-Steps,
}

-- 65536 more than 7 is 7 for the driver.
abbrev session : List ControlCall
session =
    set cid_brightness (pos 65543)
    ∷ get cid_brightness (pos 0)
    ∷ get cid_hue (pos 0)
    ∷ get 5 (pos 1)
    ∷ []

abbrev answers : List Answer
answers = (success, pos 65543) ∷ (success, pos 7) ∷ (success, pos 32768) ∷ (err_ioctl, pos 1) ∷ []

session_answers : (run_calls remembering session []).0 ≡ answers
unfolding set_control_value_v4l1 get_control_value_v4l1 u16_of_int
session_answers = refl

run_calls-Steps_example :
    Steps remembering
      (contents (remembered []))
      session
      (run_calls remembering session []).0
      (contents (remembered ((run_calls remembering session []).1)))
run_calls-Steps_example = run_calls-Steps remembering remembering-Remembers session []

controls_made_up : length (create_v4l1_controls 9) ≡ count_v4l1_controls
unfolding create_v4l1_controls count_v4l1_controls
controls_made_up = refl
