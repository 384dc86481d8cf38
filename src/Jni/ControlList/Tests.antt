-- ===== src/Jni/ControlList/Tests.antt =====
-- The controls of a small device as Java objects, and the theorem at them.
use v4l4j.Prelude.{ℕ, ◌≡◌, refl, true, false, none, some, List, [], ◌∷◌}
use v4l4j.Prelude.Int.{pos}
use v4l4j.Control.Kinds.{type_integer, type_integer_menu}
use v4l4j.Control.Menu.{number}
use v4l4j.Jni.Device.{ctrl_type_discrete, translate_type}
use v4l4j.Control.Enumerate.{Control}
use v4l4j.Control.Value.{v4l2_version}
use v4l4j.Device.{Held, VideoDevice, get_control_list}
use v4l4j.Jni.ControlList.{ListReplies, by_value, do_get_control_list}

abbrev of_type : ℕ → Control
of_type t = record {
  v4l2_ctrl = record {
    id = 0x980900;
    ctrl_type = t;
    minimum = pos 0;
    maximum = pos 255;
    step = pos 1;
    flags = 0;
    reserved0 = 0;
    reserved1 = 0;
  };
  menu = none;
}

-- the type 99 is of no constant
abbrev two_controls : List Control
two_controls = of_type type_integer ∷ of_type 99 ∷ []

abbrev willing : ListReplies
willing = record {
  finds_class = true;
  finds_ctor = true;
  makes_array = true;
  makes_names = λ i. true;
  makes_values = λ i. true;
  makes_element = λ i. true;
}

abbrev opened : VideoDevice
opened = record {
  v4l_version = v4l2_version;
  info = false;
  capture = false;
  control = none;
  tuner_action = false;
}

abbrev nothing_held : Held
nothing_held = record {
  descriptors = 1;
  devices = 1;
  infos = 0;
  info_handles = 0;
  captures = 0;
  mmaps = 0;
  actions = 0;
  converts = 0;
  capture_handles = 0;
  control_lists = 0;
  control_arrays = 0;
  query_ctrls = 0;
  control_handles = 0;
  tuner_actions = 0;
}

-- a menu of integers with the items 2 and 5
abbrev with_menu : Control
with_menu = record (of_type type_integer_menu) {
  menu = some (record {
    count_menu = 2;
    items = some (
        record { index = 2; label = number (pos 20) }
        ∷ record { index = 5; label = number (pos 50) }
        ∷ []);
    written = 2;
  });
}

-- The menu's object is a discrete control with the items' values as names.
menu_shown :
    (do_get_control_list willing (with_menu ∷ []) opened nothing_held).0
    ≡ some (
        record {
          id = 0;
          minimum = pos 0;
          maximum = pos 255;
          step = pos 1;
          control_type = ctrl_type_discrete;
          names = some (by_value (number (pos 20) ∷ number (pos 50) ∷ []));
          values = some (2 ∷ 5 ∷ []);
        }
        ∷ [])
unfolding do_get_control_list get_control_list translate_type
menu_shown = refl
