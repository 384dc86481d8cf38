-- ===== src/Control/Enumerate/Tests.antt =====
-- The controls of a small driver and of a broken one, and the theorems at them.
use v4l4j.Prelude.{ℕ, none, some, [], ◌≡◌, ◌==◌, refl, length, if◌then◌else◌, arith}
use v4l4j.Prelude.Int.{pos}
use v4l4j.Driver.{Driver, Trace, QueryCtrl, QueryReply, found, refused}
use v4l4j.Samples.{obliging}
use v4l4j.Control.Kinds.{type_integer}
use v4l4j.Control.Enumerate.{
  Created, next_ctrl, count_std, count_priv, count_ext, count_v4l2_controls, create_v4l2_controls,
}
use v4l4j.Control.Enumerate.Extended.{MovesOn, count_ext-stuck}
use v4l4j.Control.Enumerate.Termination.{IsHonest, count_v4l2_controls-terminates}
use v4l4j.Control.Enumerate.Capacity.{create_v4l2_controls-count_v4l2_controls}

-- the brightness, and the zoom of a camera, an extended control
abbrev brightness : QueryCtrl
brightness = record {
  id = 0x98_0900;
  ctrl_type = type_integer;
  minimum = pos 0;
  maximum = pos 255;
  step = pos 1;
  flags = 0;
  reserved0 = 0;
  reserved1 = 0;
}

abbrev zoom : QueryCtrl
zoom = record brightness { id = 0x9a_090d }

abbrev answer : ℕ → QueryReply
answer id =
    if id == 0x98_0900 then found brightness else if id == next_ctrl then found zoom else refused 22

abbrev two_controls : Driver
two_controls = record obliging { on_queryctrl = λ t id. answer id }

two_controls-IsHonest : IsHonest two_controls
two_controls-IsHonest t id q h e = ground arith

two_controls-MovesOn : MovesOn two_controls 0x9a_090d
two_controls-MovesOn t id q e = ground arith

-- It reports the brightness whatever the id.
abbrev repeating : Driver
repeating = record obliging { on_queryctrl = λ t id. found brightness }

-- the calls of the first enumeration
abbrev counting : Trace
counting = elim (count_v4l2_controls two_controls 3 []) [ none ↦ [] | some (n, t) ↦ t ]

two_counted : count_v4l2_controls two_controls 3 [] ≡ some (2, counting)
unfolding count_v4l2_controls count_std count_priv count_ext
two_counted = refl

count_v4l2_controls-terminates_example :
    (r : ℕ × Trace) × (count_v4l2_controls two_controls 0x9a_0910 [] ≡ some r)
count_v4l2_controls-terminates_example =
    count_v4l2_controls-terminates two_controls 0x800_0000 0x9a_090d 0x9a_0910 []
      two_controls-IsHonest (λ t. refl) two_controls-MovesOn (omega arith) (omega arith)
      (omega arith) (omega arith) (omega arith)

count_ext-stuck_example :
    count_ext repeating 1000 next_ctrl 0 (record { count = 0; ids = [] }) [] ≡ none
count_ext-stuck_example =
    count_ext-stuck repeating brightness (omega arith) (λ t id h. refl) 1000 0
      (record { count = 0; ids = [] }) [] (omega arith)

create_v4l2_controls-count_v4l2_controls_example :
    (m : Created) × (u' : Trace) × (create_v4l2_controls two_controls 3 2 [] ≡ some (m, u'))
    × (m.count ≡ 2)
    × (length m.controls ≡ 2)
create_v4l2_controls-count_v4l2_controls_example =
    create_v4l2_controls-count_v4l2_controls two_controls answer (λ t id. refl) 3 2 2 [] counting []
      two_controls-IsHonest (omega arith) two_counted (omega arith)
