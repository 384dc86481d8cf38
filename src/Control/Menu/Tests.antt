-- ===== src/Control/Menu/Tests.antt =====
-- Menus of small drivers, and the theorems at them.
use v4l4j.Prelude.{
  suc, List, ◌+◌, ◌/◌, if◌then◌else◌, ℕ, Bool, true, some, none, [], ◌∷◌, ◌≡◌, ◌==◌, ltb, refl,
  length, arith,
}
use v4l4j.Prelude.Int.{pos}
use v4l4j.Driver.{Driver, QueryCtrl}
use v4l4j.Samples.{obliging}
use v4l4j.Control.Menu.{known_menu, rounds_of, count_items, fill_items, set_query_menu}
use v4l4j.Control.Menu.Overflow.{last_item, set_query_menu-overflow}

-- a menu with four places
abbrev scenes : QueryCtrl
scenes = record {
  id = 0x98_0a01;
  ctrl_type = 3;
  minimum = pos 0;
  maximum = pos 3;
  step = pos 1;
  flags = 0;
  reserved0 = 0;
  reserved1 = 0;
}

-- the driver has the first two of them only
abbrev first_two : Driver
first_two = record obliging { on_querymenu = λ t i j. ltb j 2 }

two_items_three_written :
    let m = (set_query_menu first_two scenes []).0 in
    ◌≡◌ {A = ℕ × ℕ} (m.count_menu, m.written) (2, 3)
unfolding set_query_menu known_menu rounds_of count_items fill_items v4l4j.Prelude.Int.◌+ℤ◌
two_items_three_written = refl

set_query_menu-overflow_example :
    let m = (set_query_menu first_two scenes []).0 in
    (m.count_menu ≡ (count_items first_two 0x98_0a01 4 (pos 0) 0 []).0)
    × (m.written ≡ (if last_item (λ j. ltb j 2) 3 (pos 0) then m.count_menu else suc m.count_menu))
unfolding known_menu rounds_of count_items
set_query_menu-overflow_example =
    set_query_menu-overflow first_two scenes [] (λ j. ltb j 2) 3 (λ t j. refl) refl refl
      (ground arith)
