-- ===== src/Control/Menu.antt =====
-- libvideo/v4l2-input.c: set_query_menu, which fills in the items of a menu control.
pub mod Items
pub mod Overflow
mod Tests
use v4l4j.Prelude.{
  ℕ, zero, suc, ◌+◌, ◌-◌, ◌/◌, Bool, true, false, Option, none, some, List, [], ◌∷◌, ◌++◌, String,
  ◌==◌, ltb, if◌then◌else◌, length,
}
use v4l4j.Prelude.Int.{ℤ, pos, negsuc, pos_part, neg_part, ltb_ℤ, leb_ℤ, ◌+ℤ◌, ◌-ℤ◌}
use v4l4j.Driver.{Driver, Trace, QueryCtrl, querymenu}
use v4l4j.Control.Kinds.{u32_of}

-- the name of an item: a text of libvideo's, what the driver wrote, or a number in decimal
pub data Label : Type 0 where
  text : String → Label
  reported : Label
  number : ℤ → Label

-- struct v4l2_querymenu, less its id
pub record MenuItem : Type 0 where
  pub index : ℕ
  pub label : Label

-- The menu of a control: `count_menu` is the number of elements allocated, `written` one more than
-- the highest index written to. The items are `none` where the loop never ends within the array.
pub record Menu : Type 0 where
  pub count_menu : ℕ
  pub items : Option (List MenuItem)
  pub written : ℕ

item : ℕ → String → MenuItem
item index name = record { index = index; label = text name }

-- the menus that the code knows by the control's id
pub known_menu : ℕ → Option (List MenuItem)
unfolding item
known_menu id =
    if id == 0x980918
    then some (item 0 "Disabled" ∷ item 1 "50 Hz" ∷ item 2 "60 Hz" ∷ [])
    else if id == 0x98091f
    then some (item 0 "None" ∷ item 1 "Black/White" ∷ item 2 "Sepia" ∷ [])
    else if id == 0x990900
    then some (
        item 0 "MPEG2 - Program stream"
        ∷ item 1 "MPEG2 - Transport stream"
        ∷ item 2 "MPEG1 - System stream"
        ∷ item 3 "MPEG2 - DVD-compatible stream"
        ∷ item 4 "MPEG1 - VCD-compatible stream"
        ∷ item 5 "MPEG2 - SVCD-compatible stream"
        ∷ [])
    else if id == 0x9a0901
    then some (
        item 0 "Auto"
        ∷ item 1 "Manual"
        ∷ item 2 "Shutter priority"
        ∷ item 3 "Aperture priority"
        ∷ [])
    else none

-- the number of rounds of a loop from the minimum to the maximum
pub rounds_of : QueryCtrl → ℕ
rounds_of v =
    (pos_part v.maximum + neg_part v.minimum + 1) - (pos_part v.minimum + neg_part v.maximum)

magnitude : ℤ → ℕ
magnitude z = pos_part z + neg_part z

-- abs((maximum - minimum) / step) + 1
fake_count : QueryCtrl → ℕ
unfolding magnitude ◌-ℤ◌
fake_count v = magnitude (v.maximum -ℤ v.minimum) / magnitude v.step + 1

before : ℤ → Option (List MenuItem) → Option (List MenuItem)
before i none = none
before i (some items) = some (record { index = u32_of i; label = number i } ∷ items)

-- The loop that makes up items from `i` on. `none` after `fuel` items: more than the array holds,
-- where the fuel is one more than that.
fake_items : ℕ → ℤ → ℤ → ℤ → Option (List MenuItem)
unfolding before
fake_items zero i maximum step = none
fake_items (suc fuel) i maximum step =
    let rest = fake_items fuel (i +ℤ step) maximum step in
    if leb_ℤ i maximum then before i rest else some []

module _ (d : Driver) (id : ℕ) where
  -- the first loop over the driver's items: how many it has
  pub count_items : ℕ → ℤ → ℕ → Trace → ℕ × Trace
  count_items zero i count t = (count, t)
  count_items (suc rounds) i count t =
      count_items rounds (i +ℤ pos 1) (if d.on_querymenu t id (u32_of i) then count + 1 else count)
        (querymenu id (u32_of i) ∷ t)

  -- The second loop: an element is written at `idx` in each round, and kept where the driver has the
  -- item. The results are the items kept, `idx` and one more than the highest index written.
  pub fill_items : ℕ → ℤ → ℕ → ℕ → Trace → List MenuItem × ℕ × ℕ × Trace
  fill_items zero i idx written t = ([], idx, written, t)
  fill_items (suc rounds) i idx written t =
      let has_item = d.on_querymenu t id (u32_of i) in
      let written₁ = if ltb written (idx + 1) then idx + 1 else written in
      let (items, idx', written', t') =
        fill_items rounds (i +ℤ pos 1) (if has_item then idx + 1 else idx) written₁
          (querymenu id (u32_of i) ∷ t) in
      (
        (if has_item then record { index = u32_of i; label = reported } ∷ items else items),
        idx',
        written',
        t',
      )

written_of : ℕ → Option (List MenuItem) → ℕ
written_of count none = count + 1
written_of count (some items) = length items

fake_menu : QueryCtrl → Menu
unfolding fake_items fake_count written_of
fake_menu v = record {
  count_menu = fake_count v;
  items = fake_items (fake_count v + 1) v.minimum v.maximum v.step;
  written = written_of (fake_count v) (fake_items (fake_count v + 1) v.minimum v.maximum v.step);
}

pub set_query_menu : Driver → QueryCtrl → Trace → Menu × Trace
set_query_menu d v t = elim (known_menu v.id) [
  | some items ↦
      (record { count_menu = length items; items = some items; written = length items }, t)
  | none ↦
      let (count, t₁) = count_items d v.id (rounds_of v) v.minimum 0 t in
      let (items, idx, written, t₂) = fill_items d v.id (rounds_of v) v.minimum 0 0 t₁ in
      if ltb 0 count
      then (record { count_menu = count; items = some items; written = written }, t₂)
      else (fake_menu v, t₁)
]
