-- ===== src/Jni/ControlList.antt =====
-- doGetControlList of src/v4l4j_VideoDevice.c, with get_names and get_values: the controls of a device
-- as Java objects, with libvideo's list of controls taken for them.
pub mod Elements
pub mod Objects
mod Tests
use v4l4j.Prelude.{
  ℕ, ◌+◌, Bool, true, false, not, ◌&&◌, ◌||◌, Option, none, some, List, [], ◌∷◌, map, length, ◌==◌,
  if◌then◌else◌,
}
use mathlib.Core.Option
use v4l4j.Prelude.Int.{ℤ}
use v4l4j.Control.Kinds.{type_menu, type_integer_menu}
use v4l4j.Control.Menu.{Label, MenuItem, Menu}
use v4l4j.Control.Enumerate.{Control}
use v4l4j.Device.{VideoDevice, Held, get_control_list, release_control_list}
use v4l4j.Jni.Device.{JavaType, translate_type}
use v4l4j.Jni.Exceptions.{Exception, jni}

-- Whether the virtual machine finds the class Control and its constructor, makes the array, and, for
-- the control of each index, the arrays of the names and values of its menu and the object.
pub record ListReplies : Type 0 where
  pub finds_class : Bool
  pub finds_ctor : Bool
  pub makes_array : Bool
  pub makes_names : ℕ → Bool
  pub makes_values : ℕ → Bool
  pub makes_element : ℕ → Bool

-- What the names are read from: the items' names, or their values as decimal numbers.
pub data Names : Type 0 where
  by_name : List Label → Names
  by_value : List Label → Names

-- An object of the class Control; its name is left out. The names and values are `none` for NULL.
pub record JavaControl : Type 0 where
  pub id : ℕ
  pub minimum : ℤ
  pub maximum : ℤ
  pub step : ℤ
  pub control_type : JavaType
  pub names : Option Names
  pub values : Option (List ℕ)

-- count_menu, which is 0 for a control that has no menu
pub count_menu_of : Control → ℕ
count_menu_of c = elim c.menu [ none ↦ 0 | some m ↦ m.count_menu ]

-- the array v4l2_menu; libvideo returns only when it has made all items
pub items_of : Control → List MenuItem
items_of c = elim c.menu [ none ↦ [] | some m ↦ elim m.items [ none ↦ [] | some items ↦ items ] ]

-- get_names; `none` is NULL, beside a JNIException.
pub get_names : ListReplies → ℕ → Control → Option Names
unfolding items_of
get_names r i c =
    let labels = map (λ m. m.label) (items_of c) in
    if not (r.makes_names i)
    then none
    else if (c.v4l2_ctrl).ctrl_type == type_menu
    then some (by_name labels)
    else if (c.v4l2_ctrl).ctrl_type == type_integer_menu
    then some (by_value labels)
    else none

-- get_values
pub get_values : ListReplies → ℕ → Control → Option (List ℕ)
unfolding items_of
get_values r i c = if r.makes_values i then some (map (λ m. m.index) (items_of c)) else none

-- How the work on the controls ends: with their objects, or with a JNIException, and then whether
-- the list of controls is released.
pub data Made (A : Type 0) : Type 0 where
  made : A → Made A
  failed : (is_released : Bool) → Made A

-- The end of the loop's body, behind the menu.
make_element : ListReplies → ℕ → Control → Option Names → Option (List ℕ) → Made JavaControl
make_element r i c names values = elim (translate_type (c.v4l2_ctrl).ctrl_type) [
  | none ↦ failed false
  | some t ↦ elim (r.makes_element i) [
    | false ↦ failed true
    | true ↦ made (record {
      id = i;
      minimum = (c.v4l2_ctrl).minimum;
      maximum = (c.v4l2_ctrl).maximum;
      step = (c.v4l2_ctrl).step;
      control_type = t;
      names = names;
      values = values;
    })
  ]
]

-- The loop's body.
create_element : ListReplies → ℕ → Control → Made JavaControl
unfolding make_element count_menu_of get_names get_values
create_element r i c = elim (count_menu_of c == 0) [
  | true ↦ make_element r i c none none
  | false ↦ elim (get_names r i c) [
    | none ↦ failed true
    | some names ↦ elim (get_values r i c) [
      | none ↦ failed true
      | some values ↦ make_element r i c (some names) (some values)
    ]
  ]
]

-- What follows a control's work: the rest of the loop, or the return from the function.
with_rest : Made JavaControl → Made (List JavaControl) → Made (List JavaControl)
with_rest (failed is_released) rest = failed is_released
with_rest (made j) (made js) = made (j ∷ js)
with_rest (made j) (failed is_released) = failed is_released

-- The loop over the controls from index i on.
pub create_elements : ListReplies → ℕ → List Control → Made (List JavaControl)
unfolding create_element with_rest
create_elements r i [] = made []
create_elements r i (c ∷ cs) = with_rest (create_element r i c) (create_elements r (i + 1) cs)

-- The value, where `none` is 0, the exception, and the device with what is held for it.
pub finish_list :
    Made (List JavaControl)
    → VideoDevice
    → Held
    → Option (List JavaControl) × Option Exception × VideoDevice × Held
finish_list (made js) v h = (some js, none, v, h)
finish_list (failed true) v h = let (v₁, h₁) = release_control_list v h in (none, some jni, v₁, h₁)
finish_list (failed false) v h = (none, some jni, v, h)

-- doGetControlList, for a device on which libvideo finds the controls.
pub do_get_control_list :
    ListReplies
    → List Control
    → VideoDevice
    → Held
    → Option (List JavaControl) × Option Exception × VideoDevice × Held
unfolding create_elements finish_list
do_get_control_list r controls v h =
    let (v₁, h₁) = get_control_list (length controls) v h in
    finish_list
      (if r.finds_class && r.finds_ctor && r.makes_array
        then create_elements r 0 controls
        else failed true)
      v₁ h₁
