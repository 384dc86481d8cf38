-- ===== src/Jni/ControlList/Elements.antt =====
-- The Java object that doGetControlList (src/v4l4j_VideoDevice.c) makes of each control, and where it
-- makes none.
use v4l4j.Prelude.{
  ℕ, ◌+◌, ◌≡◌, ◌≢◌, refl, ◌⊎◌, inl, inr, true, false, Option, none, some, List, [], ◌∷◌, arith, map,
  ◌==◌, Bool-cases, Option-cases,
}
use v4l4j.Control.Enumerate.{Control}
use v4l4j.Control.Menu.{Label}
use v4l4j.Jni.Device.{
  JavaType, ctrl_type_button, ctrl_type_switch, ctrl_type_slider, ctrl_type_discrete,
  ctrl_type_string, ctrl_type_long, ctrl_type_bitmask, translate_type,
}
use v4l4j.Jni.ControlList.{
  ListReplies, JavaControl, Names, by_name, by_value, Made, made, failed, count_menu_of, items_of,
  make_element, create_element, create_elements, with_rest, get_names, get_values,
}

-- The types of controls, by their numbers in linux/videodev2.h, that each constant of V4L4JConstants
-- is for.
abbrev pub IsTypeOf : JavaType → ℕ → Type 0
IsTypeOf ctrl_type_button n = n ≡ 4
IsTypeOf ctrl_type_switch n = n ≡ 2
IsTypeOf ctrl_type_slider n = n ≡ 1
IsTypeOf ctrl_type_discrete n = (n ≡ 3) ⊎ (n ≡ 9)
IsTypeOf ctrl_type_string n = n ≡ 7
IsTypeOf ctrl_type_long n = n ≡ 5
IsTypeOf ctrl_type_bitmask n = n ≡ 8

-- no constant is for the type
abbrev pub IsUnknown : ℕ → Type 0
IsUnknown n = (t : JavaType) → ¬ IsTypeOf t n

translate_type-IsTypeOf : (n : ℕ) (t : JavaType) → translate_type n ≡ some t → IsTypeOf t n
unfolding translate_type
translate_type-IsTypeOf n ctrl_type_button e = ground arith
translate_type-IsTypeOf n ctrl_type_switch e = ground arith
translate_type-IsTypeOf n ctrl_type_slider e = ground arith
translate_type-IsTypeOf n ctrl_type_discrete e = ground arith
translate_type-IsTypeOf n ctrl_type_string e = ground arith
translate_type-IsTypeOf n ctrl_type_long e = ground arith
translate_type-IsTypeOf n ctrl_type_bitmask e = ground arith

translate_type-IsUnknown : (n : ℕ) → translate_type n ≡ none → IsUnknown n
unfolding translate_type
translate_type-IsUnknown n e ctrl_type_button p = ground arith
translate_type-IsUnknown n e ctrl_type_switch p = ground arith
translate_type-IsUnknown n e ctrl_type_slider p = ground arith
translate_type-IsUnknown n e ctrl_type_discrete (inl p) = ground arith
translate_type-IsUnknown n e ctrl_type_discrete (inr p) = ground arith
translate_type-IsUnknown n e ctrl_type_string p = ground arith
translate_type-IsUnknown n e ctrl_type_long p = ground arith
translate_type-IsUnknown n e ctrl_type_bitmask p = ground arith

-- the labels of the menu's items
abbrev pub labels_of : Control → List Label
labels_of c = map (λ m. m.label) (items_of c)

-- The names that a menu has: of the items themselves in a menu of texts, of their values in one of
-- integers.
abbrev pub AreNamesOf : Control → Names → Type 0
AreNamesOf c names =
    (((c.v4l2_ctrl).ctrl_type ≡ 3) × (names ≡ by_name (labels_of c)))
    ⊎ (((c.v4l2_ctrl).ctrl_type ≡ 9) × (names ≡ by_value (labels_of c)))

-- The names and values of a control: none where it has no menu, otherwise those of the menu's items.
abbrev pub ShowsMenu : Control → Option Names → Option (List ℕ) → Type 0
ShowsMenu c none values = (count_menu_of c ≡ 0) × (values ≡ none)
ShowsMenu c (some names) values =
    (count_menu_of c ≢ 0) × AreNamesOf c names × (values ≡ some (map (λ m. m.index) (items_of c)))

-- The object has the control's index and range, the constant for its type, and the names and
-- indices of its menu, if it has one.
pub record IsObjectOf (i : ℕ) (c : Control) (j : JavaControl) : Type 0 where
  pub id : j.id ≡ i
  pub minimum : j.minimum ≡ (c.v4l2_ctrl).minimum
  pub maximum : j.maximum ≡ (c.v4l2_ctrl).maximum
  pub step : j.step ≡ (c.v4l2_ctrl).step
  pub control_type : IsTypeOf j.control_type (c.v4l2_ctrl).ctrl_type
  pub menu : ShowsMenu c j.names j.values

-- one object for each control, in their order
abbrev pub AreObjectsOf : ℕ → List Control → List JavaControl → Type 0
AreObjectsOf i [] [] = Unit
AreObjectsOf i [] (j ∷ js) = ⊥
AreObjectsOf i (c ∷ cs) [] = ⊥
AreObjectsOf i (c ∷ cs) (j ∷ js) = IsObjectOf i c j × AreObjectsOf (i + 1) cs js

-- one of the controls has a type for which there is no constant
abbrev pub HasUnknown : List Control → Type 0
HasUnknown [] = ⊥
HasUnknown (c ∷ cs) = IsUnknown (c.v4l2_ctrl).ctrl_type ⊎ HasUnknown cs

-- The control has a menu and is of no type of menus.
abbrev pub HasStrayMenu : Control → Type 0
HasStrayMenu c =
    (count_menu_of c ≢ 0) × ((c.v4l2_ctrl).ctrl_type ≢ 3) × ((c.v4l2_ctrl).ctrl_type ≢ 9)

-- The virtual machine does not make the control's object, or the names or values of its menu, or the
-- control has a menu and is of no type of menus.
abbrev pub IsRefused : ListReplies → ℕ → Control → Type 0
IsRefused r i c =
    (r.makes_element i ≡ false)
    ⊎ ((count_menu_of c ≢ 0) × ((r.makes_names i ≡ false) ⊎ (r.makes_values i ≡ false)))
    ⊎ HasStrayMenu c

-- one of the controls from an index on is refused
abbrev pub HasRefused : ListReplies → ℕ → List Control → Type 0
HasRefused r i [] = ⊥
HasRefused r i (c ∷ cs) = IsRefused r i c ⊎ HasRefused r (i + 1) cs

-- how the work ends on one control, and on all
abbrev pub ElementOutcome : ListReplies → ℕ → Control → Made JavaControl → Type 0
ElementOutcome r i c (made j) = IsObjectOf i c j
ElementOutcome r i c (failed true) = IsRefused r i c
ElementOutcome r i c (failed false) = IsUnknown (c.v4l2_ctrl).ctrl_type

abbrev pub ListOutcome : ListReplies → ℕ → List Control → Made (List JavaControl) → Type 0
ListOutcome r i cs (made js) = AreObjectsOf i cs js
ListOutcome r i cs (failed true) = HasRefused r i cs
ListOutcome r i cs (failed false) = HasUnknown cs

get_names-AreNamesOf :
    (r : ListReplies) (i : ℕ) (c : Control) (names : Names)
    → get_names r i c ≡ some names
    → AreNamesOf c names
unfolding get_names
get_names-AreNamesOf r i c names e = ground arith

get_names-none :
    (r : ListReplies) (i : ℕ) (c : Control)
    → count_menu_of c ≢ 0
    → get_names r i c ≡ none
    → IsRefused r i c
unfolding get_names
get_names-none r i c menu e = ground arith

make_element_lem :
    (r : ListReplies) (i : ℕ) (c : Control) (names : Option Names) (values : Option (List ℕ))
    → ShowsMenu c names values
    → ElementOutcome r i c (make_element r i c names values)
unfolding make_element
make_element_lem r i c names values h =
    elim (Option-cases (translate_type (c.v4l2_ctrl).ctrl_type)) [
      | inl e ↦ rw (make_element, e) (translate_type-IsUnknown (c.v4l2_ctrl).ctrl_type e)
      | inr (t, e) ↦ elim (Bool-cases (r.makes_element i)) [
        | inl m ↦
            rw (make_element, e, m)
              (record {
                id = refl;
                minimum = refl;
                maximum = refl;
                step = refl;
                control_type = translate_type-IsTypeOf (c.v4l2_ctrl).ctrl_type t e;
                menu = h;
              })
        | inr m ↦ rw (make_element, e, m) (inl m)
      ]
    ]

create_element_lem :
    (r : ListReplies) (i : ℕ) (c : Control) → ElementOutcome r i c (create_element r i c)
unfolding create_element get_values
create_element_lem r i c = elim (Bool-cases (count_menu_of c == 0)) [
  | inl e ↦
      let nothing : count_menu_of c ≡ 0 = ground arith in
      rw (create_element, e) (make_element_lem r i c none none (nothing, refl))
  | inr e ↦
      let menu : count_menu_of c ≢ 0 = ground arith in
      elim (Option-cases (get_names r i c)) [
        | inl n ↦ rw (create_element, e, n) (get_names-none r i c menu n)
        | inr (names, n) ↦ elim (Bool-cases (r.makes_values i)) [
          | inl v ↦
              rw (create_element, e, n, get_values, v)
                (make_element_lem r i c (some names) (some (map (λ m. m.index) (items_of c)))
                  (menu, get_names-AreNamesOf r i c names n, refl))
          | inr v ↦ rw (create_element, e, n, get_values, v) (inr (inl (menu, inr v)))
        ]
      ]
]

with_rest_lem :
    (r : ListReplies) (i : ℕ) (c : Control) (cs : List Control) (m : Made JavaControl)
    (rest : Made (List JavaControl))
    → ElementOutcome r i c m
    → ListOutcome r (i + 1) cs rest
    → ListOutcome r i (c ∷ cs) (with_rest m rest)
unfolding with_rest
with_rest_lem r i c cs (failed true) rest p q = inl p
with_rest_lem r i c cs (failed false) rest p q = inl p
with_rest_lem r i c cs (made j) (made js) p q = (p, q)
with_rest_lem r i c cs (made j) (failed true) p q = inr q
with_rest_lem r i c cs (made j) (failed false) p q = inr q

pub create_elements_lem :
    (r : ListReplies) (i : ℕ) (cs : List Control) → ListOutcome r i cs (create_elements r i cs)
unfolding create_elements
create_elements_lem r i [] = tt
create_elements_lem r i (c ∷ cs) =
    with_rest_lem r i c cs (create_element r i c) (create_elements r (i + 1) cs)
      (create_element_lem r i c) (create_elements_lem r (i + 1) cs)
