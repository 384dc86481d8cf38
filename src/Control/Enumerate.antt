-- ===== src/Control/Enumerate.antt =====
-- libvideo/v4l2-input.c: count_v4l2_controls and create_v4l2_controls, the two enumerations of a
-- device's controls. The loops that end where the driver says so recur on fuel, and are `none`
-- where it runs out.
pub mod Agreement
pub mod Capacity
pub mod Extended
pub mod Termination
mod Tests
use v4l4j.Prelude.{
  ℕ, zero, suc, ◌+◌, ◌-◌, ◌%◌, ◌^◌, Bool, true, false, Option, none, some, List, [], ◌∷◌, ◌++◌,
  ◌==◌, ◌&&◌, ◌||◌, not, ltb, leb, if◌then◌else◌, bit_and,
}
use v4l4j.Driver.{Driver, Trace, QueryCtrl, QueryReply, found, refused, queryctrl}
use v4l4j.Control.Kinds.{type_ctrl_class, type_menu, type_integer_menu}
use v4l4j.Control.Quirks.{fix_quirky_struct}
use v4l4j.Control.Menu.{Menu, set_query_menu}

-- V4L2_CID_BASE, and the number of ids from it to V4L2_CID_LASTP1
abbrev pub cid_base : ℕ
cid_base = 0x98_0900

abbrev pub nb_std_ids : ℕ
nb_std_ids = 43

abbrev pub cid_private_base : ℕ
cid_private_base = 0x800_0000

-- V4L2_CTRL_FLAG_NEXT_CTRL
abbrev pub next_ctrl : ℕ
next_ctrl = 0x8000_0000

-- a control that is not disabled (V4L2_CTRL_FLAG_DISABLED is 1) and not the name of a class
pub is_usable : QueryCtrl → Bool
is_usable q = not ((q.flags % 2 == 1) || (q.ctrl_type == type_ctrl_class))

-- the list's add_node appends
pub has_id : List ℕ → ℕ → Bool
has_id [] id = false
has_id (x ∷ xs) id = (x == id) || has_id xs id

-- the number of controls counted, and the ids of the standard and private ones
pub record Counted : Type 0 where
  pub count : ℕ
  pub ids : List ℕ

pub note_control : QueryCtrl → ℕ → Counted → Counted
unfolding is_usable
note_control q id f =
    if is_usable q then record { count = f.count + 1; ids = f.ids ++ id ∷ [] } else f

note_reply : QueryReply → ℕ → Counted → Counted
unfolding note_control
note_reply (refused errno) id f = f
note_reply (found q) id f = note_control q id f

-- an unsigned int plus one
abbrev pub next_id : ℕ → ℕ
next_id id = (id + 1) % 2 ^ 32

-- The id found by the extended loop, moved on for a driver that did not move on from `current`.
pub moved_on : ℕ → ℕ → ℕ
moved_on id current = if leb id current then next_id id else id

pub is_new : List ℕ → QueryCtrl → Bool
unfolding is_usable has_id
is_new ids q = not (has_id ids q.id) && is_usable q

-- struct control: the control as it was repaired, and its menu
pub record Control : Type 0 where
  pub v4l2_ctrl : QueryCtrl
  pub menu : Option Menu

-- The array filled so far up to `count`, as a list, with the ids noted.
pub record Created : Type 0 where
  pub controls : List Control
  pub count : ℕ
  pub ids : List ℕ

-- the loops in sequence, none where one of them runs out of fuel
infixl 5 ◌>>=◌
abbrev pub ◌>>=◌ {ℓ κ} : {A : Type ℓ} {B : Type κ} → Option A → (A → Option B) → Option B
none >>= f = none
some a >>= f = f a

module _ (d : Driver) where
  pub count_std : ℕ → ℕ → Counted → Trace → Counted × Trace
  unfolding note_reply
  count_std zero i f t = (f, t)
  count_std (suc rounds) i f t =
      count_std rounds (i + 1) (note_reply (d.on_queryctrl t i) i f) (queryctrl i ∷ t)

  -- The next id follows the one that the driver reported.
  pub count_priv : ℕ → ℕ → Counted → Trace → Option (Counted × Trace)
  unfolding note_control
  count_priv zero id f t = none
  count_priv (suc fuel) id f t = elim (d.on_queryctrl t id) [
    | found q ↦ count_priv fuel (next_id q.id) (note_control q q.id f) (queryctrl id ∷ t)
    | refused errno ↦
        let rest = count_priv fuel (next_id id) f (queryctrl id ∷ t) in
        if errno == 22 then some (f, queryctrl id ∷ t) else rest
  ]

  -- `id` is the one asked for, with the flag V4L2_CTRL_FLAG_NEXT_CTRL.
  pub count_ext : ℕ → ℕ → ℕ → Counted → Trace → Option (Counted × Trace)
  unfolding is_new moved_on
  count_ext zero id current f t = none
  count_ext (suc fuel) id current f t = elim (d.on_queryctrl t id) [
    | refused errno ↦ some (f, queryctrl id ∷ t)
    | found q ↦
        let current' = moved_on q.id current % next_ctrl in
        count_ext fuel (current' + next_ctrl) current'
          (if is_new f.ids q then record f { count = f.count + 1 } else f) (queryctrl id ∷ t)
  ]

  pub count_v4l2_controls : ℕ → Trace → Option (ℕ × Trace)
  count_v4l2_controls fuel t = do
    let (f, t₁) = count_std nb_std_ids cid_base (record { count = 0; ids = [] }) t
    (f₁, t₂) ← count_priv fuel cid_private_base f t₁
    (f₂, t₃) ← count_ext fuel next_ctrl 0 f₁ t₂
    some (f₂.count, t₃)

  -- The control of an element, repaired, with its menu if it is one.
  pub create_control : QueryCtrl → Trace → Control × Trace
  create_control q t =
      let v = fix_quirky_struct q in
      let (menu, t₁) = set_query_menu d v t in
      if (v.ctrl_type == type_menu) || (v.ctrl_type == type_integer_menu)
      then (record { v4l2_ctrl = v; menu = some menu }, t₁)
      else (record { v4l2_ctrl = v; menu = none }, t)

  pub append_control : QueryCtrl → Created → Trace → Created × Trace
  unfolding create_control
  append_control q m t =
      let (c, t₁) = create_control q t in
      (record m { controls = m.controls ++ c ∷ []; count = m.count + 1 }, t₁)

  -- what the loops over the standard and the private controls do with a control found
  create_found : QueryCtrl → ℕ → Created → Trace → Created × Trace
  unfolding append_control
  create_found q id m t =
      let (m₁, t₁) = append_control q m t in
      if is_usable q then (record m₁ { ids = m.ids ++ id ∷ [] }, t₁) else (m, t)

  create_reply : QueryReply → ℕ → Created → Trace → Created × Trace
  unfolding create_found
  create_reply (refused errno) id m t = (m, t)
  create_reply (found q) id m t = create_found q id m t

  module _ (max : ℕ) where
    pub create_std : ℕ → ℕ → Created → Trace → Created × Trace
    unfolding create_reply
    create_std zero i m t = (m, t)
    create_std (suc rounds) i m t =
        let (m₁, t₁) = create_reply (d.on_queryctrl t i) i m (queryctrl i ∷ t) in
        let rest = create_std rounds (i + 1) m₁ t₁ in if ltb m.count max then rest else (m, t)

    pub create_priv : ℕ → ℕ → Created → Trace → Option (Created × Trace)
    unfolding create_found
    create_priv zero id m t = if ltb m.count max then none else some (m, t)
    create_priv (suc fuel) id m t =
        let after_error = create_priv fuel (next_id id) m (queryctrl id ∷ t) in
        let rest = elim (d.on_queryctrl t id) as (λ r. Option (Created × Trace)) [
          | found q ↦
              let (m₁, t₁) = create_found q id m (queryctrl id ∷ t) in
              create_priv fuel (next_id id) m₁ t₁
          | refused errno ↦ if errno == 22 then some (m, queryctrl id ∷ t) else after_error
        ] in
        if ltb m.count max then rest else some (m, t)

  pub create_ext : ℕ → ℕ → ℕ → Created → Trace → Option (Created × Trace)
  unfolding append_control
  create_ext zero id current m t = none
  create_ext (suc fuel) id current m t = elim (d.on_queryctrl t id) [
    | refused errno ↦ some (m, queryctrl id ∷ t)
    | found q ↦
        let current' = moved_on q.id current % next_ctrl in
        let (m₁, t₁) = append_control q m (queryctrl id ∷ t) in
        let (m₂, t₂) : Created × Trace =
          if is_new m.ids q then (m₁, t₁) else (m, queryctrl id ∷ t) in
        create_ext fuel (current' + next_ctrl) current' m₂ t₂
  ]

  pub create_v4l2_controls : ℕ → ℕ → Trace → Option (Created × Trace)
  create_v4l2_controls fuel max t = do
    let (m, t₁) =
        create_std max nb_std_ids cid_base (record { controls = []; count = 0; ids = [] }) t
    (m₁, t₂) ← create_priv max fuel cid_private_base m t₁
    create_ext fuel next_ctrl 0 m₁ t₂
