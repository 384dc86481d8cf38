-- ===== src/Control/Menu/Overflow.antt =====
-- How far set_query_menu writes, for a driver whose items do not change between its two loops.
use v4l4j.Prelude.{
  ℕ, zero, suc, ◌+◌, ◌≤◌, Bool, none, ◌∷◌, ◌≡◌, ◌≢◌, refl, ltb, if◌then◌else◌, arith,
}
use v4l4j.Prelude.Int.{ℤ, pos, ◌+ℤ◌}
use v4l4j.Driver.{Driver, Trace, QueryCtrl, querymenu}
use v4l4j.Control.Kinds.{u32_of}
use v4l4j.Control.Menu.{known_menu, rounds_of, count_items, fill_items, set_query_menu}

-- whether the driver has the last of the items that the loops ask for from `i` on
abbrev pub last_item : (ℕ → Bool) → ℕ → ℤ → Bool
last_item has_item zero i = has_item (u32_of i)
last_item has_item (suc rounds) i = last_item has_item rounds (i +ℤ pos 1)

module _ (d : Driver) (id : ℕ) (has_item : ℕ → Bool)
    (steady : (t : Trace) (i : ℕ) → d.on_querymenu t id i ≡ has_item i) where
  -- Both loops find the same items.
  count_items-fill_items :
      (rounds : ℕ) (i : ℤ) (idx written : ℕ) (t u : Trace)
      → (count_items d id rounds i idx t).0 ≡ (fill_items d id rounds i idx written u).1
  unfolding count_items fill_items
  count_items-fill_items zero i idx written t u = refl
  count_items-fill_items (suc rounds) i idx written t u = ground (
    arith,
    steady t (u32_of i),
    steady u (u32_of i),
    count_items-fill_items rounds (i +ℤ pos 1) (if has_item (u32_of i) then idx + 1 else idx)
        (if ltb written (idx + 1) then idx + 1 else written) (querymenu id (u32_of i) ∷ t)
        (querymenu id (u32_of i) ∷ u),
  )

  fill_items-written :
      (rounds : ℕ) (i : ℤ) (idx written : ℕ) (t : Trace)
      → written ≤ suc idx
      → let (items, idx', written', t') = fill_items d id (suc rounds) i idx written t in
        written' ≡ (if last_item has_item rounds i then idx' else suc idx')
  unfolding fill_items
  fill_items-written zero i idx written t h = ground (arith, steady t (u32_of i))
  fill_items-written (suc rounds) i idx written t h = rw (steady t (u32_of i)) (
      fill_items-written rounds (i +ℤ pos 1) (if has_item (u32_of i) then idx + 1 else idx)
        (if ltb written (idx + 1) then idx + 1 else written) (querymenu id (u32_of i) ∷ t)
        (ground arith))

-- The driver's answer to a menu item does not depend on the calls made before.
abbrev pub IsSteady : Driver → ℕ → (ℕ → Bool) → Type 0
IsSteady d id has_item = (t : Trace) (i : ℕ) → d.on_querymenu t id i ≡ has_item i

-- Take a menu that libvideo does not know by its id, whose items the driver answers steadily, and of
-- which it has one at least. set_query_menu allocates an element for each item, and writes past the
-- last of them exactly when the driver does not have the item at the maximum.
pub set_query_menu-overflow :
    (d : Driver) (v : QueryCtrl) (t : Trace) (has_item : ℕ → Bool) (rounds : ℕ)
    → IsSteady d v.id has_item
    → known_menu v.id ≡ none
    → rounds_of v ≡ suc rounds
    → (count_items d v.id (suc rounds) v.minimum 0 t).0 ≢ 0
    → let m = (set_query_menu d v t).0 in
      (m.count_menu ≡ (count_items d v.id (suc rounds) v.minimum 0 t).0)
      × (m.written
          ≡ (if last_item has_item rounds v.minimum then m.count_menu else suc m.count_menu))
unfolding set_query_menu
set_query_menu-overflow d v t has_item rounds steady unknown r some_item =
    let t₁ = (count_items d v.id (suc rounds) v.minimum 0 t).1 in
    ground (
      arith,
      unknown,
      r,
      count_items-fill_items d v.id has_item steady (suc rounds) v.minimum 0 0 t t₁,
      fill_items-written d v.id has_item steady rounds v.minimum 0 0 t₁,
    )
