-- ===== src/Control/Menu/Items.antt =====
-- The menu that set_query_menu makes up where the driver reports no item.
use v4l4j.Prelude.{
  ℕ, zero, suc, ◌+◌, ◌-◌, ◌*◌, ◌/◌, ◌≤◌, ◌<◌, false, none, some, List, [], ◌∷◌, ◌≡◌, refl, ap, ◌∙◌,
  length, arith,
}
use v4l4j.Prelude.Int.{ℤ, pos, ◌≤ℤ◌, leb_ℤ, ◌+ℤ◌, ◌-ℤ◌, pos_part, neg_part}
use native.Mathlib.Nat.{add-zero}
use v4l4j.Driver.{Driver, Trace, QueryCtrl}
use v4l4j.Control.Kinds.{u32_of}
use v4l4j.Control.Menu.{
  number, MenuItem, known_menu, rounds_of, count_items, fake_items, fake_count, fake_menu,
  written_of, set_query_menu,
}

-- how far the maximum lies above `i`
abbrev pub distance : ℤ → ℤ → ℕ
distance i maximum = (pos_part maximum + neg_part i) - (pos_part i + neg_part maximum)

fake_items-stop :
    (fuel : ℕ) (i maximum step : ℤ)
    → leb_ℤ i maximum ≡ false
    → fake_items (suc fuel) i maximum step ≡ some []
unfolding fake_items
fake_items-stop fuel i maximum step h = ground arith

abbrev made : ℤ → MenuItem
made i = record { index = u32_of i; label = number i }

fake_items-next :
    (fuel : ℕ) (i maximum step : ℤ) (items : List MenuItem)
    → i ≤ℤ maximum
    → fake_items fuel (i +ℤ step) maximum step ≡ some items
    → fake_items (suc fuel) i maximum step ≡ some (made i ∷ items)
unfolding fake_items
fake_items-next fuel i maximum step items h e = rw e (ground arith)

distance-+ℤ :
    (i maximum : ℤ) (s : ℕ)
    → i ≤ℤ maximum
    → s ≤ distance i maximum
    → (i +ℤ pos s ≤ℤ maximum) × (distance (i +ℤ pos s) maximum + s ≡ distance i maximum)
unfolding ◌+ℤ◌
distance-+ℤ i maximum s h k = ground arith

past_maximum :
    (i maximum : ℤ) (s : ℕ)
    → i ≤ℤ maximum
    → distance i maximum < s
    → leb_ℤ (i +ℤ pos s) maximum ≡ false
unfolding ◌+ℤ◌
past_maximum i maximum s h k = ground arith

-- With `k` whole steps up to the maximum and fuel for one round more than the items, the loop makes
-- `k + 1` items.
Makes : ℕ → ℕ → ℕ → ℤ → ℤ → Type 0
Makes k fuel s i maximum =
    (items : List MenuItem) × (fake_items fuel i maximum (pos s) ≡ some items)
    × (length items ≡ suc k)

Makes-suc :
    (k fuel s : ℕ) (i maximum : ℤ)
    → i ≤ℤ maximum
    → Makes k fuel s (i +ℤ pos s) maximum
    → Makes (suc k) (suc fuel) s i maximum
unfolding Makes
Makes-suc k fuel s i maximum h (items, e, n) =
    (made i ∷ items, fake_items-next fuel i maximum (pos s) items h e, ap suc n)

fake_items-Makes :
    (k fuel s : ℕ) (i maximum : ℤ)
    → suc k < fuel
    → i ≤ℤ maximum
    → k * s ≤ distance i maximum
    → distance i maximum < k * s + s
    → Makes k fuel s i maximum
unfolding Makes
fake_items-Makes k zero s i maximum f h lo hi = absurd (omega arith)
fake_items-Makes zero (suc zero) s i maximum f h lo hi = absurd (omega arith)
fake_items-Makes zero (suc (suc fuel)) s i maximum f h lo hi =
    let stop =
      fake_items-stop fuel (i +ℤ pos s) maximum (pos s)
        (past_maximum i maximum s h (omega arith)) in
    (made i ∷ [], fake_items-next (suc fuel) i maximum (pos s) [] h stop, refl)
fake_items-Makes (suc k) (suc fuel) s i maximum f h lo hi =
    let (inside, closer) = distance-+ℤ i maximum s h (omega arith) in
    Makes-suc k fuel s i maximum h (
      fake_items-Makes k fuel s (i +ℤ pos s) maximum (omega arith) inside (omega arith)
        (omega arith))

fake_count-distance :
    (v : QueryCtrl) (s : ℕ)
    → v.minimum ≤ℤ v.maximum
    → v.step ≡ pos s
    → fake_count v ≡ distance v.minimum v.maximum / s + 1
unfolding fake_count
fake_count-distance v s h e =
    rw (e, add-zero s) (ap (λ n. n / s + 1) (magnitude-distance v.minimum v.maximum h))
  where
    magnitude-distance : (a b : ℤ) → a ≤ℤ b → pos_part (b -ℤ a) + neg_part (b -ℤ a) ≡ distance a b
    magnitude-distance a b le = ground arith

fake_menu-of :
    (v : QueryCtrl) (step : ℤ) (items : List MenuItem)
    → v.step ≡ step
    → fake_items (fake_count v + 1) v.minimum v.maximum step ≡ some items
    → length items ≡ fake_count v
    → ((fake_menu v).items ≡ some items) × ((fake_menu v).written ≡ fake_count v)
unfolding fake_menu written_of
fake_menu-of v step items st e n =
    let e' : fake_items (fake_count v + 1) v.minimum v.maximum v.step ≡ some items =
      ap (fake_items (fake_count v + 1) v.minimum v.maximum) st ∙ e in
    (e', ap (written_of (fake_count v)) e' ∙ n)

-- What set_query_menu makes up without an item of the driver's.
fake_menu-exact :
    (v : QueryCtrl) (s : ℕ)
    → v.minimum ≤ℤ v.maximum
    → v.step ≡ pos s
    → 0 < s
    → ((fake_menu v).count_menu ≡ distance v.minimum v.maximum / s + 1)
      × ((items : List MenuItem) × ((fake_menu v).items ≡ some items)
          × (length items ≡ (fake_menu v).count_menu))
      × ((fake_menu v).written ≡ (fake_menu v).count_menu)
unfolding Makes fake_menu
fake_menu-exact v s h e p =
    let D = distance v.minimum v.maximum in
    let n = fake_count-distance v s h e in
    let (items, m, l) =
      fake_items-Makes (D / s) (fake_count v + 1) s v.minimum v.maximum (omega (arith, n)) h
        (grind arith) (grind arith) in
    let k : length items ≡ fake_count v = omega (arith, n, l) in
    let (is, written) = fake_menu-of v (pos s) items e m k in (n, (items, is, k), written)

-- Take a menu control with its limits in order and a positive step, unknown by its id, of which the
-- driver reports no item. set_query_menu allocates as many elements as there are steps from the
-- minimum to the maximum, plus one, and makes up exactly that many items.
pub set_query_menu-fake_items :
    (d : Driver) (v : QueryCtrl) (t : Trace) (s : ℕ)
    → known_menu v.id ≡ none
    → (count_items d v.id (rounds_of v) v.minimum 0 t).0 ≡ 0
    → v.minimum ≤ℤ v.maximum
    → v.step ≡ pos s
    → 0 < s
    → let m = (set_query_menu d v t).0 in
      (m.count_menu ≡ distance v.minimum v.maximum / s + 1)
      × ((items : List MenuItem) × (m.items ≡ some items) × (length items ≡ m.count_menu))
      × (m.written ≡ m.count_menu)
unfolding set_query_menu
set_query_menu-fake_items d v t s unknown no_item h st p =
    ground (arith, unknown, no_item, fake_menu-exact v s h st p)
