-- ===== src/Query/Intervals/Array.antt =====
-- The array of discrete intervals as it grows (libvideo/v4l2-query.c).
use v4l4j.Prelude.{
  ℕ, ◌+◌, ◌*◌, ◌/◌, ◌%◌, true, false, List, [], ◌∷◌, ◌++◌, ◌≡◌, ◌≢◌, ◌⊎◌, refl, arith,
}
use v4l4j.Driver.{Fract}
use v4l4j.Query.Intervals.{
  IntervalArray, reallocate, write_next, terminated, add_discrete, no_fract, no_array,
}

-- The array after `n` rounds with a discrete interval: its capacity is the multiple of 6 above `n`.
pub record Filled (n : ℕ) (fs : List Fract) (a : IntervalArray) : Type 0 where
  pub elements : a.elements ≡ fs
  pub capacity : a.capacity ≡ (n + 5) / 6 * 6
  pub allocated : a.allocated ≡ a.capacity
  pub in_bounds : a.in_bounds ≡ true

pub no_array-Filled : Filled 0 [] no_array
no_array-Filled = record { elements = refl; capacity = refl; allocated = refl; in_bounds = refl }

pub add_discrete-Filled :
    (n : ℕ) (fs : List Fract) (a : IntervalArray) (f : Fract)
    → Filled n fs a
    → Filled (n + 1) (fs ++ f ∷ []) (add_discrete n f a)
unfolding add_discrete
add_discrete-Filled n fs a f h = ground arith

-- The array with its terminator, after `n + 1` intervals.
pub terminated-Filled :
    (n : ℕ) (fs : List Fract) (a : IntervalArray)
    → Filled n fs a
    → let b = terminated n a in
      (b.elements ≡ fs ++ no_fract ∷ []) × (b.in_bounds ≡ true) × (b.allocated ≡ n + 1)
unfolding terminated
terminated-Filled n fs a h = ground arith

-- The array with one more interval, from a range, and its terminator. After n intervals the capacity
-- left over from them is just n + 2 where n % 6 is 4; the terminator is then out of bounds.
pub terminated_range :
    (n : ℕ) (fs : List Fract) (a : IntervalArray) (f : Fract)
    → Filled n fs a
    → let b = terminated (n + 1) (write_next n f (reallocate (n + 1) a)) in
      (b.elements ≡ (fs ++ f ∷ []) ++ no_fract ∷ [])
      × (((n % 6 ≡ 4) × (b.in_bounds ≡ false) × (b.allocated ≡ n + 1))
          ⊎ ((n % 6 ≢ 4) × (b.in_bounds ≡ true) × (b.allocated ≡ n + 2)))
unfolding terminated
terminated_range n fs a f h = ground arith
