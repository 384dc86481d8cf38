-- ===== src/Query/Intervals.antt =====
-- libvideo/v4l2-query.c: the frame intervals of an image size (lookup_frame_intv, list_frame_intv),
-- with the array that is grown by ARRAY_GROW (libvideo/list.h).
pub mod Array
pub mod Outcome
pub mod Termination
mod Tests
use v4l4j.Prelude.{
  ℕ, zero, suc, ◌+◌, ◌*◌, Bool, true, false, Option, none, some, List, [], ◌∷◌, ◌++◌, ◌==◌, ◌&&◌,
  ltb, leb, if◌then◌else◌,
}
use v4l4j.Driver.{
  Driver, Trace, Fract, IntervalReply, one_interval, interval_range, enum_frameintervals,
}
use v4l4j.Palettes.{palette_code}

-- The array of discrete intervals: the elements written, in order; the number of elements of the
-- block; the variable discrete_capacity; and whether every write so far was within the block.
pub record IntervalArray : Type 0 where
  pub elements : List Fract
  pub allocated : ℕ
  pub capacity : ℕ
  pub in_bounds : Bool

abbrev pub no_array : IntervalArray
no_array = record { elements = []; allocated = 0; capacity = 0; in_bounds = true }

-- The new capacity by ARRAY_GROW with the factor 1 + 5, which the macro does not put in parentheses:
-- old * 1 + 5 + 1.
pub grown : ℕ → ℕ → ℕ
grown capacity min_capacity =
    let new_capacity = capacity * 1 + 5 + 1 in
    if leb min_capacity capacity
    then capacity
    else if ltb new_capacity min_capacity
    then min_capacity
    else new_capacity

pub array_grow : ℕ → IntervalArray → IntervalArray
unfolding grown
array_grow min_capacity a = if leb min_capacity a.capacity then a else record a {
  allocated = grown a.capacity min_capacity;
  capacity = grown a.capacity min_capacity;
}

-- XREALLOC of the array, which leaves the variable discrete_capacity alone
pub reallocate : ℕ → IntervalArray → IntervalArray
reallocate size a = record a { allocated = size }

-- the next element, at `index`
pub write_next : ℕ → Fract → IntervalArray → IntervalArray
write_next index f a = record a {
  elements = a.elements ++ f ∷ [];
  in_bounds = a.in_bounds && ltb index a.allocated;
}

-- What `p` is made to point to, by the type returned. `leaked` tells whether an array of discrete
-- intervals is left behind.
pub data Intervals : Type 0 where
  unsupported : Intervals
  discrete : IntervalArray → Intervals
  continuous : Fract → Fract → Fract → (leaked : Bool) → Intervals

-- the terminator
abbrev pub no_fract : Fract
no_fract = record { numerator = 0; denominator = 0 }

-- the end of lookup_frame_intv, for discrete intervals
pub terminated : ℕ → IntervalArray → IntervalArray
unfolding reallocate write_next
terminated index a =
    write_next index no_fract (if index + 1 == a.capacity then a else reallocate (index + 1) a)

-- where the loop ended with no more interval
pub ended : ℕ → IntervalArray → Intervals
unfolding terminated
ended zero a = unsupported
ended (suc index) a = discrete (terminated (suc index) a)

pub eqb_fract : Fract → Fract → Bool
eqb_fract f g = (f.numerator == g.numerator) && (f.denominator == g.denominator)

-- A range ends the loop; one whose ends are equal is taken as one more discrete interval.
pub range_found : ℕ → IntervalArray → Fract → Fract → Fract → Intervals
unfolding eqb_fract reallocate write_next terminated
range_found index a min max step =
    if eqb_fract min max
    then discrete (terminated (index + 1) (write_next index min (reallocate (index + 1) a)))
    else continuous min max step (ltb 0 index)

-- a round with a discrete interval
pub add_discrete : ℕ → Fract → IntervalArray → IntervalArray
unfolding array_grow write_next
add_discrete index f a = write_next index f (array_grow (index + 1) a)

module _ (d : Driver) (fmt width height : ℕ) where
  -- The loop, on fuel. The driver's types are discrete, continuous and stepwise.
  pub enum_intervals : ℕ → ℕ → IntervalArray → Trace → Option (Intervals × Trace)
  unfolding ended range_found add_discrete
  enum_intervals zero index a t = none
  enum_intervals (suc fuel) index a t =
      let t₁ = enum_frameintervals fmt width height index ∷ t in
      elim (d.on_enum_frameintervals t fmt width height index) [
        | none ↦ some (ended index a, t₁)
        | some (one_interval f) ↦ enum_intervals fuel (index + 1) (add_discrete index f a) t₁
        | some (interval_range min max step) ↦ some (range_found index a min max step, t₁)
      ]

  unfoldable pub lookup_frame_intv : ℕ → Trace → Option (Intervals × Trace)
  unfolding enum_intervals
  lookup_frame_intv fuel t = enum_intervals fuel 0 no_array t

unfoldable pub list_frame_intv : Driver → ℕ → ℕ → ℕ → ℕ → Trace → Option (Intervals × Trace)
list_frame_intv d fmt width height fuel t =
    lookup_frame_intv d (palette_code fmt) width height fuel t
