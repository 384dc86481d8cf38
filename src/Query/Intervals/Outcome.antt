-- ===== src/Query/Intervals/Outcome.antt =====
-- What lookup_frame_intv (libvideo/v4l2-query.c) stores, for a driver that reports some discrete
-- intervals and then ends the list, or reports a range.
use v4l4j.Prelude.{
  ℕ, zero, suc, ◌+◌, ◌%◌, ◌<◌, true, false, Option, none, some, List, [], ◌∷◌, ◌++◌, ◌≡◌, ◌≢◌, ◌⊎◌,
  inl, inr, refl, sym, ap, subst, ◌∙◌, ltb, length, Bool-cases, arith,
}
use native.Mathlib.Nat.{add-zero, zero-add}
use mathlib.Core.List.{append-nil, append_assoc}
use v4l4j.Driver.{
  Driver, Trace, Fract, IntervalReply, one_interval, interval_range, enum_frameintervals,
}
use v4l4j.Query.Intervals.{
  IntervalArray, Intervals, unsupported, discrete, continuous, no_fract, no_array, eqb_fract, ended,
  range_found, add_discrete, terminated, write_next, reallocate, enum_intervals, lookup_frame_intv,
}
use v4l4j.Query.Intervals.Array.{
  Filled, no_array-Filled, add_discrete-Filled, terminated-Filled, terminated_range,
}

-- the driver's reply at an index: the intervals of a list, and then no more or a range
abbrev pub reply_at : List Fract → Option IntervalReply → ℕ → Option IntervalReply
reply_at [] last i = last
reply_at (f ∷ fs) last zero = some (one_interval f)
reply_at (f ∷ fs) last (suc i) = reply_at fs last i

-- no more intervals, or a range
abbrev pub EndsList : Option IntervalReply → Type 0
EndsList none = Unit
EndsList (some (one_interval f)) = ⊥
EndsList (some (interval_range min max step)) = Unit

-- what the loop makes of the last reply
abbrev ending : Option IntervalReply → ℕ → IntervalArray → Intervals
ending none n a = ended n a
ending (some (one_interval f)) n a = unsupported
ending (some (interval_range min max step)) n a = range_found n a min max step

-- Whether the terminator after `n` intervals and one from a range lies within the block.
abbrev pub WithinBlock : ℕ → IntervalArray → Type 0
WithinBlock n a =
    ((n % 6 ≡ 4) × (a.in_bounds ≡ false) × (a.allocated ≡ n + 1))
    ⊎ ((n % 6 ≢ 4) × (a.in_bounds ≡ true) × (a.allocated ≡ n + 2))

-- The intervals stored for a list of discrete ones and the driver's last reply. Where a range with
-- equal ends follows the list, it is the last interval, and the terminator lies out of the block
-- exactly where the list has 4 elements, or 6 more than that, and so on.
abbrev pub Stores : List Fract → Option IntervalReply → Intervals → Type 0
Stores fs none r =
    ((fs ≡ []) × (r ≡ unsupported))
    ⊎ ((fs ≢ [])
        × ((a : IntervalArray) × (r ≡ discrete a)
            × (a.elements ≡ fs ++ no_fract ∷ [])
            × (a.in_bounds ≡ true)
            × (a.allocated ≡ length fs + 1)))
Stores fs (some (one_interval f)) r = ⊥
Stores fs (some (interval_range min max step)) r =
    ((eqb_fract min max ≡ false) × (r ≡ continuous min max step (ltb 0 (length fs))))
    ⊎ ((eqb_fract min max ≡ true)
        × ((a : IntervalArray) × (r ≡ discrete a)
            × (a.elements ≡ (fs ++ min ∷ []) ++ no_fract ∷ [])
            × WithinBlock (length fs) a))

next_index : (i k : ℕ) → i + 1 + k ≡ i + suc k
next_index i k = omega arith

ended-Stores :
    (fs : List Fract) (n : ℕ) (b : IntervalArray)
    → Filled n fs b
    → n ≡ length fs
    → Stores fs none (ended n b)
unfolding ended
ended-Stores [] n b filled c = ground arith
ended-Stores (f ∷ fs) zero b filled c = absurd (omega arith)
ended-Stores (f ∷ fs) (suc n) b filled c =
    let (els, ok, size) = terminated-Filled (suc n) (f ∷ fs) b filled in
    inr ((λ e. cc), (terminated (suc n) b, refl, els, ok, size ∙ ap (λ k. k + 1) c))

range_found-Stores :
    (fs : List Fract) (min max step : Fract) (n : ℕ) (b : IntervalArray)
    → Filled n fs b
    → n ≡ length fs
    → Stores fs (some (interval_range min max step)) (range_found n b min max step)
unfolding range_found
range_found-Stores fs min max step n b filled c = elim (Bool-cases (eqb_fract min max)) [
  | inl e ↦
      let a = terminated (n + 1) (write_next n min (reallocate (n + 1) b)) in
      let (els, bounds) = terminated_range n fs b min filled in
      inr (e, (a, rw (range_found, e) refl, els, subst (λ k. WithinBlock k a) c bounds))
  | inr e ↦ inl (e, rw (range_found, e, c) refl)
]

ending-Stores :
    (fs : List Fract) (last : Option IntervalReply) (n : ℕ) (b : IntervalArray)
    → EndsList last
    → Filled n fs b
    → n ≡ length fs
    → Stores fs last (ending last n b)
ending-Stores fs none n b l filled c = ended-Stores fs n b filled c
ending-Stores fs (some (one_interval f)) n b l filled c = absurd l
ending-Stores fs (some (interval_range min max step)) n b l filled c =
    range_found-Stores fs min max step n b filled c

module _ (d : Driver) (fmt width height : ℕ) where
  enum_intervals-last :
      (fuel i : ℕ) (a : IntervalArray) (t : Trace) (last : Option IntervalReply)
      → EndsList last
      → d.on_enum_frameintervals t fmt width height i ≡ last
      → (t' : Trace) × (enum_intervals d fmt width height (suc fuel) i a t
          ≡ some (ending last i a, t'))
  unfolding enum_intervals
  enum_intervals-last fuel i a t none h e =
      (enum_frameintervals fmt width height i ∷ t, rw (enum_intervals, e) refl)
  enum_intervals-last fuel i a t (some (interval_range min max step)) h e =
      (enum_frameintervals fmt width height i ∷ t, rw (enum_intervals, e) refl)
  enum_intervals-last fuel i a t (some (one_interval f)) h e = absurd h

  enum_intervals-one :
      (fuel i : ℕ) (a : IntervalArray) (t : Trace) (f : Fract)
      → d.on_enum_frameintervals t fmt width height i ≡ some (one_interval f)
      → enum_intervals d fmt width height (suc fuel) i a t
        ≡ enum_intervals d fmt width height fuel
            (i + 1)
            (add_discrete i f a)
            (enum_frameintervals fmt width height i ∷ t)
  unfolding enum_intervals
  enum_intervals-one fuel i a t f e = rw (enum_intervals, e) refl

  -- the array and the trace where the loop ends
  enum_intervals-Filled :
      (todo done : List Fract) (last : Option IntervalReply) (fuel i : ℕ) (a : IntervalArray)
      (t : Trace)
      → EndsList last
      → ((t : Trace) (k : ℕ)
          → d.on_enum_frameintervals t fmt width height (i + k) ≡ reply_at todo last k)
      → length todo < fuel
      → Filled i done a
      → (n : ℕ) × (b : IntervalArray) × (t' : Trace) × (enum_intervals d fmt width height fuel i a t
          ≡ some (ending last n b, t'))
        × Filled n (done ++ todo) b
        × (n ≡ i + length todo)
  enum_intervals-Filled todo done last zero i a t l replies h filled = absurd (omega arith)
  enum_intervals-Filled [] done last (suc fuel) i a t l replies h filled =
      let here = ap (d.on_enum_frameintervals t fmt width height) (sym (add-zero i)) in
      let (t', e) = enum_intervals-last fuel i a t last l (here ∙ replies t 0) in
      (i, a, t', e, subst (λ fs. Filled i fs a) (sym (append-nil done)) filled, sym (add-zero i))
  enum_intervals-Filled (f ∷ todo) done last (suc fuel) i a t l replies h filled =
      let here = ap (d.on_enum_frameintervals t fmt width height) (sym (add-zero i)) in
      let t₁ = enum_frameintervals fmt width height i ∷ t in
      let (n, b, t', e, filled', c) =
        enum_intervals-Filled todo (done ++ f ∷ []) last fuel (i + 1) (add_discrete i f a) t₁ l
          (λ t k.
            ap (d.on_enum_frameintervals t fmt width height) (next_index i k) ∙ replies t (suc k))
          (omega arith) (add_discrete-Filled i done a f filled) in
      (
        n,
        b,
        t',
        enum_intervals-one fuel i a t f (here ∙ replies t 0) ∙ e,
        subst (λ fs. Filled n fs b) (append_assoc done (f ∷ []) todo) filled',
        c ∙ next_index i (length todo),
      )

  -- Take a driver that reports a list of discrete intervals, and then no more or a range.
  -- lookup_frame_intv ends, with fuel for the list, and stores: nothing for an empty list; the list
  -- and a terminator, within a block of just that size; the range where its ends differ, with a block
  -- leaked if there were discrete intervals before it. A range with equal ends is stored as one more
  -- interval, and the terminator is then written past the end of the block exactly where the number
  -- of intervals before it leaves 4 when divided by 6.
  pub lookup_frame_intv-Stores :
      (fs : List Fract) (last : Option IntervalReply) (fuel : ℕ) (t : Trace)
      → EndsList last
      → ((t : Trace) (k : ℕ) → d.on_enum_frameintervals t fmt width height k ≡ reply_at fs last k)
      → length fs < fuel
      → (r : Intervals) × (t' : Trace) × (lookup_frame_intv d fmt width height fuel t
          ≡ some (r, t'))
        × Stores fs last r
  unfolding lookup_frame_intv
  lookup_frame_intv-Stores fs last fuel t l replies h =
      let (n, b, t', e, filled, c) =
        enum_intervals-Filled fs [] last fuel 0 no_array t l
          (λ t k. ap (d.on_enum_frameintervals t fmt width height) (zero-add k) ∙ replies t k) h
          no_array-Filled in
      let c' = c ∙ zero-add (length fs) in
      (ending last n b, t', e, ending-Stores fs last n b l filled c')
