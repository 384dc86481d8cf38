-- ===== src/Jni/Resolutions/Reading.antt =====
-- The Java side reads what the driver described (src/v4l4j_ResolutionInfo.c and
-- src/v4l4j_FrameInterval.c over libvideo/v4l2-query.c).
use v4l4j.Prelude.{
  ℕ, ◌<◌, ◌≡◌, ◌≢◌, refl, inl, inr, false, List, [], ◌∷◌, ◌++◌, length, none, some, ◌==◌, arith,
}
use v4l4j.Driver.{Driver, Trace, Fract}
use v4l4j.Query.Intervals.{Intervals, no_fract, lookup_frame_intv}
use v4l4j.Query.Intervals.Outcome.{reply_at, lookup_frame_intv-Stores}
use v4l4j.Jni.Resolutions.{
  of_size, get_discrete, array_of, read_intervals, do_get_discrete_intervals,
}

-- No interval of the list is taken for its end.
abbrev pub AreIntervals : List Fract → Type 0
AreIntervals [] = Unit
AreIntervals (f ∷ fs) = (f.numerator ≢ 0) × AreIntervals fs

read_intervals-terminated :
    (fs : List Fract) → AreIntervals fs → read_intervals (fs ++ no_fract ∷ []) ≡ some fs
unfolding read_intervals
read_intervals-terminated [] h = refl
read_intervals-terminated (f ∷ fs) (p, h) =
    let e : (f.numerator == 0) ≡ false = ground arith in
    rw (read_intervals, e, read_intervals-terminated fs h) refl

-- For a driver that reports discrete frame intervals of an image size, at least one and none with
-- the numerator 0, and then no more: with fuel for the list lookup_frame_intv ends, and doGetDiscrete
-- of the size then adds exactly these intervals to the Java list, in their order, reading the
-- array up to the terminator and no further.
pub do_get_discrete_intervals-lookup_frame_intv :
    (d : Driver) (fmt width height : ℕ) (fs : List Fract) (fuel : ℕ) (t : Trace)
    → fs ≢ []
    → AreIntervals fs
    → ((t : Trace) (k : ℕ) → d.on_enum_frameintervals t fmt width height k ≡ reply_at fs none k)
    → length fs < fuel
    → (r : Intervals) × (t' : Trace) × (lookup_frame_intv d fmt width height fuel t ≡ some (r, t'))
      × (do_get_discrete_intervals
            (of_size (record { width = width; height = height; intervals = r }))
          ≡ some fs)
unfolding do_get_discrete_intervals get_discrete array_of
do_get_discrete_intervals-lookup_frame_intv d fmt width height fs fuel t some_fs are replies h =
    let (r, t', e, stores) =
      lookup_frame_intv-Stores d fmt width height fs none fuel t tt replies h in
    (
      r,
      t',
      e,
      elim stores [
        | inl (nothing, u) ↦ absurd (some_fs nothing)
        | inr (some_fs', (a, stored, elements, within, allocated)) ↦
            rw (stored, elements) (read_intervals-terminated fs are)
      ],
    )
