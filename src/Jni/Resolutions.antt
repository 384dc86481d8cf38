-- ===== src/Jni/Resolutions.antt =====
-- src/v4l4j_ResolutionInfo.c and src/v4l4j_FrameInterval.c: the image sizes and frame intervals of
-- the Java side, from the palettes of the device's description. The Java objects can be created.
pub mod Reading
use v4l4j.Prelude.{ℕ, Bool, true, false, List, [], ◌∷◌, Option, none, some, ◌==◌, if◌then◌else◌}
use mathlib.Core.Option
use v4l4j.Driver.{Fract, SizeRange}
use v4l4j.Query.Intervals.{Intervals, unsupported, discrete, continuous, IntervalArray}
use v4l4j.Query.Sizes.{FrameSize, Sizes, no_sizes, discrete_sizes, continuous_sizes}
use v4l4j.Query.Formats.{PaletteInfo}

-- find_palette_info; `none` is NULL
pub find_palette_info : ℕ → List PaletteInfo → Option PaletteInfo
find_palette_info index [] = none
find_palette_info index (p ∷ ps) = elim (p.index == index) [
  | true ↦ some p
  | false ↦ find_palette_info index ps
]

-- enum frame_size_types and enum frame_intv_types (libvideo/libvideo.h), as numbers
size_type : Sizes → ℕ
size_type no_sizes = 0
size_type (discrete_sizes sizes) = 1
size_type (continuous_sizes r min_res max_res leaked) = 2

interval_type : Intervals → ℕ
interval_type unsupported = 0
interval_type (discrete a) = 1
interval_type (continuous min max step leaked) = 2

-- doGetType; `none` is 0 beside a JNIException.
pub do_get_type : ℕ → List PaletteInfo → Option ℕ
unfolding find_palette_info size_type
do_get_type index ps = Option.map (λ p. size_type p.sizes) (find_palette_info index ps)

-- The loop over the discrete sizes, up to a width of 0; `none` is a read past the array's end.
unfoldable pub read_sizes : List FrameSize → Option (List FrameSize)
read_sizes [] = none
read_sizes (s ∷ sizes) =
    let rest = read_sizes sizes in if s.width == 0 then some [] else Option.map (λ ss. s ∷ ss) rest

-- doGetDiscrete of ResolutionInfo: the sizes added to the list. A palette without discrete sizes
-- has no array to read, and one that is not found throws a JNIException.
pub do_get_discrete_sizes : ℕ → List PaletteInfo → Option (List FrameSize)
unfolding find_palette_info read_sizes
do_get_discrete_sizes index ps = elim (find_palette_info index ps) [
  | none ↦ none
  | some p ↦ elim p.sizes [ discrete_sizes sizes ↦ read_sizes sizes | _ ↦ none ]
]

-- doGetStepwise of ResolutionInfo: the range, and what the frame intervals of the least and of the
-- greatest size are made from
pub do_get_stepwise_size : ℕ → List PaletteInfo → Option (SizeRange × Intervals × Intervals)
unfolding find_palette_info
do_get_stepwise_size index ps = elim (find_palette_info index ps) [
  | none ↦ none
  | some p ↦ elim p.sizes [
    | continuous_sizes r min_res max_res leaked ↦ some (r, min_res, max_res)
    | _ ↦ none
  ]
]

-- What the Java side hands over with a pointer: a discrete size (0), a range of sizes for its least
-- (1) or greatest size (2), or intervals themselves (4 and 5).
pub data Designated : Type 0 where
  of_size : FrameSize → Designated
  of_min_res : SizeRange → Intervals → Intervals → Designated
  of_max_res : SizeRange → Intervals → Intervals → Designated
  of_discrete : IntervalArray → Designated
  of_continuous : (min : Fract) (max : Fract) (step : Fract) → Designated

-- doGetFrameIntvType, which serves the first three; `none` is 0 beside a JNIException.
pub do_get_frame_intv_type : Designated → Option ℕ
unfolding interval_type
do_get_frame_intv_type (of_size s) = some (interval_type s.intervals)
do_get_frame_intv_type (of_min_res r min_res max_res) = some (interval_type min_res)
do_get_frame_intv_type (of_max_res r min_res max_res) = some (interval_type max_res)
do_get_frame_intv_type (of_discrete a) = none
do_get_frame_intv_type (of_continuous min max step) = none

array_of : Intervals → Option IntervalArray
array_of unsupported = none
array_of (discrete a) = some a
array_of (continuous min max step leaked) = none

range_of : Intervals → Option (Fract × Fract × Fract)
range_of unsupported = none
range_of (discrete a) = none
range_of (continuous min max step leaked) = some (min, max, step)

-- get_discrete and get_continuous; `none` is NULL. For intervals of the other kind the pointer is the
-- union's other member, which is not an array or a range of intervals, and `none` stands for it too.
unfoldable pub get_discrete : Designated → Option IntervalArray
unfolding array_of
get_discrete (of_size s) = array_of s.intervals
get_discrete (of_min_res r min_res max_res) = array_of min_res
get_discrete (of_max_res r min_res max_res) = array_of max_res
get_discrete (of_discrete a) = some a
get_discrete (of_continuous min max step) = none

pub get_continuous : Designated → Option (Fract × Fract × Fract)
unfolding range_of
get_continuous (of_size s) = range_of s.intervals
get_continuous (of_min_res r min_res max_res) = range_of min_res
get_continuous (of_max_res r min_res max_res) = range_of max_res
get_continuous (of_discrete a) = none
get_continuous (of_continuous min max step) = some (min, max, step)

-- The loop over the discrete intervals, up to a numerator of 0; `none` is a read past the elements
-- written.
unfoldable pub read_intervals : List Fract → Option (List Fract)
read_intervals [] = none
read_intervals (f ∷ fs) =
    let rest = read_intervals fs in
    if f.numerator == 0 then some [] else Option.map (λ rs. f ∷ rs) rest

-- doGetDiscrete of FrameInterval: the intervals added to the list; `none` is an exception or a read
-- past the array.
unfoldable pub do_get_discrete_intervals : Designated → Option (List Fract)
unfolding get_discrete read_intervals
do_get_discrete_intervals o = elim (get_discrete o) [
  | none ↦ none
  | some a ↦ read_intervals a.elements
]

-- doGetStepwise of FrameInterval
pub do_get_stepwise_interval : Designated → Option (Fract × Fract × Fract)
unfolding get_continuous
do_get_stepwise_interval o = get_continuous o
