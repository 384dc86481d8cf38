-- ===== src/Jni/DeviceInfo/Rates.antt =====
-- doListIntervals (src/v4l4j_DeviceInfo.c) and the object of src/v4l4j_FrameInterval.c that it makes,
-- over list_frame_intv of libvideo/v4l2-query.c.
use v4l4j.Prelude.{ℕ, ◌<◌, ◌≡◌, ◌≢◌, refl, true, none, some, List, [], length}
use v4l4j.Driver.{Driver, Trace, Fract}
use v4l4j.Palettes.{palette_code}
use v4l4j.Query.Intervals.{Intervals, unsupported, discrete, continuous, list_frame_intv}
use v4l4j.Query.Intervals.Outcome.{reply_at}
use v4l4j.Jni.Resolutions.{Designated, of_size, of_discrete, do_get_discrete_intervals}
use v4l4j.Jni.Resolutions.Reading.{AreIntervals, do_get_discrete_intervals-lookup_frame_intv}
use v4l4j.Jni.DeviceInfo.{intervals, args_of, do_list_intervals}

-- Where intervals are read through an image size, they are a discrete list, and are read by themselves.
args_of-discrete :
    (width height : ℕ) (r : Intervals) (fs : List Fract)
    → do_get_discrete_intervals (of_size (record { width = width; height = height; intervals = r }))
      ≡ some fs
    → (o : Designated) × (args_of r ≡ intervals o) × (do_get_discrete_intervals o ≡ some fs)
unfolding do_get_discrete_intervals args_of
args_of-discrete width height unsupported fs e = cc
args_of-discrete width height (discrete a) fs e = (of_discrete a, refl, e)
args_of-discrete width height (continuous min max step leaked) fs e = cc

-- For a driver that reports discrete frame intervals of an image format and size, at least one and
-- none with the numerator 0, and then no more, and a virtual machine that finds what it is asked for:
-- with fuel for the list doListIntervals ends, and the FrameInterval object that it makes holds
-- exactly the driver's intervals, in their order.
pub do_get_discrete_intervals-do_list_intervals :
    (d : Driver) (imf width height : ℕ) (fs : List Fract) (fuel : ℕ) (t : Trace)
    → fs ≢ []
    → AreIntervals fs
    → ((t : Trace) (k : ℕ)
        → d.on_enum_frameintervals t (palette_code imf) width height k ≡ reply_at fs none k)
    → length fs < fuel
    → (o : Designated) × (t' : Trace) × (do_list_intervals d true true imf width height fuel t
        ≡ some (some (intervals o), none, t'))
      × (do_get_discrete_intervals o ≡ some fs)
unfolding do_list_intervals list_frame_intv
do_get_discrete_intervals-do_list_intervals d imf width height fs fuel t some_fs are replies h =
    let (r, t', e, read) =
      do_get_discrete_intervals-lookup_frame_intv d (palette_code imf) width height fs fuel t
        some_fs are replies h in
    let (o, listed, holds) = args_of-discrete width height r fs read in
    (o, t', rw (e, listed) refl, holds)
