-- ===== src/Jni/DeviceInfo.antt =====
-- src/v4l4j_DeviceInfo.c: the description of a device as Java objects, and the frame intervals of an
-- image size on request. Names are left out.
pub mod Objects
pub mod Rates
mod Tests
use v4l4j.Prelude.{
  ℕ, ◌+◌, ◌%◌, Bool, true, false, not, ◌&&◌, Option, none, some, List, [], ◌∷◌, if◌then◌else◌,
}
use mathlib.Core.Option
use v4l4j.Driver.{Driver, Trace}
use v4l4j.Device.{QueryOutcome, VideoDevice, Held, get_device_info, release_device_info}
use v4l4j.Query.Inputs.{TunerInfo, InputInfo}
use v4l4j.Query.Intervals.{Intervals, unsupported, discrete, continuous, list_frame_intv}
use v4l4j.Jni.Exceptions.{Exception, generic, jni}
use v4l4j.Jni.Resolutions.{Designated, of_discrete, of_continuous}

-- Whether the virtual machine succeeds: with the class and its field for the name, with the lookups
-- of create_inputs_object, with the array, the lookups for the tuner and the object of each
-- input, and with the lookups and the object of create_formats_object.
pub record InfoReplies : Type 0 where
  pub finds_name : Bool
  pub finds_inputs : Bool
  pub makes_stds : ℕ → Bool
  pub finds_tuner : ℕ → Bool
  pub makes_input : ℕ → Bool
  pub finds_formats : Bool
  pub makes_formats : Bool

-- an object of the class TunerInfo
pub record JavaTuner : Type 0 where
  pub index : ℕ
  pub unit : ℕ
  pub tuner_type : ℕ
  pub rangelow : ℕ
  pub rangehigh : ℕ

-- an object of the class InputInfo
pub record JavaInput : Type 0 where
  pub index : ℕ
  pub supported_stds : List ℕ
  pub tuner : Option JavaTuner

-- the arguments of TunerInfo's constructor
unfoldable pub java_tuner : TunerInfo → JavaTuner
java_tuner t = record {
  index = t.index;
  unit = t.unit;
  tuner_type = t.tuner_type;
  rangelow = t.rangelow % 4_294_967_296;
  rangehigh = t.rangehigh % 4_294_967_296;
}

-- create_tuner_object: the object, or NULL beside an exception. With its constructor found, the object
-- can be made.
create_tuner_object : InfoReplies → ℕ → TunerInfo → Option JavaTuner × Option Exception
unfolding java_tuner
create_tuner_object r i t =
    if r.finds_tuner i then (some (java_tuner t), none) else (none, some jni)

-- the tuner of an input that has one
tuner_object : InfoReplies → ℕ → Option TunerInfo → Option JavaTuner × Option Exception
unfolding create_tuner_object
tuner_object r i none = (none, none)
tuner_object r i (some t) = create_tuner_object r i t

-- An exception that is pending stays so; another one is thrown in its place.
latest : Option Exception → Option Exception → Option Exception
latest pending none = pending
latest pending (some e) = some e

-- The loop of create_inputs_object from input i on: the objects added to the list, and the exception.
-- An exception of create_tuner_object does not end it.
create_inputs : InfoReplies → ℕ → List InputInfo → List JavaInput × Option Exception
unfolding tuner_object latest
create_inputs r i [] = ([], none)
create_inputs r i (v ∷ vs) =
    let (rest, thrown) = create_inputs r (i + 1) vs in
    let (tuner, pending) = tuner_object r i v.tuner in
    if r.makes_stds i && r.makes_input i
    then (
      record { index = v.index; supported_stds = v.supported_stds; tuner = tuner } ∷ rest,
      latest pending thrown,
    )
    else ([], some jni)

create_inputs_object : InfoReplies → List InputInfo → List JavaInput × Option Exception
unfolding create_inputs
create_inputs_object r inputs = if r.finds_inputs then create_inputs r 0 inputs else ([], some jni)

-- create_formats_object: whether the field is set
create_formats_object : InfoReplies → Bool × Option Exception
create_formats_object r =
    if r.finds_formats && r.makes_formats then (true, none) else (false, some jni)

-- What getInfo leaves: the inputs and the formats of the Java object, the exception, and the device.
pub record Info : Type 0 where
  pub inputs : List JavaInput
  pub has_formats : Bool
  pub thrown : Option Exception
  pub vdev : VideoDevice
  pub held : Held

-- The objects made of a description that was taken, one after the other.
fill_info : List JavaInput × Option Exception → Bool × Option Exception → VideoDevice → Held → Info
unfolding latest
fill_info (objects, inputs_thrown) (has_formats, formats_thrown) v h = record {
  inputs = objects;
  has_formats = has_formats;
  thrown = latest inputs_thrown formats_thrown;
  vdev = v;
  held = h;
}

-- getInfo, for a query of the device that ends so and finds these inputs.
pub get_info : InfoReplies → QueryOutcome → List InputInfo → VideoDevice → Held → Info
unfolding create_inputs_object create_formats_object fill_info
get_info r outcome inputs v h =
    let (v₁, h₁) = get_device_info outcome v h in
    if not r.finds_name
    then record { inputs = []; has_formats = false; thrown = some jni; vdev = v; held = h }
    else if v₁.info
    then fill_info (create_inputs_object r inputs) (create_formats_object r) v₁ h₁
    else record { inputs = []; has_formats = false; thrown = some generic; vdev = v₁; held = h₁ }

-- doRelease of DeviceInfo
unfoldable pub do_release : VideoDevice → Held → VideoDevice × Held
do_release v h = release_device_info v h

-- What the constructor of FrameInterval is given by doListIntervals: the type 3 with a pointer that it
-- does not follow, or intervals.
pub data IntervalArgs : Type 0 where
  no_intervals : IntervalArgs
  intervals : Designated → IntervalArgs

args_of : Intervals → IntervalArgs
args_of unsupported = no_intervals
args_of (discrete a) = intervals (of_discrete a)
args_of (continuous min max step leaked) = intervals (of_continuous min max step)

-- doListIntervals, where the virtual machine finds the class and its constructor and makes the
-- object, or does not: the object's arguments, or NULL beside a JNIException. The constructor reads the
-- intervals before they are freed.
pub do_list_intervals :
    Driver
    → Bool
    → Bool
    → ℕ
    → ℕ
    → ℕ
    → ℕ
    → Trace
    → Option (Option IntervalArgs × Option Exception × Trace)
unfolding args_of
do_list_intervals d finds_class makes_object imf w h fuel t =
    if not finds_class
    then some (none, some jni, t)
    else Option.map
        (λ reply.
          if makes_object
          then (some (args_of reply.0), none, reply.1)
          else (none, some jni, reply.1))
        (list_frame_intv d imf w h fuel t)
