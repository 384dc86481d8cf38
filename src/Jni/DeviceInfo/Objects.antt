-- ===== src/Jni/DeviceInfo/Objects.antt =====
-- What getInfo (src/v4l4j_DeviceInfo.c) makes of a device's description, and what it leaves taken.
use v4l4j.Prelude.{
  ℕ, ◌+◌, ◌≡◌, ◌≢◌, refl, ◌⊎◌, inl, inr, Bool, true, false, ◌&&◌, Option, none, some, List, [], ◌∷◌,
  map, ap₂, sym, subst, Bool-cases, arith,
}
use mathlib.Core.Option
use v4l4j.Control.Value.{v4l2_version}
use v4l4j.Device.{
  QueryOutcome, described, no_caps, no_palettes, VideoDevice, Held, get_device_info,
  release_device_info,
}
use v4l4j.Query.Inputs.{TunerInfo, InputInfo}
use v4l4j.Jni.Exceptions.{Exception, generic, jni}
use v4l4j.Jni.DeviceInfo.{
  InfoReplies, JavaInput, java_tuner, create_tuner_object, tuner_object, latest, create_inputs,
  create_inputs_object, create_formats_object, Info, fill_info, get_info, do_release,
}

-- the object that an input is described by
abbrev pub java_input : InputInfo → JavaInput
java_input v = record {
  index = v.index;
  supported_stds = v.supported_stds;
  tuner = Option.map java_tuner v.tuner;
}

-- The objects are those of the first inputs, in their order; a tuner may be missing.
abbrev pub AreFirst : List InputInfo → List JavaInput → Type 0
AreFirst vs [] = Unit
AreFirst [] (j ∷ js) = ⊥
AreFirst (v ∷ vs) (j ∷ js) =
    ((j ≡ java_input v) ⊎ (j ≡ record (java_input v) { tuner = none })) × AreFirst vs js

abbrev InputsOutcome : List InputInfo → List JavaInput × Option Exception → Type 0
InputsOutcome vs (js, thrown) =
    ((thrown ≡ none) × (js ≡ map java_input vs)) ⊎ ((thrown ≡ some jni) × AreFirst vs js)

tuner_object_lem :
    (r : InfoReplies) (i : ℕ) (t : Option TunerInfo)
    → (tuner_object r i t ≡ (Option.map java_tuner t, none))
      ⊎ (tuner_object r i t ≡ (none, some jni))
unfolding tuner_object create_tuner_object
tuner_object_lem r i none = inl refl
tuner_object_lem r i (some t) = ground arith

map-AreFirst : (vs : List InputInfo) → AreFirst vs (map java_input vs)
map-AreFirst [] = tt
map-AreFirst (v ∷ vs) = (inl refl, map-AreFirst vs)

create_inputs_lem :
    (r : InfoReplies) (i : ℕ) (vs : List InputInfo) → InputsOutcome vs (create_inputs r i vs)
unfolding create_inputs latest
create_inputs_lem r i [] = inl (refl, refl)
create_inputs_lem r i (v ∷ vs) = elim (Bool-cases (r.makes_stds i && r.makes_input i)) [
  | inr failed ↦ inr (rw (create_inputs, failed) (refl, tt))
  | inl made ↦ elim (tuner_object_lem r i v.tuner) [
    | inl e ↦ elim (create_inputs_lem r (i + 1) vs) [
      | inl (thrown, rest) ↦ inl (rw (create_inputs, made, e, thrown) (refl, ap₂ ◌∷◌ refl rest))
      | inr (thrown, rest) ↦ inr (rw (create_inputs, made, e, thrown) (refl, (inl refl, rest)))
    ]
    | inr e ↦ elim (create_inputs_lem r (i + 1) vs) [
      | inl (thrown, rest) ↦ inr (
          rw (create_inputs, made, e, thrown)
            (refl, (inr refl, subst (AreFirst vs) (sym rest) (map-AreFirst vs))))
      | inr (thrown, rest) ↦ inr (rw (create_inputs, made, e, thrown) (refl, (inr refl, rest)))
    ]
  ]
]

create_inputs_object_lem :
    (r : InfoReplies) (vs : List InputInfo) → InputsOutcome vs (create_inputs_object r vs)
unfolding create_inputs_object
create_inputs_object_lem r vs = elim (Bool-cases r.finds_inputs) [
  | inl found ↦ rw (create_inputs_object, found) (create_inputs_lem r 0 vs)
  | inr missed ↦ rw (create_inputs_object, missed) (inr (refl, tt))
]

-- A description that was taken can be given back, and nothing else has changed.
abbrev IsTaken : VideoDevice → Held → VideoDevice → Held → Type 0
IsTaken v h v₁ h₁ = (v₁.info ≡ true) × (do_release v₁ h₁ ≡ (v, h))

-- What getInfo leaves, against the inputs of the description and what there was before.
abbrev pub Informs : QueryOutcome → List InputInfo → VideoDevice → Held → Info → Type 0
Informs outcome inputs v h g =
    ((g.thrown ≡ none)
      × (g.inputs ≡ map java_input inputs)
      × (g.has_formats ≡ true)
      × IsTaken v h g.vdev g.held)
    ⊎ ((g.thrown ≡ some generic)
        × (outcome ≢ described)
        × (g.inputs ≡ [])
        × (g.has_formats ≡ false)
        × (g.vdev ≡ v))
    ⊎ ((g.thrown ≡ some jni)
        × AreFirst inputs g.inputs
        × (((g.vdev ≡ v) × (g.held ≡ h)) ⊎ IsTaken v h g.vdev g.held))

get_device_info-IsTaken :
    (v : VideoDevice) (h : Held)
    → v.v4l_version ≡ v4l2_version
    → v.info ≡ false
    → let (v₁, h₁) = get_device_info described v h in IsTaken v h v₁ h₁
unfolding get_device_info do_release release_device_info
get_device_info-IsTaken v h is_v4l2 free = ground arith

create_formats_object_lem :
    (r : InfoReplies)
    → (create_formats_object r ≡ (true, none)) ⊎ (create_formats_object r ≡ (false, some jni))
unfolding create_formats_object
create_formats_object_lem r = ground arith

InputsOutcome-AreFirst :
    (vs : List InputInfo) (o : List JavaInput × Option Exception)
    → InputsOutcome vs o
    → AreFirst vs o.0
InputsOutcome-AreFirst vs o (inl (thrown, all)) = subst (AreFirst vs) (sym all) (map-AreFirst vs)
InputsOutcome-AreFirst vs o (inr (thrown, first)) = first

fill_info-Informs :
    (inputs : List InputInfo) (v v₁ : VideoDevice) (h h₁ : Held)
    (o : List JavaInput × Option Exception) (f : Bool × Option Exception)
    → IsTaken v h v₁ h₁
    → InputsOutcome inputs o
    → (f ≡ (true, none)) ⊎ (f ≡ (false, some jni))
    → Informs described inputs v h (fill_info o f v₁ h₁)
unfolding fill_info latest
fill_info-Informs inputs v v₁ h h₁ o f taken (inl (thrown, all)) (inl e) =
    rw (e, thrown) (inl (refl, all, refl, taken))
fill_info-Informs inputs v v₁ h h₁ o f taken (inr (thrown, first)) (inl e) =
    rw (e, thrown) (inr (inr (refl, first, inr taken)))
fill_info-Informs inputs v v₁ h h₁ o f taken is (inr e) =
    rw (e) (inr (inr (refl, InputsOutcome-AreFirst inputs o is, inr taken)))

get_info-found :
    (r : InfoReplies) (outcome : QueryOutcome) (inputs : List InputInfo) (v : VideoDevice)
    (h : Held)
    → v.v4l_version ≡ v4l2_version
    → v.info ≡ false
    → r.finds_name ≡ true
    → Informs outcome inputs v h (get_info r outcome inputs v h)
unfolding get_info get_device_info
get_info-found r described inputs v h is_v4l2 free found =
    let taken = get_device_info-IsTaken v h is_v4l2 free in
    rw (get_info, found)
      (fill_info-Informs inputs v _ h _ (create_inputs_object r inputs) (create_formats_object r)
        taken (create_inputs_object_lem r inputs) (create_formats_object_lem r))
get_info-found r no_caps inputs v h is_v4l2 free found =
    rw (get_info, found) (inr (inl (refl, λ e. cc, refl, refl, ground arith)))
get_info-found r no_palettes inputs v h is_v4l2 free found =
    rw (get_info, found) (inr (inl (refl, λ e. cc, refl, refl, ground arith)))

-- On a V4L2 device whose description is not in use, getInfo throws nothing, adds one object for each
-- input of the description with its index, standards and tuner, in their order, and sets the formats;
-- or the device could not be described, and it throws a V4L4JException and adds nothing; or it throws a
-- JNIException, and the objects added are those of the first inputs, though a tuner may be missing.
-- Where it throws nothing, the description is in use and doRelease gives back all that getInfo
-- took; so it is behind a JNIException, unless nothing was taken.
pub get_info-Informs :
    (r : InfoReplies) (outcome : QueryOutcome) (inputs : List InputInfo) (v : VideoDevice)
    (h : Held)
    → v.v4l_version ≡ v4l2_version
    → v.info ≡ false
    → Informs outcome inputs v h (get_info r outcome inputs v h)
unfolding get_info
get_info-Informs r outcome inputs v h is_v4l2 free = elim (Bool-cases r.finds_name) [
  | inr missed ↦ rw (get_info, missed) (inr (inr (refl, tt, inl (refl, refl))))
  | inl found ↦ get_info-found r outcome inputs v h is_v4l2 free found
]
