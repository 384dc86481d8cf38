-- ===== src/Probes/Driver.antt =====
-- The private ioctls that the driver probes call, as a parameter. A call's answer may depend on every
-- call made before it.
use v4l4j.Prelude.{ℕ, Bool, Option, List}
use v4l4j.Prelude.Int.{ℤ}

-- struct video_param of the gspca driver, as it is read
pub record VideoParam : Type 0 where
  pub autobright : ℕ
  pub quality : ℕ
  pub time_interval : ℕ
  pub light_freq : ℕ

-- struct pwc_mpt_angles, less the flag `absolute`, and struct pwc_mpt_range
pub record Angles : Type 0 where
  pub pan : ℤ
  pub tilt : ℤ

pub record AngleRange : Type 0 where
  pub pan_min : ℤ
  pub pan_max : ℤ
  pub tilt_min : ℤ
  pub tilt_max : ℤ

-- what VIDIOC_G_PARM stores of a capture: the capabilities and the time per frame
pub record StreamParm : Type 0 where
  pub capability : ℕ
  pub numerator : ℕ
  pub denominator : ℕ

-- The calls, with the arguments that libvideo fills in. SPCASVIDIOPARAM is given a field's number,
-- in `chg_para`, and that field.
pub data ProbeCall : Type 0 where
  gparam : ProbeCall
  sparam : (chg_para value : ℕ) → ProbeCall
  pwc_probe : ProbeCall
  card : ProbeCall
  mpt_reset : ProbeCall
  mpt_get_angle : ProbeCall
  mpt_set_angle : Angles → ProbeCall
  mpt_get_range : ProbeCall
  get_userlut : ProbeCall
  set_userlut : List ℕ → ProbeCall
  qc_get : ℕ → ProbeCall
  qc_set : ℕ → ℤ → ProbeCall
  get_parm : ProbeCall
  set_parm : (numerator denominator : ℕ) → ProbeCall

-- The calls made so far, the latest first.
abbrev pub ProbeTrace : Type 0
ProbeTrace = List ProbeCall

-- How the driver answers after the calls of a trace. `none` and `false` stand for a call that fails;
-- names are told apart by numbers. `on_qc_get` and `on_qc_set` are given a request's place in the
-- table of requests.
pub record ProbeDriver : Type 0 where
  pub on_gparam : ProbeTrace → Option VideoParam
  pub on_sparam : ProbeTrace → ℕ → ℕ → Bool
  pub on_pwc_probe : ProbeTrace → Option ℕ
  pub on_card : ProbeTrace → Option ℕ
  pub on_mpt_reset : ProbeTrace → Bool
  pub on_mpt_get_angle : ProbeTrace → Option Angles
  pub on_mpt_set_angle : ProbeTrace → Angles → Bool
  pub on_mpt_get_range : ProbeTrace → Option AngleRange
  pub on_get_userlut : ProbeTrace → Option (List ℕ)
  pub on_set_userlut : ProbeTrace → List ℕ → Bool
  pub on_qc_get : ProbeTrace → ℕ → Option ℤ
  pub on_qc_set : ProbeTrace → ℕ → ℤ → Bool
  pub on_get_parm : ProbeTrace → Option StreamParm
  pub on_set_parm : ProbeTrace → ℕ → ℕ → Bool
