-- ===== src/Driver.antt =====
-- The code below libvideo, as a parameter: the kernel driver behind the ioctls, mmap, and the calls
-- of libv4lconvert. A call's answer may depend on every call made before it.
use v4l4j.Prelude.{ℕ, Bool, Option, List}
use v4l4j.Prelude.Int.{ℤ}

-- struct v4l2_pix_format (videodev2.h)
pub record PixFormat : Type 0 where
  pub width : ℕ
  pub height : ℕ
  pub pixelformat : ℕ
  pub field_order : ℕ
  pub bytesperline : ℕ
  pub sizeimage : ℕ

-- struct v4l2_rect
pub record Rect : Type 0 where
  pub left : ℤ
  pub top : ℤ
  pub width : ℤ
  pub height : ℤ

-- what struct v4l2_input says of an input: whether it has a tuner, and the tuner's number
pub record InputDesc : Type 0 where
  pub input_type : ℕ
  pub tuner : ℕ
  pub std_ids : ℕ

-- what VIDIOC_QUERYBUF says of a buffer
pub record BufferDesc : Type 0 where
  pub length : ℕ
  pub offset : ℕ

-- struct v4l2_buffer after VIDIOC_DQBUF
pub record Dequeued : Type 0 where
  pub index : ℕ
  pub bytesused : ℕ
  pub timestamp : ℕ
  pub sequence : ℕ

-- the result of VIDIOC_S_PARM and VIDIOC_G_PARM: the ioctl's value, and the interval stored
pub record ParmReply : Type 0 where
  pub ret : ℤ
  pub numerator : ℕ
  pub denominator : ℕ

-- struct v4l2_queryctrl, less the name and the default value; `reserved0` and `reserved1` are the
-- two elements of `reserved`.
pub record QueryCtrl : Type 0 where
  pub id : ℕ
  pub ctrl_type : ℕ
  pub minimum : ℤ
  pub maximum : ℤ
  pub step : ℤ
  pub flags : ℕ
  pub reserved0 : ℕ
  pub reserved1 : ℕ

-- the result of a control query: what was found, or the value of errno
pub data QueryReply : Type 0 where
  found : QueryCtrl → QueryReply
  refused : ℕ → QueryReply

-- what a call that reads or writes a control's value returns: its result, the value of errno after
-- it, and the two members of the union that it may have stored to
pub record CtrlReply : Type 0 where
  pub ret : ℤ
  pub errno : ℕ
  pub value : ℤ
  pub value64 : ℤ

-- struct v4l2_ext_control, as it is handed over: the string stands for the caller's buffer
pub data ExtValue : Type 0 where
  of_int : ℤ → ExtValue
  of_int64 : ℤ → ExtValue
  of_string : ℕ → ExtValue

-- struct v4l2_fract
pub record Fract : Type 0 where
  pub numerator : ℕ
  pub denominator : ℕ

-- what an enumeration of frame intervals says: a discrete interval, or a range, which is continuous
-- or stepwise
pub data IntervalReply : Type 0 where
  one_interval : Fract → IntervalReply
  interval_range : Fract → Fract → Fract → IntervalReply

-- the range of frame sizes, which is continuous or stepwise
pub record SizeRange : Type 0 where
  pub min_width : ℕ
  pub max_width : ℕ
  pub step_width : ℕ
  pub min_height : ℕ
  pub max_height : ℕ
  pub step_height : ℕ

pub data SizeReply : Type 0 where
  one_size : ℕ → ℕ → SizeReply
  size_range : SizeRange → SizeReply

-- struct v4l2_tuner, less its name
pub record TunerDesc : Type 0 where
  pub capability : ℕ
  pub tuner_type : ℕ
  pub rangelow : ℕ
  pub rangehigh : ℕ
  pub signal : ℤ
  pub afc : ℤ

-- The calls that libvideo makes, with the arguments that it fills in.
pub data Call : Type 0 where
  querycap : Call
  enumstd : Call
  s_std : ℕ → Call
  s_input : ℕ → Call
  enuminput : ℕ → Call
  s_fmt : PixFormat → Call
  cropcap : Call
  s_crop : Rect → Call
  s_parm : ℕ → ℕ → Call
  g_parm : Call
  try_format : PixFormat → Call
  try_format_alone : PixFormat → Call
  reqbufs : ℕ → Call
  querybuf : ℕ → Call
  mmap : ℕ → ℕ → Call
  munmap : ℕ → ℕ → Call
  qbuf : ℕ → Call
  dqbuf : Call
  streamon : Call
  streamoff : Call
  queryctrl : ℕ → Call
  querymenu : ℕ → ℕ → Call
  g_ctrl : ℕ → Call
  s_ctrl : ℕ → ℤ → Call
  g_ext_ctrls : ℕ → ℕ → Call
  s_ext_ctrls : ℕ → ExtValue → Call
  g_fmt : Call
  enum_fmt : ℕ → Call
  enum_framesizes : ℕ → ℕ → Call
  enum_frameintervals : ℕ → ℕ → ℕ → ℕ → Call
  g_tuner : ℕ → Call
  g_frequency : ℕ → Call
  s_frequency : ℕ → ℕ → Call

-- The calls made so far, the latest first.
abbrev pub Trace : Type 0
Trace = List Call

-- How the driver and libv4lconvert answer after the calls of a trace. `none` and `false` stand for
-- an ioctl that fails. `try_format` of libv4lconvert returns whether it succeeded, the destination
-- as it adjusted it, and the source format that it wants.
pub record Driver : Type 0 where
  pub on_querycap : Trace → Option ℕ
  pub on_enumstd : Trace → Option ℕ
  pub on_s_std : Trace → ℕ → Bool
  pub on_s_input : Trace → ℕ → Bool
  pub on_enuminput : Trace → ℕ → Option InputDesc
  pub on_s_fmt : Trace → PixFormat → Option PixFormat
  pub on_cropcap : Trace → Option Rect
  pub on_s_crop : Trace → Rect → Bool
  pub on_s_parm : Trace → ℕ → ℕ → ParmReply
  pub on_g_parm : Trace → ParmReply
  pub on_try_format : Trace → PixFormat → Bool × PixFormat × PixFormat
  pub on_try_format_alone : Trace → PixFormat → PixFormat
  pub needs_conversion : PixFormat → PixFormat → Bool
  pub on_reqbufs : Trace → ℕ → Option ℕ
  pub on_querybuf : Trace → ℕ → Option BufferDesc
  pub on_mmap : Trace → ℕ → ℕ → Option ℕ
  pub on_munmap : Trace → ℕ → ℕ → Bool
  pub on_qbuf : Trace → ℕ → Bool
  pub on_dqbuf : Trace → Option Dequeued
  pub on_streamon : Trace → Bool
  pub on_streamoff : Trace → Bool
  pub on_queryctrl : Trace → ℕ → QueryReply
  pub on_querymenu : Trace → ℕ → ℕ → Bool
  pub on_g_ctrl : Trace → ℕ → CtrlReply
  pub on_s_ctrl : Trace → ℕ → ℤ → CtrlReply
  pub on_g_ext_ctrls : Trace → ℕ → ℕ → CtrlReply
  pub on_s_ext_ctrls : Trace → ℕ → ExtValue → CtrlReply
  pub on_g_fmt : Trace → Option (ℕ × ℕ)
  pub on_enum_fmt : Trace → ℕ → Option ℕ
  pub on_enum_framesizes : Trace → ℕ → ℕ → Option SizeReply
  pub on_enum_frameintervals : Trace → ℕ → ℕ → ℕ → ℕ → Option IntervalReply
  pub on_g_tuner : Trace → ℕ → Option TunerDesc
  pub on_g_frequency : Trace → ℕ → Option ℕ
  pub on_s_frequency : Trace → ℕ → ℕ → Bool
