-- ===== src/V4l1/Driver.antt =====
-- The kernel driver behind the V4L1 ioctls (libvideo/videodev.h), as a parameter. A call's answer may
-- depend on every call made before it.
use v4l4j.Prelude.{ℕ, Bool, Option, List}
use v4l4j.Prelude.Int.{ℤ}

-- struct video_capability, less its name and the number of audio devices
pub record Capability : Type 0 where
  pub cap_type : ℕ
  pub channels : ℕ
  pub maxwidth : ℕ
  pub maxheight : ℕ
  pub minwidth : ℕ
  pub minheight : ℕ

-- what VIDIOCGCHAN stores in struct video_channel
pub record Channel : Type 0 where
  pub tuners : ℤ
  pub flags : ℕ
  pub chan_type : ℕ

-- struct video_picture, whose fields have 16 bits
pub record Picture : Type 0 where
  pub brightness : ℕ
  pub hue : ℕ
  pub colour : ℕ
  pub contrast : ℕ
  pub whiteness : ℕ
  pub depth : ℕ
  pub palette : ℕ

-- the size in struct video_window
pub record Window : Type 0 where
  pub width : ℕ
  pub height : ℕ

-- struct video_mbuf; of the offsets libvideo uses the second one only.
pub record Mbuf : Type 0 where
  pub size : ℕ
  pub frames : ℤ
  pub second_offset : ℕ

-- struct video_tuner, less its name and mode
pub record V4l1Tuner : Type 0 where
  pub rangelow : ℕ
  pub rangehigh : ℕ
  pub flags : ℕ
  pub signal : ℕ

-- The calls that libvideo makes, with the arguments that it fills in.
pub data V4l1Call : Type 0 where
  gcap : V4l1Call
  schan : (channel norm : ℕ) → V4l1Call
  gchan : ℕ → V4l1Call
  gpict : V4l1Call
  spict : Picture → V4l1Call
  swin : (width height : ℕ) → V4l1Call
  gwin : V4l1Call
  gmbuf : V4l1Call
  mmap : (size : ℕ) → V4l1Call
  munmap : (start size : ℕ) → V4l1Call
  mcapture : (frame width height format : ℕ) → V4l1Call
  sync : (frame : ℕ) → V4l1Call
  gtuner : ℕ → V4l1Call
  gfreq : V4l1Call
  sfreq : ℕ → V4l1Call

-- The calls made so far, the latest first.
abbrev pub V4l1Trace : Type 0
V4l1Trace = List V4l1Call

-- How the driver answers after the calls of a trace. `none` and `false` stand for a call that fails.
pub record V4l1Driver : Type 0 where
  pub on_gcap : V4l1Trace → Option Capability
  pub on_schan : V4l1Trace → ℕ → ℕ → Bool
  pub on_gchan : V4l1Trace → ℕ → Option Channel
  pub on_gpict : V4l1Trace → Option Picture
  pub on_spict : V4l1Trace → Picture → Bool
  pub on_swin : V4l1Trace → ℕ → ℕ → Bool
  pub on_gwin : V4l1Trace → Option Window
  pub on_gmbuf : V4l1Trace → Option Mbuf
  pub on_mmap : V4l1Trace → ℕ → Option ℕ
  pub on_munmap : V4l1Trace → ℕ → ℕ → Bool
  pub on_mcapture : V4l1Trace → ℕ → ℕ → ℕ → ℕ → Bool
  pub on_sync : V4l1Trace → ℕ → Bool
  pub on_gtuner : V4l1Trace → ℕ → Option V4l1Tuner
  pub on_gfreq : V4l1Trace → Option ℕ
  pub on_sfreq : V4l1Trace → ℕ → Bool
