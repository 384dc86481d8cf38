-- ===== src/Capture/Records.antt =====
-- struct capture_device and what it holds (libvideo/libvideo.h).
use v4l4j.Prelude.{ℕ, Bool, Option, List}
use v4l4j.Prelude.Int.{ℤ}
use v4l4j.Driver.{PixFormat}

-- struct mmap_buffer
pub record Buffer : Type 0 where
  pub start : ℕ
  pub length : ℕ

-- struct mmap; `tmp`, the frame requested last, and `v4l1_mmap_size` serve V4L1 only.
pub record Mmap : Type 0 where
  pub req_buffer_nr : ℕ
  pub buffer_nr : ℕ
  pub buffers : List Buffer
  pub tmp : ℕ
  pub v4l1_mmap_size : ℕ

-- struct convert_data; `none` is a NULL format
pub record ConvertData : Type 0 where
  pub src_fmt : Option PixFormat
  pub dst_fmt : Option PixFormat
  pub src_palette : ℕ

-- struct capture_device, less its table of functions; `real_v4l1_palette` serves V4L1 only.
pub record CaptureDevice : Type 0 where
  pub mmap : Mmap
  pub palette : ℕ
  pub width : ℕ
  pub height : ℕ
  pub std : ℕ
  pub channel : ℕ
  pub imagesize : ℕ
  pub tuner_nb : ℤ
  pub is_native : Bool
  pub real_v4l1_palette : ℕ
  pub needs_conversion : Bool
  pub convert : ConvertData
