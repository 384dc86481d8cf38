-- ===== src/Jni/State.antt =====
-- struct v4l4j_device and struct jpeg_data (src/common.h), with the blocks of memory behind their
-- pointers.
use v4l4j.Prelude.{ℕ, ◌-◌, Bool, Option, none, some}
use v4l4j.Prelude.Int.{ℤ}

-- the functions that the pointer `convert` may designate
pub data Encoder : Type 0 where
  encode_jpeg : Encoder
  encode_mjpeg : Encoder
  encode_yuv420 : Encoder
  encode_yuyv : Encoder
  encode_yvyu : Encoder
  encode_uyvy : Encoder
  encode_rgb24 : Encoder
  encode_rgb32 : Encoder
  encode_bgr24 : Encoder
  encode_bgr32 : Encoder

-- struct jpeg_data. A pointer is the size of its block, or `none` for NULL; a block of one struct
-- has size 1.
pub record JpegData : Type 0 where
  pub y : Option ℕ
  pub cb : Option ℕ
  pub cr : Option ℕ
  pub cinfo : Option ℕ
  pub destmgr : Option ℕ
  pub jerr : Option ℕ
  pub lines_written_per_loop : ℕ
  pub jpeg_quality : ℤ

-- struct v4l4j_device, less the device of libvideo; `blocks` counts the blocks allocated through
-- it and not freed.
pub record V4l4jDevice : Type 0 where
  pub convert : Option Encoder
  pub conversion_buffer : Option ℕ
  pub double_conversion_buffer : Option ℕ
  pub j : Option JpegData
  pub output_fmt : ℕ
  pub capture_len : ℕ
  pub need_conv : Bool
  pub blocks : ℕ

-- XFREE: how many blocks are left once the pointer's block, if any, is freed
unfoldable pub xfree : Option ℕ → ℕ → ℕ
xfree none blocks = blocks
xfree (some size) blocks = blocks - 1
