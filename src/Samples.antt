-- ===== src/Samples.antt =====
-- A driver for the tests, with which each test replaces the answers it is about.
use v4l4j.Prelude.{true, false, none, some, []}
use v4l4j.Prelude.Int.{pos, negsuc}
use v4l4j.Driver.{Driver, refused}
use v4l4j.Capture.Records.{CaptureDevice}

-- Every call that sets something succeeds and changes nothing, every query and enumeration fails.
abbrev pub obliging : Driver
obliging = record {
  on_querycap = λ t. some 0x400_0001;
  on_enumstd = λ t. none;
  on_s_std = λ t s. true;
  on_s_input = λ t i. true;
  on_enuminput = λ t i. none;
  on_s_fmt = λ t f. some f;
  on_cropcap = λ t. none;
  on_s_crop = λ t r. true;
  on_s_parm = λ t n m. record { ret = pos 0; numerator = n; denominator = m };
  on_g_parm = λ t. record { ret = pos 0; numerator = 1; denominator = 30 };
  on_try_format = λ t f. (true, f, f);
  on_try_format_alone = λ t f. f;
  needs_conversion = λ f g. false;
  on_reqbufs = λ t n. some n;
  on_querybuf = λ t i. some (record { length = 4096; offset = 4096 });
  on_mmap = λ t n o. some 0x1000;
  on_munmap = λ t s n. true;
  on_qbuf = λ t i. true;
  on_dqbuf = λ t. none;
  on_streamon = λ t. true;
  on_streamoff = λ t. true;
  on_queryctrl = λ t i. refused 22;
  on_querymenu = λ t i j. false;
  on_g_ctrl = λ t i. record { ret = negsuc 0; errno = 22; value = pos 0; value64 = pos 0 };
  on_s_ctrl = λ t i v. record { ret = pos 0; errno = 0; value = v; value64 = pos 0 };
  on_g_ext_ctrls = λ t i n. record { ret = pos 0; errno = 0; value = pos 7; value64 = pos 7 };
  on_s_ext_ctrls = λ t i v. record { ret = pos 0; errno = 0; value = pos 0; value64 = pos 0 };
  on_g_fmt = λ t. none;
  on_enum_fmt = λ t i. none;
  on_enum_framesizes = λ t f i. none;
  on_enum_frameintervals = λ t f w h i. none;
  on_g_tuner = λ t i. none;
  on_g_frequency = λ t i. none;
  on_s_frequency = λ t i f. true;
}

-- A camera at 640 by 480 on the standard PAL, before its format is set.
abbrev pub camera : CaptureDevice
camera = record {
  mmap = record { req_buffer_nr = 2; buffer_nr = 0; buffers = []; tmp = 0; v4l1_mmap_size = 0 };
  palette = 0;
  width = 640;
  height = 480;
  std = 1;
  channel = 0;
  imagesize = 0;
  tuner_nb = negsuc 0;
  is_native = false;
  real_v4l1_palette = 0;
  needs_conversion = false;
  convert = record { src_fmt = none; dst_fmt = none; src_palette = 0 };
}
