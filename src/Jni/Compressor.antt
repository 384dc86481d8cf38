-- ===== src/Jni/Compressor.antt =====
-- init_jpeg_compressor and destroy_jpeg_compressor of src/jpeg.c, without the calls of the JPEG
-- library. An allocation succeeds.
pub mod Balance
use v4l4j.Prelude.{
  ℕ, ◌+◌, ◌-◌, ◌*◌, ◌%◌, Bool, true, false, ◌&&◌, ◌||◌, Option, none, some, ◌==◌, if◌then◌else◌,
  not,
}
use v4l4j.Prelude.Int.{ℤ, pos, negsuc}
use v4l4j.Capture.Records.{CaptureDevice}
use v4l4j.Jni.State.{
  JpegData, V4l4jDevice, xfree, Encoder, encode_jpeg, encode_mjpeg, encode_yuv420, encode_yuyv,
  encode_yvyu, encode_uyvy, encode_rgb24, encode_rgb32, encode_bgr24, encode_bgr32,
}

-- The libvideo palettes that src/ names.
abbrev pub bgr24 : ℕ
bgr24 = 6

abbrev pub rgb24 : ℕ
rgb24 = 7

abbrev pub bgr32 : ℕ
bgr32 = 8

abbrev pub rgb32 : ℕ
rgb32 = 9

abbrev pub yvu420 : ℕ
yvu420 = 17

abbrev pub yuyv : ℕ
yuyv = 18

abbrev pub yvyu : ℕ
yvyu = 20

abbrev pub uyvy : ℕ
uyvy = 21

abbrev pub yuv420 : ℕ
yuv420 = 31

abbrev pub mjpeg : ℕ
mjpeg = 48

abbrev pub jpeg : ℕ
jpeg = 49

-- struct jpeg_data as XMALLOC clears it
abbrev cleared : JpegData
cleared = record {
  y = none;
  cb = none;
  cr = none;
  cinfo = none;
  destmgr = none;
  jerr = none;
  lines_written_per_loop = 0;
  jpeg_quality = pos 0;
}

-- the first test of both functions
abbrev pub is_compressed_here : ℕ → Bool
is_compressed_here p =
    (p == yuv420)
    || (p == yuyv)
    || (p == yvyu)
    || (p == rgb24)
    || (p == rgb32)
    || (p == bgr24)
    || (p == uyvy)
    || (p == bgr32)

abbrev pub is_yuv : ℕ → Bool
is_yuv p = (p == yuv420) || (p == yuyv) || (p == yvyu) || (p == uyvy)

-- The branch for YUV420.
set_up_yuv420 : JpegData → V4l4jDevice → V4l4jDevice
set_up_yuv420 j d = record d {
  j = some (record j { y = some 16; cb = some 16; cr = some 16; lines_written_per_loop = 16 });
  convert = some encode_yuv420;
  blocks = d.blocks + 3;
}

-- The switch on the three other YUV formats.
packed_encoder : ℕ → Option Encoder → Option Encoder
packed_encoder p before =
    if p == yuyv
    then some encode_yuyv
    else if p == yvyu
    then some encode_yvyu
    else if p == uyvy
    then some encode_uyvy
    else before

set_up_packed : CaptureDevice → JpegData → V4l4jDevice → V4l4jDevice
unfolding packed_encoder
set_up_packed c j d = record d {
  j = some (record j { y = some 8; cb = some 8; cr = some 8; lines_written_per_loop = 8 });
  conversion_buffer = some ((c.width * c.height * 2) % 4_294_967_296);
  convert = packed_encoder c.palette d.convert;
  blocks = d.blocks + 4;
}

-- The branch for the RGB formats: only RGB24 needs no conversion buffer.
set_up_rgb : CaptureDevice → JpegData → V4l4jDevice → V4l4jDevice
set_up_rgb c j d =
    let d₁ = record d { j = some j } in
    let d₂ = record d₁ {
      conversion_buffer = some ((c.width * 3) % 4_294_967_296);
      blocks = d.blocks + 1;
    } in
    if c.palette == rgb24
    then record d₁ { convert = some encode_rgb24 }
    else if c.palette == rgb32
    then record d₂ { convert = some encode_rgb32 }
    else if c.palette == bgr24
    then record d₂ { convert = some encode_bgr24 }
    else if c.palette == bgr32
    then record d₂ { convert = some encode_bgr32 }
    else d₁

unfoldable pub init_jpeg_compressor : CaptureDevice → ℤ → V4l4jDevice → ℤ × V4l4jDevice
unfolding set_up_yuv420 set_up_packed set_up_rgb xfree
init_jpeg_compressor c q d =
    let d₁ = record d { j = some cleared; blocks = d.blocks + 1 } in
    let j₂ = record cleared { cinfo = some 1; jerr = some 1; destmgr = some 1; jpeg_quality = q } in
    let d₂ = record d₁ { j = some j₂; blocks = d₁.blocks + 3 } in
    if is_compressed_here c.palette
    then (
      pos 0,
      (if is_yuv c.palette
          then (if c.palette == yuv420 then set_up_yuv420 j₂ d₂ else set_up_packed c j₂ d₂)
          else set_up_rgb c j₂ d₂),
    )
    else if c.palette == mjpeg
    then (pos 0, record d₁ { convert = some encode_mjpeg })
    else if c.palette == jpeg
    then (pos 0, record d₁ { convert = some encode_jpeg })
    else (negsuc 0, record d₁ { j = none; blocks = xfree (some 1) d₁.blocks })

-- XFREE of y, cb, cr, destmgr, jerr and cinfo
free_jpeg_data : JpegData → ℕ → ℕ
unfolding xfree
free_jpeg_data j blocks =
    xfree j.cinfo (xfree j.jerr (xfree j.destmgr (xfree j.cr (xfree j.cb (xfree j.y blocks)))))

-- The compressor's data are read through d->j, which a device without them does not have: the
-- source follows a NULL pointer there, and nothing is done here.
unfoldable pub destroy_jpeg_compressor : CaptureDevice → V4l4jDevice → V4l4jDevice
unfolding free_jpeg_data xfree
destroy_jpeg_compressor c d = elim d.j [
  | none ↦ d
  | some j ↦
      let d₁ =
        if is_compressed_here c.palette && not (c.palette == yuv420)
        then record d { conversion_buffer = none; blocks = xfree d.conversion_buffer d.blocks }
        else d in
      let left = if is_compressed_here c.palette then free_jpeg_data j d₁.blocks else d₁.blocks in
      record d₁ { j = none; blocks = xfree (some 1) left }
]
