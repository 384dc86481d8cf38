-- ===== src/Jni/Formats.antt =====
-- listFormats of src/v4l4j_ImageFormatList.c: the lists of image formats of the Java side, from the
-- palettes of the device's description. The Java objects can be created.
pub mod Lists
mod Tests
use v4l4j.Prelude.{
  ℕ, Bool, true, false, List, [], ◌∷◌, ◌++◌, Option, none, some, ◌==◌, if◌then◌else◌,
}
use v4l4j.Prelude.Int.{ℤ, pos, negsuc, eqb_ℤ}
use v4l4j.Query.Formats.{PaletteInfo}
use v4l4j.Jni.Compressor.{bgr24, rgb24, bgr32, rgb32, yvu420, yuyv, yvyu, uyvy, yuv420, mjpeg, jpeg}

-- JPEG_CONVERTIBLE_FORMATS (src/common.h)
abbrev pub jpeg_conv_formats : List ℕ
jpeg_conv_formats = jpeg ∷ mjpeg ∷ yuv420 ∷ yuyv ∷ yvyu ∷ uyvy ∷ rgb24 ∷ bgr24 ∷ rgb32 ∷ bgr32 ∷ []

-- the members of the class ImageFormatList, each with its formats in the order of their addition
pub record FormatLists : Type 0 where
  pub formats : List ℕ
  pub jpeg_formats : List ℕ
  pub rgb_formats : List ℕ
  pub bgr_formats : List ℕ
  pub yuv420_formats : List ℕ
  pub yvu420_formats : List ℕ

-- the list that the switch selects
pub data Selected : Type 0 where
  to_yuv420 : Selected
  to_yvu420 : Selected
  to_rgb : Selected
  to_bgr : Selected
  to_jpeg : Selected
  no_list : Selected

select_list : ℕ → Selected
select_list palette_idx =
    if palette_idx == yuv420
    then to_yuv420
    else if palette_idx == yvu420
    then to_yvu420
    else if palette_idx == rgb24
    then to_rgb
    else if palette_idx == bgr24
    then to_bgr
    else if palette_idx == jpeg
    then to_jpeg
    else no_list

-- add_format to the selected list
add_to : Selected → ℕ → FormatLists → FormatLists
add_to to_yuv420 f l = record l { yuv420_formats = l.yuv420_formats ++ f ∷ [] }
add_to to_yvu420 f l = record l { yvu420_formats = l.yvu420_formats ++ f ∷ [] }
add_to to_rgb f l = record l { rgb_formats = l.rgb_formats ++ f ∷ [] }
add_to to_bgr f l = record l { bgr_formats = l.bgr_formats ++ f ∷ [] }
add_to to_jpeg f l = record l { jpeg_formats = l.jpeg_formats ++ f ∷ [] }
add_to no_list f l = l

-- The loop over the formats that v4l4j encodes itself.
add_convertible : List ℕ → ℕ → FormatLists → FormatLists
add_convertible [] palette_idx l = l
add_convertible (fmt ∷ fmts) palette_idx l =
    add_convertible fmts palette_idx (if fmt == palette_idx then add_to to_jpeg fmt l else l)

-- The loop over the raw palettes, up to -1. An array that lacks it is read past its end, which ends
-- the loop here.
add_raw_palettes : Selected → List ℤ → FormatLists → FormatLists
add_raw_palettes s [] l = l
add_raw_palettes s (negsuc n ∷ raws) l = l
add_raw_palettes s (pos f ∷ raws) l = add_raw_palettes s raws (add_to s f l)

-- The end of the loop's body: a palette with raw palettes is one of libvideo's conversions, one
-- without is native.
add_palette : Selected → ℕ → List ℤ → FormatLists → FormatLists
unfolding add_raw_palettes add_to
add_palette s palette_idx (raw ∷ raws) l = add_raw_palettes s (raw ∷ raws) l
add_palette s palette_idx [] l =
    add_to s palette_idx (record l { formats = l.formats ++ palette_idx ∷ [] })

-- the loop over the palettes
pub list_formats : List PaletteInfo → FormatLists → FormatLists
unfolding select_list add_convertible add_palette
list_formats [] l = l
list_formats (p ∷ ps) l = list_formats ps (
    add_palette (select_list p.index) p.index p.raw_palettes
      (add_convertible jpeg_conv_formats p.index l))
