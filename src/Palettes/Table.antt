-- ===== src/Palettes/Table.antt =====
-- libvideo/palettes.c: the table of image formats, by their libvideo index. A row is the format's
-- libvideo number, its V4L1 palette (0xffffffff where there is none), its V4L2 fourcc code, its depth
-- in bits (-1 for a compressed format) and its name. The rows stand in six parts.
use v4l4j.Prelude.{ℕ, String, List, [], ◌∷◌, ◌++◌}
use v4l4j.Prelude.Int.{ℤ, pos, negsuc}

-- struct libvideo_palette
pub record Palette : Type 0 where
  pub libvideo_palette : ℕ
  pub v4l1_palette : ℕ
  pub v4l2_palette : ℕ
  pub depth : ℤ
  pub name : String

abbrev row : ℕ → ℕ → ℕ → ℤ → String → Palette
row index v4l1 v4l2 depth name = record {
  libvideo_palette = index;
  v4l1_palette = v4l1;
  v4l2_palette = v4l2;
  depth = depth;
  name = name;
}

abbrev pub undefined_v4l1 : ℕ
undefined_v4l1 = 0xffff_ffff

abbrev compressed : ℤ
compressed = negsuc 0

abbrev rgb_palettes : List Palette
rgb_palettes =
    row 0 undefined_v4l1 0x31424752 (pos 8) "RGB332"
    ∷ row 1 undefined_v4l1 0x34343452 (pos 16) "RGB444"
    ∷ row 2 6 0x4f424752 (pos 16) "RGB555"
    ∷ row 3 3 0x50424752 (pos 16) "RGB565"
    ∷ row 4 undefined_v4l1 0x51424752 (pos 16) "RGB555 BE"
    ∷ row 5 undefined_v4l1 0x52424752 (pos 16) "RGB565 BE"
    ∷ row 6 undefined_v4l1 0x33524742 (pos 24) "BGR24"
    ∷ row 7 4 0x33424752 (pos 24) "RGB24"
    ∷ row 8 undefined_v4l1 0x34524742 (pos 32) "BGR32"
    ∷ row 9 5 0x34424752 (pos 32) "RGB32"
    ∷ []

abbrev grey_palettes : List Palette
grey_palettes =
    row 10 1 0x59455247 (pos 8) "GREY"
    ∷ row 11 undefined_v4l1 0x20343059 (pos 4) "Y4"
    ∷ row 12 undefined_v4l1 0x20363059 (pos 6) "Y6"
    ∷ row 13 undefined_v4l1 0x20303159 (pos 10) "Y10"
    ∷ row 14 undefined_v4l1 0x20363159 (pos 16) "Y16"
    ∷ row 15 undefined_v4l1 0x384c4150 (pos 8) "PAL8"
    ∷ []

abbrev yuv_palettes : List Palette
yuv_palettes =
    row 16 undefined_v4l1 0x39555659 (pos 9) "YVU410"
    ∷ row 17 undefined_v4l1 0x32315659 (pos 12) "YVU420"
    ∷ row 18 8 0x56595559 (pos 16) "YUYV"
    ∷ row 19 undefined_v4l1 0x56555959 (pos 16) "YYUV"
    ∷ row 20 undefined_v4l1 0x55595659 (pos 16) "YVYU"
    ∷ row 21 9 0x59565955 (pos 16) "UYVY"
    ∷ row 22 undefined_v4l1 0x59555956 (pos 16) "VYUY"
    ∷ row 23 13 0x50323234 (pos 16) "YUV422P"
    ∷ row 24 14 0x50313134 (pos 16) "YUV411P"
    ∷ row 25 undefined_v4l1 0x50313459 (pos 12) "Y41P"
    ∷ row 26 undefined_v4l1 0x34343459 (pos 16) "YUV444"
    ∷ row 27 undefined_v4l1 0x4f565559 (pos 16) "YUV555"
    ∷ row 28 undefined_v4l1 0x50565559 (pos 16) "YUV565"
    ∷ row 29 undefined_v4l1 0x34565559 (pos 32) "YUV32"
    ∷ row 30 16 0x39565559 (pos 9) "YUV410"
    ∷ row 31 10 0x32315559 (pos 12) "YUV420"
    ∷ row 32 2 0x34324948 (pos 8) "HI240"
    ∷ row 33 undefined_v4l1 0x32314d48 (pos 8) "HM12"
    ∷ []

abbrev plane_bayer_palettes : List Palette
plane_bayer_palettes =
    row 34 undefined_v4l1 0x3231564e (pos 12) "NV12"
    ∷ row 35 undefined_v4l1 0x3132564e (pos 12) "NV21"
    ∷ row 36 undefined_v4l1 0x3631564e (pos 16) "NV16"
    ∷ row 37 undefined_v4l1 0x3136564e (pos 16) "NV61"
    ∷ row 38 undefined_v4l1 0x31384142 (pos 8) "SBGGR8"
    ∷ row 39 undefined_v4l1 0x47524247 (pos 8) "SGBRG8"
    ∷ row 40 undefined_v4l1 0x47425247 (pos 8) "SGRBG8"
    ∷ row 41 undefined_v4l1 0x42474752 (pos 8) "SRGGB8"
    ∷ row 42 undefined_v4l1 0x30314742 (pos 10) "SBGGR10"
    ∷ row 43 undefined_v4l1 0x30314247 (pos 10) "SGBRG10"
    ∷ row 44 undefined_v4l1 0x30314142 (pos 10) "SGRBG10"
    ∷ row 45 undefined_v4l1 0x30314752 (pos 10) "SRGGB10"
    ∷ row 46 undefined_v4l1 0x30314442 (pos 8) "SGRBG10DPCM8"
    ∷ row 47 undefined_v4l1 0x32525942 (pos 16) "SBGGR16"
    ∷ row 48 undefined_v4l1 0x47504a4d compressed "MJPEG"
    ∷ row 49 undefined_v4l1 0x4745504a compressed "JPEG"
    ∷ row 50 undefined_v4l1 0x64737664 compressed "DV"
    ∷ row 51 undefined_v4l1 0x4745504d compressed "MPEG 1/2/4"
    ∷ []

abbrev vendor_palettes : List Palette
vendor_palettes =
    row 52 undefined_v4l1 0x41495043 compressed "CPIA1"
    ∷ row 53 undefined_v4l1 0x41564e57 compressed "WNVA"
    ∷ row 54 undefined_v4l1 0x30313953 compressed "SN9C10X"
    ∷ row 55 undefined_v4l1 0x30323953 compressed "SN9C20X_I420"
    ∷ row 56 undefined_v4l1 0x31435750 compressed "PWC1"
    ∷ row 57 undefined_v4l1 0x32435750 compressed "PWC2"
    ∷ row 58 undefined_v4l1 0x35323645 compressed "ET61X251"
    ∷ row 59 undefined_v4l1 0x31303553 compressed "SPCA501"
    ∷ row 60 undefined_v4l1 0x35303553 compressed "SPCA505"
    ∷ row 61 undefined_v4l1 0x38303553 compressed "SPCA508"
    ∷ row 62 undefined_v4l1 0x31363553 compressed "SPCA561"
    ∷ row 63 undefined_v4l1 0x37303250 compressed "PAC207"
    ∷ row 64 undefined_v4l1 0x3031334d compressed "MR97310A"
    ∷ row 65 undefined_v4l1 0x584e4f53 compressed "SN9C2028"
    ∷ row 66 undefined_v4l1 0x43353039 compressed "SQ905C"
    ∷ row 67 undefined_v4l1 0x47504a50 compressed "PJPG"
    ∷ row 68 undefined_v4l1 0x3131354f compressed "OV511"
    ∷ row 69 undefined_v4l1 0x3831354f compressed "OV518"
    ∷ row 70 undefined_v4l1 0x30383653 compressed "STV0680"
    ∷ row 71 undefined_v4l1 0x30364d54 compressed "TM6000"
    ∷ row 72 undefined_v4l1 0x56544943 compressed "CIT_YYVYUY"
    ∷ row 73 undefined_v4l1 0x494e4f4b compressed "KONICA420"
    ∷ []

abbrev duplicate_palettes : List Palette
duplicate_palettes =
    row 75 15 0x0 (pos 12) "YUV420-w"
    ∷ row 76 7 0x0 (pos 8) "YUYV-w"
    ∷ row 77 11 0x50313134 (pos 16) "YUV411-w"
    ∷ []

-- libvideo_palettes
abbrev pub libvideo_palettes : List Palette
libvideo_palettes =
    rgb_palettes
    ++ (grey_palettes
        ++ (yuv_palettes ++ (plane_bayer_palettes ++ (vendor_palettes ++ duplicate_palettes))))

-- the formats that libvideo.h counts; three rows with the old names of formats follow them
abbrev pub nb_supported_palettes : ℕ
nb_supported_palettes = 74
