-- ===== src/Jni/Formats/Tests.antt =====
-- A run of listFormats, and the instance of its theorem.
use v4l4j.Prelude.{◌≡◌, refl, List, [], ◌∷◌}
use v4l4j.Prelude.Int.{pos, negsuc}
use v4l4j.Query.Sizes.{no_sizes}
use v4l4j.Query.Formats.{PaletteInfo}
use v4l4j.Jni.Compressor.{rgb24, bgr24, yuyv, yuv420, yvu420, jpeg}
use v4l4j.Jni.Formats.{FormatLists, list_formats}
use v4l4j.Jni.Formats.Lists.{natives, jpeg_sources, sources_of, extended, list_formats_lem}

-- native JPEG and YUYV, and RGB24 through YUYV
abbrev described : List PaletteInfo
described =
    record { index = jpeg; raw_palettes = []; sizes = no_sizes }
    ∷ record { index = yuyv; raw_palettes = []; sizes = no_sizes }
    ∷ record { index = rgb24; raw_palettes = pos yuyv ∷ negsuc 0 ∷ []; sizes = no_sizes }
    ∷ []

abbrev no_formats : FormatLists
no_formats = record {
  formats = [];
  jpeg_formats = [];
  rgb_formats = [];
  bgr_formats = [];
  yuv420_formats = [];
  yvu420_formats = [];
}

-- The native format JPEG is in the list for JPEG twice.
listed : list_formats described no_formats ≡ record {
  formats = jpeg ∷ yuyv ∷ [];
  jpeg_formats = jpeg ∷ jpeg ∷ yuyv ∷ rgb24 ∷ [];
  rgb_formats = yuyv ∷ [];
  bgr_formats = [];
  yuv420_formats = [];
  yvu420_formats = [];
}
unfolding list_formats
listed = refl

list_formats_lem_example :
    list_formats described no_formats
    ≡ extended
        (natives described)
        (jpeg_sources described)
        (sources_of rgb24 described)
        (sources_of bgr24 described)
        (sources_of yuv420 described)
        (sources_of yvu420 described)
        no_formats
list_formats_lem_example = list_formats_lem described no_formats
