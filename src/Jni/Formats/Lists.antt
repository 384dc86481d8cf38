-- ===== src/Jni/Formats/Lists.antt =====
-- What each list of image formats (src/v4l4j_ImageFormatList.c) holds, palette by palette.
use v4l4j.Prelude.{
  ℕ, ◌≡◌, refl, sym, ap, ◌∙◌, List, [], ◌∷◌, ◌++◌, ◌==◌, ◌||◌, if◌then◌else◌, arith,
}
use v4l4j.Prelude.Int.{ℤ, pos, negsuc}
use mathlib.Core.List.{append-nil, append_assoc}
use v4l4j.Query.Formats.{PaletteInfo}
use v4l4j.Jni.Compressor.{bgr24, rgb24, yvu420, yuv420, mjpeg, jpeg, is_compressed_here}
use v4l4j.Jni.Formats.{
  FormatLists, Selected, to_yuv420, to_yvu420, to_rgb, to_bgr, to_jpeg, no_list, select_list,
  add_to, add_convertible, add_raw_palettes, add_palette, list_formats, jpeg_conv_formats,
}

-- the formats before the end of an array
abbrev pub before_end : List ℤ → List ℕ
before_end [] = []
before_end (negsuc n ∷ raws) = []
before_end (pos f ∷ raws) = f ∷ before_end raws

-- The native formats through which a palette is had: itself, or its raw palettes.
abbrev pub sources : ℕ → List ℤ → List ℕ
sources index [] = index ∷ []
sources index (raw ∷ raws) = before_end (raw ∷ raws)

abbrev pub native_of : ℕ → List ℤ → List ℕ
native_of index [] = index ∷ []
native_of index (raw ∷ raws) = []

-- the palettes without raw palettes
abbrev pub natives : List PaletteInfo → List ℕ
natives [] = []
natives (p ∷ ps) = native_of p.index p.raw_palettes ++ natives ps

-- what the palettes with the given index contribute
abbrev pub sources_of : ℕ → List PaletteInfo → List ℕ
sources_of index [] = []
sources_of index (p ∷ ps) =
    (if p.index == index then sources p.index p.raw_palettes else []) ++ sources_of index ps

-- what v4l4j itself encodes as JPEG
abbrev pub encodable : ℕ → List ℕ
encodable index =
    if is_compressed_here index || (index == mjpeg) || (index == jpeg) then index ∷ [] else []

-- For each palette, what v4l4j itself encodes, native or not, and the sources of libvideo's JPEG.
abbrev pub jpeg_sources : List PaletteInfo → List ℕ
jpeg_sources [] = []
jpeg_sources (p ∷ ps) =
    encodable p.index
    ++ ((if p.index == jpeg then sources p.index p.raw_palettes else []) ++ jpeg_sources ps)

-- the lists, each with more at its end
abbrev pub extended :
    List ℕ → List ℕ → List ℕ → List ℕ → List ℕ → List ℕ → FormatLists → FormatLists
extended f j r b u v l = record {
  formats = l.formats ++ f;
  jpeg_formats = l.jpeg_formats ++ j;
  rgb_formats = l.rgb_formats ++ r;
  bgr_formats = l.bgr_formats ++ b;
  yuv420_formats = l.yuv420_formats ++ u;
  yvu420_formats = l.yvu420_formats ++ v;
}

-- the formats equal to a given one
matching : List ℕ → ℕ → List ℕ
matching [] index = []
matching (fmt ∷ fmts) index =
    if fmt == index then fmt ∷ matching fmts index else matching fmts index

matching-convertible : (index : ℕ) → matching jpeg_conv_formats index ≡ encodable index
unfolding matching
matching-convertible index = ground arith

add_convertible-matching :
    (fmts : List ℕ) (index : ℕ) (l : FormatLists)
    → add_convertible fmts index l
      ≡ record l { jpeg_formats = l.jpeg_formats ++ matching fmts index }
unfolding add_convertible add_to matching
add_convertible-matching [] index l = ground (arith, append-nil l.jpeg_formats)
add_convertible-matching (fmt ∷ fmts) index l = ground (
  arith,
  add_convertible-matching fmts index (add_to to_jpeg fmt l),
  add_convertible-matching fmts index l,
  append_assoc l.jpeg_formats (fmt ∷ []) (matching fmts index),
)

-- several formats for the selected list
append_to : Selected → List ℕ → FormatLists → FormatLists
append_to to_yuv420 fs l = record l { yuv420_formats = l.yuv420_formats ++ fs }
append_to to_yvu420 fs l = record l { yvu420_formats = l.yvu420_formats ++ fs }
append_to to_rgb fs l = record l { rgb_formats = l.rgb_formats ++ fs }
append_to to_bgr fs l = record l { bgr_formats = l.bgr_formats ++ fs }
append_to to_jpeg fs l = record l { jpeg_formats = l.jpeg_formats ++ fs }
append_to no_list fs l = l

append_to-add_to :
    (s : Selected) (f : ℕ) (fs : List ℕ) (l : FormatLists)
    → append_to s fs (add_to s f l) ≡ append_to s (f ∷ fs) l
unfolding append_to add_to
append_to-add_to to_yuv420 f fs l = rw (append_assoc l.yuv420_formats (f ∷ []) fs) refl
append_to-add_to to_yvu420 f fs l = rw (append_assoc l.yvu420_formats (f ∷ []) fs) refl
append_to-add_to to_rgb f fs l = rw (append_assoc l.rgb_formats (f ∷ []) fs) refl
append_to-add_to to_bgr f fs l = rw (append_assoc l.bgr_formats (f ∷ []) fs) refl
append_to-add_to to_jpeg f fs l = rw (append_assoc l.jpeg_formats (f ∷ []) fs) refl
append_to-add_to no_list f fs l = refl

append_to-nil : (s : Selected) (l : FormatLists) → l ≡ append_to s [] l
unfolding append_to
append_to-nil to_yuv420 l = rw (append-nil l.yuv420_formats) refl
append_to-nil to_yvu420 l = rw (append-nil l.yvu420_formats) refl
append_to-nil to_rgb l = rw (append-nil l.rgb_formats) refl
append_to-nil to_bgr l = rw (append-nil l.bgr_formats) refl
append_to-nil to_jpeg l = rw (append-nil l.jpeg_formats) refl
append_to-nil no_list l = refl

add_raw_palettes-append_to :
    (s : Selected) (raws : List ℤ) (l : FormatLists)
    → add_raw_palettes s raws l ≡ append_to s (before_end raws) l
unfolding add_raw_palettes
add_raw_palettes-append_to s [] l = append_to-nil s l
add_raw_palettes-append_to s (negsuc n ∷ raws) l = append_to-nil s l
add_raw_palettes-append_to s (pos f ∷ raws) l =
    add_raw_palettes-append_to s raws (add_to s f l) ∙ append_to-add_to s f (before_end raws) l

add_palette-append_to :
    (s : Selected) (index : ℕ) (raws : List ℤ) (l : FormatLists)
    → add_palette s index raws l
      ≡ append_to s (sources index raws) (record l { formats = l.formats ++ native_of index raws })
unfolding add_palette
add_palette-append_to s index (raw ∷ raws) l =
    add_raw_palettes-append_to s (raw ∷ raws) l
    ∙ ap (append_to s (before_end (raw ∷ raws))) (rw (append-nil l.formats) refl)
add_palette-append_to s index [] l =
    append_to-nil s _ ∙ append_to-add_to s index [] (record l { formats = l.formats ++ index ∷ [] })

append_to-select_list :
    (index : ℕ) (fs : List ℕ) (l : FormatLists)
    → append_to (select_list index) fs l ≡ record l {
      jpeg_formats = l.jpeg_formats ++ (if index == jpeg then fs else []);
      rgb_formats = l.rgb_formats ++ (if index == rgb24 then fs else []);
      bgr_formats = l.bgr_formats ++ (if index == bgr24 then fs else []);
      yuv420_formats = l.yuv420_formats ++ (if index == yuv420 then fs else []);
      yvu420_formats = l.yvu420_formats ++ (if index == yvu420 then fs else []);
    }
unfolding append_to select_list
append_to-select_list index fs l = ground (
  arith,
  append-nil l.jpeg_formats,
  append-nil l.rgb_formats,
  append-nil l.bgr_formats,
  append-nil l.yuv420_formats,
  append-nil l.yvu420_formats,
)

-- The body of the loop, for one palette.
palette_step :
    (p : PaletteInfo) (l : FormatLists)
    → list_formats (p ∷ []) l ≡ record {
      formats = l.formats ++ native_of p.index p.raw_palettes;
      jpeg_formats =
          l.jpeg_formats
          ++ encodable p.index
          ++ (if p.index == jpeg then sources p.index p.raw_palettes else []);
      rgb_formats =
          l.rgb_formats ++ (if p.index == rgb24 then sources p.index p.raw_palettes else []);
      bgr_formats =
          l.bgr_formats ++ (if p.index == bgr24 then sources p.index p.raw_palettes else []);
      yuv420_formats =
          l.yuv420_formats ++ (if p.index == yuv420 then sources p.index p.raw_palettes else []);
      yvu420_formats =
          l.yvu420_formats ++ (if p.index == yvu420 then sources p.index p.raw_palettes else []);
    }
unfolding list_formats
palette_step p l =
    add_palette-append_to (select_list p.index) p.index p.raw_palettes
      (add_convertible jpeg_conv_formats p.index l)
    ∙ append_to-select_list p.index (sources p.index p.raw_palettes) _
    ∙ (let e = add_convertible-matching jpeg_conv_formats p.index l in
        rw (e, matching-convertible p.index) refl)

lists_eq :
    {f f' j j' r r' b b' u u' v v' : List ℕ}
    → f ≡ f'
    → j ≡ j'
    → r ≡ r'
    → b ≡ b'
    → u ≡ u'
    → v ≡ v'
    → ◌≡◌ {A = FormatLists}
        (record {
          formats = f;
          jpeg_formats = j;
          rgb_formats = r;
          bgr_formats = b;
          yuv420_formats = u;
          yvu420_formats = v;
        })
        (record {
          formats = f';
          jpeg_formats = j';
          rgb_formats = r';
          bgr_formats = b';
          yuv420_formats = u';
          yvu420_formats = v';
        })
lists_eq p q r s t o = rw (p, q, r, s, t, o) refl

-- listFormats adds to the list of native formats the palettes that have no raw
-- palettes, to the lists for RGB24, BGR24, YUV420 and YVU420 each with the native formats through
-- which that palette is had, and the list for JPEG with those of the palette JPEG and every
-- palette that v4l4j encodes itself; each in the order of the device's palettes.
pub list_formats_lem :
    (ps : List PaletteInfo) (l : FormatLists)
    → list_formats ps l
      ≡ extended
          (natives ps)
          (jpeg_sources ps)
          (sources_of rgb24 ps)
          (sources_of bgr24 ps)
          (sources_of yuv420 ps)
          (sources_of yvu420 ps)
          l
unfolding list_formats
list_formats_lem [] l =
    lists_eq (sym (append-nil _)) (sym (append-nil _)) (sym (append-nil _)) (sym (append-nil _))
      (sym (append-nil _)) (sym (append-nil _))
list_formats_lem (p ∷ ps) l =
    list_formats_lem ps (list_formats (p ∷ []) l)
    ∙ (rw (palette_step p l) (
        lists_eq (append_assoc l.formats _ _)
          (append_assoc (l.jpeg_formats ++ encodable p.index) _ _
            ∙ append_assoc l.jpeg_formats (encodable p.index) _)
          (append_assoc l.rgb_formats _ _) (append_assoc l.bgr_formats _ _)
          (append_assoc l.yuv420_formats _ _) (append_assoc l.yvu420_formats _ _)))
