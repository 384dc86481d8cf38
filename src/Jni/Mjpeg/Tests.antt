-- ===== src/Jni/Mjpeg/Tests.antt =====
-- Runs of the Motion JPEG conversion, and the instances of its theorems.
use v4l4j.Prelude.{ℕ, zero, suc, ◌+◌, ◌≡◌, refl, ap, ◌∙◌, some, List, [], ◌∷◌, ◌++◌, length, arith}
use v4l4j.Jni.Mjpeg.{jpeg_encode_mjpeg, copy, size_add, size_sub, segment_size}
use v4l4j.Jni.Mjpeg.Huffman.{huffman_table}
use v4l4j.Jni.Mjpeg.Segments.{Segment, bytes_of, ArePlain, Holds}
use v4l4j.Jni.Mjpeg.Frames.{jpeg_encode_mjpeg-inserts, jpeg_encode_mjpeg_idem}

-- a memory that holds the bytes, with zeros behind them
abbrev memory : List ℕ → ℕ → ℕ
memory [] i = 0
memory (b ∷ bs) zero = b
memory (b ∷ bs) (suc i) = memory bs i

-- a quantisation table of two bytes, and a scan
abbrev quantisers : List Segment
quantisers = record { marker = 0xdb; payload = 1 ∷ 2 ∷ [] } ∷ []

abbrev bare_frame : List ℕ
bare_frame = 0xff ∷ 0xd8 ∷ 0xff ∷ 0xdb ∷ 0 ∷ 4 ∷ 1 ∷ 2 ∷ 0xff ∷ 0xda ∷ 7 ∷ 8 ∷ []

abbrev filled_frame : List ℕ
filled_frame = 0xff ∷ 0xd8 ∷ bytes_of quantisers ++ (huffman_table ++ (0xff ∷ 0xda ∷ 7 ∷ 8 ∷ []))

not_a_frame : jpeg_encode_mjpeg 1 (memory (1 ∷ 2 ∷ [])) 2 ≡ some (0, [])
unfolding jpeg_encode_mjpeg
not_a_frame = refl

-- one wrong byte of the two passes the first test
half_a_marker :
    jpeg_encode_mjpeg 2 (memory (1 ∷ 0xd8 ∷ 0xff ∷ 0xc4 ∷ 0 ∷ 2 ∷ [])) 6
    ≡ some (6, 1 ∷ 0xd8 ∷ 0xff ∷ 0xc4 ∷ 0 ∷ 2 ∷ [])
unfolding jpeg_encode_mjpeg copy size_add size_sub segment_size
half_a_marker = refl

memory_from :
    (src : ℕ → ℕ) (bs : List ℕ) (from : ℕ)
    → ((i : ℕ) → src (from + i) ≡ memory bs i)
    → Holds src bs from
memory_from src [] from same = tt
memory_from src (b ∷ bs) from same = (
  ap src (omega arith) ∙ same 0,
  memory_from src bs (from + 1) λ i. ap src (omega arith) ∙ same (suc i),
)

memory-Holds : (bs : List ℕ) → Holds (memory bs) bs 0
memory-Holds bs = memory_from (memory bs) bs 0 λ i. ap (memory bs) (omega arith)

plain_quantisers : ArePlain quantisers
plain_quantisers = (λ e. absurd (omega arith), λ e. absurd (omega arith), tt)

jpeg_encode_mjpeg-inserts_example :
    jpeg_encode_mjpeg 2 (memory bare_frame) 12
    ≡ some (432, 0xff ∷ 0xd8 ∷ bytes_of quantisers ++ huffman_table ++ (0xff ∷ 0xda ∷ 7 ∷ 8 ∷ []))
jpeg_encode_mjpeg-inserts_example =
    jpeg_encode_mjpeg-inserts (memory bare_frame) 2 12 quantisers (7 ∷ 8 ∷ []) plain_quantisers
      (omega arith) (memory-Holds bare_frame) refl (omega arith)

jpeg_encode_mjpeg_idem_example :
    jpeg_encode_mjpeg 2 (memory filled_frame) (length filled_frame)
    ≡ some (length filled_frame, filled_frame)
jpeg_encode_mjpeg_idem_example =
    jpeg_encode_mjpeg_idem (memory filled_frame) 2 quantisers (7 ∷ 8 ∷ []) filled_frame
      plain_quantisers (omega arith) refl (memory-Holds filled_frame) (omega arith)
