-- ===== src/Jni/Mjpeg.antt =====
-- jpeg_encode_mjpeg and jpeg_encode_jpeg of src/jpeg.c: a Motion JPEG frame becomes a JPEG one by
-- the insertion of Huffman tables. The source frame is a memory, from an offset to the byte there.
pub mod Huffman
pub mod Segments
pub mod Frames
mod Tests
use v4l4j.Prelude.{
  ℕ, zero, suc, ◌+◌, ◌-◌, ◌*◌, ◌%◌, Bool, true, false, not, ◌&&◌, Option, none, some, List, [], ◌∷◌,
  ◌++◌, ◌==◌,
}
use mathlib.Core.Option
use Huffman.{huffman_table, dht_size}

-- memcpy: n bytes from an offset on
unfoldable pub copy : (ℕ → ℕ) → ℕ → ℕ → List ℕ
copy src from zero = []
copy src from (suc n) = src from ∷ copy src (from + 1) n

-- a - b and a + b in size_t
unfoldable pub size_sub : ℕ → ℕ → ℕ
size_sub a b = (a + (18_446_744_073_709_551_616 - b)) % 18_446_744_073_709_551_616

unfoldable pub size_add : ℕ → ℕ → ℕ
size_add a b = (a + b) % 18_446_744_073_709_551_616

-- How the loop over the segments ends, with ptr and the bytes copied: at a segment without the
-- byte 0xff, behind a DHT segment, or before a scan.
pub data Scan : Type 0 where
  invalid : List ℕ → Scan
  has_dht : ℕ → List ℕ → Scan
  no_dht : ℕ → List ℕ → Scan

pub behind : List ℕ → Scan → Scan
behind bytes (invalid w) = invalid (bytes ++ w)
behind bytes (has_dht ptr w) = has_dht ptr (bytes ++ w)
behind bytes (no_dht ptr w) = no_dht ptr (bytes ++ w)

-- 2 + size, the size being the two bytes behind the marker
segment_size : (ℕ → ℕ) → ℕ → ℕ
segment_size src ptr = 2 + (src (ptr + 2) * 256 + src (ptr + 3))

-- while(!has_dht) { ... }; `none` is a loop that has not ended within the fuel
pub scan_segments : (ℕ → ℕ) → ℕ → ℕ → Option Scan
scan_segments src zero ptr = none
scan_segments src (suc fuel) ptr = elim (src ptr == 0xff) [
  | false ↦ some (invalid [])
  | true ↦ elim (src (ptr + 1) == 0xc4) [
    | true ↦ some (has_dht (ptr + segment_size src ptr) (copy src ptr (segment_size src ptr)))
    | false ↦ elim (src (ptr + 1) == 0xda) [
      | true ↦ some (no_dht ptr [])
      | false ↦
          Option.map (behind (copy src ptr (segment_size src ptr)))
            (scan_segments src fuel (ptr + segment_size src ptr))
    ]
  ]
]

-- What is done behind the loop: the value returned, and the bytes written.
pub finish : (ℕ → ℕ) → ℕ → Scan → ℕ × List ℕ
finish src capture_len (invalid w) = (0, copy src 0 2 ++ w)
finish src capture_len (no_dht ptr w) = (
  size_add ptr (size_sub (dht_size + capture_len) ptr),
  copy src 0 2 ++ w ++ huffman_table ++ copy src ptr (size_sub capture_len ptr),
)
finish src capture_len (has_dht ptr w) = (
  size_add ptr (size_sub capture_len ptr),
  copy src 0 2 ++ w ++ copy src ptr (size_sub capture_len ptr),
)

pub jpeg_encode_mjpeg : ℕ → (ℕ → ℕ) → ℕ → Option (ℕ × List ℕ)
unfolding scan_segments finish
jpeg_encode_mjpeg fuel src capture_len = elim (not (src 0 == 0xff) && not (src 1 == 0xd8)) [
  | true ↦ some (0, [])
  | false ↦ Option.map (finish src capture_len) (scan_segments src fuel 2)
]

pub jpeg_encode_jpeg : (ℕ → ℕ) → ℕ → ℕ × List ℕ
unfolding copy
jpeg_encode_jpeg src capture_len = (capture_len, copy src 0 capture_len)
