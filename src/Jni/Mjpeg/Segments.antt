-- ===== src/Jni/Mjpeg/Segments.antt =====
-- The loop of jpeg_encode_mjpeg (src/jpeg.c) over a frame that is made of segments.
use v4l4j.Prelude.{
  ℕ, zero, suc, ◌+◌, ◌/◌, ◌%◌, ◌<◌, ◌≡◌, ◌≢◌, refl, subst, ap, ap₂, ◌∙◌, true, false, not, ◌&&◌,
  Option, none, some, List, [], ◌∷◌, ◌++◌, length, length-append, ◌==◌, arith,
}
use mathlib.Core.List.{append_assoc}
use mathlib.Core.Option
use v4l4j.Jni.Mjpeg.{
  Scan, invalid, has_dht, no_dht, copy, size_sub, size_add, behind, segment_size, scan_segments,
  finish, jpeg_encode_mjpeg,
}
use v4l4j.Jni.Mjpeg.Huffman.{huffman_table}

-- The bytes stand in the memory from an offset on.
abbrev pub Holds : (ℕ → ℕ) → List ℕ → ℕ → Type 0
Holds src [] from = Unit
Holds src (b ∷ bs) from = (src from ≡ b) × Holds src bs (from + 1)

pub record Segment : Type 0 where
  pub marker : ℕ
  pub payload : List ℕ

-- the two bytes of the size count themselves
abbrev pub segment_bytes : Segment → List ℕ
segment_bytes s =
    0xff ∷ s.marker ∷ (2 + length s.payload) / 256 ∷ (2 + length s.payload) % 256 ∷ s.payload

abbrev pub bytes_of : List Segment → List ℕ
bytes_of [] = []
bytes_of (s ∷ ss) = segment_bytes s ++ bytes_of ss

-- Segments that are neither Huffman tables nor the start of a scan.
abbrev pub ArePlain : List Segment → Type 0
ArePlain [] = Unit
ArePlain (s ∷ ss) = (s.marker ≢ 0xc4) × (s.marker ≢ 0xda) × ArePlain ss

pub copy-Holds :
    (src : ℕ → ℕ) (bs : List ℕ) (from : ℕ) → Holds src bs from → copy src from (length bs) ≡ bs
unfolding copy
copy-Holds src [] from h = refl
copy-Holds src (b ∷ bs) from (e, h) = ap₂ ◌∷◌ e (copy-Holds src bs (from + 1) h)

pub Holds-append :
    (src : ℕ → ℕ) (bs cs : List ℕ) (from next : ℕ)
    → next ≡ from + length bs
    → Holds src (bs ++ cs) from
    → Holds src bs from × Holds src cs next
Holds-append src [] cs from next e h = (tt, subst (λ i. Holds src cs i) (omega arith) h)
Holds-append src (b ∷ bs) cs from next e (f, h) =
    let (p, q) = Holds-append src bs cs (from + 1) next (omega arith) h in ((f, p), q)

-- At a segment the loop reads its length, marker and all.
segment_size-Holds :
    (src : ℕ → ℕ) (ptr : ℕ) (s : Segment)
    → Holds src (segment_bytes s) ptr
    → segment_size src ptr ≡ length (segment_bytes s)
unfolding segment_size
segment_size-Holds src ptr s (a, (b, (c, (d, h)))) =
    let hi : src (ptr + 2) ≡ (2 + length s.payload) / 256 =
      (let e : ptr + 2 ≡ ptr + 1 + 1 = omega arith in ap src e) ∙ c in
    let lo : src (ptr + 3) ≡ (2 + length s.payload) % 256 =
      (let e : ptr + 3 ≡ ptr + 1 + 1 + 1 = omega arith in ap src e) ∙ d in
    omega arith

copy_segment :
    (src : ℕ → ℕ) (ptr : ℕ) (s : Segment)
    → Holds src (segment_bytes s) ptr
    → copy src ptr (segment_size src ptr) ≡ segment_bytes s
copy_segment src ptr s h =
    ap (copy src ptr) (segment_size-Holds src ptr s h) ∙ copy-Holds src (segment_bytes s) ptr h

-- A plain segment is copied, and the loop goes on behind it.
scan-segment :
    (src : ℕ → ℕ) (fuel ptr : ℕ) (s : Segment)
    → s.marker ≢ 0xc4
    → s.marker ≢ 0xda
    → Holds src (segment_bytes s) ptr
    → scan_segments src (suc fuel) ptr
      ≡ Option.map
          (behind (segment_bytes s))
          (scan_segments src fuel (ptr + length (segment_bytes s)))
unfolding scan_segments
scan-segment src fuel ptr s p q h =
    let ff : (src ptr == 0xff) ≡ true = ground (arith, h.0) in
    let c4 : (src (ptr + 1) == 0xc4) ≡ false = ground (arith, h.1) in
    let da : (src (ptr + 1) == 0xda) ≡ false = ground (arith, h.1) in
    rw (scan_segments, ff, c4, da, copy_segment src ptr s h, segment_size-Holds src ptr s h) refl

behind-append :
    (bs cs : List ℕ) (o : Option Scan)
    → Option.map (behind bs) (Option.map (behind cs) o) ≡ Option.map (behind (bs ++ cs)) o
unfolding behind
behind-append bs cs none = refl
behind-append bs cs (some (invalid w)) = rw (append_assoc bs cs w) refl
behind-append bs cs (some (has_dht ptr w)) = rw (append_assoc bs cs w) refl
behind-append bs cs (some (no_dht ptr w)) = rw (append_assoc bs cs w) refl

behind-nil : (o : Option Scan) → o ≡ Option.map (behind []) o
unfolding behind
behind-nil none = refl
behind-nil (some (invalid w)) = refl
behind-nil (some (has_dht ptr w)) = refl
behind-nil (some (no_dht ptr w)) = refl

-- All plain segments are copied, one round for each.
pub scan-segments :
    (src : ℕ → ℕ) (ss : List Segment) (fuel rest ptr next : ℕ)
    → ArePlain ss
    → fuel ≡ length ss + rest
    → next ≡ ptr + length (bytes_of ss)
    → Holds src (bytes_of ss) ptr
    → scan_segments src fuel ptr ≡ Option.map (behind (bytes_of ss)) (scan_segments src rest next)
scan-segments src [] fuel rest ptr next plain e f h =
    ap₂ (scan_segments src) (omega arith) (omega arith) ∙ behind-nil _
scan-segments src (s ∷ ss) zero rest ptr next plain e f h = absurd (omega arith)
scan-segments src (s ∷ ss) (suc fuel) rest ptr next (p, q, plain) e f h =
    let (first, others) =
      Holds-append src (segment_bytes s) (bytes_of ss) ptr (ptr + length (segment_bytes s)) refl
        h in
    scan-segment src fuel ptr s p q first
    ∙ ap (Option.map (behind (segment_bytes s))) (
        scan-segments src ss fuel rest (ptr + length (segment_bytes s)) next plain (omega arith)
          (omega (arith, length-append (segment_bytes s) (bytes_of ss))) others)
    ∙ behind-append (segment_bytes s) (bytes_of ss) _

pub pair_of : {n m : ℕ} {v w : List ℕ} → n ≡ m → v ≡ w → ◌≡◌ {A = ℕ × List ℕ} (n, v) (m, w)
pair_of p q = rw (p, q) refl

-- The loop stops before a scan.
pub scan-image :
    (src : ℕ → ℕ) (rest ptr : ℕ) (image : List ℕ)
    → Holds src (0xff ∷ 0xda ∷ image) ptr
    → scan_segments src (suc rest) ptr ≡ some (no_dht ptr [])
unfolding scan_segments
scan-image src rest ptr image (ff, (da, held)) =
    let is_ff : (src ptr == 0xff) ≡ true = ground arith in
    let no_c4 : (src (ptr + 1) == 0xc4) ≡ false = ground arith in
    let is_da : (src (ptr + 1) == 0xda) ≡ true = ground arith in
    rw (scan_segments, is_ff, no_c4, is_da) refl

-- It stops behind a segment with Huffman tables, which it copies.
pub scan-tables :
    (src : ℕ → ℕ) (rest ptr : ℕ) (s : Segment)
    → s.marker ≡ 0xc4
    → Holds src (segment_bytes s) ptr
    → scan_segments src (suc rest) ptr
      ≡ some (has_dht (ptr + length (segment_bytes s)) (segment_bytes s))
unfolding scan_segments
scan-tables src rest ptr s dht h =
    let is_ff : (src ptr == 0xff) ≡ true = ground (arith, h.0) in
    let is_c4 : (src (ptr + 1) == 0xc4) ≡ true = ground (arith, h.1.0) in
    rw (scan_segments, is_ff, is_c4, copy_segment src ptr s h, segment_size-Holds src ptr s h) refl

pub finish-no_dht :
    (src : ℕ → ℕ) (capture_len ptr : ℕ) (tail w : List ℕ)
    → Holds src tail ptr
    → capture_len ≡ ptr + length tail
    → capture_len < 4_294_967_296
    → finish src capture_len (no_dht ptr w)
      ≡ (420 + capture_len, copy src 0 2 ++ w ++ huffman_table ++ tail)
unfolding finish size_add size_sub
finish-no_dht src capture_len ptr tail w h e small =
    let n : size_sub capture_len ptr ≡ length tail = omega arith in
    pair_of (omega arith) (
      ap (λ t. copy src 0 2 ++ w ++ huffman_table ++ t)
        (ap (copy src ptr) n ∙ copy-Holds src tail ptr h))

pub finish-has_dht :
    (src : ℕ → ℕ) (capture_len ptr : ℕ) (tail w : List ℕ)
    → Holds src tail ptr
    → capture_len ≡ ptr + length tail
    → capture_len < 4_294_967_296
    → finish src capture_len (has_dht ptr w) ≡ (capture_len, copy src 0 2 ++ w ++ tail)
unfolding finish size_add size_sub
finish-has_dht src capture_len ptr tail w h e small =
    let n : size_sub capture_len ptr ≡ length tail = omega arith in
    pair_of (omega arith)
      (ap (λ t. copy src 0 2 ++ w ++ t) (ap (copy src ptr) n ∙ copy-Holds src tail ptr h))

pub first_byte :
    (src : ℕ → ℕ) (fuel capture_len : ℕ)
    → src 0 ≡ 0xff
    → jpeg_encode_mjpeg fuel src capture_len
      ≡ Option.map (finish src capture_len) (scan_segments src fuel 2)
unfolding jpeg_encode_mjpeg
first_byte src fuel capture_len ff =
    let guard : (not (src 0 == 0xff) && not (src 1 == 0xd8)) ≡ false = ground arith in
    rw (jpeg_encode_mjpeg, guard) refl
