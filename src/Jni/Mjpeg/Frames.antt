-- ===== src/Jni/Mjpeg/Frames.antt =====
-- What jpeg_encode_mjpeg (src/jpeg.c) writes for a frame that is made of segments.
use v4l4j.Prelude.{
  ℕ, suc, ◌+◌, ◌-◌, ◌<◌, ◌≡◌, refl, sym, subst, ap, ap₂, ◌∙◌, some, List, [], ◌∷◌, ◌++◌, length,
  length-append, arith,
}
use mathlib.Core.List.{append-nil, append_assoc}
use mathlib.Core.Option
use v4l4j.Jni.Mjpeg.{behind, scan_segments, finish, jpeg_encode_mjpeg}
use v4l4j.Jni.Mjpeg.Huffman.{huffman_table}
use v4l4j.Jni.Mjpeg.Segments.{
  Holds, Segment, segment_bytes, bytes_of, ArePlain, copy-Holds, Holds-append, scan-segments,
  pair_of, scan-image, scan-tables, finish-no_dht, finish-has_dht, first_byte,
}

module _ (src : ℕ → ℕ) (fuel capture_len : ℕ) (ss : List Segment) where
  -- The frame starts with the two bytes of its marker, and the loop copies the plain segments.
  encode-segments :
      (tail : List ℕ)
      → ArePlain ss
      → length ss < fuel
      → Holds src (0xff ∷ 0xd8 ∷ bytes_of ss ++ tail) 0
      → (rest : ℕ) × (jpeg_encode_mjpeg fuel src capture_len
          ≡ Option.map (finish src capture_len) (
              Option.map
                (behind (bytes_of ss))
                (scan_segments src (suc rest) (2 + length (bytes_of ss)))))
        × Holds src tail (2 + length (bytes_of ss))
  encode-segments tail plain enough (ff, (d8, h)) =
      let (body, end) = Holds-append src (bytes_of ss) tail 2 (2 + length (bytes_of ss)) refl h in
      (
        fuel - suc (length ss),
        first_byte src fuel capture_len ff
            ∙ (ap (Option.map (finish src capture_len)) (
                scan-segments src ss fuel (suc (fuel - suc (length ss))) 2 _ plain (omega arith)
                  refl body)),
        end,
      )

  -- For a frame made of plain segments and a scan, with no Huffman tables, jpeg_encode_mjpeg ends
  -- within one round for every segment and one more, returns the frame's length and 420, and
  -- writes the frame with the tables of 420 bytes inserted before the scan.
  pub jpeg_encode_mjpeg-inserts :
      (image : List ℕ)
      → ArePlain ss
      → length ss < fuel
      → Holds src (0xff ∷ 0xd8 ∷ bytes_of ss ++ (0xff ∷ 0xda ∷ image)) 0
      → capture_len ≡ length (0xff ∷ 0xd8 ∷ bytes_of ss ++ (0xff ∷ 0xda ∷ image))
      → capture_len < 4_294_967_296
      → jpeg_encode_mjpeg fuel src capture_len
        ≡ some
            (capture_len + 420, 0xff ∷ 0xd8 ∷ bytes_of ss ++ huffman_table ++ (0xff ∷ 0xda ∷ image))
  unfolding behind
  jpeg_encode_mjpeg-inserts image plain enough h e small =
      let (rest, run, held) = encode-segments (0xff ∷ 0xda ∷ image) plain enough h in
      let len = length-append (bytes_of ss) (0xff ∷ 0xda ∷ image) in
      run
      ∙ ap (λ o. Option.map (finish src capture_len) (Option.map (behind (bytes_of ss)) o))
          (scan-image src rest (2 + length (bytes_of ss)) image held)
      ∙ ap some (
          finish-no_dht src capture_len (2 + length (bytes_of ss)) (0xff ∷ 0xda ∷ image)
            (bytes_of ss ++ []) held (omega arith) small
          ∙ pair_of (omega arith) (
              ap₂ (λ soi w. soi ++ w ++ huffman_table ++ (0xff ∷ 0xda ∷ image))
                (copy-Holds src (0xff ∷ 0xd8 ∷ []) 0 (h.0, (h.1.0, tt)))
                (append-nil (bytes_of ss))))

  -- For a frame made of plain segments, Huffman tables in a segment of their own and more bytes,
  -- jpeg_encode_mjpeg ends as soon and writes the frame as it is.
  pub jpeg_encode_mjpeg-keeps :
      (tables image : List ℕ)
      → ArePlain ss
      → length ss < fuel
      → Holds src
          (0xff ∷ 0xd8 ∷ bytes_of ss
            ++ (segment_bytes (record { marker = 0xc4; payload = tables }) ++ image))
          0
      → capture_len
        ≡ length (
            0xff ∷ 0xd8 ∷ bytes_of ss
            ++ (segment_bytes (record { marker = 0xc4; payload = tables }) ++ image))
      → capture_len < 4_294_967_296
      → jpeg_encode_mjpeg fuel src capture_len
        ≡ some (
          capture_len,
          0xff ∷ 0xd8 ∷ bytes_of ss
              ++ (segment_bytes (record { marker = 0xc4; payload = tables }) ++ image),
        )
  unfolding behind
  jpeg_encode_mjpeg-keeps tables image plain enough h e small =
      let dht : Segment = record { marker = 0xc4; payload = tables } in
      let ptr = 2 + length (bytes_of ss) in
      let (rest, run, held) = encode-segments (segment_bytes dht ++ image) plain enough h in
      let (whole, others) =
        Holds-append src (segment_bytes dht) image ptr (ptr + length (segment_bytes dht)) refl
          held in
      run
      ∙ ap (λ o. Option.map (finish src capture_len) (Option.map (behind (bytes_of ss)) o))
          (scan-tables src rest ptr dht refl whole)
      ∙ ap some (
          finish-has_dht src capture_len (ptr + length (segment_bytes dht)) image
            (bytes_of ss ++ segment_bytes dht) others
            (omega (
              arith,
              length-append (bytes_of ss) (segment_bytes dht ++ image),
              length-append (segment_bytes dht) image,
            ))
            small
          ∙ pair_of refl (
              ap (λ soi. soi ++ (bytes_of ss ++ segment_bytes dht) ++ image)
                (copy-Holds src (0xff ∷ 0xd8 ∷ []) 0 (h.0, (h.1.0, tt)))
              ∙ ap (λ w. 0xff ∷ 0xd8 ∷ w) (append_assoc (bytes_of ss) (segment_bytes dht) image)))

tables_of : List ℕ → List ℕ
tables_of (a ∷ b ∷ c ∷ d ∷ bytes) = bytes
tables_of bytes = bytes

-- The tables inserted are one segment.
huffman_table-segment :
    huffman_table ≡ segment_bytes (record { marker = 0xc4; payload = tables_of huffman_table })
unfolding tables_of
huffman_table-segment = refl

-- A frame into which jpeg_encode_mjpeg inserted its tables is one that it keeps: where the memory
-- holds its result for plain segments and a scan, a second run returns the same length and bytes.
pub jpeg_encode_mjpeg_idem :
    (src : ℕ → ℕ) (fuel : ℕ) (ss : List Segment) (image out : List ℕ)
    → ArePlain ss
    → length ss < fuel
    → out ≡ 0xff ∷ 0xd8 ∷ bytes_of ss ++ (huffman_table ++ (0xff ∷ 0xda ∷ image))
    → Holds src out 0
    → length out < 4_294_967_296
    → jpeg_encode_mjpeg fuel src (length out) ≡ some (length out, out)
jpeg_encode_mjpeg_idem src fuel ss image out plain enough e h small =
    let tables = tables_of huffman_table in
    let e' : out
        ≡ 0xff ∷ 0xd8 ∷ bytes_of ss
          ++ (segment_bytes (record { marker = 0xc4; payload = tables }) ++ (0xff ∷ 0xda ∷ image)) =
      e
      ∙ ap (λ t. 0xff ∷ 0xd8 ∷ (bytes_of ss ++ (t ++ (0xff ∷ 0xda ∷ image))))
          huffman_table-segment in
    jpeg_encode_mjpeg-keeps src fuel (length out) ss tables (0xff ∷ 0xda ∷ image) plain enough
      (subst (λ o. Holds src o 0) e' h) (ap length e') small
    ∙ ap some (pair_of refl (sym e'))
