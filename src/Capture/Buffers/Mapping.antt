-- ===== src/Capture/Buffers/Mapping.antt =====
-- What init_capture_v4l2 maps, and that free_capture_v4l2 unmaps it.
use v4l4j.Prelude.{
  ℕ, zero, suc, ◌+◌, Option, none, some, List, [], ◌∷◌, length, ◌≡◌, false, inl, inr, refl, ap,
  arith, Option-cases,
}
use v4l4j.Prelude.Int.{pos, ltb_ℤ}
use v4l4j.Errors.{success}
use v4l4j.Driver.{Driver, Trace, mmap, munmap, reqbufs, querybuf}
use v4l4j.Capture.Records.{CaptureDevice, Buffer}
use v4l4j.Capture.Buffers.{cleared_buffers, map_buffers, init_capture, unmap_all, free_capture}

abbrev pub mapping : Option ℕ → ℕ → List Buffer → List Buffer
mapping none len bs = bs
mapping (some start) len bs = record { start = start; length = len } ∷ bs

-- The elements of the first list, in reverse, before those of the second.
abbrev pub rev_append {ℓ} : {A : Type ℓ} → List A → List A → List A
rev_append [] ys = ys
rev_append (x ∷ xs) ys = rev_append xs (x ∷ ys)

-- The buffers of the trace's successful mmap calls, the latest first.
abbrev pub mapped : Driver → Trace → List Buffer
mapped d [] = []
mapped d (mmap len offset ∷ t) = mapping (d.on_mmap t len offset) len (mapped d t)
mapped d (_ ∷ t) = mapped d t

-- The buffers of the trace's munmap calls, the latest first.
abbrev pub unmapped : Trace → List Buffer
unmapped [] = []
unmapped (munmap start len ∷ t) = record { start = start; length = len } ∷ unmapped t
unmapped (_ ∷ t) = unmapped t

length-cleared_buffers : (n : ℕ) → length (cleared_buffers n) ≡ n
length-cleared_buffers zero = refl
length-cleared_buffers (suc n) = ap suc (length-cleared_buffers n)

module _ (d : Driver) where
  length-map_buffers : (rounds i : ℕ) (t : Trace) → length (map_buffers d rounds i t).1 ≡ rounds
  unfolding map_buffers
  length-map_buffers zero i t = refl
  length-map_buffers (suc rounds) i t = elim (Option-cases (d.on_querybuf t i)) [
    | inl e ↦ ground (arith, length-cleared_buffers rounds)
    | inr (buf, e) ↦ ground (
      arith,
      length-map_buffers rounds (i + 1) (mmap buf.length buf.offset ∷ querybuf i ∷ t),
      length-cleared_buffers rounds,
    )
  ]

  mapped-map_buffers :
      (rounds i : ℕ) (t : Trace)
      → (map_buffers d rounds i t).0 ≡ success
      → mapped d (map_buffers d rounds i t).2 ≡ rev_append (map_buffers d rounds i t).1 (mapped d t)
  unfolding map_buffers
  mapped-map_buffers zero i t h = refl
  mapped-map_buffers (suc rounds) i t h = elim (Option-cases (d.on_querybuf t i)) [
    | inl e ↦ ground arith
    | inr (buf, e) ↦
        ground
          (arith, mapped-map_buffers rounds (i + 1) (mmap buf.length buf.offset ∷ querybuf i ∷ t))
  ]

  unmapped-map_buffers :
      (rounds i : ℕ) (t : Trace) → unmapped (map_buffers d rounds i t).2 ≡ unmapped t
  unfolding map_buffers
  unmapped-map_buffers zero i t = refl
  unmapped-map_buffers (suc rounds) i t = elim (Option-cases (d.on_querybuf t i)) [
    | inl e ↦ ground arith
    | inr (buf, e) ↦
        ground
          (arith, unmapped-map_buffers rounds (i + 1) (mmap buf.length buf.offset ∷ querybuf i ∷ t))
  ]

  mapped-unmap_all : (bs : List Buffer) (t : Trace) → mapped d (unmap_all bs t) ≡ mapped d t
  unfolding unmap_all
  mapped-unmap_all [] t = refl
  mapped-unmap_all (b ∷ bs) t = mapped-unmap_all bs (munmap b.start b.length ∷ t)

unmapped-unmap_all :
    (bs : List Buffer) (t : Trace) → unmapped (unmap_all bs t) ≡ rev_append bs (unmapped t)
unfolding unmap_all
unmapped-unmap_all [] t = refl
unmapped-unmap_all (b ∷ bs) t = unmapped-unmap_all bs (munmap b.start b.length ∷ t)

map_buffers-sign :
    (d : Driver) (rounds i : ℕ) (t : Trace)
    → ltb_ℤ (map_buffers d rounds i t).0 (pos 0) ≡ false
    → (map_buffers d rounds i t).0 ≡ success
unfolding map_buffers
map_buffers-sign d zero i t h = refl
map_buffers-sign d (suc rounds) i t h = elim (Option-cases (d.on_querybuf t i)) [
  | inl e ↦ ground arith
  | inr (buf, e) ↦
      ground
        (arith, map_buffers-sign d rounds (i + 1) (mmap buf.length buf.offset ∷ querybuf i ∷ t))
]

-- init_capture_v4l2 returns an error where it does not return 0.
pub init_capture-sign :
    (d : Driver) (c : CaptureDevice) (t : Trace)
    → ltb_ℤ (init_capture d c t).0 (pos 0) ≡ false
    → (init_capture d c t).0 ≡ success
unfolding init_capture
init_capture-sign d c t h = elim (Option-cases (d.on_reqbufs t c.mmap.req_buffer_nr)) [
  | inl e ↦ ground arith
  | inr (n, e) ↦ ground (arith, map_buffers-sign d n 0 (reqbufs c.mmap.req_buffer_nr ∷ t))
]

module _ (d : Driver) (c : CaptureDevice) (t : Trace) where
  -- After a successful init_capture_v4l2 the device has as many buffers as the driver granted, they
  -- are those of the mmap calls made, and nothing was unmapped.
  init_capture-maps :
      (init_capture d c t).0 ≡ success
      → let (ret, c', t') = init_capture d c t in
        (length c'.mmap.buffers ≡ c'.mmap.buffer_nr)
        × (d.on_reqbufs t c.mmap.req_buffer_nr ≡ some c'.mmap.buffer_nr)
        × (mapped d t' ≡ rev_append c'.mmap.buffers (mapped d t))
        × (unmapped t' ≡ unmapped t)
  unfolding init_capture
  init_capture-maps h = elim (Option-cases (d.on_reqbufs t c.mmap.req_buffer_nr)) [
    | inl e ↦ ground arith
    | inr (n, e) ↦
        let t₁ = reqbufs c.mmap.req_buffer_nr ∷ t in
        ground (
          arith,
          length-map_buffers d n 0 t₁,
          mapped-map_buffers d n 0 t₁,
          unmapped-map_buffers d n 0 t₁,
        )
  ]

  -- free_capture_v4l2 after a successful init_capture_v4l2 unmaps each buffer that the latter mapped,
  -- once, in the order of mapping, with the address and length mapped, maps nothing, and ends by
  -- asking the driver for no buffers. The device has as many buffers as the driver granted.
  pub free_capture-init_capture :
      (init_capture d c t).0 ≡ success
      → let (ret, c', t') = init_capture d c t in
        let (c'', t'') = free_capture c' t' in
        (length c'.mmap.buffers ≡ c'.mmap.buffer_nr)
        × (d.on_reqbufs t c.mmap.req_buffer_nr ≡ some c'.mmap.buffer_nr)
        × (mapped d t'' ≡ rev_append c'.mmap.buffers (mapped d t))
        × (unmapped t'' ≡ rev_append c'.mmap.buffers (unmapped t))
        × (c''.mmap.buffers ≡ [])
        × (t'' ≡ reqbufs 0 ∷ unmap_all c'.mmap.buffers t')
  unfolding free_capture
  free_capture-init_capture h =
      let (ret, c', t') = init_capture d c t in
      ground (
        arith,
        init_capture-maps h,
        mapped-unmap_all d c'.mmap.buffers t',
        unmapped-unmap_all c'.mmap.buffers t',
      )
