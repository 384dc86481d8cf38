-- ===== src/Capture/Buffers.antt =====
-- libvideo/v4l2-input.c: the buffers shared with the driver (init_capture_v4l2, start_capture_v4l2,
-- dequeue_buffer_v4l2, enqueue_buffer_v4l2, stop_capture_v4l2, free_capture_v4l2).
pub mod Mapping
pub mod Ownership
pub mod Streaming
mod Tests
use v4l4j.Prelude.{
  ℕ, zero, suc, ◌+◌, Bool, true, false, Option, none, some, List, [], ◌∷◌, ◌++◌, if◌then◌else◌,
  length, get_elem?,
}
use v4l4j.Prelude.Int.{ℤ}
use v4l4j.Errors.{success, err_ioctl, err_req_mmap, err_req_mmap_buf, err_mmap_buf}
use v4l4j.Driver.{
  Driver, Trace, BufferDesc, Dequeued, reqbufs, querybuf, mmap, munmap, qbuf, dqbuf, streamon,
  streamoff,
}
use v4l4j.Capture.Records.{CaptureDevice, Mmap, Buffer}

-- MAP_FAILED, as an address
abbrev pub map_failed : ℕ
map_failed = 0xffff_ffff_ffff_ffff

abbrev pub cleared : Buffer
cleared = record { start = 0; length = 0 }

-- the elements of the allocated array that the loop has not reached
abbrev pub cleared_buffers : ℕ → List Buffer
cleared_buffers zero = []
cleared_buffers (suc n) = cleared ∷ cleared_buffers n

unfoldable pub start_of : Option Buffer → Option ℕ
start_of none = none
start_of (some b) = some b.start

module _ (d : Driver) where
  -- The loop of init_capture_v4l2 from the index `i` on, for the given number of rounds: the result,
  -- the array from `i` on, and the calls made. The loop returns at its first error.
  unfoldable pub map_buffers : ℕ → ℕ → Trace → ℤ × List Buffer × Trace
  map_buffers zero i t = (success, [], t)
  map_buffers (suc rounds) i t = elim (d.on_querybuf t i) [
    | none ↦ (err_req_mmap_buf, cleared_buffers (suc rounds), querybuf i ∷ t)
    | some buf ↦
        let t₁ = mmap buf.length buf.offset ∷ querybuf i ∷ t in
        elim (d.on_mmap (querybuf i ∷ t) buf.length buf.offset) [
          | none ↦ (
            err_mmap_buf,
            record { start = map_failed; length = buf.length } ∷ cleared_buffers rounds,
            t₁,
          )
          | some start ↦
              let (ret, bs, t₂) = map_buffers rounds (i + 1) t₁ in
              (ret, record { start = start; length = buf.length } ∷ bs, t₂)
        ]
  ]

  unfoldable pub init_capture : CaptureDevice → Trace → ℤ × CaptureDevice × Trace
  unfolding map_buffers
  init_capture c t =
      let t₁ = reqbufs c.mmap.req_buffer_nr ∷ t in
      elim (d.on_reqbufs t c.mmap.req_buffer_nr) [
        | none ↦ (err_req_mmap, c, t₁)
        | some count ↦
            let (ret, bs, t₂) = map_buffers count 0 t₁ in
            (ret, record c { mmap = record (c.mmap) { buffer_nr = count; buffers = bs } }, t₂)
      ]

  -- The loop of start_capture_v4l2; true where every buffer was queued.
  pub queue_all : ℕ → ℕ → Trace → Bool × Trace
  queue_all zero i t = (true, t)
  queue_all (suc rounds) i t =
      let rest = queue_all rounds (i + 1) (qbuf i ∷ t) in
      if d.on_qbuf t i then rest else (false, qbuf i ∷ t)

  pub start_capture : CaptureDevice → Trace → ℤ × Trace
  unfolding queue_all
  start_capture c t =
      let (queued, t₁) = queue_all c.mmap.buffer_nr 0 t in
      if queued
      then (if d.on_streamon t₁ then (success, streamon ∷ t₁) else (err_ioctl, streamon ∷ t₁))
      else (err_ioctl, t₁)

  -- The frame's description and address; the address is `none` where the driver names a buffer that
  -- the array does not have, which the source reads out of bounds.
  unfoldable pub dequeue_buffer : CaptureDevice → Trace → Option (Dequeued × Option ℕ) × Trace
  unfolding start_of
  dequeue_buffer c t = elim (d.on_dqbuf t) [
    | none ↦ (none, dqbuf ∷ t)
    | some b ↦ (some (b, start_of (get_elem? c.mmap.buffers b.index)), dqbuf ∷ t)
  ]

  -- An error of the driver is only logged.
  unfoldable pub enqueue_buffer : ℕ → Trace → Trace
  enqueue_buffer index t = qbuf index ∷ t

  pub stop_capture : Trace → ℤ × Trace
  stop_capture t = ((if d.on_streamoff t then success else err_ioctl), streamoff ∷ t)

-- The loop of free_capture_v4l2 over the buffers; errors are only logged.
pub unmap_all : List Buffer → Trace → Trace
unmap_all [] t = t
unmap_all (b ∷ bs) t = unmap_all bs (munmap b.start b.length ∷ t)

-- The buffers' array and the two formats are freed; asking for no buffers releases the driver's.
pub free_capture : CaptureDevice → Trace → CaptureDevice × Trace
unfolding unmap_all
free_capture c t = (
  record c {
    mmap = record (c.mmap) { buffers = [] };
    convert = record (c.convert) { src_fmt = none; dst_fmt = none };
  },
  reqbufs 0 ∷ unmap_all c.mmap.buffers t,
)
