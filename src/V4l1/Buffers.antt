-- ===== src/V4l1/Buffers.antt =====
-- libvideo/v4l1-input.c: the capture through the two buffers of the driver (init_capture_v4l1,
-- start_capture_v4l1, dequeue_buffer_v4l1, enqueue_buffer_v4l1, stop_capture_v4l1,
-- free_capture_v4l1).
pub mod Frames
pub mod Mapping
mod Tests
use v4l4j.Prelude.{
  ℕ, zero, suc, ◌+◌, ◌-◌, ◌%◌, Bool, true, false, Option, none, some, List, [], ◌∷◌, ◌==◌,
  if◌then◌else◌, get_elem?,
}
use v4l4j.Prelude.Int.{ℤ, pos, ltb_ℤ}
use v4l4j.Errors.{success, err_ioctl, err_req_mmap, err_invalid_buf_nb, err_mmap_buf}
use v4l4j.Palettes.Table.{Palette}
use v4l4j.Capture.Records.{CaptureDevice, Mmap, Buffer}
use v4l4j.Capture.Buffers.{map_failed}
use v4l4j.V4l1.Driver.{V4l1Driver, V4l1Trace, Mbuf, gmbuf, mmap, munmap, mcapture, sync}
use v4l4j.V4l1.Capture.{mmap_format}

-- n ^ 1 in C: the other one of two frames
pub other_frame : ℕ → ℕ
other_frame n = if n % 2 == 0 then n + 1 else n - 1

-- the array of buffers, after XMALLOC has cleared it, with the start of the first one
pub first_mapped : ℕ → List Buffer
first_mapped start = record { start = start; length = 0 } ∷ record { start = 0; length = 0 } ∷ []

-- the two buffers in a mapping
pub mapped_buffers : Mbuf → ℕ → List Buffer
mapped_buffers vm start =
    record { start = start; length = vm.size - 1 }
    ∷ record { start = start + vm.second_offset; length = vm.size - 1 }
    ∷ []

-- where a frame starts, `none` for an index past the array
pub frame_start : List Buffer → ℕ → Option ℕ
frame_start bs i = elim (get_elem? bs i) [ none ↦ none | some b ↦ some b.start ]

pub without_mapping : CaptureDevice → CaptureDevice
unfolding first_mapped
without_mapping c = record c {
  mmap = record (c.mmap) { buffer_nr = 2; buffers = first_mapped map_failed };
}

pub with_mapping : Mbuf → ℕ → CaptureDevice → CaptureDevice
unfolding mapped_buffers
with_mapping vm start c = record c {
  mmap = record (c.mmap) {
    buffer_nr = 2;
    buffers = mapped_buffers vm start;
    tmp = 0;
    v4l1_mmap_size = vm.size;
  };
}

module _ (d : V4l1Driver) where
  pub init_capture_v4l1 : CaptureDevice → V4l1Trace → ℤ × CaptureDevice × V4l1Trace
  unfolding with_mapping without_mapping
  init_capture_v4l1 c t =
      let t₁ = gmbuf ∷ t in
      elim (d.on_gmbuf t) [
        | none ↦ (err_req_mmap, c, t₁)
        | some vm ↦
            let t₂ = mmap vm.size ∷ t₁ in
            let mapped = elim (d.on_mmap t₁ vm.size) as (λ o. ℤ × CaptureDevice × V4l1Trace) [
              | none ↦ (err_mmap_buf, without_mapping c, t₂)
              | some start ↦ (success, with_mapping vm start c, t₂)
            ] in
            if ltb_ℤ vm.frames (pos 2) then (err_invalid_buf_nb, c, t₁) else mapped
      ]

  unfoldable pub start_capture_v4l1 :
      Palette → CaptureDevice → V4l1Trace → ℤ × CaptureDevice × V4l1Trace
  start_capture_v4l1 past c t =
      let t₁ = mcapture 0 c.width c.height (mmap_format past c) ∷ t in
      if d.on_mcapture t 0 c.width c.height (mmap_format past c)
      then (success, record c { mmap = record (c.mmap) { tmp = 0 } }, t₁)
      else (err_ioctl, c, t₁)

  -- The address returned, `none` for NULL, and the length stored. The time and the sequence number,
  -- which is always 0, are left out.
  pub dequeue_buffer_v4l1 :
      Palette → CaptureDevice → V4l1Trace → Option ℕ × ℕ × CaptureDevice × V4l1Trace
  unfolding other_frame frame_start
  dequeue_buffer_v4l1 past c t =
      let curr = c.mmap.tmp in
      let next = other_frame c.mmap.tmp in
      let t₁ = mcapture next c.width c.height (mmap_format past c) ∷ t in
      let t₂ = sync curr ∷ t₁ in
      if d.on_mcapture t next c.width c.height (mmap_format past c)
      then (if d.on_sync t₁ curr
          then (
            frame_start c.mmap.buffers curr,
            c.imagesize,
            record c { mmap = record (c.mmap) { tmp = next } },
            t₂,
          )
          else (none, 0, c, t₂))
      else (none, 0, c, t₁)

  pub enqueue_buffer_v4l1 : CaptureDevice → ℕ → V4l1Trace → CaptureDevice × V4l1Trace
  enqueue_buffer_v4l1 c i t = (c, t)

  pub stop_capture_v4l1 : CaptureDevice → V4l1Trace → ℤ × CaptureDevice × V4l1Trace
  stop_capture_v4l1 c t = (success, c, t)

  -- The whole mapping is unmapped at the start of the first buffer.
  pub free_capture_v4l1 : CaptureDevice → V4l1Trace → CaptureDevice × V4l1Trace
  free_capture_v4l1 c t =
      let unmapped = elim (frame_start c.mmap.buffers 0) as (λ o. V4l1Trace) [
        | none ↦ t
        | some start ↦ munmap start c.mmap.v4l1_mmap_size ∷ t
      ] in
      (record c { mmap = record (c.mmap) { buffers = [] } }, unmapped)
