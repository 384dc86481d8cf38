-- ===== src/Capture/Buffers/Tests.antt =====
-- The buffers on small drivers, and the theorems at them.
use v4l4j.Prelude.{
  true, false, none, some, [], ◌∷◌, length, get_elem?, ◌≡◌, ◌⊎◌, refl, ◌==◌, if◌then◌else◌, arith,
}
use v4l4j.Errors.{success, err_ioctl, err_mmap_buf}
use v4l4j.Driver.{Driver, Dequeued, reqbufs, querybuf, mmap, qbuf, streamon}
use v4l4j.Samples.{obliging, camera}
use v4l4j.Capture.Records.{CaptureDevice, Buffer}
use v4l4j.Capture.Buffers.{
  dequeue_buffer, enqueue_buffer, map_failed, init_capture, start_capture, free_capture, unmap_all,
}
use v4l4j.Capture.Buffers.Mapping.{mapped, unmapped, rev_append, free_capture-init_capture}
use v4l4j.Capture.Buffers.Ownership.{
  Streams, started, dequeued, enqueued, occurrences, queued, taken, dequeue_buffer-Streams,
}
use v4l4j.Capture.Buffers.Streaming.{TakesAll, starts, start_capture-queue_calls}

-- It cannot map the second buffer.
abbrev one_mapping : Driver
one_mapping = record obliging {
  on_querybuf = λ t i. some (record { length = 4096; offset = i });
  on_mmap = λ t n o. if o == 0 then some 0x1000 else none;
}

abbrev two_buffers : CaptureDevice
two_buffers = record camera { mmap = record (camera.mmap) { buffer_nr = 2 } }

init_capture_twice :
    (init_capture obliging camera []).2
    ≡ mmap 4096 4096 ∷ querybuf 1 ∷ mmap 4096 4096 ∷ querybuf 0 ∷ reqbufs 2 ∷ []
unfolding init_capture
init_capture_twice = refl

init_capture_mmap_fails :
    let (ret, c, t) = init_capture one_mapping camera [] in
    (ret ≡ err_mmap_buf)
    × (c.mmap.buffers
        ≡ record { start = 0x1000; length = 4096 }
          ∷ record { start = map_failed; length = 4096 }
          ∷ [])
    × (unmapped t ≡ [])
unfolding init_capture
init_capture_mmap_fails = (refl, refl, refl)

free_capture-init_capture_example :
    let (ret, c', t') = init_capture obliging camera [] in
    let (c'', t'') = free_capture c' t' in
    (length c'.mmap.buffers ≡ c'.mmap.buffer_nr)
    × (some 2 ≡ some c'.mmap.buffer_nr)
    × (mapped obliging t'' ≡ rev_append c'.mmap.buffers [])
    × (unmapped t'' ≡ rev_append c'.mmap.buffers [])
    × (c''.mmap.buffers ≡ [])
    × (t'' ≡ reqbufs 0 ∷ unmap_all c'.mmap.buffers t')
unfolding init_capture
free_capture-init_capture_example = free_capture-init_capture obliging camera [] refl

start_capture-queue_calls_example :
    let (ret, t') = start_capture obliging two_buffers [] in
    ((ret ≡ success)
      × TakesAll obliging 2 0 []
      × (◌≡◌ true true)
      × (t' ≡ streamon ∷ qbuf 1 ∷ qbuf 0 ∷ []))
    ⊎ ((ret ≡ err_ioctl) × TakesAll obliging 2 0 [] × (◌≡◌ true false) × (starts t' ≡ 1))
    ⊎ ((ret ≡ err_ioctl) × ¬ TakesAll obliging 2 0 [] × (starts t' ≡ 0))
start_capture-queue_calls_example = start_capture-queue_calls obliging two_buffers []

-- Two buffers mapped, and a driver with a frame in the second one at each call.
abbrev two_mapped : CaptureDevice
two_mapped = record camera {
  mmap = record (camera.mmap) {
    buffer_nr = 2;
    buffers =
        record { start = 0x1000; length = 4096 } ∷ record { start = 0x2000; length = 4096 } ∷ [];
  };
}

abbrev second_frame : Dequeued
second_frame = record { index = 1; bytesused = 4096; timestamp = 0; sequence = 0 }

abbrev one_frame : Driver
one_frame = record obliging { on_dqbuf = λ t. some second_frame }

streaming : Streams one_frame two_mapped [] (streamon ∷ qbuf 1 ∷ qbuf 0 ∷ []) (0 ∷ 1 ∷ []) []
unfolding start_capture
streaming = started refl

-- The frame is dequeued, its buffer given back, and dequeued again.
dequeue_buffer-Streams_example :
    let t =
      enqueue_buffer one_frame 1
        (dequeue_buffer one_frame two_mapped (streamon ∷ qbuf 1 ∷ qbuf 0 ∷ [])).1 in
    (queued one_frame t ≡ 0 ∷ 1 ∷ [])
    × (taken one_frame t ≡ [])
    × (buf : Buffer) × (get_elem? two_mapped.mmap.buffers 1 ≡ some buf)
    × ((dequeue_buffer one_frame two_mapped t).0 ≡ some (second_frame, some buf.start))
    × (occurrences 1 [] ≡ 0)
dequeue_buffer-Streams_example =
    dequeue_buffer-Streams one_frame two_mapped []
      (enqueue_buffer one_frame 1
        (dequeue_buffer one_frame two_mapped (streamon ∷ qbuf 1 ∷ qbuf 0 ∷ [])).1)
      (0 ∷ 1 ∷ []) [] second_frame (refl, refl)
      (enqueued 1 (dequeued second_frame streaming refl (omega arith)) (omega arith)) refl refl
      (omega arith)
