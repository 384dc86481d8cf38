-- ===== src/V4l1/Buffers/Tests.antt =====
-- A V4L1 capture on a small driver, and the theorems at it.
use v4l4j.Prelude.{ℕ, ◌+◌, ◌%◌, true, false, none, some, [], ◌∷◌, ◌≡◌, ◌≢◌, ◌⊎◌, refl}
use v4l4j.Prelude.Int.{pos, ◌≤ℤ◌}
use v4l4j.Errors.{success}
use v4l4j.Samples.{camera}
use v4l4j.Capture.Records.{CaptureDevice, Buffer}
use v4l4j.V4l1.Driver.{V4l1Trace, Mbuf, gmbuf, mmap, munmap}
use v4l4j.V4l1.Samples.{old_driver, zeroes}
use v4l4j.V4l1.Buffers.{
  mapped_buffers, frame_start, init_capture_v4l1, start_capture_v4l1, dequeue_buffer_v4l1,
  free_capture_v4l1,
}
use v4l4j.V4l1.Buffers.Mapping.{free_capture-init_capture_v4l1}
use v4l4j.V4l1.Buffers.Frames.{filling, started, shown, dequeue_buffer_v4l1-Shown}

-- the device and the calls once the buffers are mapped
abbrev mapped : CaptureDevice
mapped = (init_capture_v4l1 old_driver camera []).1

abbrev map_calls : V4l1Trace
map_calls = mmap 8192 ∷ gmbuf ∷ []

camera_has_buffers : init_capture_v4l1 old_driver camera [] ≡ (success, mapped, map_calls)
unfolding init_capture_v4l1
camera_has_buffers = refl

free_capture-init_capture_v4l1_example :
    ((success ≢ success)
      × ((map_calls ≡ gmbuf ∷ [])
          ⊎ ((size : ℕ) × (map_calls ≡ mmap size ∷ gmbuf ∷ [])
              × (old_driver.on_mmap (gmbuf ∷ []) size ≡ none))))
    ⊎ ((success ≡ success)
        × ((vm : Mbuf) × (start : ℕ) × (old_driver.on_gmbuf [] ≡ some vm)
            × (pos 2 ≤ℤ vm.frames)
            × (old_driver.on_mmap (gmbuf ∷ []) vm.size ≡ some start)
            × (mapped.mmap.buffers ≡ mapped_buffers vm start)
            × ((free_capture_v4l1 old_driver mapped map_calls).1
                ≡ munmap start vm.size ∷ mmap vm.size ∷ gmbuf ∷ [])))
free_capture-init_capture_v4l1_example =
    free_capture-init_capture_v4l1 old_driver camera mapped [] map_calls success camera_has_buffers

abbrev first : Buffer
first = record { start = 0x1000; length = 8191 }

abbrev second : Buffer
second = record { start = 0x2000; length = 8191 }

-- the device and the calls after the start, and after each of two frames
abbrev c₀ : CaptureDevice
c₀ = (start_capture_v4l1 old_driver zeroes mapped map_calls).1

abbrev t₀ : V4l1Trace
t₀ = (start_capture_v4l1 old_driver zeroes mapped map_calls).2

abbrev c₁ : CaptureDevice
c₁ = (dequeue_buffer_v4l1 old_driver zeroes c₀ t₀).2

abbrev t₁ : V4l1Trace
t₁ = (dequeue_buffer_v4l1 old_driver zeroes c₀ t₀).3

abbrev c₂ : CaptureDevice
c₂ = (dequeue_buffer_v4l1 old_driver zeroes c₁ t₁).2

abbrev t₂ : V4l1Trace
t₂ = (dequeue_buffer_v4l1 old_driver zeroes c₁ t₁).3

capture_started : start_capture_v4l1 old_driver zeroes mapped map_calls ≡ (success, c₀, t₀)
unfolding start_capture_v4l1
capture_started = refl

both_buffers : mapped.mmap.buffers ≡ first ∷ second ∷ []
unfolding init_capture_v4l1
both_buffers = refl

first_frame : dequeue_buffer_v4l1 old_driver zeroes c₀ t₀ ≡ (some 0x1000, 0, c₁, t₁)
unfolding init_capture_v4l1 start_capture_v4l1 dequeue_buffer_v4l1
first_frame = refl

second_frame : dequeue_buffer_v4l1 old_driver zeroes c₁ t₁ ≡ (some 0x2000, 0, c₂, t₂)
unfolding init_capture_v4l1 start_capture_v4l1 dequeue_buffer_v4l1
second_frame = refl

dequeue_buffer_v4l1-Shown_example :
    (frame_start (first ∷ second ∷ []) (1 % 2) ≡ some 0x2000)
    × (0 ≡ c₁.imagesize)
    × (filling old_driver t₁ (1 % 2) ≡ true)
    × (filling old_driver t₂ (1 % 2) ≡ false)
    × (filling old_driver t₂ ((1 + 1) % 2) ≡ true)
dequeue_buffer_v4l1-Shown_example =
    dequeue_buffer_v4l1-Shown old_driver zeroes first second c₁ c₂ t₁ t₂ 1 0x2000 0
      (shown c₀ t₀ 0x1000 0 (started mapped map_calls both_buffers capture_started) first_frame)
      second_frame
