-- ===== src/Jni/Grabber/Owners.antt =====
-- Who holds the buffers around fillBuffer and enqueueBuffer (src/v4l4j_FrameGrabber.c) on a V4L2
-- device.
use v4l4j.Prelude.{
  ℕ, ◌≡◌, refl, ap, ap₂, ◌∙◌, ◌⊎◌, inl, inr, Option, none, some, ◌∷◌, Option-cases, get_elem?,
  arith,
}
use v4l4j.Driver.{Driver, Trace, Dequeued, dqbuf, qbuf}
use v4l4j.Capture.Records.{CaptureDevice}
use v4l4j.Capture.Buffers
use v4l4j.Capture.Buffers.{dequeue_buffer, start_of}
use v4l4j.Jni.State.{V4l4jDevice}
use v4l4j.Jni.Exceptions.{generic}
use v4l4j.Jni.Actions.{v4l2_actions}
use v4l4j.Jni.Pointers.{BufferReplies, release}
use v4l4j.Jni.Pointers.References.{release-get_buffer_pointer}
use v4l4j.Jni.Grabber.{Grabber, enqueue_buffer}
use v4l4j.Jni.Grabber.Frames.{fill_buffer, fill_captured, fill_dequeued, fill_frame, record_frame}

module _ (d : Driver) (convert : CaptureDevice → ℕ → ℕ → Trace → ℕ)
    (encode : V4l4jDevice → CaptureDevice → Trace → ℕ) (r : BufferReplies) (refs : ℕ)
    (g : Grabber Trace) (c : CaptureDevice) where
  -- The references and the calls behind a frame that was handed over.
  fill_frame-owner :
      (b : Dequeued)
      → let f = fill_frame (v4l2_actions d convert) encode c b r refs (dqbuf ∷ g.world) g in
        let g₁ = f.grabber in
        (f.refs ≡ refs)
        × (((f.thrown ≡ some generic)
              × (f.output_len ≡ 0)
              × (g₁.world ≡ qbuf b.index ∷ dqbuf ∷ g.world))
            ⊎ ((f.thrown ≡ none)
                × (g₁.world ≡ dqbuf ∷ g.world)
                × ((g₁.fields).buffer_index ≡ b.index)))
  unfolding fill_frame v4l2_actions Buffers.enqueue_buffer record_frame release
  fill_frame-owner b = ground (arith, release-get_buffer_pointer r refs)

  no_frame : d.on_dqbuf g.world ≡ none → dequeue_buffer d c g.world ≡ (none, dqbuf ∷ g.world)
  unfolding dequeue_buffer
  no_frame left = rw (dequeue_buffer, left) refl

  frame :
      (b : Dequeued)
      → d.on_dqbuf g.world ≡ some b
      → (address : Option ℕ) × (dequeue_buffer d c g.world ≡ (some (b, address), dqbuf ∷ g.world))
  unfolding dequeue_buffer
  frame b left = (start_of (get_elem? (c.mmap).buffers b.index), rw (dequeue_buffer, left) refl)

  dequeued :
      (reply : Option (Dequeued × Option ℕ) × Trace)
      → g.capture ≡ some c
      → dequeue_buffer d c g.world ≡ reply
      → fill_buffer (v4l2_actions d convert) encode r refs g
        ≡ fill_dequeued (v4l2_actions d convert) encode c reply.0 reply.1 r refs g
  unfolding fill_buffer fill_captured v4l2_actions
  dequeued reply e left =
      ap (λ o. fill_captured (v4l2_actions d convert) encode o r refs g) e
      ∙ ap (λ p. fill_dequeued (v4l2_actions d convert) encode c p.0 p.1 r refs g) left

  -- On a V4L2 device that is captured from: fillBuffer throws where the driver hands over no frame,
  -- having asked for one; it throws where the Java buffer has no memory, having given the frame's
  -- buffer back to the driver; else it throws nothing, and enqueueBuffer with the index that it
  -- stored in the Java object gives the buffer of that very frame back. The local references are in
  -- each case those of before.
  pub enqueue_buffer-fill_buffer :
      g.capture ≡ some c
      → let f = fill_buffer (v4l2_actions d convert) encode r refs g in
        let g₁ = f.grabber in
        (f.refs ≡ refs)
        × (((f.thrown ≡ some generic) × (d.on_dqbuf g.world ≡ none) × (g₁.world ≡ dqbuf ∷ g.world))
            ⊎ ((b : Dequeued) × (d.on_dqbuf g.world ≡ some b)
                × (((f.thrown ≡ some generic)
                      × (f.output_len ≡ 0)
                      × (g₁.world ≡ qbuf b.index ∷ dqbuf ∷ g.world))
                    ⊎ ((f.thrown ≡ none)
                        × (g₁.world ≡ dqbuf ∷ g.world)
                        × ((enqueue_buffer
                              (v4l2_actions d convert)
                              (g₁.fields).buffer_index
                              g₁).world
                            ≡ qbuf b.index ∷ dqbuf ∷ g.world)))))
  unfolding v4l2_actions enqueue_buffer fill_dequeued Buffers.enqueue_buffer
  enqueue_buffer-fill_buffer e = elim (Option-cases (d.on_dqbuf g.world)) [
    | inl left ↦ rw (dequeued _ e (no_frame left)) (refl, inl (refl, left, refl))
    | inr (b, left) ↦
        let (address, reply) = frame b left in
        let (same, ends) = fill_frame-owner b in
        rw (dequeued _ e reply) (
          same,
          inr (
            b,
            left,
            elim ends [
              | inl thrown ↦ inl thrown
              | inr (filled, waiting, index) ↦
                  inr (filled, waiting, ap₂ (Buffers.enqueue_buffer d) index waiting)
            ],
          ),
        )
  ]
