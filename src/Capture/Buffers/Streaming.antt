-- ===== src/Capture/Buffers/Streaming.antt =====
-- The order in which start_capture_v4l2 hands the buffers to the driver.
use v4l4j.Prelude.{
  ℕ, zero, suc, ◌+◌, true, false, [], ◌∷◌, ◌≡◌, ◌⊎◌, refl, arith, Bool-cases, inl, inr,
}
use v4l4j.Errors.{success, err_ioctl}
use v4l4j.Driver.{Driver, Trace, qbuf, streamon}
use v4l4j.Capture.Records.{CaptureDevice}
use v4l4j.Capture.Buffers.{queue_all, start_capture}

-- The calls that queue the next `rounds` buffers from `i` on, the latest first, before a trace.
abbrev pub queue_calls : ℕ → ℕ → Trace → Trace
queue_calls zero i t = t
queue_calls (suc rounds) i t = queue_calls rounds (i + 1) (qbuf i ∷ t)

-- how often the trace starts the stream
abbrev pub starts : Trace → ℕ
starts [] = 0
starts (streamon ∷ t) = suc (starts t)
starts (_ ∷ t) = starts t

module _ (d : Driver) where
  -- The driver takes each of the buffers queued in this order.
  abbrev pub TakesAll : ℕ → ℕ → Trace → Type 0
  TakesAll zero i t = Unit
  TakesAll (suc rounds) i t = (d.on_qbuf t i ≡ true) × TakesAll rounds (i + 1) (qbuf i ∷ t)

  queue_all-true :
      (rounds i : ℕ) (t : Trace)
      → (queue_all d rounds i t).0 ≡ true
      → ((queue_all d rounds i t).1 ≡ queue_calls rounds i t) × TakesAll rounds i t
  unfolding queue_all
  queue_all-true zero i t h = (refl, tt)
  queue_all-true (suc rounds) i t h = ground (arith, queue_all-true rounds (i + 1) (qbuf i ∷ t))

  queue_all-takes :
      (rounds i : ℕ) (t : Trace) → TakesAll rounds i t → (queue_all d rounds i t).0 ≡ true
  unfolding queue_all
  queue_all-takes zero i t h = refl
  queue_all-takes (suc rounds) i t h = ground (arith, queue_all-takes rounds (i + 1) (qbuf i ∷ t))

  starts-queue_all : (rounds i : ℕ) (t : Trace) → starts (queue_all d rounds i t).1 ≡ starts t
  unfolding queue_all
  starts-queue_all zero i t = refl
  starts-queue_all (suc rounds) i t = ground (arith, starts-queue_all rounds (i + 1) (qbuf i ∷ t))

  -- start_capture_v4l2 starts the stream at most once. It returns 0 exactly when the driver takes the
  -- buffers 0, 1, ... in this order and then starts the stream; its calls are then those and no
  -- other. It returns LIBVIDEO_ERR_IOCTL otherwise, and where a buffer is not taken it does not start
  -- the stream.
  pub start_capture-queue_calls :
      (c : CaptureDevice) (t : Trace)
      → let n = c.mmap.buffer_nr in
        let (ret, t') = start_capture d c t in
        ((ret ≡ success)
          × TakesAll n 0 t
          × (d.on_streamon (queue_calls n 0 t) ≡ true)
          × (t' ≡ streamon ∷ queue_calls n 0 t))
        ⊎ ((ret ≡ err_ioctl)
            × TakesAll n 0 t
            × (d.on_streamon (queue_calls n 0 t) ≡ false)
            × (starts t' ≡ suc (starts t)))
        ⊎ ((ret ≡ err_ioctl) × ¬ TakesAll n 0 t × (starts t' ≡ starts t))
  unfolding start_capture
  start_capture-queue_calls c t = elim (Bool-cases (queue_all d c.mmap.buffer_nr 0 t).0) [
    | inl e ↦
        ground (arith, queue_all-true c.mmap.buffer_nr 0 t e, starts-queue_all c.mmap.buffer_nr 0 t)
    | inr e ↦ inr (
        inr (
          ground arith,
          (λ k. cc (queue_all-takes c.mmap.buffer_nr 0 t k)),
          ground (arith, starts-queue_all c.mmap.buffer_nr 0 t),
        ))
  ]
