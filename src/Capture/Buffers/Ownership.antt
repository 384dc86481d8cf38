-- ===== src/Capture/Buffers/Ownership.antt =====
-- Who holds which buffer while frames are dequeued and enqueued (dequeue_buffer_v4l2 and
-- enqueue_buffer_v4l2 of libvideo/v4l2-input.c).
use v4l4j.Prelude.{
  ℕ, zero, suc, ◌+◌, ◌≤◌, ◌<◌, Option, none, some, inl, inr, sym, ap, ◌∙◌, List, [], ◌∷◌, ◌++◌, ◌≡◌,
  ◌≢◌, refl, ◌==◌, ltb, if◌then◌else◌, length, get_elem?, arith,
}
use mathlib.Core.List.{append-nil, append_assoc}
use v4l4j.Errors.{success, err_ioctl}
use v4l4j.Driver.{Driver, Trace, Dequeued, qbuf, dqbuf}
use v4l4j.Capture.Records.{CaptureDevice, Buffer}
use v4l4j.Capture.Buffers.{start_capture, dequeue_buffer, enqueue_buffer}
use v4l4j.Capture.Buffers.Streaming.{queue_calls, TakesAll, start_capture-queue_calls}

-- how often a list has a buffer's number
abbrev pub occurrences : ℕ → List ℕ → ℕ
occurrences j [] = 0
occurrences j (x ∷ xs) = (if x == j then 1 else 0) + occurrences j xs

-- a list without the first occurrence of a number
abbrev pub remove : ℕ → List ℕ → List ℕ
remove i [] = []
remove i (x ∷ xs) = if x == i then xs else x ∷ remove i xs

-- the next `rounds` numbers from `i` on
abbrev pub numbers : ℕ → ℕ → List ℕ
numbers zero i = []
numbers (suc rounds) i = i ∷ numbers rounds (i + 1)

-- the buffers left of a list when a frame, if any, is dequeued
abbrev pub without_frame : Option Dequeued → List ℕ → List ℕ
without_frame none queue = queue
without_frame (some b) queue = remove b.index queue

-- the buffers that the client has when a frame, if any, is dequeued
abbrev pub with_frame : Option Dequeued → List ℕ → List ℕ
with_frame none held = held
with_frame (some b) held = b.index ∷ held

-- The buffers that the driver holds after the calls of a trace: those that it took by VIDIOC_QBUF,
-- less those that it handed over by VIDIOC_DQBUF.
abbrev pub queued : Driver → Trace → List ℕ
queued d [] = []
queued d (qbuf i ∷ t) = let queue = queued d t in if d.on_qbuf t i then queue ++ i ∷ [] else queue
queued d (dqbuf ∷ t) = without_frame (d.on_dqbuf t) (queued d t)
queued d (call ∷ t) = queued d t

-- The buffers that the client holds after the calls of a trace: those that VIDIOC_DQBUF gave it, less
-- those that it handed to VIDIOC_QBUF.
abbrev pub taken : Driver → Trace → List ℕ
taken d [] = []
taken d (qbuf i ∷ t) = remove i (taken d t)
taken d (dqbuf ∷ t) = with_frame (d.on_dqbuf t) (taken d t)
taken d (call ∷ t) = taken d t

-- A run of a stream: its calls, and the buffers that the driver and the client are to hold after
-- them.
pub data Streams (d : Driver) (c : CaptureDevice) (t₀ : Trace)
    : Trace → List ℕ → List ℕ → Type 0 where
  -- The stream was started: the driver holds every buffer.
  started :
      (start_capture d c t₀).0 ≡ success
      → Streams d c t₀ (start_capture d c t₀).1 (numbers c.mmap.buffer_nr 0) []
  -- The driver hands over a frame in a buffer that it holds.
  dequeued :
      (b : Dequeued) {t : Trace} {queue held : List ℕ}
      → Streams d c t₀ t queue held
      → d.on_dqbuf t ≡ some b
      → 0 < occurrences b.index queue
      → Streams d c t₀ (dequeue_buffer d c t).1 (remove b.index queue) (b.index ∷ held)
  no_frame :
      {t : Trace} {queue held : List ℕ}
      → Streams d c t₀ t queue held
      → d.on_dqbuf t ≡ none
      → Streams d c t₀ (dequeue_buffer d c t).1 queue held
  -- The client gives a buffer back that it holds. Where the driver does not take it, which
  -- enqueue_buffer_v4l2 only logs, nobody holds it any more.
  enqueued :
      (i : ℕ) {t : Trace} {queue held : List ℕ}
      → Streams d c t₀ t queue held
      → 0 < occurrences i held
      → Streams d c t₀
          (enqueue_buffer d i t)
          (if d.on_qbuf t i then queue ++ i ∷ [] else queue)
          (remove i held)

occurrences-numbers :
    (rounds i j : ℕ)
    → (occurrences j (numbers rounds i) ≤ 1)
      × (0 < occurrences j (numbers rounds i) → (i ≤ j) × (j < i + rounds))
occurrences-numbers zero i j = ground arith
occurrences-numbers (suc rounds) i j = ground (arith, occurrences-numbers rounds (i + 1) j)

occurrences-remove :
    (i j : ℕ) (xs : List ℕ)
    → 0 < occurrences i xs
    → occurrences j (remove i xs) + (if i == j then 1 else 0) ≡ occurrences j xs
occurrences-remove i j [] h = ground arith
occurrences-remove i j (x ∷ xs) h = ground (arith, occurrences-remove i j xs)

occurrences-append :
    (j i : ℕ) (xs : List ℕ)
    → occurrences j (xs ++ i ∷ []) ≡ occurrences j xs + (if i == j then 1 else 0)
occurrences-append j i [] = ground arith
occurrences-append j i (x ∷ xs) = ground (arith, occurrences-append j i xs)

-- A number is held once at most, by the driver or by the client, and only if it is a buffer's.
abbrev Owned : ℕ → List ℕ → List ℕ → ℕ → Type 0
Owned n queue held j = occurrences j queue + occurrences j held ≤ (if ltb j n then 1 else 0)

Streams-Owned :
    {d : Driver} {c : CaptureDevice} {t₀ : Trace} {t : Trace} {queue : List ℕ} {held : List ℕ}
    → Streams d c t₀ t queue held
    → (j : ℕ) → Owned c.mmap.buffer_nr queue held j
Streams-Owned {c = c} (started e) j = ground (arith, occurrences-numbers c.mmap.buffer_nr 0 j)
Streams-Owned (dequeued b {queue = queue} s e h) j =
    ground (arith, Streams-Owned s j, occurrences-remove b.index j queue h)
Streams-Owned (no_frame s e) j = Streams-Owned s j
Streams-Owned (enqueued i {queue = queue} {held = held} s h) j =
    ground (arith, Streams-Owned s j, occurrences-remove i j held h, occurrences-append j i queue)

err_ioctl-success : err_ioctl ≢ success
err_ioctl-success e = ground arith

queued-queue_calls :
    (d : Driver) (rounds i : ℕ) (t : Trace)
    → TakesAll d rounds i t
    → queued d (queue_calls rounds i t) ≡ queued d t ++ numbers rounds i
queued-queue_calls d zero i t h = sym (append-nil _)
queued-queue_calls d (suc rounds) i t (h, k) =
    queued-queue_calls d rounds (i + 1) (qbuf i ∷ t) k
    ∙ rw h (append_assoc (queued d t) (i ∷ []) (numbers rounds (i + 1)))

taken-queue_calls :
    (d : Driver) (rounds i : ℕ) (t : Trace) → taken d t ≡ [] → taken d (queue_calls rounds i t) ≡ []
taken-queue_calls d zero i t h = h
taken-queue_calls d (suc rounds) i t h =
    taken-queue_calls d rounds (i + 1) (qbuf i ∷ t) (ap (remove i) h)

-- what a driver and a client hold after a trace
abbrev pub Hold : Driver → Trace → List ℕ → List ℕ → Type 0
Hold d t queue held = (queued d t ≡ queue) × (taken d t ≡ held)

start_capture-Hold :
    (d : Driver) (c : CaptureDevice) (t : Trace)
    → Hold d t [] []
    → (start_capture d c t).0 ≡ success
    → Hold d (start_capture d c t).1 (numbers c.mmap.buffer_nr 0) []
start_capture-Hold d c t (q, k) e = elim (start_capture-queue_calls d c t) [
  | inl (r, takes, on, calls) ↦ rw calls (
    queued-queue_calls d c.mmap.buffer_nr 0 t takes
        ∙ ap (λ queue. queue ++ numbers c.mmap.buffer_nr 0) q,
    taken-queue_calls d c.mmap.buffer_nr 0 t k,
  )
  | inr (inl (r, takes, on, count)) ↦ absurd (err_ioctl-success (sym r ∙ e))
  | inr (inr (r, refused, count)) ↦ absurd (err_ioctl-success (sym r ∙ e))
]

Streams-Hold :
    {d : Driver} {c : CaptureDevice} {t₀ : Trace} {t : Trace} {queue : List ℕ} {held : List ℕ}
    → Hold d t₀ [] []
    → Streams d c t₀ t queue held
    → Hold d t queue held
unfolding dequeue_buffer enqueue_buffer
Streams-Hold {d = d} {c = c} {t₀ = t₀} z (started e) = start_capture-Hold d c t₀ z e
Streams-Hold {d = d} z (dequeued b {t = t} s e h) =
    let (q, k) = Streams-Hold z s in
    rw (dequeue_buffer, e)
      (
        ap (λ o. without_frame o (queued d t)) e ∙ ap (remove b.index) q,
        ap (λ o. with_frame o (taken d t)) e ∙ ap (λ l. b.index ∷ l) k,
      )
Streams-Hold {d = d} z (no_frame {t = t} s e) =
    let (q, k) = Streams-Hold z s in
    rw (dequeue_buffer, e)
      (ap (λ o. without_frame o (queued d t)) e ∙ q, ap (λ o. with_frame o (taken d t)) e ∙ k)
Streams-Hold {d = d} z (enqueued i {t = t} s h) =
    let (q, k) = Streams-Hold z s in
    (ap (λ l. if d.on_qbuf t i then l ++ i ∷ [] else l) q, ap (remove i) k)

get_elem?-length :
    (bs : List Buffer) (i : ℕ) → i < length bs → (b : Buffer) × (get_elem? bs i ≡ some b)
get_elem?-length [] i h = absurd (omega arith)
get_elem?-length (b ∷ bs) zero h = (b, refl)
get_elem?-length (b ∷ bs) (suc i) h = get_elem?-length bs i (omega arith)

dequeue_buffer-some :
    (d : Driver) (c : CaptureDevice) (t : Trace) (b : Dequeued) (buf : Buffer)
    → d.on_dqbuf t ≡ some b
    → get_elem? c.mmap.buffers b.index ≡ some buf
    → (dequeue_buffer d c t).0 ≡ some (b, some buf.start)
unfolding dequeue_buffer
dequeue_buffer-some d c t b buf e k = rw (dequeue_buffer, e, k) refl

-- Take a stream on a device whose array has all its buffers and of which driver and client held none
-- before, over any frames dequeued and buffers enqueued. By the calls made, the driver then holds all
-- buffers but those of the frames dequeued, in the order in which they were handed to it, and the
-- client those that it dequeued and did not enqueue. When the driver hands over a frame in a buffer
-- that it holds, dequeue_buffer_v4l2 returns the address of that buffer of the array, and the client
-- does not hold that buffer yet.
pub dequeue_buffer-Streams :
    (d : Driver) (c : CaptureDevice) (t₀ t : Trace) (queue held : List ℕ) (b : Dequeued)
    → (queued d t₀ ≡ []) × (taken d t₀ ≡ [])
    → Streams d c t₀ t queue held
    → length c.mmap.buffers ≡ c.mmap.buffer_nr
    → d.on_dqbuf t ≡ some b
    → 0 < occurrences b.index queue
    → (queued d t ≡ queue)
      × (taken d t ≡ held)
      × (buf : Buffer) × (get_elem? c.mmap.buffers b.index ≡ some buf)
      × ((dequeue_buffer d c t).0 ≡ some (b, some buf.start))
      × (occurrences b.index held ≡ 0)
dequeue_buffer-Streams d c t₀ t queue held b z s n e h =
    let (q, k) = Streams-Hold z s in
    let owned = Streams-Owned s b.index in
    let (buf, found) = get_elem?-length c.mmap.buffers b.index (grind (arith, owned, n, h)) in
    (q, k, buf, found, dequeue_buffer-some d c t b buf e found, grind (arith, owned, h))
