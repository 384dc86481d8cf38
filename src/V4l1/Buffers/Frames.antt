-- ===== src/V4l1/Buffers/Frames.antt =====
-- The two frames of a V4L1 capture (libvideo/v4l1-input.c), against a machine that knows which one the
-- driver fills and which one the client has.
use v4l4j.Prelude.{
  ℕ, ◌+◌, ◌%◌, Bool, true, false, none, some, [], ◌∷◌, ◌==◌, ◌&&◌, ◌||◌, not, ◌≡◌, ◌≢◌, ◌⊎◌, inl,
  inr, refl, sym, ap, ◌∙◌, subst, Bool-cases, triple_eq, ap₂, none-ne-some, arith,
}
use v4l4j.Errors.{success, err_ioctl}
use v4l4j.Palettes.Table.{Palette}
use v4l4j.Capture.Records.{CaptureDevice, Buffer}
use v4l4j.V4l1.Driver.{V4l1Driver, V4l1Trace, mcapture, sync}
use v4l4j.V4l1.Capture.{mmap_format}
use v4l4j.V4l1.Buffers.{other_frame, frame_start, start_capture_v4l1, dequeue_buffer_v4l1}

module _ (d : V4l1Driver) where
  -- Whether the driver fills a frame: it has been asked to, and has not reported that it is done.
  abbrev pub filling : V4l1Trace → ℕ → Bool
  filling [] n = false
  filling (mcapture frame w h f ∷ t) n =
      (d.on_mcapture t frame w h f && (frame == n)) || filling t n
  filling (sync frame ∷ t) n = not (d.on_sync t frame && (frame == n)) && filling t n
  filling (call ∷ t) n = filling t n

  -- A stream over two buffers, with the number of frames that the client has been given. Calls of
  -- dequeue_buffer_v4l1 may fail in between.
  pub data Streams (past : Palette) (b₀ b₁ : Buffer) : CaptureDevice → V4l1Trace → ℕ → Type 0 where
    started :
        (c : CaptureDevice) {c' : CaptureDevice} (t : V4l1Trace) {t' : V4l1Trace}
        → c.mmap.buffers ≡ b₀ ∷ b₁ ∷ []
        → start_capture_v4l1 d past c t ≡ (success, c', t')
        → Streams past b₀ b₁ c' t' 0
    shown :
        (c : CaptureDevice) {c' : CaptureDevice} (t : V4l1Trace) {t' : V4l1Trace} {n : ℕ}
        (a len : ℕ)
        → Streams past b₀ b₁ c t n
        → dequeue_buffer_v4l1 d past c t ≡ (some a, len, c', t')
        → Streams past b₀ b₁ c' t' (n + 1)
    refused :
        (c : CaptureDevice) {c' : CaptureDevice} (t : V4l1Trace) {t' : V4l1Trace} {n : ℕ} (len : ℕ)
        → Streams past b₀ b₁ c t n
        → dequeue_buffer_v4l1 d past c t ≡ (none, len, c', t')
        → Streams past b₀ b₁ c' t' n

  -- what holds of a stream between two calls
  record Between (b₀ b₁ : Buffer) (c : CaptureDevice) (t : V4l1Trace) (n : ℕ) : Type 0 where
    arrays : c.mmap.buffers ≡ b₀ ∷ b₁ ∷ []
    turn : c.mmap.tmp ≡ n % 2
    requested : filling t (n % 2) ≡ true

  other_frame_lem : (n : ℕ) → other_frame (n % 2) ≡ (n + 1) % 2
  unfolding other_frame
  other_frame_lem n = ground arith

  start_capture-Between :
      (past : Palette) (b₀ b₁ : Buffer) (c c' : CaptureDevice) (t t' : V4l1Trace)
      → c.mmap.buffers ≡ b₀ ∷ b₁ ∷ []
      → start_capture_v4l1 d past c t ≡ (success, c', t')
      → Between b₀ b₁ c' t' 0
  unfolding start_capture_v4l1
  start_capture-Between past b₀ b₁ c c' t t' bs e =
      let format = mmap_format past c in
      let t₁ = mcapture 0 c.width c.height format ∷ t in
      elim (Bool-cases (d.on_mcapture t 0 c.width c.height format)) [
        | inr h ↦
            let (er, ec, et) =
              triple_eq err_ioctl c t₁ (sym (rw (start_capture_v4l1, h) refl) ∙ e) in
            absurd (ground arith)
        | inl h ↦
            let c₁ = record c { mmap = record (c.mmap) { tmp = 0 } } in
            let (er, ec, et) =
              triple_eq success c₁ t₁ (sym (rw (start_capture_v4l1, h) refl) ∙ e) in
            subst (λ x. Between b₀ b₁ x t' 0) ec
              (subst (λ x. Between b₀ b₁ c₁ x 0) et
                (record { arrays = bs; turn = refl; requested = rw (filling, h) refl }))
      ]

  -- what dequeue_buffer_v4l1 leaves
  Result : Palette → CaptureDevice → V4l1Trace → Type 0
  Result past c t =
      let next = other_frame c.mmap.tmp in
      let format = mmap_format past c in
      let t₁ = mcapture next c.width c.height format ∷ t in
      let t₂ = sync c.mmap.tmp ∷ t₁ in
      let r = dequeue_buffer_v4l1 d past c t in
      ((d.on_mcapture t next c.width c.height format ≡ false) × (r ≡ (none, 0, c, t₁)))
      ⊎ ((d.on_sync t₁ c.mmap.tmp ≡ false) × (r ≡ (none, 0, c, t₂)))
      ⊎ ((d.on_mcapture t next c.width c.height format ≡ true)
          × (d.on_sync t₁ c.mmap.tmp ≡ true)
          × (r ≡ (
            frame_start c.mmap.buffers c.mmap.tmp,
            c.imagesize,
            record c { mmap = record (c.mmap) { tmp = next } },
            t₂,
          )))

  dequeue_buffer_v4l1-Result :
      (past : Palette) (c : CaptureDevice) (t : V4l1Trace) → Result past c t
  unfolding dequeue_buffer_v4l1 Result
  dequeue_buffer_v4l1-Result past c t =
      let next = other_frame c.mmap.tmp in
      let format = mmap_format past c in
      let t₁ = mcapture next c.width c.height format ∷ t in
      elim (Bool-cases (d.on_mcapture t next c.width c.height format)) [
        | inr h ↦ inl (h, rw (dequeue_buffer_v4l1, h) refl)
        | inl h ↦ elim (Bool-cases (d.on_sync t₁ c.mmap.tmp)) [
          | inr k ↦ inr (inl (k, rw (dequeue_buffer_v4l1, h, k) refl))
          | inl k ↦ inr (inr (h, k, rw (dequeue_buffer_v4l1, h, k) refl))
        ]
      ]

  filling-mcapture :
      (frame w h f n : ℕ) (t : V4l1Trace)
      → filling t n ≡ true
      → filling (mcapture frame w h f ∷ t) n ≡ true
  filling-mcapture frame w h f n t e = ground (arith, e)

  filling-sync :
      (frame next w h f : ℕ) (t : V4l1Trace)
      → d.on_mcapture t next w h f ≡ true
      → d.on_sync (mcapture next w h f ∷ t) frame ≡ true
      → frame ≢ next
      → (filling (sync frame ∷ mcapture next w h f ∷ t) frame ≡ false)
        × (filling (sync frame ∷ mcapture next w h f ∷ t) next ≡ true)
  filling-sync frame next w h f t e k ne = (ground (arith, e, k), ground (arith, e, k, ne))

  -- the array has both frames
  frame_start-none : (b₀ b₁ : Buffer) (n : ℕ) → frame_start (b₀ ∷ b₁ ∷ []) (n % 2) ≡ none → ⊥
  unfolding frame_start
  frame_start-none b₀ b₁ n e = ground (arith, e)

  module _ (past : Palette) (b₀ b₁ : Buffer) (c c' : CaptureDevice) (t t' : V4l1Trace)
      (n len : ℕ) where
    refused-Between :
        Between b₀ b₁ c t n
        → dequeue_buffer_v4l1 d past c t ≡ (none, len, c', t')
        → Between b₀ b₁ c' t' n
    unfolding Result
    refused-Between inv e =
        let next = other_frame c.mmap.tmp in
        let format = mmap_format past c in
        let t₁ = mcapture next c.width c.height format ∷ t in
        let kept = filling-mcapture next c.width c.height format (n % 2) t inv.requested in
        elim (dequeue_buffer_v4l1-Result past c t) [
          | inl (h, r) ↦
              let e' = sym r ∙ e in
              subst (λ x. Between b₀ b₁ x t' n) (ap (λ x. x.2) e')
                (subst (λ x. Between b₀ b₁ c x n) (ap (λ x. x.3) e')
                  (record { arrays = inv.arrays; turn = inv.turn; requested = kept }))
          | inr (inl (h, r)) ↦
              let e' = sym r ∙ e in
              subst (λ x. Between b₀ b₁ x t' n) (ap (λ x. x.2) e')
                (subst (λ x. Between b₀ b₁ c x n) (ap (λ x. x.3) e')
                  (record {
                    arrays = inv.arrays;
                    turn = inv.turn;
                    requested = rw (filling, h, kept) refl;
                  }))
          | inr (inr (h, k, r)) ↦ absurd (
              frame_start-none b₀ b₁ n
                (ap₂ frame_start (sym inv.arrays) (sym inv.turn) ∙ ap (λ x. x.0) (sym r ∙ e)))
        ]

    -- a frame given to the client: the one whose turn it is, which is not filled any more, while the
    -- other one is
    pub Shown : ℕ → Type 0
    Shown a =
        (frame_start (b₀ ∷ b₁ ∷ []) (n % 2) ≡ some a)
        × (len ≡ c.imagesize)
        × (filling t (n % 2) ≡ true)
        × (filling t' (n % 2) ≡ false)
        × (filling t' ((n + 1) % 2) ≡ true)

    some-Shown :
        (a : ℕ)
        → Between b₀ b₁ c t n
        → dequeue_buffer_v4l1 d past c t ≡ (some a, len, c', t')
        → Shown a × Between b₀ b₁ c' t' (n + 1)
    unfolding Result Shown
    some-Shown a inv e = elim (dequeue_buffer_v4l1-Result past c t) [
      | inl (h, r) ↦ absurd (none-ne-some (ap (λ x. x.0) (sym r ∙ e)))
      | inr (inl (h, r)) ↦ absurd (none-ne-some (ap (λ x. x.0) (sym r ∙ e)))
      | inr (inr (h, k, r)) ↦
          let e' = sym r ∙ e in
          let curr = c.mmap.tmp in
          let next = other_frame curr in
          let is_next : next ≡ (n + 1) % 2 = ap other_frame inv.turn ∙ other_frame_lem n in
          let different : curr ≢ next = λ q. omega (arith, inv.turn, is_next, q) in
          let (done, begun) =
            filling-sync curr next c.width c.height (mmap_format past c) t h k different in
          let is_t' = ap (λ x. x.3) e' in
          let begun' = ap₂ filling is_t' is_next in
          (
            (
              ap₂ frame_start (sym inv.arrays) (sym inv.turn) ∙ ap (λ x. x.0) e',
              sym (ap (λ x. x.1) e'),
              inv.requested,
              sym (ap₂ filling is_t' inv.turn) ∙ done,
              sym begun' ∙ begun,
            ),
            subst (λ x. Between b₀ b₁ x t' (n + 1)) (ap (λ x. x.2) e')
                (record { arrays = inv.arrays; turn = is_next; requested = sym begun' ∙ begun }),
          )
    ]

  Streams-Between :
      (past : Palette) (b₀ b₁ : Buffer) {c : CaptureDevice} {t : V4l1Trace} {n : ℕ}
      → Streams past b₀ b₁ c t n
      → Between b₀ b₁ c t n
  Streams-Between past b₀ b₁ (started c {c'} t {t'} bs e) =
      start_capture-Between past b₀ b₁ c c' t t' bs e
  Streams-Between past b₀ b₁ (shown c {c'} t {t'} {n} a len s e) =
      (some-Shown past b₀ b₁ c c' t t' n len a (Streams-Between past b₀ b₁ s) e).1
  Streams-Between past b₀ b₁ (refused c {c'} t {t'} {n} len s e) =
      refused-Between past b₀ b₁ c c' t t' n len (Streams-Between past b₀ b₁ s) e

  -- Take a stream over two buffers: any number of calls of dequeue_buffer_v4l1 after a successful start,
  -- failed ones among them. The next call that returns an address returns the start of the buffers
  -- in turn, the first one first, with the size of an image. The driver had been asked to fill that
  -- frame; it fills it no longer, so that the client may read it, and fills the other one.
  pub dequeue_buffer_v4l1-Shown :
      (past : Palette) (b₀ b₁ : Buffer) (c c' : CaptureDevice) (t t' : V4l1Trace) (n a len : ℕ)
      → Streams past b₀ b₁ c t n
      → dequeue_buffer_v4l1 d past c t ≡ (some a, len, c', t')
      → (frame_start (b₀ ∷ b₁ ∷ []) (n % 2) ≡ some a)
        × (len ≡ c.imagesize)
        × (filling t (n % 2) ≡ true)
        × (filling t' (n % 2) ≡ false)
        × (filling t' ((n + 1) % 2) ≡ true)
  unfolding Shown
  dequeue_buffer_v4l1-Shown past b₀ b₁ c c' t t' n a len s e =
      (some-Shown past b₀ b₁ c c' t t' n len a (Streams-Between past b₀ b₁ s) e).0
