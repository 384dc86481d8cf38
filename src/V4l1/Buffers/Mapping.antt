-- ===== src/V4l1/Buffers/Mapping.antt =====
-- The mapping of the driver's buffers, and its end (init_capture_v4l1 and free_capture_v4l1 of
-- libvideo/v4l1-input.c).
use v4l4j.Prelude.{
  ℕ, none, some, ◌∷◌, ◌≡◌, ◌≢◌, ◌⊎◌, inl, inr, refl, sym, ap, ◌∙◌, Bool-cases, Option-cases,
  triple_eq, arith,
}
use v4l4j.Prelude.Int.{ℤ, pos, ltb_ℤ, ◌≤ℤ◌}
use v4l4j.Errors.{success, err_req_mmap, err_invalid_buf_nb, err_mmap_buf}
use v4l4j.Capture.Records.{CaptureDevice}
use v4l4j.V4l1.Driver.{V4l1Driver, V4l1Trace, Mbuf, gmbuf, mmap, munmap}
use v4l4j.V4l1.Buffers.{
  frame_start, mapped_buffers, with_mapping, without_mapping, init_capture_v4l1, free_capture_v4l1,
}

buffers-with_mapping :
    (vm : Mbuf) (start : ℕ) (c : CaptureDevice)
    → (with_mapping vm start c).mmap.buffers ≡ mapped_buffers vm start
unfolding with_mapping
buffers-with_mapping vm start c = refl

trace-free_capture :
    (d : V4l1Driver) (c : CaptureDevice) (t : V4l1Trace) (vm : Mbuf) (start : ℕ)
    → (free_capture_v4l1 d (with_mapping vm start c) t).1 ≡ munmap start vm.size ∷ t
unfolding free_capture_v4l1 frame_start with_mapping
trace-free_capture d c t vm start = refl

-- When init_capture_v4l1 succeeds, the driver has two buffers or more, and free_capture_v4l1 unmaps
-- what was mapped: the mapping at the address that mmap returned, with the size that the driver
-- gave. Otherwise no call of mmap succeeded, so that nothing remains mapped.
pub free_capture-init_capture_v4l1 :
    (d : V4l1Driver) (c c' : CaptureDevice) (t t' : V4l1Trace) (ret : ℤ)
    → init_capture_v4l1 d c t ≡ (ret, c', t')
    → ((ret ≢ success)
        × ((t' ≡ gmbuf ∷ t)
            ⊎ ((size : ℕ) × (t' ≡ mmap size ∷ gmbuf ∷ t) × (d.on_mmap (gmbuf ∷ t) size ≡ none))))
      ⊎ ((ret ≡ success)
          × ((vm : Mbuf) × (start : ℕ) × (d.on_gmbuf t ≡ some vm)
              × (pos 2 ≤ℤ vm.frames)
              × (d.on_mmap (gmbuf ∷ t) vm.size ≡ some start)
              × (c'.mmap.buffers ≡ mapped_buffers vm start)
              × ((free_capture_v4l1 d c' t').1 ≡ munmap start vm.size ∷ mmap vm.size ∷ gmbuf ∷ t)))
unfolding init_capture_v4l1
free_capture-init_capture_v4l1 d c c' t t' ret e = elim (Option-cases (d.on_gmbuf t)) [
  | inl h ↦
      let (er, ec, et) =
        triple_eq err_req_mmap c (gmbuf ∷ t) (sym (rw (init_capture_v4l1, h) refl) ∙ e) in
      inl (ground arith, inl (sym et))
  | inr (vm, h) ↦ elim (Bool-cases (ltb_ℤ vm.frames (pos 2))) [
    | inl k ↦
        let (er, ec, et) =
          triple_eq err_invalid_buf_nb c (gmbuf ∷ t)
            (sym (rw (init_capture_v4l1, h, k) refl) ∙ e) in
        inl (ground arith, inl (sym et))
    | inr k ↦ elim (Option-cases (d.on_mmap (gmbuf ∷ t) vm.size)) [
      | inl l ↦
          let (er, ec, et) =
            triple_eq err_mmap_buf (without_mapping c) (mmap vm.size ∷ gmbuf ∷ t)
              (sym (rw (init_capture_v4l1, h, k, l) refl) ∙ e) in
          inl (ground arith, inr (vm.size, sym et, l))
      | inr (start, l) ↦
          let (er, ec, et) =
            triple_eq success (with_mapping vm start c) (mmap vm.size ∷ gmbuf ∷ t)
              (sym (rw (init_capture_v4l1, h, k, l) refl) ∙ e) in
          inr (
            sym er,
            (
              vm,
              start,
              h,
              ground arith,
              l,
              sym (ap (λ x. x.mmap.buffers) ec) ∙ buffers-with_mapping vm start c,
              ap (λ x. (free_capture_v4l1 d x t').1) (sym ec)
                  ∙ trace-free_capture d c t' vm start
                  ∙ ap (λ x. munmap start vm.size ∷ x) (sym et),
            ),
          )
    ]
  ]
]
