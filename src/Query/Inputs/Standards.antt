-- ===== src/Query/Inputs/Standards.antt =====
-- The standards that an input is said to support, and those that try_std can set
-- (libvideo/v4l2-query.c, libvideo/v4l2-input.c).
use v4l4j.Prelude.{ℕ, Bool, false, List, [], ◌∷◌, ◌≡◌, ◌==◌, ◌||◌, arith}
use v4l4j.Capture.Standard.{webcam, pal, secam, ntsc, std_id}
use v4l4j.Capture.Input.{has_bits}
use v4l4j.Query.Inputs.{supported_stds, add_supported_std}

-- whether a list of standards names one
abbrev pub lists : List ℕ → ℕ → Bool
lists [] std = false
lists (x ∷ xs) std = (x == std) || lists xs std

-- The list holds just the standards added, whatever the four conditions.
lists-add_supported_std :
    (p n s w : Bool)
    → let stds =
        add_supported_std w webcam
          (add_supported_std s secam (add_supported_std n ntsc (add_supported_std p pal []))) in
      (lists stds pal ≡ p)
      × (lists stds ntsc ≡ n)
      × (lists stds secam ≡ s)
      × (lists stds webcam ≡ w)
unfolding add_supported_std
lists-add_supported_std p n s w = ground arith

-- Of PAL, NTSC and SECAM an input lists those of whose V4L2 ids the driver reports at least one that
-- try_std would set; it lists WEBCAM exactly where the driver reports no id at all.
pub supported_stds-std_id :
    (std_ids : ℕ)
    → (lists (supported_stds std_ids) pal ≡ has_bits std_ids (std_id pal))
      × (lists (supported_stds std_ids) ntsc ≡ has_bits std_ids (std_id ntsc))
      × (lists (supported_stds std_ids) secam ≡ has_bits std_ids (std_id secam))
      × (lists (supported_stds std_ids) webcam ≡ (std_ids == std_id webcam))
unfolding supported_stds std_id
supported_stds-std_id std_ids =
    lists-add_supported_std (has_bits std_ids 0xff) (has_bits std_ids 0xb000)
      (has_bits std_ids 0xff_0000) (std_ids == 0)
