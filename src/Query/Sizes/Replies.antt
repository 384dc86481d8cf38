-- ===== src/Query/Sizes/Replies.antt =====
-- How a driver answers on a frame size (struct v4l2_frmsizeenum, as lookup_frame_sizes of
-- libvideo/v4l2-query.c reads it).
use v4l4j.Prelude.{ℕ, Option, none, some, ◌≡◌, refl, ◌⊎◌, inl, inr}
use v4l4j.Driver.{SizeRange, SizeReply, one_size, size_range}

pub reply_cases :
    (r : Option SizeReply)
    → (r ≡ none)
      ⊎ ((w : ℕ) × (h : ℕ) × (r ≡ some (one_size w h)))
      ⊎ ((range : SizeRange) × (r ≡ some (size_range range)))
reply_cases none = inl refl
reply_cases (some (one_size w h)) = inr (inl (w, h, refl))
reply_cases (some (size_range range)) = inr (inr (range, refl))
