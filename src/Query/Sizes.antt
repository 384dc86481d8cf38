-- ===== src/Query/Sizes.antt =====
-- libvideo/v4l2-query.c: the frame sizes of an image format (lookup_frame_sizes).
pub mod Replies
pub mod Termination
mod Tests
use v4l4j.Prelude.{
  ℕ, zero, suc, ◌+◌, Bool, true, false, Option, none, some, List, [], ◌∷◌, ◌++◌, ◌==◌,
  if◌then◌else◌,
}
use v4l4j.Driver.{Driver, Trace, SizeRange, SizeReply, one_size, size_range, enum_framesizes}
use v4l4j.Query.Intervals.{Intervals, unsupported, discrete, continuous, lookup_frame_intv}

-- struct frame_size_discrete
pub record FrameSize : Type 0 where
  pub width : ℕ
  pub height : ℕ
  pub intervals : Intervals

-- the terminator
abbrev pub no_size : FrameSize
no_size = record { width = 0; height = 0; intervals = unsupported }

-- The sizes of a struct palette_info. `leaked` is the array of discrete sizes, if any, whose pointer
-- the range is stored over.
pub data Sizes : Type 0 where
  no_sizes : Sizes
  discrete_sizes : List FrameSize → Sizes
  continuous_sizes :
      SizeRange → (min_res : Intervals) (max_res : Intervals) (leaked : List FrameSize) → Sizes

-- the end of lookup_frame_sizes, for discrete sizes
pub terminated_sizes : List FrameSize → Sizes
terminated_sizes [] = no_sizes
terminated_sizes (s ∷ sizes) = discrete_sizes ((s ∷ sizes) ++ no_size ∷ [])

module _ (d : Driver) (fmt : ℕ) where
  -- a discrete size, with its intervals
  pub size_found : ℕ → ℕ → ℕ → Trace → Option (FrameSize × Trace)
  size_found fuel width height t = elim (lookup_frame_intv d fmt width height fuel t) [
    | none ↦ none
    | some (intervals, t₁) ↦
        some (record { width = width; height = height; intervals = intervals }, t₁)
  ]

  -- a range, with the intervals of its least and its greatest size
  pub sizes_range : ℕ → SizeRange → List FrameSize → Trace → Option (Sizes × Trace)
  sizes_range fuel r sizes t = elim (lookup_frame_intv d fmt r.min_width r.min_height fuel t) [
    | none ↦ none
    | some (min_res, t₁) ↦ elim (lookup_frame_intv d fmt r.max_width r.max_height fuel t₁) [
      | none ↦ none
      | some (max_res, t₂) ↦ some (continuous_sizes r min_res max_res sizes, t₂)
    ]
  ]

  -- The loop on fuel, from `index` on, with the sizes found; each lookup of intervals has the fuel
  -- `intv_fuel`.
  pub enum_sizes : ℕ → ℕ → ℕ → List FrameSize → Trace → Option (Sizes × Trace)
  unfolding size_found sizes_range terminated_sizes
  enum_sizes intv_fuel zero index sizes t = none
  enum_sizes intv_fuel (suc fuel) index sizes t =
      let t₁ = enum_framesizes fmt index ∷ t in
      elim (d.on_enum_framesizes t fmt index) [
        | none ↦ some (terminated_sizes sizes, t₁)
        | some (one_size width height) ↦ elim (size_found intv_fuel width height t₁) [
          | none ↦ none
          | some (s, t₂) ↦ enum_sizes intv_fuel fuel (index + 1) (sizes ++ s ∷ []) t₂
        ]
        | some (size_range r) ↦ sizes_range intv_fuel r sizes t₁
      ]

  pub lookup_frame_sizes : ℕ → Trace → Option (Sizes × Trace)
  unfolding enum_sizes
  lookup_frame_sizes fuel t = enum_sizes fuel fuel 0 [] t
