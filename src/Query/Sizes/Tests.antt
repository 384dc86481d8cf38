-- ===== src/Query/Sizes/Tests.antt =====
-- The frame sizes of a small driver.
use v4l4j.Prelude.{none, some, [], ◌∷◌, ◌≡◌, ◌==◌, refl, if◌then◌else◌}
use v4l4j.Driver.{Driver, Trace, one_size}
use v4l4j.Samples.{obliging}
use v4l4j.Query.Intervals.{unsupported, lookup_frame_intv}
use v4l4j.Query.Sizes.{Sizes, no_size, discrete_sizes, lookup_frame_sizes}

abbrev vga : Driver
vga = record obliging {
  on_enum_framesizes = λ t f i. if i == 0 then some (one_size 640 480) else none;
}

abbrev one_resolution : Sizes
one_resolution =
    discrete_sizes (record { width = 640; height = 480; intervals = unsupported } ∷ no_size ∷ [])

-- the calls of lookup_frame_sizes
abbrev calls : Trace
calls = elim (lookup_frame_sizes vga 0 2 []) [ none ↦ [] | some (s, t) ↦ t ]

vga_sizes : lookup_frame_sizes vga 0 2 [] ≡ some (one_resolution, calls)
unfolding lookup_frame_sizes lookup_frame_intv
vga_sizes = refl
