-- ===== src/Probes/Fps/Tests.antt =====
-- The frame rate of a driver that keeps it, and the theorem at it.
use v4l4j.Prelude.{Option, none, some, [], ◌∷◌, ◌≡◌, refl}
use v4l4j.Prelude.Int.{pos}
use v4l4j.Errors.{success}
use v4l4j.Probes.Driver.{ProbeDriver, ProbeTrace, StreamParm, set_parm}
use v4l4j.Probes.Samples.{silent}
use v4l4j.Probes.Fps.{fps_param_set_ctrl}
use v4l4j.Probes.Fps.RoundTrip.{KeepsRate}

-- the time per frame in the last call
abbrev kept_rate : ProbeTrace → Option StreamParm
kept_rate (set_parm n m ∷ t) = some (record { capability = 0x1000; numerator = n; denominator = m })
kept_rate t = none

abbrev adjustable : ProbeDriver
adjustable = record silent { on_get_parm = λ t. kept_rate t }

adjustable-KeepsRate : KeepsRate adjustable
adjustable-KeepsRate = record { capability = 0x1000; kept = λ t n m e. refl }

thirty_set : fps_param_set_ctrl adjustable (λ v. v) (pos 30) [] ≡ (success, set_parm 1 30 ∷ [])
unfolding fps_param_set_ctrl
thirty_set = refl
