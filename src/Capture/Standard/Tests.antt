-- ===== src/Capture/Standard/Tests.antt =====
-- The choice of a standard on small drivers, and the theorems at them.
use v4l4j.Prelude.{false, none, some, [], ◌∷◌, ◌≡◌, ◌⊎◌, ◌==◌, refl}
use v4l4j.Driver.{Driver, s_std, enumstd}
use v4l4j.Samples.{obliging, camera}
use v4l4j.Capture.Standard.{webcam, std_id, set_std}
use v4l4j.Capture.Standard.Agreement.{Negotiated, set_std-success}

-- It has standards, and accepts PAL alone.
abbrev pal_only : Driver
pal_only = record obliging { on_enumstd = λ t. some 0xff; on_s_std = λ t s. s == 0xff }

-- It has standards, and accepts none.
abbrev stubborn : Driver
stubborn = record obliging { on_enumstd = λ t. some 0xff; on_s_std = λ t s. false }

set_std-pal : (set_std pal_only camera []).2 ≡ s_std 0xff ∷ enumstd ∷ []
unfolding set_std std_id
set_std-pal = refl

set_std-webcam : (set_std obliging camera []).1 ≡ record camera { std = webcam }
unfolding set_std
set_std-webcam = refl

set_std-success_example :
    ((pal_only.on_enumstd [] ≡ none) × ((set_std pal_only camera []).1.std ≡ webcam))
    ⊎ ((pal_only.on_enumstd [] ≡ some 0)
        × (camera.std ≡ webcam)
        × ((set_std pal_only camera []).1 ≡ camera))
    ⊎ Negotiated pal_only camera (set_std pal_only camera []).1 (set_std pal_only camera []).2
unfolding set_std std_id
set_std-success_example = set_std-success pal_only camera [] refl
