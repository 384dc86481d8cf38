-- ===== src/Capture/Setup/Tests.antt =====
-- set_cap_param_v4l2 on small drivers, and its theorem at one.
use v4l4j.Prelude.{none, [], ◌≡◌, ◌⊎◌, refl}
use v4l4j.Errors.{success, err_std, err_channel, err_format}
use v4l4j.Driver.{Driver}
use v4l4j.Palettes.{palette_code, get_palette_index}
use v4l4j.Samples.{obliging, camera}
use v4l4j.Capture.Standard.{set_std}
use v4l4j.Capture.Input.{set_input, set_crop}
use v4l4j.Capture.Format.{no_palette, set_image_format}
use v4l4j.Capture.Setup.{set_cap_param}
use v4l4j.Capture.Setup.Stages.{formats_set, set_cap_param-formats_set}

abbrev no_format : Driver
no_format = record obliging { on_s_fmt = λ t f. none }

set_cap_param_succeeds : (set_cap_param obliging camera no_palette 7 []).0 ≡ success
unfolding set_cap_param set_std set_input set_image_format set_crop palette_code get_palette_index
set_cap_param_succeeds = refl

set_cap_param_format : (set_cap_param no_format camera no_palette 7 []).0 ≡ err_format
unfolding set_cap_param set_std set_input set_image_format set_crop palette_code get_palette_index
set_cap_param_format = refl

set_cap_param-formats_set_example :
    let (ret, c', t') = set_cap_param no_format camera no_palette 7 [] in
    (((ret ≡ err_std) ⊎ (ret ≡ err_channel)) × (formats_set t' ≡ 0))
    ⊎ (((ret ≡ success) ⊎ (ret ≡ err_format)) × (formats_set t' ≡ 1))
set_cap_param-formats_set_example = set_cap_param-formats_set no_format camera no_palette 7 []
