-- ===== src/Probes/Gspca/Tests.antt =====
-- The parameters of a driver that keeps them, and the theorem at it.
use v4l4j.Prelude.{some, [], ◌∷◌, ◌≡◌, refl, get_elem?, ltb, arith}
use v4l4j.Prelude.Int.{pos, negsuc}
use v4l4j.Errors.{success}
use v4l4j.Driver.{QueryCtrl}
use v4l4j.Control.Kinds.{type_integer}
use v4l4j.Probes.Driver.{ProbeDriver, ProbeTrace, VideoParam, gparam, sparam}
use v4l4j.Probes.Samples.{silent}
use v4l4j.Probes.Gspca.{
  chg_tinter, gspca_probe_index, gspca_list_ctrl, gspca_driver_probe, gspca_get_ctrl,
  gspca_set_ctrl,
}
use v4l4j.Probes.Gspca.RoundTrip.{accepted, changed, KeepsParams, gspca_get_ctrl-gspca_set_ctrl}

-- the parameters after some calls
abbrev params : ProbeTrace → VideoParam
params [] = record { autobright = 0; quality = 0; time_interval = 0; light_freq = 0 }
params (sparam field n ∷ t) = changed field (accepted field n) (params t)
params (call ∷ t) = params t

abbrev camera : ProbeDriver
camera = record silent { on_gparam = λ t. some (params t) }

camera-KeepsParams : KeepsParams camera
camera-KeepsParams = record { held = λ t. params t; told = λ t. refl; kept = λ t field n e. refl }

-- It is a driver that gspca_driver_probe accepts.
camera_found : (gspca_driver_probe camera []).0 ≡ pos 4
unfolding gspca_driver_probe
camera_found = refl

-- the control of the frame interval
abbrev interval : QueryCtrl
interval = record {
  id = 2;
  ctrl_type = type_integer;
  minimum = pos 0;
  maximum = pos 1000;
  step = pos 0;
  flags = 0;
  reserved0 = 0x5_4e83;
  reserved1 = gspca_probe_index;
}

interval_set : gspca_set_ctrl camera 2 (pos 500) [] ≡ (success, sparam chg_tinter 500 ∷ [])
unfolding gspca_set_ctrl
interval_set = refl

interval_listed : get_elem? (gspca_list_ctrl.0) 2 ≡ some interval
unfolding gspca_list_ctrl
interval_listed = refl

gspca_get_ctrl-gspca_set_ctrl_example :
    gspca_get_ctrl camera 2 (sparam chg_tinter 500 ∷ [])
    ≡ (success, some (pos 500), gparam ∷ sparam chg_tinter 500 ∷ [])
gspca_get_ctrl-gspca_set_ctrl_example =
    gspca_get_ctrl-gspca_set_ctrl camera camera-KeepsParams 2 500 interval []
      (sparam chg_tinter 500 ∷ []) interval_listed (omega arith) interval_set

-- A driver that rejects a frequency it does not know is taken for another one.
strict_driver_found :
    (gspca_driver_probe (record camera { on_sparam = λ t f n. ltb n 61 }) []).0 ≡ negsuc 0
unfolding gspca_driver_probe
strict_driver_found = refl
