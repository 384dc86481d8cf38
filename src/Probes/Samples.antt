-- ===== src/Probes/Samples.antt =====
-- A driver for the tests of the probes, with which each test replaces the answers it is about.
use v4l4j.Prelude.{true, none}
use v4l4j.Probes.Driver.{ProbeDriver}

-- Whatever it is asked to set, it accepts; it tells nothing.
abbrev pub silent : ProbeDriver
silent = record {
  on_gparam = λ t. none;
  on_sparam = λ t f n. true;
  on_pwc_probe = λ t. none;
  on_card = λ t. none;
  on_mpt_reset = λ t. true;
  on_mpt_get_angle = λ t. none;
  on_mpt_set_angle = λ t a. true;
  on_mpt_get_range = λ t. none;
  on_get_userlut = λ t. none;
  on_set_userlut = λ t l. true;
  on_qc_get = λ t i. none;
  on_qc_set = λ t i v. true;
  on_get_parm = λ t. none;
  on_set_parm = λ t n m. true;
}
