-- ===== src/V4l1/Samples.antt =====
-- A V4L1 driver for the tests, with which each test replaces the answers it is about.
use v4l4j.Prelude.{true, false, none, some, [], ◌∷◌, ◌≢◌, inr, refl}
use v4l4j.Prelude.Int.{pos}
use v4l4j.Palettes.Table.{Palette}
use v4l4j.V4l1.Driver.{V4l1Driver, V4l1Trace, Picture, spict}
use v4l4j.V4l1.Control.Registers.{Remembers}

-- a picture with its controls in the middle
abbrev pub grey_picture : Picture
grey_picture = record {
  brightness = 32768;
  hue = 32768;
  colour = 32768;
  contrast = 32768;
  whiteness = 32768;
  depth = 8;
  palette = 1;
}

-- Whatever it is asked to set, it accepts; a picture that is set is not remembered.
abbrev pub old_driver : V4l1Driver
old_driver = record {
  on_gcap = λ t. some (record {
    cap_type = 1;
    channels = 1;
    maxwidth = 640;
    maxheight = 480;
    minwidth = 160;
    minheight = 120;
  });
  on_schan = λ t i n. true;
  on_gchan = λ t i. some (record { tuners = pos 0; flags = 0; chan_type = 2 });
  on_gpict = λ t. some grey_picture;
  on_spict = λ t p. true;
  on_swin = λ t w h. true;
  on_gwin = λ t. some (record { width = 320; height = 240 });
  on_gmbuf = λ t. some (record { size = 8192; frames = pos 4; second_offset = 4096 });
  on_mmap = λ t n. some 0x1000;
  on_munmap = λ t s n. true;
  on_mcapture = λ t f w h p. true;
  on_sync = λ t f. true;
  on_gtuner = λ t i. none;
  on_gfreq = λ t. none;
  on_sfreq = λ t f. true;
}

-- what stands behind the table of formats
abbrev pub zeroes : Palette
zeroes = record {
  libvideo_palette = 0;
  v4l1_palette = 0;
  v4l2_palette = 0;
  depth = pos 0;
  name = "";
}

-- the last picture of a list of calls
abbrev pub remembered : V4l1Trace → Picture
remembered [] = grey_picture
remembered (spict p ∷ t) = p
remembered (call ∷ t) = remembered t

-- It takes every picture, and tells the one it took last.
abbrev pub remembering : V4l1Driver
remembering = record old_driver { on_gpict = λ t. some (remembered t) }

pub accepts : true ≢ false
accepts e = cc

abbrev pub remembering-Remembers : Remembers remembering
remembering-Remembers = record {
  held = λ t. remembered t;
  answers = λ t. inr refl;
  after_read = λ t. refl;
  after_caps = λ t. refl;
  accepted = λ t p e. refl;
  rejected = λ t p e. absurd (accepts e);
}
