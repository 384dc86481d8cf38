-- ===== src/V4l1.antt =====
-- The V4L1 interface of libvideo: libvideo/v4l1-input.c, libvideo/v4l1-query.c and
-- libvideo/v4l1-tuner.c.
pub mod Driver
mod Samples
pub mod Listing
pub mod Capture
pub mod Buffers
pub mod Control
pub mod Palettes
pub mod Inputs
pub mod Tuner
