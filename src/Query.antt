-- ===== src/Query.antt =====
-- libvideo/v4l2-query.c: what a client learns of a device.
pub mod Inputs
pub mod Intervals
pub mod Sizes
pub mod Formats
pub mod Device
