-- ===== src/Control.antt =====
-- The controls of a device: libvideo/v4l2-input.c, and their dispatch in libvideo/libvideo.c.
pub mod Kinds
pub mod Quirks
pub mod Value
pub mod Menu
pub mod Enumerate
