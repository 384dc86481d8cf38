-- ===== src/Capture.antt =====
-- The capture side of libvideo/v4l2-input.c. Records holds struct capture_device.
pub mod Records
pub mod Standard
pub mod Input
pub mod Format
pub mod Setup
pub mod Buffers
