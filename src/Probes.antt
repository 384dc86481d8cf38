-- ===== src/Probes.antt =====
-- The driver probes of libvideo: the private ioctls of a few drivers, made into controls
-- (libvideo/gspca-probe.c, libvideo/pwc-probe.c, libvideo/qc-probe.c, libvideo/fps-param-probe.c).
pub mod Driver
pub mod Gspca
pub mod Pwc
pub mod Quickcam
pub mod Fps
mod Samples
