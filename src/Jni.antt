-- ===== src/Jni.antt =====
-- The native side of the Java classes: src/*.c, which joins the Java objects to libvideo.
mod Samples
pub mod Pixels
pub mod Rows
pub mod Encoders
pub mod Mjpeg
pub mod State
pub mod Compressor
pub mod Exceptions
pub mod Conversion
pub mod Pointers
pub mod Actions
pub mod Grabber
pub mod Controls
pub mod ControlList
pub mod DeviceInfo
pub mod Formats
pub mod Resolutions
pub mod Tuner
pub mod Device
