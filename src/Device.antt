-- ===== src/Device.antt =====
-- kbdus/src/device.c
pub mod Config
pub mod Validate
pub mod Bounds
pub mod Adjusted
pub mod Life
pub mod Agreement
pub mod Twice
pub mod Ioctl
mod Commands
pub mod Queue
pub mod Samples
mod Tests
