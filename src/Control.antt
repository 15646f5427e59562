-- ===== src/Control.antt =====
-- kbdus/src/control.c
pub mod State
pub mod Files
pub mod Attach
pub mod Create
pub mod Devices
pub mod Lookup
pub mod Valid
pub mod Preserve
pub mod Attaching
pub mod Operations
pub mod Joining
pub mod Creating
pub mod Races
pub mod Lifetimes
pub mod History
pub mod Samples
mod Tests
