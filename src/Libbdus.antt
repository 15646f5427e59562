-- ===== src/Libbdus.antt =====
-- The library of drivers in user space (libbdus/src): what a driver is, the checks of its attributes,
-- the backend with its worker threads, and the functions that manage devices.
pub mod Driver
pub mod Attrs
pub mod Rerun
pub mod Requests
pub mod Worker
pub mod Threads
pub mod Mappings
pub mod Session
mod Sessions
pub mod Manage
pub mod Processes
mod Release
mod Accept
mod Agreement
mod Replies
mod Takeover
mod Joins
pub mod Callbacks
pub mod Samples
mod Tests
