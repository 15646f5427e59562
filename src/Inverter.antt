-- ===== src/Inverter.antt =====
-- kbdus/src/inverter.c
pub mod State
pub mod Wrappers
pub mod Lifecycle
pub mod Requests
pub mod Items
pub mod Valid
pub mod Transitions
pub mod Sizes
pub mod Operations
pub mod History
pub mod Handles
pub mod Queue
pub mod Pending
pub mod Moves
mod Refinement
mod Ages
pub mod Reuse
pub mod Timer
pub mod Samples
mod Tests
