-- ===== src/Inverter/Operations.antt =====
-- Each operation of kbdus/src/inverter.c keeps the invariant.
pub mod Submit
pub mod Get
pub mod Finish
pub mod Range
pub mod Create
pub mod Destroy
pub mod Terminate
pub mod Deactivate
pub mod Activate
