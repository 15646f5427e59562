-- ===== src/Cmdbdus.antt =====
-- The command line tool (cmdbdus/bdus.c).
pub mod Numbers
mod Numerals
pub mod Output
pub mod Flush
pub mod Destroy
pub mod Version
mod Arguments
mod Destroying
pub mod Samples
mod Tests
