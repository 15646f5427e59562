-- ===== src/Transceiver.antt =====
-- kbdus/src/transceiver.c
pub mod Layout
pub mod Bounds
pub mod Payload
pub mod RoundTrip
pub mod Calls
pub mod Copies
pub mod Valid
pub mod Receive
pub mod Resend
mod Dispatch
mod Tests
