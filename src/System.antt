-- ===== src/System.antt =====
-- The kernel module and the threads of a driver together: kbdus/src/inverter.c and transceiver.c, and
-- libbdus/src/backend.c.
mod Gotten
mod Delivered
mod Serving
mod Rounds
mod Interleaved
mod Tests
