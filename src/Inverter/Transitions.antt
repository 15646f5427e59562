-- ===== src/Inverter/Transitions.antt =====
-- The transitions of a wrapper (kbdus/src/inverter.c) keep each part of the invariant.
pub mod Pointwise
pub mod Lists
pub mod Balance
pub mod Wakeups
pub mod Valid
