-- ===== src/Protection.antt =====
-- src/protection.c: the optional checks on who connects.
pub mod Text
pub mod Probes
pub mod Slots
pub mod Scans
