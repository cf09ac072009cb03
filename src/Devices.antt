-- ===== src/Devices.antt =====
-- src/devices.h and src/devices.c: the emulated peripherals.
pub mod Host
pub mod Via
pub mod Acia
pub mod FileIo
mod Tests
