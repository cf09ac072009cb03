-- ===== src/Cpu.antt =====
-- src/v6502.h and src/v6502.c: the processor.
pub mod State
pub mod Flags
pub mod Addresses
pub mod Stack
pub mod Load
pub mod Quirks
pub mod Run
pub mod Invariant
pub mod Branches
pub mod Alu
pub mod Exec
pub mod Step
mod Tests
