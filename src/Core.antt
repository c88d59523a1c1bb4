-- ===== src/Core.antt =====
-- The processor core: class Core of emulator/src/core/Core.cpp and Core.h.
pub mod Decode
pub mod Alu
pub mod State
pub mod Counters
pub mod Csr
pub mod Trap
pub mod Execute
pub mod Step
pub mod Tests
