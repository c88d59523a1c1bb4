-- ===== src/Interrupt.antt =====
-- The interrupt controllers, emulator/src/interrupt.
pub mod Clint
pub mod Plic
pub mod Tests
