-- ===== src/Memory.antt =====
-- The memory system, emulator/src/memory.
pub mod Mmu
pub mod Interface
pub mod Bytes
pub mod Ddr
pub mod Cache
pub mod Coherence
pub mod Pma
pub mod Tests
