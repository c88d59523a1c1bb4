-- ===== src/Lib.antt =====
-- A verification library for the RISC-V emulator: cores that interpret RV32IM with CSRs and traps, an
-- Sv32 MMU with a TLB, write-back caches over a DRAM, the directory of an MSI protocol, the table of
-- physical memory attributes, the CLINT and PLIC interrupt controllers, the UART, and the simulator's
-- dispatch of addresses with the monitor of the cores.
--
-- A core runs one instruction at a time (emulator/src/core/Core.cpp). Before each it asks the CLINT
-- and the PLIC (emulator/src/interrupt) for pending interrupts; its addresses go through the MMU
-- (emulator/src/memory/MMU.cpp), which the core's SATP register points to a page table. The
-- directory (emulator/src/memory/Coherence.cpp) stands in the simulator; no cache
-- asks it yet. Whether a core's access goes through its cache is asked of the table of attributes
-- (emulator/src/memory/PMA.cpp). An L1 cache stands over the L2 cache and that one over the DRAM, each
-- through class MemoryInterface (emulator/src/memory/Cache.cpp and DDR.cpp); the accesses that no cache
-- takes go to the simulator (emulator/src/system/Simulator.cpp), which finds the device.
--
-- The files:
--   Base, Base/*            lists, Boolean tests and bits, shared by the others
--   Word, Word/*            uint32_t and int32_t of C++
--   Interrupt/Clint         class CLINT; Clint/Registers its memory map, Clint/Timer the timer,
--                           Clint/Invariant sizes and ranges
--   Interrupt/Plic          class PLIC; Plic/Bitmap its bitmaps, Plic/Arbitration the choice of a
--                           source, Plic/Claims claim and complete, Plic/Mmio its memory map
--   Core/State              the members of class Core; Core/Counters the performance counters
--   Core/Csr                read_csr, write_csr, update_mmu_from_satp; Csr/Laws reads after writes
--   Core/Decode             the fields of an instruction; Decode/Formats the manual's encoders
--   Core/Alu                OP and OP-IMM of Core::step; Alu/Spec and Alu/Meaning the manual
--   Core/Trap               take_exception, take_interrupt, take_supervisor_interrupt, MRET and
--                           handle_interrupt; Trap/Status the bits of mstatus, Trap/Return a trap and
--                           its return, Trap/Pending the choice of an interrupt
--   Core/Execute            the cases of Core::step; Execute/Encoded whole instructions,
--                           Execute/Bounds and below the ranges of the registers
--   Core/Step               the constructor, reset and the frame of Core::step; Step/Invariant
--   Memory/Mmu              class MMU; Mmu/Lru its list of entries, Mmu/Transparent and Mmu/Coherent
--                           the TLB against the page table, Mmu/Walk page tables
--   Memory/Coherence        class CacheCoherence; Coherence/SingleWriter the states of a line,
--                           Coherence/Requests sequences of calls, Coherence/Answers reads and writes
--   Memory/Pma              class PMAController; Pma/Regions its table of regions, Pma/Policies the
--                           default regions, the cache policies and the CSR interface
--   Memory/Interface        class MemoryInterface and the contract of a memory; a memory fills it with
--                           a theorem of type Implements, a cache takes that as a parameter
--   Memory/Bytes            byte arrays and little-endian words; Bytes/Words their laws
--   Memory/Ddr              class DDRMemory; Ddr/Contract the contract, Ddr/Atomics the atomics
--   Memory/Cache            class Cache, its state and the operations on one line; Cache/Stats its
--                           statistics, Cache/Access reads and writes, Cache/Blocks blocks, Cache/Manage
--                           invalidate_all and flushes, Cache/Atomics the atomic operations
--   Memory/Cache/*          proofs: Geometry, Search and Lines the parts of an address, the ways and the
--                           lines, Replace, Steps, Fill, Store and WriteBack one changed line, Sound, Evict
--                           and Hold the invariant through a miss, Transparent, Written, Behind, Exchange,
--                           Flush, FlushRange, Create and Reset the operations, Unchanged, Layer and Stack
--                           a cache as the memory of another one
--   System/Uart             class UART
--   System/Monitor          class MultiCoreMonitor; Monitor/Release the release of the cores
--   System/Dispatch         the accesses of class Simulator to memory and devices; Dispatch/Ram plain
--                           memory, Dispatch/Atomics the atomic operations
--   System/Direct           class SimulatorMemoryInterface of emulator/include/system/Simulator.h
--   System/Loader           load_program: the segments of an ELF file, a raw file, the memory behind
--                           the program; Loader/Segments what a loaded segment leaves
--   Tests in these folders  runs at concrete states
--
-- State is a record, a method a function from the old state to the new one. A machine integer is a
-- native number with its wrap-around written out, an array of registers a function of the index, a
-- pointer that may be null an Option. What the page-table walk reads from memory is a function. A
-- mutex that a method takes twice is a result of its own. Every loop is a recursion over a list or a
-- count; only the logarithm of a cache has fuel, 32 halvings, enough for a uint32_t. Log output is left out.
--
-- Not modelled: the loads, stores and atomic instructions of Core::step, which choose between the
-- caches and the simulator (a step that meets one ends the run); the simulator's loop over the cores and
-- the boot; the loader's search for the entry point and its writes through the memory interface;
-- the debugger, the profilers, the AI extensions.
pub mod Base
pub mod Core
pub mod Interrupt
pub mod Memory
pub mod System
pub mod Word
