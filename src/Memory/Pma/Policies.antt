-- ===== src/Memory/Pma/Policies.antt =====
-- The default regions, the cache policies and the CSR interface.
use riscv_emulator.Base.{ℕ, ◌≤◌, ◌≡◌, arith, ◌&&◌, ltb, ◌==◌, if◌then◌else◌, ◌⊎◌, bit_and_le_right}
use riscv_emulator.Word.{shr32}
use riscv_emulator.Memory.Pma.{
  PmaController, PmaEntry, device_memory, uncached, index_of, read_pma_cfg, write_pma_cfg,
  read_pma_addr, write_pma_addr, entry_of,
}

-- The shared I/O region and the UART.
abbrev pub IsMmio : ℕ → Type 0
IsMmio addr = ((0x90000 ≤ addr) × (addr ≤ 0x9FFFF)) ⊎ ((0x10000000 ≤ addr) × (addr ≤ 0x1000001F))

abbrev io_entry : PmaEntry
io_entry = entry_of 0x90000 0x9FFFF device_memory uncached

abbrev uart_entry : PmaEntry
uart_entry = entry_of 0x10000000 0x1000001F device_memory uncached

-- A configuration register reads what was last written to it, and a write changes no other; an
-- interface that is not enabled ignores the write.
pub read-write_pma_cfg :
    (p : PmaController) (addr addr' value : ℕ)
    → read_pma_cfg (write_pma_cfg p addr value) addr'
      ≡ (if p.enabled && (index_of addr' == index_of addr) then value else read_pma_cfg p addr')
unfolding read_pma_cfg write_pma_cfg
read-write_pma_cfg p addr addr' value =
    ground (arith, bit_and_le_right (shr32 addr 2) 0xF, bit_and_le_right (shr32 addr' 2) 0xF)

-- An address register below 64 reads what was last written to it, and a write changes no other; an
-- interface that is not enabled ignores the write.
pub read-write_pma_addr :
    (p : PmaController) (index index' value : ℕ)
    → read_pma_addr (write_pma_addr p index value) index'
      ≡ (if p.enabled && (ltb index 64 && (index' == index)) then value else read_pma_addr p index')
unfolding read_pma_addr write_pma_addr
read-write_pma_addr p index index' value = ground arith
