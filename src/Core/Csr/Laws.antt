-- ===== src/Core/Csr/Laws.antt =====
-- Reads after writes of the CSRs.
use riscv_emulator.Base.{
  ℕ, ◌*◌, ◌%◌, ◌^◌, ◌<◌, ◌≡◌, ◌≢◌, refl, Bool, true, not, ◌&&◌, ◌||◌, arith, ltb, ◌==◌,
  if◌then◌else◌, some, bit, bit-bit_and, bit-bit_or, bit-pow, bit-complement, bit-lt, bit_and,
  bit_and_low,
}
use riscv_emulator.Word.{not32}
use riscv_emulator.Memory.Mmu.{Mmu, set_page_table_base}
use riscv_emulator.Core.State.{Core}
use riscv_emulator.Core.Csr.{
  sstatus, mstatus, mip, satp, cycle_time, csr_value, write_csr, is_read_only, masked, mip_mask,
  sstatus_mask, update_mmu_from_satp, base_of_satp,
}

-- A register that keeps what is written: none of sstatus, mip, the counters and mhartid.
abbrev pub is_plain : ℕ → Bool
is_plain a =
    ltb a 4096
    && (not (a == sstatus || a == mip)
        && (not (a == 0xB01 || a == 0xB14) && not (a == cycle_time || is_read_only a)))

-- A write to a plain CSR shows in later reads of it and of no other CSR but sstatus, which shows
-- bits of mstatus; a write to a read-only CSR, or beyond the last, shows nowhere.
pub csr_value-write_csr :
    (c : Core) (a v b : ℕ)
    → (is_plain a || (is_read_only a || not (ltb a 4096))) ≡ true
    → b ≢ sstatus
    → csr_value (write_csr c a v) b ≡ (if a == b && is_plain a then v else csr_value c b)
unfolding csr_value write_csr
csr_value-write_csr c a v b h ne = ground arith

bit-masked :
    (k old v m : ℕ)
    → k < 32
    → m < 2 ^ 32
    → bit k (masked old v m) ≡ (if bit k m == 1 then bit k v else bit k old)
bit-masked k old v m hk hm = ground (
  arith,
  bit-bit_or k (bit_and old (not32 m)) (bit_and v m),
  bit-bit_and k old (not32 m),
  bit-bit_and k v m,
  bit-complement 32 k m hm hk,
  bit-lt k m,
  bit-lt k v,
  bit-lt k old,
)

bit-mip_mask : (k : ℕ) → bit k mip_mask ≡ (if k == 1 || (k == 5 || k == 9) then 1 else 0)
bit-mip_mask k =
    ground
      (arith, bit-bit_or k 0x22 0x200, bit-bit_or k 0x2 0x20, bit-pow k 1, bit-pow k 5, bit-pow k 9)

bit-sstatus_mask :
    (k : ℕ) → bit k sstatus_mask ≡ (if (k == 1 || k == 5) || (k == 9 || k == 10) then 1 else 0)
bit-sstatus_mask k = ground (
  arith,
  bit-bit_or k 0x22 0x600,
  bit-bit_or k 0x2 0x20,
  bit-bit_or k 0x200 0x400,
  bit-pow k 1,
  bit-pow k 5,
  bit-pow k 9,
  bit-pow k 10,
)

-- A write to mip changes its bits 1, 5 and 9 alone; a write to sstatus changes bits 1, 5, 9 and 10 of
-- mstatus alone, so it cannot set SPP, which is bit 8.
pub masked_writes :
    (c : Core) (v k : ℕ)
    → k < 32
    → (bit k (csr_value (write_csr c mip v) mip)
        ≡ (if k == 1 || (k == 5 || k == 9) then bit k v else bit k (csr_value c mip)))
      × (bit k (csr_value (write_csr c sstatus v) mstatus) ≡ (
          if (k == 1 || k == 5) || (k == 9 || k == 10)
          then bit k v
          else bit k (csr_value c mstatus)))
unfolding csr_value write_csr
masked_writes c v k hk = (
  ground (arith, bit-masked k (c.csr_registers mip) v mip_mask hk, bit-mip_mask k),
  ground (arith, bit-masked k (c.csr_registers mstatus) v sstatus_mask hk, bit-sstatus_mask k),
)

-- A write to SATP sets the page table base of the MMU: 0, that is no translation, in bare mode, and
-- the low 22 bits times 4096, as a 32-bit number, in Sv32 mode. It leaves the TLB as it is.
pub write_csr-satp :
    (c : Core) (m : Mmu) (v : ℕ)
    → c.mmu ≡ some m
    → v < 2 ^ 32
    → (n : Mmu) × ((write_csr c satp v).mmu ≡ some n)
      × (n.page_table_base ≡ (if ltb v (2 ^ 31) then 0 else v % 2 ^ 22 * 2 ^ 12 % 2 ^ 32))
      × (n.tlb_entries ≡ m.tlb_entries)
unfolding write_csr update_mmu_from_satp set_page_table_base
write_csr-satp c m v h fits =
    (set_page_table_base m (base_of_satp v), rw h refl, ground (arith, bit_and_low 22 v), refl)
