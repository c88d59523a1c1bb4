-- ===== src/Memory/Tests.antt =====
-- Translations through a small TLB and a two-level page table.
use riscv_emulator.Base.{
  ℕ, zero, suc, ◌≡◌, refl, arith, true, false, List, [], ◌∷◌, some, ◌==◌, if◌then◌else◌,
}
use riscv_emulator.Memory.Mmu.{
  Mmu, no_entry, translated, flush_tlb, translate_address, set_page_table_base,
}
use riscv_emulator.Memory.Mmu.Transparent.{IsCoherent, walk_translation}
use riscv_emulator.Memory.Mmu.Coherent
use riscv_emulator.Memory.Mmu.Coherent.{
  MmuCall, translates, switches_flushing, MmuIsCoherent, translate_address-MmuIsCoherent,
  translate_address-run,
}
use riscv_emulator.Memory.Mmu.Walk.{IsMapped, translate_address-IsMapped, stale_translation}

-- The first-level entry at 0x1004 points to frame 2, whose entry at 0x2008 maps a page to frame 9.
abbrev page_tables : ℕ → ℕ
page_tables a = if a == 0x1004 then 0x801 else if a == 0x2008 then 0x2407 else 0

abbrev mmu : Mmu
mmu = record {
  page_size = 4096;
  num_entries = 2;
  enable_tlb = true;
  page_table_base = 0x1000;
  tlb_entries = no_entry ∷ no_entry ∷ [];
  tlb_lru = 0 ∷ 1 ∷ [];
  stats = record {
    tlb_hits = 0;
    tlb_misses = 0;
    page_faults = 0;
    core_tlb_hits = [];
    core_tlb_misses = [];
    core_page_faults = [];
  };
}

mmu-IsCoherent : (read_word : ℕ → ℕ) → IsCoherent read_word 0x1000 (no_entry ∷ no_entry ∷ [])
mmu-IsCoherent read_word zero h = absurd (ground arith)
mmu-IsCoherent read_word (suc zero) h = absurd (ground arith)
mmu-IsCoherent read_word (suc (suc i)) h = absurd (ground arith)

abbrev calls : List MmuCall
calls = translates 0x402123 false false 0 ∷ translates 0x402456 true false 0 ∷ []

translate_address-run_example :
    (translate_address
      (some page_tables)
      (Coherent.run page_tables (flush_tlb mmu) calls)
      0x402789
      false
      false
      0).0
    ≡ walk_translation page_tables
        (Coherent.run page_tables (flush_tlb mmu) calls)
        0x402789
        false
        false
translate_address-run_example =
    translate_address-run page_tables mmu calls 0x402789 false false 0 refl

mapped : IsMapped page_tables 0x1000 0x402123 2 9 7
mapped = record {
  address = omega arith;
  upper = omega arith;
  base_fits = omega arith;
  table_fits = omega arith;
  frame_fits = omega arith;
  flags_fit = omega arith;
  valid = refl;
  pointer = refl;
  leaf = refl;
}

translate_address-IsMapped_example :
    (translate_address (some page_tables) mmu 0x402123 false false 0).0 ≡ translated 0x9123
translate_address-IsMapped_example =
    translate_address-IsMapped page_tables mmu 0x402123 2 9 7 false 0 (omega arith) refl mapped
      (mmu-IsCoherent page_tables)

abbrev loaded : Mmu
loaded = record mmu {
  tlb_entries =
      record {
        virtual_page = 0x402;
        physical_frame = 9;
        writable = true;
        user = false;
        valid = true;
      }
      ∷ no_entry
      ∷ [];
}

stale_translation_example :
    (translate_address
      (some page_tables)
      (set_page_table_base loaded 0x1000)
      0x402123
      false
      false
      0).0
    ≡ (translate_address
        (some (λ a. 0))
        (set_page_table_base loaded 0x5000)
        0x402123
        false
        false
        0).0
stale_translation_example =
    stale_translation page_tables (λ a. 0) loaded 0x402123 0 0x1000 0x5000 false 0 refl refl
      (omega arith) (omega arith)
