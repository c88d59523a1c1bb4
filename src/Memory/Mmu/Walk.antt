-- ===== src/Memory/Mmu/Walk.antt =====
-- Page table walks: what a two-level table means, and what the walk leaves out.
use riscv_emulator.Base.{
  ℕ, ◌+◌, ◌*◌, ◌/◌, ◌%◌, ◌^◌, ◌<◌, ◌≡◌, ◌≢◌, refl, ap, ◌∙◌, Bool, true, false, arith, ◌==◌, some,
  bit_and, bit_and_low,
}
use riscv_emulator.Memory.Mmu.{
  Mmu, translated, walk, parse_entry, translate_address, set_page_table_base, search_page,
  find_tlb_entry, translate_found, translate_hit, update_tlb_lru,
}
use riscv_emulator.Memory.Mmu.Transparent.{IsCoherent, translate_address_lem}

-- In memory a first-level entry for `v` points to the second-level table in frame `table`, and the
-- second-level entry maps the page of `v` to `frame`, with the flags `flags`, V among them.
pub record IsMapped (read_word : ℕ → ℕ) (base v table frame flags : ℕ) : Type 0 where
  pub address : v < 2 ^ 32
  pub upper : 0 < v / 2 ^ 22
  pub base_fits : base + v / 2 ^ 22 * 4 < 2 ^ 32
  pub table_fits : table < 2 ^ 20
  pub frame_fits : frame < 2 ^ 20
  pub flags_fit : flags < 2 ^ 10
  pub valid : flags % 2 ≡ 1
  pub pointer : read_word (base + v / 2 ^ 22 * 4) ≡ table * 2 ^ 10 + 1
  pub leaf : read_word (table * 2 ^ 12 + v / 2 ^ 12 % 2 ^ 10 * 4) ≡ frame * 2 ^ 10 + flags

walk-IsMapped :
    (read_word : ℕ → ℕ) (base v table frame flags : ℕ)
    → IsMapped read_word base v table frame flags
    → walk read_word base v ≡ parse_entry (frame * 2 ^ 10 + flags)
unfolding walk
walk-IsMapped read_word base v table frame flags w =
    let vpn1 : bit_and (v / 2 ^ 22) 0x3FF ≡ v / 2 ^ 22 =
      omega (arith, w.address, bit_and_low 10 (v / 2 ^ 22)) in
    let vpn0 : bit_and (v / 2 ^ 12) 0x3FF ≡ v / 2 ^ 12 % 2 ^ 10 = bit_and_low 10 (v / 2 ^ 12) in
    let not_low : (v / 2 ^ 22 == 0) ≡ false = ground (arith, w.upper) in
    let first : (base + v / 2 ^ 22 * 4) % 2 ^ 32 ≡ base + v / 2 ^ 22 * 4 =
      omega (arith, w.base_fits) in
    let on : bit_and (table * 2 ^ 10 + 1) 0x01 ≡ 1 =
      omega (arith, bit_and_low 1 (table * 2 ^ 10 + 1)) in
    let ppn : bit_and ((table * 2 ^ 10 + 1) / 2 ^ 10) 0x3FFFFF ≡ table =
      omega (arith, w.table_fits, bit_and_low 22 ((table * 2 ^ 10 + 1) / 2 ^ 10)) in
    let second : (table * 2 ^ 12 % 2 ^ 32 + v / 2 ^ 12 % 2 ^ 10 * 4) % 2 ^ 32
        ≡ table * 2 ^ 12 + v / 2 ^ 12 % 2 ^ 10 * 4 =
      omega (arith, w.table_fits) in
    rw (vpn1, vpn0, not_low, first, w.pointer, on, ppn, second, w.leaf) refl

-- Where a two-level page table maps the page of an address of 4 MiB or more to a frame, and the TLB
-- agrees with the page table, a read of the address translates to the frame's start plus the offset
-- in the page, whatever the bits R, W, X and U say.
pub translate_address-IsMapped :
    (read_word : ℕ → ℕ) (m : Mmu) (v table frame flags : ℕ) (x : Bool) (id : ℕ)
    → m.page_table_base ≢ 0
    → m.page_size ≡ 2 ^ 12
    → IsMapped read_word m.page_table_base v table frame flags
    → IsCoherent read_word m.page_table_base m.tlb_entries
    → (translate_address (some read_word) m v false x id).0
      ≡ translated (frame * 2 ^ 12 + v % 2 ^ 12)
translate_address-IsMapped read_word m v table frame flags x id on size w coherent =
    let walked = walk-IsMapped read_word m.page_table_base v table frame flags w in
    let word = frame * 2 ^ 10 + flags in
    let base : (m.page_table_base == 0) ≡ false = ground (arith, on) in
    let present : bit_and word 0x01 ≡ 1 = omega (arith, w.valid, bit_and_low 1 word) in
    let ppn : bit_and (word / 2 ^ 10) 0x3FFFFF ≡ frame =
      omega (arith, w.frame_fits, w.flags_fit, bit_and_low 22 (word / 2 ^ 10)) in
    translate_address_lem read_word m v false x id refl coherent
    ∙ simp (base, walked, size, present, ppn) (ap translated (omega (arith, w.frame_fits)))

-- A switch of the page table alone leaves translations of the old one in force: where the TLB holds
-- the page of an address, a read of it gives the same under any two tables and in any two memories.
pub stale_translation :
    (old new : ℕ → ℕ) (m : Mmu) (v i base base2 : ℕ) (x : Bool) (id : ℕ)
    → m.enable_tlb ≡ true
    → search_page (v / 2 ^ 12) 0 m.tlb_entries ≡ some i
    → base ≢ 0
    → base2 ≢ 0
    → (translate_address (some old) (set_page_table_base m base) v false x id).0
      ≡ (translate_address (some new) (set_page_table_base m base2) v false x id).0
unfolding translate_address find_tlb_entry translate_found translate_hit update_tlb_lru
    set_page_table_base
stale_translation old new m v i base base2 x id enabled found h h2 =
    let on : (base == 0) ≡ false = ground arith in
    let on2 : (base2 == 0) ≡ false = ground arith in simp (enabled, found, on, on2) refl
