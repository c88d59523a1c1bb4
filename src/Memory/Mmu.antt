-- ===== src/Memory/Mmu.antt =====
-- The memory management unit: class MMU of emulator/src/memory/MMU.cpp and MMU.h. A method returns
-- the new state. What `memory_interface->read_word` returns is a function argument, `none` for a null
-- pointer: a page-table walk only reads. The log lines are left out.
pub mod Lru
pub mod Transparent
pub mod Coherent
pub mod Walk
use mathlib.Core.Option
use riscv_emulator.Base.{
  ℕ, zero, suc, ◌+◌, ◌-◌, ◌*◌, ◌/◌, ◌%◌, ◌^◌, Bool, true, false, not, ◌&&◌, ◌||◌, Option, none,
  some, List, [], ◌∷◌, bit_and, ltb, ◌==◌, if◌then◌else◌, length, get_or, set, replicate, map,
}
use riscv_emulator.Memory.Mmu.Lru.{pop_back, remove, indices}

pub record PageTableEntry : Type 0 where
  pub present : Bool
  pub readable : Bool
  pub writable : Bool
  pub executable : Bool
  pub user : Bool
  pub frame : ℕ
  pub accessed : Bool
  pub dirty : Bool

pub record TlbEntry : Type 0 where
  pub virtual_page : ℕ
  pub physical_frame : ℕ
  pub writable : Bool
  pub user : Bool
  pub valid : Bool

pub record MmuStats : Type 0 where
  pub tlb_hits : ℕ
  pub tlb_misses : ℕ
  pub page_faults : ℕ
  pub core_tlb_hits : List ℕ
  pub core_tlb_misses : List ℕ
  pub core_page_faults : List ℕ

pub record Mmu : Type 0 where
  pub page_size : ℕ
  pub num_entries : ℕ
  pub enable_tlb : Bool
  pub page_table_base : ℕ
  pub tlb_entries : List TlbEntry
  pub tlb_lru : List ℕ
  pub stats : MmuStats

-- The exceptions of ExceptionType that a translation raises.
pub data PageFault : Type 0 where
  instruction_page_fault load_page_fault store_amo_page_fault : PageFault

pub data Translation : Type 0 where
  translated : ℕ → Translation
  fault : PageFault → Translation

abbrev pub no_entry : TlbEntry
no_entry = record {
  virtual_page = 0;
  physical_frame = 0;
  writable = false;
  user = false;
  valid = false;
}

abbrev pub not_present : PageTableEntry
not_present = record {
  present = false;
  readable = false;
  writable = false;
  executable = false;
  user = false;
  frame = 0;
  accessed = false;
  dirty = false;
}

-- `v[i]++` of a vector of uint64_t.
abbrev pub bump : List ℕ → ℕ → List ℕ
bump xs i = set xs i ((get_or xs i 0 + 1) % 2 ^ 64)

unfoldable pub update_core_stats : MmuStats → ℕ → Bool → Bool → MmuStats
update_core_stats s core_id is_hit is_page_fault =
    if ltb core_id (length s.core_tlb_hits)
    then record s {
      core_tlb_hits = if is_hit then bump s.core_tlb_hits core_id else s.core_tlb_hits;
      core_tlb_misses = if is_hit then s.core_tlb_misses else bump s.core_tlb_misses core_id;
      core_page_faults =
          if is_page_fault then bump s.core_page_faults core_id else s.core_page_faults;
    }
    else s

unfoldable pub reset_stats : MmuStats → MmuStats
reset_stats s = record {
  tlb_hits = 0;
  tlb_misses = 0;
  page_faults = 0;
  core_tlb_hits = replicate (length s.core_tlb_hits) 0;
  core_tlb_misses = replicate (length s.core_tlb_misses) 0;
  core_page_faults = replicate (length s.core_page_faults) 0;
}

unfoldable pub init_core_stats : MmuStats → ℕ → MmuStats
init_core_stats s n = record s {
  core_tlb_hits = replicate n 0;
  core_tlb_misses = replicate n 0;
  core_page_faults = replicate n 0;
}

unfoldable pub create : ℕ → ℕ → Bool → Mmu
create page_size n enable = record {
  page_size = page_size;
  num_entries = n;
  enable_tlb = enable;
  page_table_base = 0;
  tlb_entries = replicate n no_entry;
  tlb_lru = indices n;
  stats = record {
    tlb_hits = 0;
    tlb_misses = 0;
    page_faults = 0;
    core_tlb_hits = [];
    core_tlb_misses = [];
    core_page_faults = [];
  };
}

unfoldable pub set_page_table_base : Mmu → ℕ → Mmu
set_page_table_base m base = record m { page_table_base = base }

unfoldable pub update_tlb_lru : Mmu → ℕ → Mmu
update_tlb_lru m i = if m.enable_tlb then record m { tlb_lru = i ∷ remove i m.tlb_lru } else m

-- The first loops of `find_tlb_entry` and of `allocate_tlb_entry`, at index `i`.
abbrev pub search_page : ℕ → ℕ → List TlbEntry → Option ℕ
search_page vpn i [] = none
search_page vpn i (e ∷ es) =
    if e.valid && e.virtual_page == vpn then some i else search_page vpn (i + 1) es

abbrev pub search_invalid : ℕ → List TlbEntry → Option ℕ
search_invalid i [] = none
search_invalid i (e ∷ es) = if not e.valid then some i else search_invalid (i + 1) es

-- The index of the entry, `none` for a null pointer.
unfoldable pub find_tlb_entry : Mmu → ℕ → Option ℕ × Mmu
unfolding update_tlb_lru
find_tlb_entry m virtual_addr =
    if not m.enable_tlb
    then (none, m)
    else elim (search_page (virtual_addr / 2 ^ 12) 0 m.tlb_entries) [
      | some i ↦ (
        some i,
        update_tlb_lru
            (record m { stats = record (m.stats) { tlb_hits = (m.stats.tlb_hits + 1) % 2 ^ 64 } })
            i,
      )
      | none ↦ (
        none,
        record m { stats = record (m.stats) { tlb_misses = (m.stats.tlb_misses + 1) % 2 ^ 64 } },
      )
    ]

-- `tlb_entries[i]` made to stand for page `vpn`.
abbrev pub claim_entry : Mmu → ℕ → ℕ → Mmu
claim_entry m i vpn = record m {
  tlb_entries =
      set m.tlb_entries i
        (record (get_or m.tlb_entries i no_entry) { virtual_page = vpn; valid = true });
}

-- With the TLB on, the LRU list is empty only if the TLB has no entry; there C++ is undefined, and
-- the model gives `none`.
unfoldable pub allocate_tlb_entry : Mmu → ℕ → Option (ℕ × Mmu)
unfolding update_tlb_lru
allocate_tlb_entry m virtual_addr =
    let vpn = virtual_addr / 2 ^ 12 in
    if not m.enable_tlb then none else elim (search_invalid 0 m.tlb_entries) [
      | some i ↦ some (i, update_tlb_lru (claim_entry m i vpn) i)
      | none ↦
          Option.map
            (λ (last : ℕ × List ℕ).
              (last.0, record (claim_entry m last.0 vpn) { tlb_lru = last.0 ∷ last.1 }))
            (pop_back m.tlb_lru)
    ]

abbrev pub has_bits : ℕ → ℕ → Bool
has_bits word mask = not (bit_and word mask == 0)

abbrev pub parse_entry : ℕ → PageTableEntry
parse_entry word = record {
  present = has_bits word 0x01;
  readable = has_bits word 0x02;
  writable = has_bits word 0x04;
  executable = has_bits word 0x08;
  user = has_bits word 0x10;
  frame = bit_and (word / 2 ^ 10) 0x3FFFFF;
  accessed = has_bits word 0x40;
  dirty = has_bits word 0x80;
}

-- The standard walk over two levels.
abbrev pub two_level_walk : (ℕ → ℕ) → ℕ → ℕ → ℕ → PageTableEntry
two_level_walk read_word base vpn1 vpn0 =
    let pte1_value = read_word ((base + vpn1 * 4) % 2 ^ 32) in
    let ppn = bit_and (pte1_value / 2 ^ 10) 0x3FFFFF in
    if bit_and pte1_value 0x01 == 0
    then not_present
    else parse_entry (read_word ((ppn * 2 ^ 12 % 2 ^ 32 + vpn0 * 4) % 2 ^ 32))

-- The walk, with its short cut: for VPN[1] = 0 a leaf entry may stand in the first level.
unfoldable pub walk : (ℕ → ℕ) → ℕ → ℕ → PageTableEntry
walk read_word base virtual_addr =
    let vpn1 = bit_and (virtual_addr / 2 ^ 22) 0x3FF in
    let vpn0 = bit_and (virtual_addr / 2 ^ 12) 0x3FF in
    let direct = read_word ((base + vpn0 * 4) % 2 ^ 32) in
    if vpn1 == 0 && (has_bits direct 0x01 && has_bits direct 0x0E)
    then parse_entry direct
    else two_level_walk read_word base vpn1 vpn0

unfoldable pub read_page_table_entry : Option (ℕ → ℕ) → Mmu → ℕ → PageTableEntry
unfolding walk
read_page_table_entry none m virtual_addr = not_present
read_page_table_entry (some read_word) m virtual_addr =
    walk read_word m.page_table_base virtual_addr

unfoldable pub load_tlb_entry : Mmu → ℕ → PageTableEntry → Mmu
unfolding allocate_tlb_entry
load_tlb_entry m virtual_addr pte =
    if not m.enable_tlb || not pte.present then m else elim (allocate_tlb_entry m virtual_addr) [
      | none ↦ m
      | some (i, m') ↦ record m' {
        tlb_entries = set m'.tlb_entries i (record {
          virtual_page = virtual_addr / 2 ^ 12;
          physical_frame = pte.frame;
          writable = pte.writable;
          user = pte.user;
          valid = true;
        });
      }
    ]

abbrev pub get_page_offset : Mmu → ℕ → ℕ
get_page_offset m addr = addr % m.page_size

abbrev pub get_physical_address : Mmu → ℕ → ℕ → ℕ
get_physical_address m frame offset = (frame * m.page_size + offset) % 2 ^ 32

abbrev pub count_fault : Mmu → ℕ → Bool → Mmu
count_fault m core_id is_hit = record m {
  stats =
      update_core_stats (record (m.stats) { page_faults = (m.stats.page_faults + 1) % 2 ^ 64 })
        core_id is_hit true;
}

abbrev pub count_ok : Mmu → ℕ → Bool → Mmu
count_ok m core_id is_hit = record m { stats = update_core_stats m.stats core_id is_hit false }

-- The part of `translate_address` after a TLB hit on entry `i`.
unfoldable pub translate_hit : Mmu → ℕ → ℕ → Bool → Bool → ℕ → Translation × Mmu
translate_hit m i vaddr is_write is_instruction core_id =
    let entry = get_or m.tlb_entries i no_entry in
    if is_write && not entry.writable
    then (
      fault (if is_instruction then instruction_page_fault else store_amo_page_fault),
      count_fault m core_id true,
    )
    else (
      translated (get_physical_address m entry.physical_frame (get_page_offset m vaddr)),
      count_ok m core_id true,
    )

-- The part after a TLB miss.
unfoldable pub translate_miss : Option (ℕ → ℕ) → Mmu → ℕ → Bool → Bool → ℕ → Translation × Mmu
unfolding read_page_table_entry load_tlb_entry
translate_miss memory m vaddr is_write is_instruction core_id =
    let pte = read_page_table_entry memory m vaddr in
    if not pte.present
    then (
      fault (
          if is_instruction
          then instruction_page_fault
          else if is_write
          then store_amo_page_fault
          else load_page_fault),
      count_fault m core_id false,
    )
    else if is_write && not pte.writable
    then (fault store_amo_page_fault, count_fault m core_id false)
    else (
      translated (get_physical_address m pte.frame (get_page_offset m vaddr)),
      count_ok (load_tlb_entry m vaddr pte) core_id false,
    )

unfoldable pub translate_found :
    Option (ℕ → ℕ) → Option ℕ → Mmu → ℕ → Bool → Bool → ℕ → Translation × Mmu
unfolding translate_hit translate_miss
translate_found memory (some i) m vaddr w x core_id = translate_hit m i vaddr w x core_id
translate_found memory none m vaddr w x core_id = translate_miss memory m vaddr w x core_id

-- With page table base 0 an address stands for itself.
unfoldable pub translate_address : Option (ℕ → ℕ) → Mmu → ℕ → Bool → Bool → ℕ → Translation × Mmu
unfolding find_tlb_entry translate_found
translate_address memory m vaddr is_write is_instruction core_id =
    if m.page_table_base == 0
    then (translated vaddr, count_ok m core_id true)
    else (let found = find_tlb_entry m vaddr in
        translate_found memory found.0 found.1 vaddr is_write is_instruction core_id)

abbrev pub invalidated : TlbEntry → TlbEntry
invalidated e = record e { valid = false }

unfoldable pub flush_tlb : Mmu → Mmu
flush_tlb m = record m {
  tlb_entries = map invalidated m.tlb_entries;
  tlb_lru = indices m.num_entries;
  stats = reset_stats m.stats;
}
