-- ===== src/Memory/Pma.antt =====
-- The physical memory attributes: class PMAController of emulator/src/memory/PMA.cpp and PMA.h. The
-- two arrays of its CSR interface are functions of the index. The order that std::lower_bound needs
-- is an invariant of the regions.
pub mod Regions
pub mod Policies
pub mod Tests
use riscv_emulator.Base.{
  ℕ, ◌%◌, Bool, true, false, not, ◌&&◌, ◌||◌, Option, none, some, List, [], ◌∷◌, ltb, leb, ◌==◌,
  if◌then◌else◌, bit_and,
}
use riscv_emulator.Word.{shr32}

pub data MemoryType : Type 0 where
  normal_memory device_memory io_memory reserved : MemoryType

pub data CachePolicy : Type 0 where
  write_back write_through write_combining uncached uncacheable : CachePolicy

pub record PmaEntry : Type 0 where
  pub start_addr : ℕ
  pub end_addr : ℕ
  pub readable : Bool
  pub writable : Bool
  pub executable : Bool
  pub atomic : Bool
  pub cacheable : Bool
  pub is_device : Bool
  pub instruction_cache : Bool
  pub data_cache : Bool

pub record PmaController : Type 0 where
  pub pma_regions : List PmaEntry
  pub pmacfg : ℕ → ℕ
  pub pmaaddr : ℕ → ℕ
  pub mseccfg : ℕ
  pub enabled : Bool

unfoldable pub create : PmaController
create = record { pma_regions = []; pmacfg = λ i. 0; pmaaddr = λ i. 0; mseccfg = 0; enabled = true }

-- The first switch of `add_region`.
abbrev pub typed : ℕ → ℕ → MemoryType → PmaEntry
typed start_addr end_addr normal_memory = record {
  start_addr = start_addr;
  end_addr = end_addr;
  readable = true;
  writable = true;
  executable = true;
  atomic = true;
  cacheable = true;
  is_device = false;
  instruction_cache = true;
  data_cache = true;
}
typed start_addr end_addr device_memory = record {
  start_addr = start_addr;
  end_addr = end_addr;
  readable = true;
  writable = true;
  executable = false;
  atomic = true;
  cacheable = false;
  is_device = true;
  instruction_cache = false;
  data_cache = false;
}
typed start_addr end_addr io_memory = record {
  start_addr = start_addr;
  end_addr = end_addr;
  readable = true;
  writable = true;
  executable = false;
  atomic = false;
  cacheable = false;
  is_device = true;
  instruction_cache = false;
  data_cache = false;
}
typed start_addr end_addr reserved = record {
  start_addr = start_addr;
  end_addr = end_addr;
  readable = false;
  writable = false;
  executable = false;
  atomic = false;
  cacheable = false;
  is_device = false;
  instruction_cache = false;
  data_cache = false;
}

abbrev pub is_cached : CachePolicy → Bool
is_cached write_back = true
is_cached write_through = true
is_cached _ = false

-- Both switches: the policy overrides the caches of the type.
abbrev pub entry_of : ℕ → ℕ → MemoryType → CachePolicy → PmaEntry
entry_of start_addr end_addr type cache_policy = record (typed start_addr end_addr type) {
  cacheable = is_cached cache_policy;
  instruction_cache = is_cached cache_policy;
  data_cache = is_cached cache_policy;
}

-- An entry put before the first region that does not start below it.
abbrev pub insert : PmaEntry → List PmaEntry → List PmaEntry
insert entry [] = entry ∷ []
insert entry (r ∷ rs) =
    let rest = insert entry rs in
    if ltb r.start_addr entry.start_addr then r ∷ rest else entry ∷ r ∷ rs

unfoldable pub add_region : PmaController → ℕ → ℕ → MemoryType → CachePolicy → PmaController
add_region p start_addr end_addr type cache_policy = record p {
  pma_regions = insert (entry_of start_addr end_addr type cache_policy) p.pma_regions;
}

abbrev pub without : ℕ → List PmaEntry → List PmaEntry
without start_addr [] = []
without start_addr (r ∷ rs) =
    let rest = without start_addr rs in if r.start_addr == start_addr then rest else r ∷ rest

unfoldable pub remove_region : PmaController → ℕ → PmaController
remove_region p start_addr = record p { pma_regions = without start_addr p.pma_regions }

unfoldable pub clear_regions : PmaController → PmaController
clear_regions p = record p { pma_regions = [] }

abbrev pub covers : PmaEntry → ℕ → Bool
covers entry addr = leb entry.start_addr addr && leb addr entry.end_addr

abbrev pub find : List PmaEntry → ℕ → Option PmaEntry
find [] addr = none
find (r ∷ rs) addr = let rest = find rs addr in if covers r addr then some r else rest

unfoldable pub find_entry : PmaController → ℕ → Option PmaEntry
find_entry p addr = find p.pma_regions addr

-- `entry ? entry->field : false`.
abbrev pub holds : (PmaEntry → Bool) → Option PmaEntry → Bool
holds field none = false
holds field (some entry) = field entry

unfoldable pub is_readable : PmaController → ℕ → Bool
is_readable p addr = holds (λ e. e.readable) (find_entry p addr)

unfoldable pub is_writable : PmaController → ℕ → Bool
is_writable p addr = holds (λ e. e.writable) (find_entry p addr)

unfoldable pub is_executable : PmaController → ℕ → Bool
is_executable p addr = holds (λ e. e.executable) (find_entry p addr)

unfoldable pub supports_atomic : PmaController → ℕ → Bool
supports_atomic p addr = holds (λ e. e.atomic) (find_entry p addr)

unfoldable pub is_cacheable : PmaController → ℕ → Bool
is_cacheable p addr = holds (λ e. e.cacheable) (find_entry p addr)

unfoldable pub is_device_memory : PmaController → ℕ → Bool
is_device_memory p addr = holds (λ e. e.is_device) (find_entry p addr)

unfoldable pub has_instruction_cache : PmaController → ℕ → Bool
has_instruction_cache p addr = holds (λ e. e.instruction_cache) (find_entry p addr)

unfoldable pub has_data_cache : PmaController → ℕ → Bool
has_data_cache p addr = holds (λ e. e.data_cache) (find_entry p addr)

abbrev pub type_of_entry : Option PmaEntry → MemoryType
type_of_entry none = reserved
type_of_entry (some entry) =
    if entry.is_device then (if entry.writable then device_memory else reserved) else normal_memory

unfoldable pub get_memory_type : PmaController → ℕ → MemoryType
get_memory_type p addr = type_of_entry (find_entry p addr)

abbrev pub policy_of_entry : Option PmaEntry → CachePolicy
policy_of_entry none = uncacheable
policy_of_entry (some entry) =
    if not entry.cacheable then uncacheable else if entry.is_device then uncached else write_back

unfoldable pub get_cache_policy : PmaController → ℕ → CachePolicy
get_cache_policy p addr = policy_of_entry (find_entry p addr)

abbrev pub index_of : ℕ → ℕ
index_of addr = bit_and (shr32 addr 2) 0xF

unfoldable pub read_pma_cfg : PmaController → ℕ → ℕ
read_pma_cfg p addr =
    if not p.enabled then 0 else if leb 16 (index_of addr) then 0 else p.pmacfg (index_of addr)

unfoldable pub write_pma_cfg : PmaController → ℕ → ℕ → PmaController
write_pma_cfg p addr value =
    if not p.enabled
    then p
    else if leb 16 (index_of addr)
    then p
    else record p { pmacfg = λ i. if i == index_of addr then value else p.pmacfg i }

unfoldable pub read_pma_addr : PmaController → ℕ → ℕ
read_pma_addr p index = if not p.enabled || leb 64 index then 0 else p.pmaaddr index

unfoldable pub write_pma_addr : PmaController → ℕ → ℕ → PmaController
write_pma_addr p index value =
    if not p.enabled || leb 64 index
    then p
    else record p { pmaaddr = λ i. if i == index then value else p.pmaaddr i }

-- The regions of the linker script, in the order of the calls.
unfoldable pub initialize_default_regions : PmaController → PmaController
initialize_default_regions p =
    let p = clear_regions p in
    let p = add_region p 0x00000000 0x00000FFF normal_memory write_back in
    let p = add_region p 0x00002000 0x0000FFFF normal_memory write_back in
    let p = add_region p 0x00010000 0x0004EFFF normal_memory write_back in
    let p = add_region p 0x00050000 0x0007FFFF normal_memory write_back in
    let p = add_region p 0x00080000 0x00082007 normal_memory write_back in
    let p = add_region p 0x00082008 0x0008201F normal_memory write_through in
    let p = add_region p 0x00082020 0x00087FFF normal_memory write_back in
    let p = add_region p 0x00090000 0x0009FFFF device_memory uncached in
    let p = add_region p 0x10000000 0x1000001F device_memory uncached in
    let p = add_region p 0x000A0000 0x000A3FFF normal_memory write_back in
    let p = add_region p 0x000A4000 0x000A7FFF normal_memory write_back in
    let p = add_region p 0x000A8000 0x000ABFFF normal_memory write_back in
    add_region p 0x000AC000 0x000AFFFF normal_memory write_back
