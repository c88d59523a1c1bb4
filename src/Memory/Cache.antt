-- ===== src/Memory/Cache.antt =====
-- The caches: class Cache of emulator/src/memory/Cache.cpp and Cache.h, its state and the operations on
-- one line. The arrays of sets and ways are functions of the indices; `new` leaves the words of a line
-- undefined, here they start as zeros. `none` is an assertion that fails or a list that is empty where
-- C++ needs an element. The log lines are left out, with the checks of a debug build.
pub mod Stats
mod Tests
pub mod Blocks
pub mod Manage
pub mod Atomics
pub mod Layer
pub mod Stack
pub mod Behind
pub mod Exchange
pub mod Reset
pub mod Create
pub mod Unchanged
pub mod Access
pub mod Geometry
pub mod Search
pub mod Lines
pub mod Replace
pub mod Steps
pub mod Fill
pub mod Store
pub mod Sound
pub mod WriteBack
pub mod Evict
pub mod Flush
pub mod FlushRange
pub mod Hold
pub mod Transparent
pub mod Written
use mathlib.Core.Option
use riscv_emulator.Base.{
  ℕ, zero, suc, ◌+◌, ◌-◌, ◌*◌, ◌/◌, ◌%◌, ◌^◌, Bool, true, false, not, ◌&&◌, ◌||◌, Option, none,
  some, List, [], ◌∷◌, ltb, leb, ◌==◌, if◌then◌else◌, get_or, set, replicate, bit_and, bit_or,
}
use riscv_emulator.Word.{u32, not32, shl32, shr32}
use riscv_emulator.Memory.Interface.{MemoryInterface}
use riscv_emulator.Memory.Mmu
use riscv_emulator.Memory.Mmu.{Mmu, translated, fault}
use riscv_emulator.Memory.Mmu.Lru.{pop_back, remove, indices}
use Stats.{CacheStats, zero_stats, init_core_stats, add64, update_core_stats, reset}

pub record CacheConfig : Type 0 where
  pub size : ℕ
  pub associativity : ℕ
  pub block_size : ℕ
  pub is_instruction_cache : Bool
  pub access_latency : ℕ
  pub miss_penalty : ℕ

pub record CacheEntry : Type 0 where
  pub tag : ℕ
  pub words : List ℕ
  pub valid : Bool
  pub dirty : Bool

pub record Cache : Type 0 where
  pub config : CacheConfig
  pub num_sets : ℕ
  pub block_offset_bits : ℕ
  pub set_index_bits : ℕ
  pub tag_shift : ℕ
  pub stats : CacheStats
  pub mmu : Option Mmu
  pub cache_entries : ℕ → ℕ → CacheEntry
  pub lru_lists : ℕ → List ℕ

-- `static_cast<uint32_t>(log2(n))`, in at most `fuel` halvings.
unfoldable pub log2_within : ℕ → ℕ → ℕ
log2_within zero n = 0
log2_within (suc fuel) n = let rest = log2_within fuel (n / 2) + 1 in if ltb n 2 then 0 else rest

unfoldable pub log2 : ℕ → ℕ
unfolding log2_within
log2 n = log2_within 32 n

-- The assertions of `calculate_parameters`.
abbrev pub is_legal : CacheConfig → Bool
is_legal config =
    ltb 0 config.size
    && (ltb 0 config.block_size
        && (bit_and config.block_size (config.block_size - 1) == 0
            && (ltb 0 config.associativity
                && (config.size % u32 (config.block_size * config.associativity) == 0
                    && (ltb 0 (config.size / u32 (config.block_size * config.associativity))
                        && ltb 0 (log2 config.block_size))))))

abbrev pub empty_entry : ℕ → CacheEntry
empty_entry words = record { tag = 0; words = replicate words 0; valid = false; dirty = false }

unfoldable pub create : CacheConfig → Option Cache
create config =
    let num_sets = config.size / u32 (config.block_size * config.associativity) in
    if is_legal config
    then some (record {
      config = config;
      num_sets = num_sets;
      block_offset_bits = log2 config.block_size;
      set_index_bits = log2 num_sets;
      tag_shift = log2 config.block_size + log2 num_sets;
      stats = zero_stats;
      mmu = none;
      cache_entries = λ s w. empty_entry (config.block_size / 4);
      lru_lists = λ s. indices config.associativity;
    })
    else none

-- The copy constructor, by which a vector of caches is filled, and the assignment. The statistics are
-- not copied.
unfoldable pub copy : Cache → Cache
copy other = record other { stats = zero_stats }

unfoldable pub assign : Cache → Cache → Cache
assign this other = record other { stats = this.stats }

unfoldable pub set_mmu : Cache → Option Mmu → Cache
set_mmu c mmu = record c { mmu = mmu }

unfoldable pub set_num_cores : Cache → ℕ → Cache
set_num_cores c num_cores = record c { stats = init_core_stats c.stats num_cores }

unfoldable pub reset_stats : Cache → Cache
reset_stats c = record c { stats = reset c.stats }

abbrev pub get_tag : Cache → ℕ → ℕ
get_tag c addr = shr32 addr c.tag_shift

abbrev pub get_set_index : Cache → ℕ → ℕ
get_set_index c addr = bit_and (shr32 addr c.block_offset_bits) (2 ^ c.set_index_bits - 1)

abbrev pub get_block_offset : Cache → ℕ → ℕ
get_block_offset c addr = bit_and addr (c.config.block_size - 1)

abbrev pub get_block_address : Cache → ℕ → ℕ
get_block_address c addr = bit_and addr (not32 (c.config.block_size - 1))

abbrev pub words_per_block : Cache → ℕ
words_per_block c = c.config.block_size / 4

-- The loops over the ways of a set, of which `left` are left from way `w` on.
abbrev pub is_hit : CacheEntry → ℕ → Bool
is_hit entry tag = entry.valid && entry.tag == tag

abbrev pub search_tag : (ℕ → CacheEntry) → ℕ → ℕ → ℕ → Option ℕ
search_tag row tag w zero = none
search_tag row tag w (suc left) =
    let rest = search_tag row tag (w + 1) left in if is_hit (row w) tag then some w else rest

abbrev pub search_invalid : (ℕ → CacheEntry) → ℕ → ℕ → Option ℕ
search_invalid row w zero = none
search_invalid row w (suc left) =
    let rest = search_invalid row (w + 1) left in if not (row w).valid then some w else rest

-- The way of the entry, `none` for a null pointer.
unfoldable pub find_entry : Cache → ℕ → Option ℕ
find_entry c addr =
    let set_index = get_set_index c addr in
    if leb c.num_sets set_index
    then none
    else search_tag (c.cache_entries set_index) (get_tag c addr) 0 c.config.associativity

-- `cache_entries[s][w] = entry`.
abbrev pub put_entry : Cache → ℕ → ℕ → CacheEntry → Cache
put_entry c s w entry = record c {
  cache_entries = λ s' w'. if s' == s && w' == w then entry else c.cache_entries s' w';
}

unfoldable pub update_lru : Cache → ℕ → ℕ → Cache
update_lru c s w = record c {
  lru_lists = λ s'. if s' == s then w ∷ remove w (c.lru_lists s) else c.lru_lists s';
}

-- The address from which the line in way `w` of set `s` was loaded.
abbrev pub line_address : Cache → ℕ → ℕ → ℕ
line_address c s w =
    bit_or (shl32 (c.cache_entries s w).tag c.tag_shift) (shl32 s c.block_offset_bits)

abbrev pub dropped : CacheEntry → CacheEntry
dropped entry = record entry { valid = false; dirty = false }

abbrev pub claimed : CacheEntry → ℕ → CacheEntry
claimed entry tag = record entry { tag = tag; valid = true; dirty = false }

abbrev pub count_writeback : Cache → Cache
count_writeback c = record c {
  stats = record (c.stats) { writebacks = add64 c.stats.writebacks 1 };
}

module _ {M : Type 0} where
  unfoldable pub write_back_block : Option (MemoryInterface M) → Cache → M → ℕ → ℕ → M
  write_back_block none c m s w = m
  write_back_block (some i) c m s w =
      i.write_block m (line_address c s w) (c.cache_entries s w).words

  unfoldable pub load_block : Option (MemoryInterface M) → Cache → M → ℕ → ℕ → ℕ → Cache × M
  load_block none c m addr s w = (c, m)
  load_block (some i) c m addr s w =
      let block = i.read_block m (get_block_address c addr) (words_per_block c) in
      (put_entry c s w (record (c.cache_entries s w) { words = block.0 }), block.1)

  -- The eviction of way `w`, the last of the LRU list, of which `rest` is left.
  abbrev pub evict_way : Option (MemoryInterface M) → Cache → M → ℕ → ℕ → List ℕ → Cache × M
  evict_way i c m s w rest =
      let evicted = record (put_entry c s w (dropped (c.cache_entries s w))) {
        lru_lists = λ s'. if s' == s then rest else c.lru_lists s';
      } in
      if (c.cache_entries s w).dirty
      then (count_writeback evicted, write_back_block i c m s w)
      else (evicted, m)

  unfoldable pub evict_lru_entry : Option (MemoryInterface M) → Cache → M → ℕ → Option (Cache × M)
  evict_lru_entry i c m s =
      Option.map (λ (last : ℕ × List ℕ). evict_way i c m s last.0 last.1) (pop_back (c.lru_lists s))

  -- An invalid way of the set made to stand for `tag`.
  abbrev pub claim : Cache → M → ℕ → ℕ → Option ℕ → Option (ℕ × Cache × M)
  claim c m s tag none = none
  claim c m s tag (some w) = some (w, put_entry c s w (claimed (c.cache_entries s w) tag), m)

  abbrev pub claim_after : ℕ → ℕ → Option (Cache × M) → Option (ℕ × Cache × M)
  claim_after s tag none = none
  claim_after s tag (some (c, m)) =
      claim c m s tag (search_invalid (c.cache_entries s) 0 c.config.associativity)

  abbrev pub allocate_found :
      Option (MemoryInterface M) → Cache → M → ℕ → ℕ → Option ℕ → Option (ℕ × Cache × M)
  allocate_found i c m s tag (some w) = claim c m s tag (some w)
  allocate_found i c m s tag none = claim_after s tag (evict_lru_entry i c m s)

  unfoldable pub allocate_entry :
      Option (MemoryInterface M) → Cache → M → ℕ → ℕ → Option (ℕ × Cache × M)
  allocate_entry i c m s tag =
      allocate_found i c m s tag (search_invalid (c.cache_entries s) 0 c.config.associativity)
