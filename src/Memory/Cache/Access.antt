-- ===== src/Memory/Cache/Access.antt =====
-- Reads and writes of a cache, Cache.cpp of emulator/src/memory. `i` is the memory interface, `none` for
-- a null pointer, and `walk` what the MMU's page-table walk reads.
use mathlib.Core.Option
use riscv_emulator.Base.{
  ℕ, ◌+◌, ◌/◌, Bool, true, false, ◌&&◌, ◌||◌, Option, none, some, ltb, leb, if◌then◌else◌, get_or,
  set,
}
use riscv_emulator.Word.{u32}
use riscv_emulator.Memory.Interface.{MemoryInterface}
use riscv_emulator.Memory.Mmu
use riscv_emulator.Memory.Mmu.{Mmu, Translation, translated, fault}
use riscv_emulator.Memory.Cache.{
  Cache, get_set_index, get_tag, get_block_offset, search_tag, find_entry, put_entry, update_lru,
  dropped, load_block, allocate_entry,
}
use riscv_emulator.Memory.Cache.Stats.{add64, update_core_stats}

abbrev pub count_access : Cache → Cache
count_access c = record c { stats = record (c.stats) { accesses = add64 c.stats.accesses 1 } }

abbrev pub count_hit : Cache → ℕ → Cache
count_hit c core_id = record c {
  stats =
      let s =
        update_core_stats (record (c.stats) { hits = add64 c.stats.hits 1 }) core_id true
          c.config.access_latency 0 in
      record s { total_access_time = add64 s.total_access_time c.config.access_latency };
}

abbrev pub count_miss : Cache → ℕ → Cache
count_miss c core_id =
    let time = u32 (c.config.access_latency + c.config.miss_penalty) in
    record c {
      stats =
          let s =
            update_core_stats
              (record (c.stats) {
                misses = add64 c.stats.misses 1;
                total_miss_penalty = add64 c.stats.total_miss_penalty c.config.miss_penalty;
              })
              core_id false time c.config.miss_penalty in
          record s { total_access_time = add64 s.total_access_time time };
    }

-- An address that does not translate is used as it is.
abbrev pub physical : ℕ → Translation → ℕ
physical addr (translated paddr) = paddr
physical addr (fault e) = addr

abbrev pub translate_by : Option (ℕ → ℕ) → Option Mmu → ℕ → Bool → Bool → ℕ × Option Mmu
translate_by walk none addr is_write is_instruction = (addr, none)
translate_by walk (some mmu) addr is_write is_instruction =
    let t = Mmu.translate_address walk mmu addr is_write is_instruction 0 in
    (physical addr t.0, some t.1)

unfoldable pub translate_address : Option (ℕ → ℕ) → Cache → ℕ → Bool → Bool → ℕ × Cache
translate_address walk c addr is_write is_instruction =
    let t = translate_by walk c.mmu addr is_write is_instruction in (t.0, record c { mmu = t.1 })

-- The word of `addr` in way `w` of its set, read and written.
abbrev pub word_of : Cache → ℕ → ℕ → ℕ
word_of c addr w =
    get_or (c.cache_entries (get_set_index c addr) w).words (get_block_offset c addr / 4) 0

abbrev pub store_word : Cache → ℕ → ℕ → ℕ → Bool → Cache
store_word c addr w value dirty =
    let entry = c.cache_entries (get_set_index c addr) w in
    put_entry c (get_set_index c addr) w
      (record entry { words = set entry.words (get_block_offset c addr / 4) value; dirty = dirty })

abbrev pub touch : Cache → ℕ → ℕ → Cache
touch c addr w = update_lru c (get_set_index c addr) w

abbrev pub invalidate_found : Cache → ℕ → Option ℕ → Cache
invalidate_found c s none = c
invalidate_found c s (some w) = put_entry c s w (dropped (c.cache_entries s w))

unfoldable pub invalidate : Cache → ℕ → Cache
invalidate c addr =
    let s = get_set_index c addr in
    invalidate_found c s (search_tag (c.cache_entries s) (get_tag c addr) 0 c.config.associativity)

abbrev pub is_write_through : ℕ → Bool
is_write_through phys_addr = leb 0x82008 phys_addr && leb phys_addr 0x8201F

abbrev pub in_page_table : ℕ → Bool
in_page_table addr = leb 0x20000 addr && ltb addr 0x21000

-- A line of the cache that memory has been written behind.
abbrev pub through_found : Cache → ℕ → ℕ → Option ℕ → Cache
through_found c addr value none = c
through_found c addr value (some w) = invalidate (store_word c addr w value false) addr

module _ {M : Type 0} where
  abbrev pub memory_write : Option (MemoryInterface M) → M → ℕ → ℕ → M
  memory_write none m addr value = m
  memory_write (some i) m addr value = i.write_word m addr value

  abbrev pub load_claimed :
      Option (MemoryInterface M) → ℕ → Option (ℕ × Cache × M) → Option (ℕ × Cache × M)
  load_claimed i addr none = none
  load_claimed i addr (some (w, c, m)) =
      let loaded = load_block i c m addr (get_set_index c addr) w in some (w, loaded.0, loaded.1)

  -- The line of `addr` brought in after a miss.
  unfoldable pub fill : Option (MemoryInterface M) → Cache → M → ℕ → Option (ℕ × Cache × M)
  fill i c m addr =
      load_claimed i addr (allocate_entry i c m (get_set_index c addr) (get_tag c addr))

  abbrev pub read_filled : ℕ → Option (ℕ × Cache × M) → Option (ℕ × Bool × Cache × M)
  read_filled addr none = none
  read_filled addr (some (w, c, m)) = some (word_of c addr w, false, touch c addr w, m)

  -- The rest of a read after the search, of the physical address `addr`.
  abbrev pub read_found :
      Option (MemoryInterface M) → Cache → M → ℕ → ℕ → Option ℕ → Option (ℕ × Bool × Cache × M)
  read_found i c m addr core_id (some w) =
      some (word_of c addr w, true, touch (count_hit c core_id) addr w, m)
  read_found i c m addr core_id none = read_filled addr (fill i (count_miss c core_id) m addr)

  unfoldable pub read :
      Option (MemoryInterface M)
      → Option (ℕ → ℕ)
      → Cache
      → M
      → ℕ
      → Bool
      → ℕ
      → Option (ℕ × Bool × Cache × M)
  unfolding translate_address
  read i walk c m addr is_instruction core_id =
      let t = translate_address walk c addr false is_instruction in
      read_found i (count_access t.1) m t.0 core_id (find_entry (count_access t.1) t.0)

  abbrev pub write_filled : ℕ → ℕ → Option (ℕ × Cache × M) → Option (Bool × Cache × M)
  write_filled addr value none = none
  write_filled addr value (some (w, c, m)) =
      some (false, touch (store_word c addr w value true) addr w, m)

  abbrev pub write_found :
      Option (MemoryInterface M) → Cache → M → ℕ → ℕ → ℕ → Option ℕ → Option (Bool × Cache × M)
  write_found i c m addr value core_id (some w) =
      some (true, store_word (touch (count_hit c core_id) addr w) addr w value true, m)
  write_found i c m addr value core_id none =
      write_filled addr value (fill i (count_miss c core_id) m addr)

  -- A write behind the cache: to memory, and the line is thrown away.
  unfoldable pub write_behind : Option (MemoryInterface M) → Cache → M → ℕ → ℕ → ℕ → Cache × M
  write_behind i c m addr value core_id = (
    count_hit (count_access (through_found c addr value (find_entry c addr))) core_id,
    memory_write i m addr value,
  )

  unfoldable pub write :
      Option (MemoryInterface M)
      → Option (ℕ → ℕ)
      → Cache
      → M
      → ℕ
      → ℕ
      → ℕ
      → Option (Bool × Cache × M)
  unfolding translate_address write_behind
  write i walk c m addr value core_id =
      let t = translate_address walk c addr true false in
      let is_page_table = in_page_table addr || in_page_table t.0 in
      let write_addr = if is_page_table then (if in_page_table addr then addr else t.0) else t.0 in
      if is_write_through t.0 || is_page_table
      then (let behind = write_behind i t.1 m write_addr value core_id in
          some (true, behind.0, behind.1))
      else write_found i (count_access t.1) m t.0 value core_id (find_entry (count_access t.1) t.0)

  unfoldable pub read_word :
      Option (MemoryInterface M) → Option (ℕ → ℕ) → Cache → M → ℕ → Option (ℕ × Cache × M)
  unfolding translate_address
  read_word i walk c m addr =
      let t = translate_address walk (count_access c) addr false false in
      Option.map (λ (r : ℕ × Bool × Cache × M). (r.0, r.2, r.3))
        (read_found i t.1 m t.0 0 (find_entry t.1 t.0))

  -- A word stored in way `w`, and in memory too in the region of the locks.
  abbrev pub store_both : Option (MemoryInterface M) → Cache → M → ℕ → ℕ → ℕ → Cache × M
  store_both i c m addr w value =
      if is_write_through addr
      then (
        store_word c addr w value (c.cache_entries (get_set_index c addr) w).dirty,
        memory_write i m addr value,
      )
      else (store_word c addr w value true, m)

  abbrev pub write_word_filled :
      Option (MemoryInterface M) → ℕ → ℕ → Option (ℕ × Cache × M) → Option (Cache × M)
  write_word_filled i addr value none = none
  write_word_filled i addr value (some (w, c, m)) =
      let stored = store_both i c m addr w value in some (touch stored.0 addr w, stored.1)

  abbrev pub write_word_found :
      Option (MemoryInterface M) → Cache → M → ℕ → ℕ → Option ℕ → Option (Cache × M)
  write_word_found i c m addr value (some w) =
      some (store_both i (touch (count_hit c 0) addr w) m addr w value)
  write_word_found i c m addr value none =
      write_word_filled i addr value (fill i (count_miss c 0) m addr)

  unfoldable pub write_word :
      Option (MemoryInterface M) → Option (ℕ → ℕ) → Cache → M → ℕ → ℕ → Option (Cache × M)
  unfolding translate_address
  write_word i walk c m addr value =
      let t = translate_address walk (count_access c) addr true false in
      write_word_found i t.1 m t.0 value (find_entry t.1 t.0)
