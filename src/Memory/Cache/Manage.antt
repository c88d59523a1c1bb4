-- ===== src/Memory/Cache/Manage.antt =====
-- Invalidation of the whole cache and write-backs on request: invalidate_all, flush and flush_range of
-- Cache.cpp. The loops over the sets and the ways go from the first to the last.
use riscv_emulator.Base.{
  ℕ, zero, suc, ◌+◌, false, ◌&&◌, Option, none, some, leb, ltb, if◌then◌else◌,
}
use riscv_emulator.Word.{u32}
use riscv_emulator.Memory.Interface.{MemoryInterface}
use riscv_emulator.Memory.Mmu.Lru.{indices}
use riscv_emulator.Memory.Cache.{
  Cache, get_set_index, get_tag, search_tag, put_entry, dropped, write_back_block, line_address,
}
use riscv_emulator.Memory.Cache.Stats.{reset}

unfoldable pub invalidate_all : Cache → Cache
invalidate_all c = record c {
  cache_entries = λ s w.
      if ltb s c.num_sets && ltb w c.config.associativity
      then dropped (c.cache_entries s w)
      else c.cache_entries s w;
  lru_lists = λ s. if ltb s c.num_sets then indices c.config.associativity else c.lru_lists s;
  stats = reset c.stats;
}

module _ {M : Type 0} where
  -- A dirty line written back, with no change of the cache but its mark.
  unfoldable pub write_back_dirty : Option (MemoryInterface M) → Cache → M → ℕ → ℕ → Cache × M
  unfolding write_back_block
  write_back_dirty i c m s w =
      if (c.cache_entries s w).dirty
      then (
        put_entry c s w (record (c.cache_entries s w) { dirty = false }),
        write_back_block i c m s w,
      )
      else (c, m)

  abbrev pub flush_found : Option (MemoryInterface M) → Cache → M → ℕ → Option ℕ → Cache × M
  flush_found i c m s none = (c, m)
  flush_found i c m s (some w) = write_back_dirty i c m s w

  unfoldable pub flush : Option (MemoryInterface M) → Cache → M → ℕ → Cache × M
  unfolding write_back_dirty
  flush i c m addr =
      let s = get_set_index c addr in
      flush_found i c m s (search_tag (c.cache_entries s) (get_tag c addr) 0 c.config.associativity)

  unfoldable pub flush_way : Option (MemoryInterface M) → ℕ → ℕ → Cache → M → ℕ → ℕ → Cache × M
  unfolding write_back_dirty
  flush_way i start_addr end_addr c m s w =
      let block_addr = line_address c s w in
      if (c.cache_entries s w).valid && (leb start_addr block_addr && ltb block_addr end_addr)
      then write_back_dirty i c m s w
      else (c, m)

  -- The ways of set `s` from `w` on, of which `left` are left, and the sets likewise.
  unfoldable pub flush_ways : Option (MemoryInterface M) → ℕ → ℕ → Cache → M → ℕ → ℕ → ℕ → Cache × M
  unfolding flush_way
  flush_ways i start_addr end_addr c m s w zero = (c, m)
  flush_ways i start_addr end_addr c m s w (suc left) =
      let r = flush_way i start_addr end_addr c m s w in
      flush_ways i start_addr end_addr r.0 r.1 s (w + 1) left

  unfoldable pub flush_sets : Option (MemoryInterface M) → ℕ → ℕ → Cache → M → ℕ → ℕ → Cache × M
  unfolding flush_ways
  flush_sets i start_addr end_addr c m s zero = (c, m)
  flush_sets i start_addr end_addr c m s (suc left) =
      let r = flush_ways i start_addr end_addr c m s 0 c.config.associativity in
      flush_sets i start_addr end_addr r.0 r.1 (s + 1) left

  unfoldable pub flush_range : Option (MemoryInterface M) → Cache → M → ℕ → ℕ → Cache × M
  unfolding flush_sets
  flush_range i c m start_addr size =
      flush_sets i start_addr (u32 (start_addr + size)) c m 0 c.num_sets
