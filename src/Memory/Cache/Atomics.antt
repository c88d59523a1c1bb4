-- ===== src/Memory/Cache/Atomics.antt =====
-- The atomic operations of a cache, atomic_add to atomic_fetch_and_xor of Cache.cpp. They go to the
-- memory below, in two accesses; the mutex makes them one step.
use riscv_emulator.Base.{
  ℕ, ◌+◌, true, false, Option, none, some, ◌==◌, if◌then◌else◌, bit_and, bit_or, bit_xor,
}
use riscv_emulator.Word.{u32, sub32}
use riscv_emulator.Memory.Interface.{MemoryInterface}
use riscv_emulator.Memory.Cache.{Cache}
use riscv_emulator.Memory.Cache.Stats.{add64, update_core_stats}
use riscv_emulator.Memory.Cache.Access.{translate_address, invalidate, read_word, write_word}
use riscv_emulator.Memory.Cache.Blocks.{◌>>=◌}

-- The statistics count a miss.
abbrev pub count_atomic : Cache → ℕ → Cache
count_atomic c core_id =
    let time = u32 (c.config.access_latency + c.config.miss_penalty) in
    record c {
      stats =
          let s =
            update_core_stats
              (record (c.stats) {
                accesses = add64 c.stats.accesses 1;
                misses = add64 c.stats.misses 1;
                total_miss_penalty = add64 c.stats.total_miss_penalty c.config.miss_penalty;
              })
              core_id false time c.config.miss_penalty in
          record s { total_access_time = add64 s.total_access_time time };
    }

module _ {M : Type 0} where
  -- The new word is stored if there is one.
  abbrev pub exchange : MemoryInterface M → M → ℕ → Option ℕ → M
  exchange i m addr none = m
  exchange i m addr (some value) = i.write_word m addr value

  -- The fallback, which stores through the cache.
  abbrev pub fall_back : Option (ℕ → ℕ) → ℕ → ℕ → Cache → M → Option ℕ → Option (ℕ × Cache × M)
  fall_back walk addr old c m none = some (old, c, m)
  fall_back walk addr old c m (some value) = do
    (c', m') ← write_word none walk c m addr value
    some (old, c', m')

  -- The body that the operations share, `op` of the old word.
  abbrev pub update_at :
      Option (MemoryInterface M)
      → Option (ℕ → ℕ)
      → Cache
      → M
      → ℕ
      → ℕ
      → (ℕ → Option ℕ)
      → Option (ℕ × Cache × M)
  update_at none walk c m phys_addr core_id op = do
    (old, c', m') ← read_word none walk c m phys_addr
    fall_back walk phys_addr old c' m' (op old)
  update_at (some i) walk c m phys_addr core_id op =
      let got = i.read_word m phys_addr in
      some (
        got.0,
        count_atomic (invalidate c phys_addr) core_id,
        exchange i got.1 phys_addr (op got.0),
      )

  unfoldable pub update :
      Option (MemoryInterface M)
      → Option (ℕ → ℕ)
      → Cache
      → M
      → ℕ
      → ℕ
      → (ℕ → Option ℕ)
      → Option (ℕ × Cache × M)
  unfolding translate_address
  update i walk c m addr core_id op =
      let t = translate_address walk c addr true false in update_at i walk t.1 m t.0 core_id op

  unfoldable pub atomic_add :
      Option (MemoryInterface M) → Option (ℕ → ℕ) → Cache → M → ℕ → ℕ → ℕ → Option (ℕ × Cache × M)
  unfolding update
  atomic_add i walk c m addr value core_id =
      update i walk c m addr core_id (λ old. some (u32 (old + value)))

  unfoldable pub atomic_swap :
      Option (MemoryInterface M) → Option (ℕ → ℕ) → Cache → M → ℕ → ℕ → ℕ → Option (ℕ × Cache × M)
  unfolding update
  atomic_swap i walk c m addr value core_id = update i walk c m addr core_id (λ old. some value)

  unfoldable pub atomic_compare_and_swap :
      Option (MemoryInterface M)
      → Option (ℕ → ℕ)
      → Cache
      → M
      → ℕ
      → ℕ
      → ℕ
      → ℕ
      → Option (ℕ × Cache × M)
  unfolding update
  atomic_compare_and_swap i walk c m addr expected desired core_id =
      update i walk c m addr core_id
        (λ current_value. if current_value == expected then some desired else none)

  unfoldable pub atomic_fetch_and_add :
      Option (MemoryInterface M) → Option (ℕ → ℕ) → Cache → M → ℕ → ℕ → ℕ → Option (ℕ × Cache × M)
  unfolding atomic_add
  atomic_fetch_and_add i walk c m addr value core_id = atomic_add i walk c m addr value core_id

  unfoldable pub atomic_fetch_and_sub :
      Option (MemoryInterface M) → Option (ℕ → ℕ) → Cache → M → ℕ → ℕ → ℕ → Option (ℕ × Cache × M)
  unfolding update
  atomic_fetch_and_sub i walk c m addr value core_id =
      update i walk c m addr core_id (λ old. some (sub32 old value))

  unfoldable pub atomic_fetch_and_and :
      Option (MemoryInterface M) → Option (ℕ → ℕ) → Cache → M → ℕ → ℕ → ℕ → Option (ℕ × Cache × M)
  unfolding update
  atomic_fetch_and_and i walk c m addr value core_id =
      update i walk c m addr core_id (λ old. some (bit_and old value))

  unfoldable pub atomic_fetch_and_or :
      Option (MemoryInterface M) → Option (ℕ → ℕ) → Cache → M → ℕ → ℕ → ℕ → Option (ℕ × Cache × M)
  unfolding update
  atomic_fetch_and_or i walk c m addr value core_id =
      update i walk c m addr core_id (λ old. some (bit_or old value))

  unfoldable pub atomic_fetch_and_xor :
      Option (MemoryInterface M) → Option (ℕ → ℕ) → Cache → M → ℕ → ℕ → ℕ → Option (ℕ × Cache × M)
  unfolding update
  atomic_fetch_and_xor i walk c m addr value core_id =
      update i walk c m addr core_id (λ old. some (bit_xor old value))
