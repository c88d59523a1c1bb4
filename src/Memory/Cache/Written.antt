-- ===== src/Memory/Cache/Written.antt =====
-- Whole reads and writes: the address translated, the access counted, and the writes behind the cache.
use riscv_emulator.Base.{
  ℕ, ◌^◌, ◌<◌, ◌≡◌, ap, ◌∙◌, Bool, true, false, ◌||◌, Option, none, some, ◌==◌, if◌then◌else◌,
}
use mathlib.Core.Option
use riscv_emulator.Memory.Interface.{MemoryInterface, Implements, IsAddress}
use riscv_emulator.Memory.Cache.{Cache, find_entry}
use riscv_emulator.Memory.Cache.Access.{
  count_access, translate_by, translate_address, read_found, read, write_found, write, read_word,
  write_word_found, write_word, is_write_through, in_page_table,
}
use riscv_emulator.Memory.Cache.Lines.{content}
use riscv_emulator.Memory.Cache.Replace.{rest_of, content-rest}
use riscv_emulator.Memory.Cache.Hold.{updated, IsSound, Holds, IsSound-rest}
use riscv_emulator.Memory.Cache.Transparent.{
  Reads, Writes, ReadsWord, WritesWord, read_found-Reads, write_found-Writes,
  write_word_found-WritesWord,
}

module _ {M : Type 0} (i : MemoryInterface M) (size : ℕ) (Good : M → Type 0) (view : M → ℕ → ℕ)
    (law : Implements i size Good view) where
  Holds-ap :
      (K L : ℕ → ℕ) (c : Cache) (m : M)
      → ((b : ℕ) → K b ≡ L b)
      → Holds i size Good view law K c m
      → Holds i size Good view law L c m
  Holds-ap K L c m e h = record { sound = h.sound; keeps = λ b at. h.keeps b at ∙ e b }

  Reads-ap :
      (K L : ℕ → ℕ) (a : ℕ) (o : Option (ℕ × Bool × Cache × M))
      → ((b : ℕ) → K b ≡ L b)
      → Reads i size Good view law K (K a) o
      → Reads i size Good view law L (L a) o
  Reads-ap K L a none e h = h
  Reads-ap K L a (some (x, hit, c, m)) e (value, h) = (value ∙ e a, Holds-ap K L c m e h)

  Writes-ap :
      (K L : ℕ → ℕ) (o : Option (Bool × Cache × M))
      → ((b : ℕ) → K b ≡ L b)
      → Writes i size Good view law K o
      → Writes i size Good view law L o
  Writes-ap K L none e h = h
  Writes-ap K L (some (hit, c, m)) e h = Holds-ap K L c m e h

  WritesWord-ap :
      (K L : ℕ → ℕ) (o : Option (Cache × M))
      → ((b : ℕ) → K b ≡ L b)
      → WritesWord i size Good view law K o
      → WritesWord i size Good view law L o
  WritesWord-ap K L none e h = h
  WritesWord-ap K L (some (c, m)) e h = Holds-ap K L c m e h

  without_hit :
      (K : ℕ → ℕ) (v : ℕ) (o : Option (ℕ × Bool × Cache × M))
      → Reads i size Good view law K v o
      → ReadsWord i size Good view law K v
          (Option.map (λ (r : ℕ × Bool × Cache × M). (r.0, r.2, r.3)) o)
  without_hit K v none h = h
  without_hit K v (some (x, hit, c, m)) h = h

  -- `read` does not fail, returns the word of the content at the physical address, whether it hits or misses,
  -- and leaves the cache sound and the content as it was. The cache is sound, the address that the translation
  -- gives is aligned and in range.
  pub read-Reads :
      (walk : Option (ℕ → ℕ)) (c : Cache) (m : M) (addr : ℕ) (is_instruction : Bool) (core_id : ℕ)
      → IsSound i size Good view law c m
      → IsAddress size (translate_address walk c addr false is_instruction).0
      → Reads i size Good view law
          (content c (view m))
          (content c (view m) (translate_address walk c addr false is_instruction).0)
          (read (some i) walk c m addr is_instruction core_id)
  unfolding read translate_address
  read-Reads walk c m addr is_instruction core_id h at =
      let t = translate_by walk c.mmu addr false is_instruction in
      let c' = rest_of c (count_access c).stats t.1 c.lru_lists in
      Reads-ap (content c' (view m)) (content c (view m)) t.0
        (read_found (some i) c' m t.0 core_id (find_entry c' t.0))
        (λ b. content-rest c (count_access c).stats t.1 c.lru_lists (view m) b)
        (read_found-Reads i size Good view law c' m t.0 core_id
          (IsSound-rest i size Good view law c m (count_access c).stats t.1 h) at)

  pub read_word-ReadsWord :
      (walk : Option (ℕ → ℕ)) (c : Cache) (m : M) (addr : ℕ)
      → IsSound i size Good view law c m
      → IsAddress size (translate_address walk c addr false false).0
      → ReadsWord i size Good view law
          (content c (view m))
          (content c (view m) (translate_address walk c addr false false).0)
          (read_word (some i) walk c m addr)
  unfolding read_word translate_address
  read_word-ReadsWord walk c m addr h at =
      let t = translate_by walk c.mmu addr false false in
      let c' = rest_of c (count_access c).stats t.1 c.lru_lists in
      let result = read_found (some i) c' m t.0 0 (find_entry c' t.0) in
      without_hit (content c (view m)) (content c (view m) t.0) result (
        Reads-ap (content c' (view m)) (content c (view m)) t.0 result
          (λ b. content-rest c (count_access c).stats t.1 c.lru_lists (view m) b)
          (read_found-Reads i size Good view law c' m t.0 0
            (IsSound-rest i size Good view law c m (count_access c).stats t.1 h) at))

  -- `write_word` does not fail, leaves the cache sound, and changes the content at the physical address alone,
  -- in the region of the locks too, where it writes to memory at once. The cache is sound, the physical address
  -- aligned and in range, the value a word.
  pub write_word-WritesWord :
      (walk : Option (ℕ → ℕ)) (c : Cache) (m : M) (addr value : ℕ)
      → IsSound i size Good view law c m
      → IsAddress size (translate_address walk c addr true false).0
      → value < 2 ^ 32
      → WritesWord i size Good view law
          (updated (content c (view m)) (translate_address walk c addr true false).0 value)
          (write_word (some i) walk c m addr value)
  unfolding write_word translate_address
  write_word-WritesWord walk c m addr value h at fits =
      let t = translate_by walk c.mmu addr true false in
      let c' = rest_of c (count_access c).stats t.1 c.lru_lists in
      WritesWord-ap (updated (content c' (view m)) t.0 value)
        (updated (content c (view m)) t.0 value)
        (write_word_found (some i) c' m t.0 value (find_entry c' t.0))
        (λ b.
          ap (λ (x : ℕ). if b == t.0 then value else x)
            (content-rest c (count_access c).stats t.1 c.lru_lists (view m) b))
        (write_word_found-WritesWord i size Good view law c' m t.0 value
          (IsSound-rest i size Good view law c m (count_access c).stats t.1 h) at fits)

  -- `write` does not fail, leaves the cache sound, and changes the content at the physical address alone, to the
  -- value, whether it hits or misses and whatever line it evicts. The physical address is aligned, in range and
  -- outside of the region of the locks, neither address is in the page table, the value is a word.
  pub write-Writes :
      (walk : Option (ℕ → ℕ)) (c : Cache) (m : M) (addr value core_id : ℕ)
      → IsSound i size Good view law c m
      → IsAddress size (translate_address walk c addr true false).0
      → value < 2 ^ 32
      → (is_write_through (translate_address walk c addr true false).0
          || (in_page_table addr || in_page_table (translate_address walk c addr true false).0))
        ≡ false
      → Writes i size Good view law
          (updated (content c (view m)) (translate_address walk c addr true false).0 value)
          (write (some i) walk c m addr value core_id)
  unfolding write translate_address
  write-Writes walk c m addr value core_id h at fits outside =
      let t = translate_by walk c.mmu addr true false in
      let c' = rest_of c (count_access c).stats t.1 c.lru_lists in
      rw outside (
        Writes-ap (updated (content c' (view m)) t.0 value) (updated (content c (view m)) t.0 value)
          (write_found (some i) c' m t.0 value core_id (find_entry c' t.0))
          (λ b.
            ap (λ (x : ℕ). if b == t.0 then value else x)
              (content-rest c (count_access c).stats t.1 c.lru_lists (view m) b))
          (write_found-Writes i size Good view law c' m t.0 value core_id
            (IsSound-rest i size Good view law c m (count_access c).stats t.1 h) at fits))
