-- ===== src/Memory/Cache/Blocks.antt =====
-- Blocks through a cache, read_block and write_block of Cache.cpp, and the cache as the memory of another
-- one, class Cache : public MemoryInterface of Cache.h.
use riscv_emulator.Base.{ℕ, zero, suc, ◌+◌, ◌*◌, Option, none, some, List, [], ◌∷◌}
use riscv_emulator.Word.{u32}
use riscv_emulator.Memory.Interface.{MemoryInterface}
use riscv_emulator.Memory.Cache.{Cache}
use riscv_emulator.Memory.Cache.Access.{read_word, write_word}

infixl 5 ◌>>=◌
abbrev pub ◌>>=◌ : {A B : Type 0} → Option A → (A → Option B) → Option B
none >>= f = none
some a >>= f = f a

module _ {M : Type 0} where
  -- The words from number `k` on, of which `left` are left.
  unfoldable pub read_block_from :
      Option (MemoryInterface M)
      → Option (ℕ → ℕ)
      → Cache
      → M
      → ℕ
      → ℕ
      → ℕ
      → Option (List ℕ × Cache × M)
  read_block_from i walk c m addr k zero = some ([], c, m)
  read_block_from i walk c m addr k (suc left) = do
    (x, c', m') ← read_word i walk c m (u32 (addr + k * 4))
    (xs, c'', m'') ← read_block_from i walk c' m' addr (k + 1) left
    some (x ∷ xs, c'', m'')

  unfoldable pub read_block :
      Option (MemoryInterface M) → Option (ℕ → ℕ) → Cache → M → ℕ → ℕ → Option (List ℕ × Cache × M)
  unfolding read_block_from
  read_block i walk c m addr words = read_block_from i walk c m addr 0 words

  unfoldable pub write_block_from :
      Option (MemoryInterface M) → Option (ℕ → ℕ) → Cache → M → ℕ → ℕ → List ℕ → Option (Cache × M)
  write_block_from i walk c m addr k [] = some (c, m)
  write_block_from i walk c m addr k (x ∷ xs) = do
    (c', m') ← write_word i walk c m (u32 (addr + k * 4)) x
    write_block_from i walk c' m' addr (k + 1) xs

  unfoldable pub write_block :
      Option (MemoryInterface M) → Option (ℕ → ℕ) → Cache → M → ℕ → List ℕ → Option (Cache × M)
  unfolding write_block_from
  write_block i walk c m addr words = write_block_from i walk c m addr 0 words

  -- The cache that stands between a cache and the memory `i`; it has no MMU. An assertion that has
  -- failed has ended the program.
  abbrev pub value_of : Option (ℕ × Cache × M) → ℕ × Option (Cache × M)
  value_of none = (0, none)
  value_of (some (x, c, m)) = (x, some (c, m))

  abbrev pub block_of : Option (List ℕ × Cache × M) → List ℕ × Option (Cache × M)
  block_of none = ([], none)
  block_of (some (xs, c, m)) = (xs, some (c, m))

  abbrev pub layer_read : MemoryInterface M → Option (Cache × M) → ℕ → ℕ × Option (Cache × M)
  layer_read i none addr = (0, none)
  layer_read i (some (c, m)) addr = value_of (read_word (some i) none c m addr)

  abbrev pub layer_write : MemoryInterface M → Option (Cache × M) → ℕ → ℕ → Option (Cache × M)
  layer_write i none addr value = none
  layer_write i (some (c, m)) addr value = write_word (some i) none c m addr value

  abbrev pub layer_read_block :
      MemoryInterface M → Option (Cache × M) → ℕ → ℕ → List ℕ × Option (Cache × M)
  layer_read_block i none addr words = ([], none)
  layer_read_block i (some (c, m)) addr words = block_of (read_block (some i) none c m addr words)

  abbrev pub layer_write_block :
      MemoryInterface M → Option (Cache × M) → ℕ → List ℕ → Option (Cache × M)
  layer_write_block i none addr words = none
  layer_write_block i (some (c, m)) addr words = write_block (some i) none c m addr words

  abbrev pub layer : MemoryInterface M → MemoryInterface (Option (Cache × M))
  layer i = record {
    read_word = layer_read i;
    write_word = layer_write i;
    read_block = layer_read_block i;
    write_block = layer_write_block i;
  }
