-- ===== src/Memory/Cache/Stack.antt =====
-- The stack of caches over the DRAM, as the constructor of Simulator connects them: an L1 cache over the
-- L2 cache over the DRAM (set_memory_interface in emulator/src/system/Simulator.cpp).
use riscv_emulator.Base.{
  ℕ, ◌+◌, ◌*◌, ◌%◌, ◌^◌, ◌≤◌, ◌<◌, ◌≡◌, refl, ap, ◌∙◌, arith, Option, none, some, List, length,
}
use riscv_emulator.Memory.Interface.{
  MemoryInterface, Implements, IsAddress, AllWords, words_at, overlay,
}
use riscv_emulator.Memory.Cache.{Cache}
use riscv_emulator.Memory.Cache.Access.{read_word, write_word}
use riscv_emulator.Memory.Cache.Blocks.{
  read_block_from, read_block, write_block_from, write_block, value_of, block_of, layer,
}
use riscv_emulator.Memory.Cache.Lines.{content}
use riscv_emulator.Memory.Cache.Hold.{updated}
use riscv_emulator.Memory.Cache.Layer.{
  IsLayer, ReadsLayer, ReadsBlock, WritesLayer, LayerGood, layer_view, content-lt,
  read_word-ReadsLayer, write_word-WritesLayer, read_block_from-ReadsBlock,
  write_block_from-WritesLayer,
}

module _ {M : Type 0} (i : MemoryInterface M) (size : ℕ) (Good : M → Type 0) (view : M → ℕ → ℕ)
    (law : Implements i size Good view) (small : size ≤ 2 ^ 32) where
  abbrev Reaches : (ℕ → ℕ) → Option (Cache × M) → Type 0
  Reaches K o =
      LayerGood i size Good view law small o
      × ((b : ℕ) → IsAddress size b → layer_view i size Good view law small o b ≡ K b)

  IsLayer-Reaches :
      (K : ℕ → ℕ) (c : Cache) (m : M)
      → IsLayer i size Good view law small K c m
      → Reaches K (some (c, m))
  IsLayer-Reaches K c m h = (
    record { holds = record { sound = h.holds.sound; keeps = λ b at. refl }; mmu = h.mmu },
    λ b at. h.holds.keeps b at,
  )

  read-Reaches :
      (K : ℕ → ℕ) (v : ℕ) (o : Option (ℕ × Cache × M))
      → ReadsLayer i size Good view law small K v o
      → ((value_of o).0 ≡ v) × Reaches K (value_of o).1
  read-Reaches K v none h = elim h [ ]
  read-Reaches K v (some (x, c, m)) (value, h) = (value, IsLayer-Reaches K c m h)

  block-Reaches :
      (K : ℕ → ℕ) (ws : List ℕ) (o : Option (List ℕ × Cache × M))
      → ReadsBlock i size Good view law small K ws o
      → ((block_of o).0 ≡ ws) × Reaches K (block_of o).1
  block-Reaches K ws none h = elim h [ ]
  block-Reaches K ws (some (xs, c, m)) (values, h) = (values, IsLayer-Reaches K c m h)

  write-Reaches :
      (K : ℕ → ℕ) (o : Option (Cache × M))
      → WritesLayer i size Good view law small K o
      → Reaches K o
  write-Reaches K none h = elim h [ ]
  write-Reaches K (some (c, m)) h = IsLayer-Reaches K c m h

  abbrev G : Option (Cache × M) → Type 0
  G = LayerGood i size Good view law small

  abbrev V : Option (Cache × M) → ℕ → ℕ
  V = layer_view i size Good view law small

  read_facts :
      (o : Option (Cache × M)) (a : ℕ)
      → G o
      → IsAddress size a
      → (((layer i).read_word o a).0 ≡ V o a) × Reaches (V o) ((layer i).read_word o a).1
  read_facts none a h at = elim h [ ]
  read_facts (some (c, m)) a h at =
      read-Reaches (content c (view m)) (content c (view m) a) (read_word (some i) none c m a)
        (read_word-ReadsLayer i size Good view law small (content c (view m)) c m a h at)

  write_facts :
      (o : Option (Cache × M)) (a v : ℕ)
      → G o
      → IsAddress size a
      → v < 2 ^ 32
      → Reaches (updated (V o) a v) ((layer i).write_word o a v)
  write_facts none a v h at fits = elim h [ ]
  write_facts (some (c, m)) a v h at fits =
      write-Reaches (updated (content c (view m)) a v) (write_word (some i) none c m a v)
        (write_word-WritesLayer i size Good view law small (content c (view m)) c m a v h at fits)

  start : (a : ℕ) → a + 4 * 0 ≡ a
  start a = omega arith

  read_block_facts :
      (o : Option (Cache × M)) (a n : ℕ)
      → G o
      → a % 4 ≡ 0
      → a + 4 * n ≤ size
      → (((layer i).read_block o a n).0 ≡ words_at (V o) a n)
        × Reaches (V o) ((layer i).read_block o a n).1
  unfolding read_block
  read_block_facts none a n h aligned inside = elim h [ ]
  read_block_facts (some (c, m)) a n h aligned inside =
      let (values, reached) =
        block-Reaches (content c (view m)) (words_at (content c (view m)) (a + 4 * 0) n)
          (read_block_from (some i) none c m a 0 n)
          (read_block_from-ReadsBlock i size Good view law small (content c (view m)) c m a 0 n h
            aligned (omega arith)) in
      (values ∙ ap (λ (x : ℕ). words_at (content c (view m)) x n) (start a), reached)

  write_block_facts :
      (o : Option (Cache × M)) (a : ℕ) (ws : List ℕ)
      → G o
      → a % 4 ≡ 0
      → a + 4 * length ws ≤ size
      → AllWords ws
      → Reaches (overlay (V o) a ws) ((layer i).write_block o a ws)
  unfolding write_block
  write_block_facts none a ws h aligned inside all = elim h [ ]
  write_block_facts (some (c, m)) a ws h aligned inside all =
      let (good, keeps) =
        write-Reaches (overlay (content c (view m)) (a + 4 * 0) ws)
          (write_block_from (some i) none c m a 0 ws)
          (write_block_from-WritesLayer i size Good view law small (content c (view m)) c m a 0 ws h
            aligned (omega arith) all) in
      (good, λ b at. keeps b at ∙ ap (λ (x : ℕ). overlay (content c (view m)) x ws b) (start a))

  view-lt : (o : Option (Cache × M)) (a : ℕ) → G o → IsAddress size a → V o a < 2 ^ 32
  view-lt none a h at = elim h [ ]
  view-lt (some (c, m)) a h at = content-lt i size Good view law small c m a h.holds.sound at

  -- A cache without an MMU over a memory that keeps the contract of a memory of `size` bytes keeps it too: in
  -- every state that is sound, reads return the content that the cache and the memory below hold together,
  -- writes and block writes change that content exactly where they say, and no operation fails an assertion.
  -- The memory has at most 2 ^ 32 bytes.
  pub layer-Implements :
      Implements
        (layer i)
        size
        (LayerGood i size Good view law small)
        (layer_view i size Good view law small)
  layer-Implements = record {
    view_lt = view-lt;
    read_word_lem = λ o a h at. (read_facts o a h at).0;
    read_word_good = λ o a h at. (read_facts o a h at).1.0;
    read_word_keeps = λ o a b h at at'. (read_facts o a h at).1.1 b at';
    write_word_good = λ o a v h at fits. (write_facts o a v h at fits).0;
    write_word_lem = λ o a v b h at fits at'. (write_facts o a v h at fits).1 b at';
    read_block_lem = λ o a n h aligned inside. (read_block_facts o a n h aligned inside).0;
    read_block_good = λ o a n h aligned inside. (read_block_facts o a n h aligned inside).1.0;
    read_block_keeps =
        λ o a n b h aligned inside at. (read_block_facts o a n h aligned inside).1.1 b at;
    write_block_good =
        λ o a ws h aligned inside all. (write_block_facts o a ws h aligned inside all).0;
    write_block_lem =
        λ o a ws b h aligned inside all at. (write_block_facts o a ws h aligned inside all).1 b at;
  }
