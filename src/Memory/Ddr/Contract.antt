-- ===== src/Memory/Ddr/Contract.antt =====
-- The DRAM keeps the contract of a memory.
use riscv_emulator.Base.{
  ℕ, ◌*◌, ◌^◌, ◌≤◌, ◌≡◌, refl, ap, ◌∙◌, arith, Bool, true, false, List, if_both, length,
}
use riscv_emulator.Word.{u32}
use riscv_emulator.Memory.Bytes
use riscv_emulator.Memory.Bytes.{Bytes, get_word, read_words, write_words}
use riscv_emulator.Memory.Bytes.Words.{
  AreBytes, get_word-lt, read_word-inside, write_word-AreBytes, write_word-size,
  get_word-write_word, read_words-inside, write_words-AreBytes, write_words-size,
  get_word-write_words,
}
use riscv_emulator.Memory.Interface.{MemoryInterface, Implements, words_at, overlay}
use riscv_emulator.Memory.Ddr.{
  Ddr, calculate_latency, track, call_back, read_word, write_word, read_block, write_block,
}

-- Accounting leaves the memory alone.
pub track-memory :
    (d : Ddr) (addr size reads writes : ℕ) → (track d addr size reads writes).1.memory ≡ d.memory
unfolding track calculate_latency
track-memory d addr size reads writes = ground arith

pub call_back-memory :
    (d : Ddr) (addr : ℕ) (is_write : Bool) (latency : ℕ)
    → (call_back d addr is_write latency).memory ≡ d.memory
unfolding call_back
call_back-memory d addr is_write latency =
    if_both (λ (e : Ddr). e.memory ≡ d.memory) d.has_callback refl refl

abbrev pub interface : MemoryInterface Ddr
interface = record {
  read_word = read_word;
  write_word = write_word;
  read_block = read_block;
  write_block = write_block;
}

-- The bytes of a DRAM of `size` bytes.
pub record IsSound (size : ℕ) (d : Ddr) : Type 0 where
  pub sized : d.memory.size ≡ size
  pub bytes : AreBytes d.memory

abbrev pub view : Ddr → ℕ → ℕ
view d a = get_word d.memory a

-- A request with its data in range, and a state that only accounting separates from a sound one.
track-IsSound :
    (size : ℕ) (d : Ddr) (addr n reads writes : ℕ)
    → IsSound size d
    → IsSound size (track d addr n reads writes).1
track-IsSound size d addr n reads writes s = record {
  sized = ap (λ (m : Bytes). m.size) (track-memory d addr n reads writes) ∙ s.sized;
  bytes = rw (track-memory d addr n reads writes) s.bytes;
}

read_word-memory : (d : Ddr) (a : ℕ) → (read_word d a).1.memory ≡ d.memory
unfolding read_word
read_word-memory d a =
    call_back-memory (track d a 4 1 0).1 a false (track d a 4 1 0).0 ∙ track-memory d a 4 1 0

write_word-memory : (d : Ddr) (a v : ℕ) → (write_word d a v).memory ≡ Bytes.write_word d.memory a v
unfolding write_word
write_word-memory d a v =
    ap (λ (m : Bytes). Bytes.write_word m a v)
      (call_back-memory (track d a 4 0 1).1 a true (track d a 4 0 1).0 ∙ track-memory d a 4 0 1)

read_block-memory : (d : Ddr) (a n : ℕ) → (read_block d a n).1.memory ≡ d.memory
unfolding read_block
read_block-memory d a n = track-memory d a (u32 (n * 4)) n 0

write_block-memory :
    (d : Ddr) (a : ℕ) (ws : List ℕ) → (write_block d a ws).memory ≡ write_words d.memory a 0 ws
unfolding write_block
write_block-memory d a ws =
    ap (λ (m : Bytes). write_words m a 0 ws) (track-memory d a (u32 (length ws * 4)) 0 (length ws))

read_word-value : (d : Ddr) (a : ℕ) → (read_word d a).0 ≡ Bytes.read_word d.memory a
unfolding read_word
read_word-value d a = ap (λ (m : Bytes). Bytes.read_word m a) (read_word-memory d a)

read_block-value : (d : Ddr) (a n : ℕ) → (read_block d a n).0 ≡ read_words d.memory a 0 n
unfolding read_block
read_block-value d a n = ap (λ (m : Bytes). read_words m a 0 n) (track-memory d a (u32 (n * 4)) n 0)

same_memory : (size : ℕ) (d d' : Ddr) → d'.memory ≡ d.memory → IsSound size d → IsSound size d'
same_memory size d d' h s = record { sized = rw h s.sized; bytes = rw h s.bytes }

-- The DRAM keeps the contract of a memory of `size` bytes, at most 2 ^ 32: aligned words and blocks in range
-- that are read are those last written, and the accounting of latencies does not touch them.
pub interface-Implements :
    (size : ℕ) → size ≤ 2 ^ 32 → Implements interface size (IsSound size) view
interface-Implements size fits = record {
  view_lt = λ d a s at. get_word-lt d.memory a s.bytes;
  read_word_lem = λ d a s at. read_word-value d a ∙ read_word-inside d.memory a (rw s.sized at);
  read_word_good = λ d a s at. same_memory size d (read_word d a).1 (read_word-memory d a) s;
  read_word_keeps = λ d a b s at at'. ap (λ (m : Bytes). get_word m b) (read_word-memory d a);
  write_word_good = λ d a v s at word. record {
    sized =
        ap (λ (m : Bytes). m.size) (write_word-memory d a v)
        ∙ write_word-size d.memory a v
        ∙ s.sized;
    bytes = rw (write_word-memory d a v) (write_word-AreBytes d.memory a v s.bytes);
  };
  write_word_lem = λ d a v b s at word at'.
      ap (λ (m : Bytes). get_word m b) (write_word-memory d a v)
      ∙ get_word-write_word d.memory a v b s.bytes word (rw s.sized at) (rw s.sized at');
  read_block_lem = λ d a n s aligned inside.
      read_block-value d a n
      ∙ read_words-inside d.memory a 0 n (omega (arith, s.sized)) aligned (omega (arith, s.sized))
      ∙ ap (λ (x : ℕ). words_at (view d) x n) (omega arith);
  read_block_good =
      λ d a n s aligned inside. same_memory size d (read_block d a n).1 (read_block-memory d a n) s;
  read_block_keeps =
      λ d a n b s aligned inside at. ap (λ (m : Bytes). get_word m b) (read_block-memory d a n);
  write_block_good = λ d a ws s aligned inside words. record {
    sized =
        ap (λ (m : Bytes). m.size) (write_block-memory d a ws)
        ∙ write_words-size d.memory a 0 ws
        ∙ s.sized;
    bytes = rw (write_block-memory d a ws) (write_words-AreBytes d.memory a 0 ws s.bytes);
  };
  write_block_lem = λ d a ws b s aligned inside words at.
      ap (λ (m : Bytes). get_word m b) (write_block-memory d a ws)
      ∙ get_word-write_words d.memory a 0 ws b s.bytes (omega (arith, s.sized)) aligned
          (omega (arith, s.sized)) words (rw s.sized at)
      ∙ ap (λ (x : ℕ). overlay (view d) x ws b) (omega arith);
}
