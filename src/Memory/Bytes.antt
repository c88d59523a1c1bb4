-- ===== src/Memory/Bytes.antt =====
-- Byte arrays, std::vector<uint8_t>, and the little-endian words in them, as Simulator.cpp, Simulator.h
-- and DDR.cpp of emulator/src read and write them. `byte` gives the bytes below `size`. The sum
-- `addr + sizeof(uint32_t)` of the bounds checks is a size_t and does not wrap.
pub mod Words
use riscv_emulator.Base.{
  ℕ, suc, ◌+◌, ◌*◌, ◌/◌, ◌%◌, ◌^◌, bit_and, bit_or, Bool, List, [], ◌∷◌, zero, leb, ◌==◌,
  if◌then◌else◌,
}
use riscv_emulator.Word.{u32, shl32, shr32}

pub record Bytes : Type 0 where
  pub size : ℕ
  pub byte : ℕ → ℕ

abbrev pub zeros : ℕ → Bytes
zeros n = record { size = n; byte = λ a. 0 }

-- `memory[addr] | (memory[addr + 1] << 8) | (memory[addr + 2] << 16) | (memory[addr + 3] << 24)`.
unfoldable pub get_word : Bytes → ℕ → ℕ
get_word m addr =
    bit_or
      (bit_or (bit_or (m.byte addr) (shl32 (m.byte (addr + 1)) 8)) (shl32 (m.byte (addr + 2)) 16))
      (shl32 (m.byte (addr + 3)) 24)

unfoldable pub put_word : Bytes → ℕ → ℕ → Bytes
put_word m addr v = record m {
  byte = λ a.
      if a == addr
      then bit_and v 0xFF
      else if a == addr + 1
      then bit_and (shr32 v 8) 0xFF
      else if a == addr + 2
      then bit_and (shr32 v 16) 0xFF
      else if a == addr + 3
      then bit_and (shr32 v 24) 0xFF
      else m.byte a;
}

-- The checked accesses: beyond the end a read gives 0 and a write is ignored.
unfoldable pub read_word : Bytes → ℕ → ℕ
read_word m addr = if leb (addr + 4) m.size then get_word m addr else 0

unfoldable pub write_word : Bytes → ℕ → ℕ → Bytes
write_word m addr v = if leb (addr + 4) m.size then put_word m addr v else m

-- The loops over a block: word `i` on, of the `words` that are left.
unfoldable pub read_words : Bytes → ℕ → ℕ → ℕ → List ℕ
read_words m addr i zero = []
read_words m addr i (suc words) = read_word m (u32 (addr + i * 4)) ∷ read_words m addr (i + 1) words

unfoldable pub write_words : Bytes → ℕ → ℕ → List ℕ → Bytes
write_words m addr i [] = m
write_words m addr i (w ∷ ws) = write_words (write_word m (u32 (addr + i * 4)) w) addr (i + 1) ws
