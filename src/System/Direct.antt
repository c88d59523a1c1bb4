-- ===== src/System/Direct.antt =====
-- The interface to the simulator's memory that the loader and the page-table walks use: class
-- SimulatorMemoryInterface of emulator/include/system/Simulator.h. The memory and the DRAM are both
-- written. memcpy of a word stores the low byte first, as on the hosts that the emulator is built for. The
-- copy to the page table past the end of memory is undefined in C++; here it does nothing.
use riscv_emulator.Base.{ℕ, ◌≤◌, ◌≡◌, Option, none, some, List, if◌then◌else◌}
use mathlib.Core.Option
use riscv_emulator.Memory.Interface.{IsAddress}
use riscv_emulator.Memory.Bytes
use riscv_emulator.Memory.Bytes.{Bytes, get_word, read_words, write_words}
use riscv_emulator.Memory.Bytes.Words.{AreBytes}
use riscv_emulator.Memory.Ddr
use riscv_emulator.Memory.Ddr.{Ddr}
use riscv_emulator.Memory.Ddr.Contract
use riscv_emulator.Memory.Cache.{Cache}
use riscv_emulator.Memory.Cache.Access.{in_page_table, invalidate}

pub record Direct : Type 0 where
  pub memory : Bytes
  pub ddr_memory : Option Ddr
  pub instruction_cache : Option Cache
  pub data_cache : Option Cache

unfoldable pub read_word : Direct → ℕ → ℕ × Direct
read_word d addr = (
  Bytes.read_word d.memory addr,
  record d { ddr_memory = Option.map (λ (ddr : Ddr). (Ddr.read_word ddr addr).1) d.ddr_memory },
)

unfoldable pub write_word : Direct → ℕ → ℕ → Direct
write_word d addr value =
    let written = record d {
      memory = Bytes.write_word d.memory addr value;
      ddr_memory = Option.map (λ (ddr : Ddr). Ddr.write_word ddr addr value) d.ddr_memory;
    } in
    if in_page_table addr
    then record written {
      data_cache = Option.map (λ (c : Cache). invalidate c addr) d.data_cache;
      instruction_cache = Option.map (λ (c : Cache). invalidate c addr) d.instruction_cache;
    }
    else written

-- The words that the DRAM reads take the place of the memory's.
abbrev pub read_both : List ℕ → Direct → ℕ → ℕ → Option Ddr → List ℕ × Direct
read_both words d addr n none = (words, d)
read_both words d addr n (some ddr) =
    let r = Ddr.read_block ddr addr n in (r.0, record d { ddr_memory = some r.1 })

unfoldable pub read_block : Direct → ℕ → ℕ → List ℕ × Direct
read_block d addr n = read_both (read_words d.memory addr 0 n) d addr n d.ddr_memory

unfoldable pub write_block : Direct → ℕ → List ℕ → Direct
write_block d addr words = record d {
  memory = write_words d.memory addr 0 words;
  ddr_memory = Option.map (λ (ddr : Ddr). Ddr.write_block ddr addr words) d.ddr_memory;
}

-- The two memories have the same words.
pub record AreMirrors (size : ℕ) (memory : Bytes) (ddr : Ddr) : Type 0 where
  pub bytes : AreBytes memory
  pub large : memory.size ≤ size
  pub sound : Contract.IsSound size ddr
  pub words : (b : ℕ) → IsAddress memory.size b → get_word memory b ≡ Contract.view ddr b
