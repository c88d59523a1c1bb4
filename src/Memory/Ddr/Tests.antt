-- ===== src/Memory/Ddr/Tests.antt =====
-- A DRAM of 256 bytes.
use riscv_emulator.Base.{◌≡◌, refl, arith}
use riscv_emulator.Memory.Interface.{Implements}
use riscv_emulator.Memory.Bytes
use riscv_emulator.Memory.Bytes.{get_word, put_word, read_words, write_words}
use riscv_emulator.Memory.Ddr.{
  DdrConfig, Ddr, create, read_word, write_word, track, call_back, calculate_latency,
}
use riscv_emulator.Memory.Ddr.Contract.{interface, IsSound, view, interface-Implements}
use riscv_emulator.Memory.Ddr.Atomics.{compare_swaps, atomic, result, IsExchange, atomic-IsExchange}

abbrev config : DdrConfig
config = record { size = 256; page_size = 64; cas_latency = 10; burst_length = 8; bandwidth = 16 }

abbrev pub dram : Ddr
dram = create config

pub dram-IsSound : IsSound 256 dram
unfolding create
dram-IsSound = record { sized = refl; bytes = λ a. omega arith }

-- A word written and read, with the latencies of the two accesses.
abbrev written : Ddr
written = write_word dram 72 0x01020304

read_back : (read_word written 72).0 ≡ 0x01020304
unfolding create write_word read_word track call_back calculate_latency Bytes.read_word
    Bytes.write_word get_word put_word
read_back = refl

latency_of_new_page : written.total_latency ≡ 16
unfolding create write_word track call_back calculate_latency
latency_of_new_page = refl

interface-Implements_example : Implements interface 256 (IsSound 256) view
interface-Implements_example = interface-Implements 256 (omega arith)

atomic-IsExchange_example :
    IsExchange dram 72 (result (compare_swaps 0 5)) (atomic dram 72 (compare_swaps 0 5))
atomic-IsExchange_example =
    atomic-IsExchange 256 dram 72 (compare_swaps 0 5) dram-IsSound (omega arith, omega arith)
      (omega arith)
