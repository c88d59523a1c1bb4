-- ===== src/System/Loader/Tests.antt =====
-- A file of 512 bytes loaded into a memory of 8 KB, and the two memories of 256 bytes.
use riscv_emulator.Base.{◌%◌, ◌≡◌, refl, arith, none, some}
use riscv_emulator.Memory.Bytes.{Bytes, zeros}
use riscv_emulator.Memory.Ddr.{Ddr}
use riscv_emulator.Memory.Ddr
use riscv_emulator.Memory.Ddr.Tests.{dram}
use riscv_emulator.System.Direct
use riscv_emulator.System.Direct.{Direct}
use riscv_emulator.System.Loader.{Phdr, Loading, load_segment, IsSegment, loaded_byte}
use riscv_emulator.System.Loader.Segments.{IsLoaded, load_segment-IsLoaded, load_segment_overflow}

abbrev file : Bytes
file = record { size = 512; byte = λ a. a % 256 }

abbrev start : Loading
start = record { memory = zeros 0x2000; max_loaded_addr = 0 }

abbrev segment : Phdr
segment = record { p_type = 1; p_offset = 0x100; p_paddr = 0x1000; p_filesz = 16; p_memsz = 32 }

segment-IsSegment : IsSegment file start.memory segment
segment-IsSegment = record {
  loads = refl;
  sizes = omega arith;
  in_memory = omega arith;
  in_file = omega arith;
  memory_lt = omega arith;
  file_lt = omega arith;
}

load_segment-IsLoaded_example :
    (l : Loading) × (load_segment file start segment ≡ some l)
    × IsLoaded start.memory (loaded_byte file start.memory segment) l
load_segment-IsLoaded_example = load_segment-IsLoaded file start segment segment-IsSegment

-- The end of this one is at 0x1000 only because it has wrapped.
abbrev wrapping : Phdr
wrapping = record {
  p_type = 1;
  p_offset = 0x100;
  p_paddr = 0xFFFFF000;
  p_filesz = 16;
  p_memsz = 0x2000;
}

load_segment_overflow_example : load_segment file start wrapping ≡ none
load_segment_overflow_example =
    load_segment_overflow file start wrapping refl (omega arith) (omega arith) (omega arith)
      (omega arith) (omega arith)

abbrev direct : Direct
direct = record {
  memory = zeros 256;
  ddr_memory = some dram;
  instruction_cache = none;
  data_cache = none;
}
