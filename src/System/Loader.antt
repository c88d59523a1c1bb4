-- ===== src/System/Loader.antt =====
-- The loader of programs: load_program of emulator/src/system/Simulator.cpp, the loops that put an ELF file or
-- a raw one in memory. `none` is a memcpy or memset past the end of an array, which C++ leaves undefined. A
-- file is a byte array. The name of the file, the messages and the search for the entry point are left out.
pub mod Segments
mod Tests
use riscv_emulator.Base.{
  ℕ, zero, suc, ◌+◌, ◌-◌, ◌*◌, ◌%◌, ◌^◌, ◌≤◌, ◌<◌, ◌≡◌, refl, sym, ap, ◌∙◌, arith, Bool, true,
  false, not, ◌&&◌, ◌||◌, Option, none, some, ltb, leb, ◌==◌, if◌then◌else◌, Bool-cases, inl, inr,
}
use riscv_emulator.Word.{u32}
use riscv_emulator.Memory.Bytes.{Bytes, get_word}

-- The fields of struct Elf32_Phdr and of struct Elf32_Ehdr that the loader reads.
pub record Phdr : Type 0 where
  pub p_type : ℕ
  pub p_offset : ℕ
  pub p_paddr : ℕ
  pub p_filesz : ℕ
  pub p_memsz : ℕ

pub record Ehdr : Type 0 where
  pub e_phoff : ℕ
  pub e_phentsize : ℕ
  pub e_phnum : ℕ

abbrev pub get_half : Bytes → ℕ → ℕ
get_half b o = b.byte o + b.byte (o + 1) * 2 ^ 8

unfoldable pub phdr_at : Bytes → ℕ → Phdr
phdr_at b o = record {
  p_type = get_word b o;
  p_offset = get_word b (o + 4);
  p_paddr = get_word b (o + 12);
  p_filesz = get_word b (o + 16);
  p_memsz = get_word b (o + 20);
}

unfoldable pub ehdr_of : Bytes → Ehdr
ehdr_of b = record { e_phoff = get_word b 28; e_phentsize = get_half b 42; e_phnum = get_half b 44 }

-- The magic number, and the checks of the header.
unfoldable pub is_elf : Bytes → Bool
is_elf b =
    leb 16 b.size
    && (b.byte 0 == 0x7F && (b.byte 1 == 0x45 && (b.byte 2 == 0x4C && b.byte 3 == 0x46)))

unfoldable pub is_elf32 : Bytes → Bool
is_elf32 b = not (ltb b.size 52) && b.byte 4 == 1

abbrev pub within : ℕ → ℕ → ℕ → Bool
within a start n = leb start a && ltb a (start + n)

-- memcpy from the file and memset to zero.
unfoldable pub copy_in : Bytes → ℕ → Bytes → ℕ → ℕ → Option Bytes
copy_in memory to buffer from n =
    if leb (to + n) memory.size && leb (from + n) buffer.size
    then some (record memory {
      byte = λ a. if within a to n then buffer.byte (from + (a - to)) else memory.byte a;
    })
    else none

unfoldable pub clear : Bytes → ℕ → ℕ → Option Bytes
clear memory to n =
    if leb (to + n) memory.size
    then some (record memory { byte = λ a. if within a to n then 0 else memory.byte a })
    else none

pub record Loading : Type 0 where
  pub memory : Bytes
  pub max_loaded_addr : ℕ

abbrev pub loaded_end : Loading → Phdr → Option Bytes → Option Loading
loaded_end l p none = none
loaded_end l p (some memory) =
    let end_addr = u32 (p.p_paddr + p.p_memsz) in
    some (record {
      memory = memory;
      max_loaded_addr = if ltb l.max_loaded_addr end_addr then end_addr else l.max_loaded_addr;
    })

abbrev pub zero_rest : Loading → Phdr → Option Bytes → Option Loading
zero_rest l p none = none
zero_rest l p (some memory) = loaded_end l p (
    if ltb p.p_filesz p.p_memsz
    then clear memory (p.p_paddr + p.p_filesz) (p.p_memsz - p.p_filesz)
    else some memory)

-- One program header; the sums of two fields wrap.
unfoldable pub load_segment : Bytes → Loading → Phdr → Option Loading
unfolding copy_in clear
load_segment buffer l p =
    if not (p.p_type == 1)
    then some l
    else if ltb l.memory.size (u32 (p.p_paddr + p.p_memsz))
    then some l
    else zero_rest l p (
        if ltb 0 p.p_filesz && leb (u32 (p.p_offset + p.p_filesz)) buffer.size
        then copy_in l.memory p.p_paddr buffer p.p_offset p.p_filesz
        else some l.memory)

-- The headers from number `i` on, of which `left` are left; one past the end of the file is passed over.
abbrev pub load_next : Bytes → Loading → ℕ → Option Loading
load_next buffer l ph_offset =
    if ltb buffer.size (ph_offset + 32)
    then some l
    else load_segment buffer l (phdr_at buffer ph_offset)

unfoldable pub load_segments : Bytes → Ehdr → ℕ → ℕ → Option Loading → Option Loading
load_segments buffer e i left none = none
load_segments buffer e i zero (some l) = some l
load_segments buffer e i (suc left) (some l) =
    load_segments buffer e (i + 1) left (load_next buffer l (u32 (e.e_phoff + i * e.e_phentsize)))

-- A raw file goes to address 0; `none` if it is refused because it does not fit.
unfoldable pub load_raw : Bytes → Bytes → Option Loading
unfolding copy_in
load_raw buffer memory =
    if ltb memory.size buffer.size
    then none
    else some (record {
      memory = record memory {
        byte = λ a. if ltb a buffer.size then buffer.byte a else memory.byte a;
      };
      max_loaded_addr = u32 buffer.size;
    })

abbrev pub cleared : Loading → Option Bytes → Option Loading
cleared l none = none
cleared l (some memory) = some (record l { memory = memory })

-- The memory between the program and the region of the monitor is cleared.
unfoldable pub clear_bss : Loading → Option Loading
unfolding clear
clear_bss l =
    if ltb l.max_loaded_addr 0x90000
    then cleared l (clear l.memory l.max_loaded_addr (0x90000 - l.max_loaded_addr))
    else some l

-- A header of a segment that fits in the file and in the memory.
pub record IsSegment (buffer memory : Bytes) (p : Phdr) : Type 0 where
  pub loads : p.p_type ≡ 1
  pub sizes : p.p_filesz ≤ p.p_memsz
  pub in_memory : p.p_paddr + p.p_memsz ≤ memory.size
  pub in_file : p.p_offset + p.p_filesz ≤ buffer.size
  pub memory_lt : memory.size < 2 ^ 32
  pub file_lt : buffer.size < 2 ^ 32

-- The memory with a segment in it.
abbrev pub loaded_byte : Bytes → Bytes → Phdr → ℕ → ℕ
loaded_byte buffer memory p a =
    if within a p.p_paddr p.p_filesz
    then buffer.byte (p.p_offset + (a - p.p_paddr))
    else if within a p.p_paddr p.p_memsz
    then 0
    else memory.byte a
