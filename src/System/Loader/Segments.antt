-- ===== src/System/Loader/Segments.antt =====
-- What a loaded segment leaves in memory.
use riscv_emulator.Base.{
  ℕ, ◌+◌, ◌-◌, ◌%◌, ◌^◌, ◌≤◌, ◌<◌, ◌≡◌, refl, ◌∙◌, arith, true, false, ◌&&◌, none, some, ltb, leb,
  ◌==◌, if◌then◌else◌, Bool-cases, inl, inr,
}
use native.Mathlib.Nat.{mod-eq_of_lt}
use riscv_emulator.Word.{u32}
use riscv_emulator.Memory.Bytes.{Bytes}
use riscv_emulator.System.Loader.{
  Phdr, within, copy_in, clear, Loading, zero_rest, load_segment, IsSegment, loaded_byte,
}

-- A result with the bytes `f` and the size of `memory`.
pub record IsLoaded (memory : Bytes) (f : ℕ → ℕ) (l : Loading) : Type 0 where
  pub bytes : (a : ℕ) → l.memory.byte a ≡ f a
  pub size : l.memory.size ≡ memory.size

copy_in-inside :
    (memory : Bytes) (to : ℕ) (buffer : Bytes) (from n : ℕ)
    → to + n ≤ memory.size
    → from + n ≤ buffer.size
    → copy_in memory to buffer from n
      ≡ some (record memory {
        byte = λ a. if within a to n then buffer.byte (from + (a - to)) else memory.byte a;
      })
unfolding copy_in
copy_in-inside memory to buffer from n h h' =
    let fits : leb (to + n) memory.size ≡ true = ground arith in
    let fits' : leb (from + n) buffer.size ≡ true = ground arith in rw (fits, fits') refl

clear-inside :
    (memory : Bytes) (to n : ℕ)
    → to + n ≤ memory.size
    → clear memory to n
      ≡ some (record memory { byte = λ a. if within a to n then 0 else memory.byte a })
unfolding clear
clear-inside memory to n h =
    let fits : leb (to + n) memory.size ≡ true = ground arith in rw fits refl

rest_byte :
    (a to file mem x y z : ℕ)
    → file ≤ mem
    → z ≡ (if within a to file then x else y)
    → (if within a (to + file) (mem - file) then 0 else z)
      ≡ (if within a to file then x else if within a to mem then 0 else y)
rest_byte a to file mem x y z h e = ground arith

full_byte :
    (a to file mem x y : ℕ)
    → mem ≡ file
    → (if within a to file then x else y)
      ≡ (if within a to file then x else if within a to mem then 0 else y)
full_byte a to file mem x y h = ground arith

-- The bytes after the copy, if there is one, and the rest of the segment cleared.
zero_rest-IsLoaded :
    (l : Loading) (p : Phdr) (buffer m : Bytes)
    → IsSegment buffer l.memory p
    → m.size ≡ l.memory.size
    → ((a : ℕ)
        → m.byte a ≡ (
            if within a p.p_paddr p.p_filesz
            then buffer.byte (p.p_offset + (a - p.p_paddr))
            else l.memory.byte a))
    → (l' : Loading) × (zero_rest l p (some m) ≡ some l')
      × IsLoaded l.memory (loaded_byte buffer l.memory p) l'
zero_rest-IsLoaded l p buffer m s size copied =
    let end_addr = u32 (p.p_paddr + p.p_memsz) in
    let highest = if ltb l.max_loaded_addr end_addr then end_addr else l.max_loaded_addr in
    elim (Bool-cases (ltb p.p_filesz p.p_memsz)) [
      | inl more ↦
          let to = p.p_paddr + p.p_filesz in
          let n = p.p_memsz - p.p_filesz in
          let less : p.p_filesz < p.p_memsz = ground arith in
          let room : to + n ≤ m.size = omega (arith, s.in_memory) in
          let cleared = clear-inside m to n room in
          (
            record {
              memory = record m { byte = λ a. if within a to n then 0 else m.byte a };
              max_loaded_addr = highest;
            },
            rw (more, cleared) refl,
            record {
              bytes = λ a.
                  rest_byte a p.p_paddr p.p_filesz p.p_memsz
                    (buffer.byte (p.p_offset + (a - p.p_paddr))) (l.memory.byte a) (m.byte a)
                    s.sizes (copied a);
              size = size;
            },
          )
      | inr all ↦
          let same : p.p_memsz ≡ p.p_filesz = ground (arith, s.sizes) in
          (
            record { memory = m; max_loaded_addr = highest },
            rw all refl,
            record {
              bytes = λ a.
                  copied a
                  ∙ full_byte a p.p_paddr p.p_filesz p.p_memsz
                      (buffer.byte (p.p_offset + (a - p.p_paddr))) (l.memory.byte a) same;
              size = size;
            },
          )
    ]

empty_byte : (a to n x y : ℕ) → n ≡ 0 → y ≡ (if within a to n then x else y)
empty_byte a to n x y h = ground arith

-- A segment that fits in the file and in the memory is loaded: its bytes come from the file, the rest of it is
-- zero, and all other bytes of memory stay.
pub load_segment-IsLoaded :
    (buffer : Bytes) (l : Loading) (p : Phdr)
    → IsSegment buffer l.memory p
    → (l' : Loading) × (load_segment buffer l p ≡ some l')
      × IsLoaded l.memory (loaded_byte buffer l.memory p) l'
unfolding load_segment
load_segment-IsLoaded buffer l p s =
    let loads : (p.p_type == 1) ≡ true = ground (arith, s.loads) in
    let sum : u32 (p.p_paddr + p.p_memsz) ≡ p.p_paddr + p.p_memsz =
      mod-eq_of_lt (omega (arith, s.in_memory, s.memory_lt)) in
    let room : ltb l.memory.size (u32 (p.p_paddr + p.p_memsz)) ≡ false =
      ground (arith, s.in_memory) in
    elim (Bool-cases (ltb 0 p.p_filesz && leb (u32 (p.p_offset + p.p_filesz)) buffer.size)) [
      | inl copies ↦
          let copied =
            copy_in-inside l.memory p.p_paddr buffer p.p_offset p.p_filesz
              (omega (arith, s.in_memory, s.sizes)) s.in_file in
          let (l', runs, good) =
            zero_rest-IsLoaded l p buffer
              (record (l.memory) {
                byte = λ a.
                    if within a p.p_paddr p.p_filesz
                    then buffer.byte (p.p_offset + (a - p.p_paddr))
                    else l.memory.byte a;
              })
              s refl (λ a. refl) in
          (l', rw (loads, room, copies, copied) runs, good)
      | inr empty ↦
          let file_sum : u32 (p.p_offset + p.p_filesz) ≡ p.p_offset + p.p_filesz =
            mod-eq_of_lt (omega (arith, s.in_file, s.file_lt)) in
          let nothing : p.p_filesz ≡ 0 = ground (arith, s.in_file) in
          let (l', runs, good) = zero_rest-IsLoaded l p buffer l.memory s refl (λ a.
            empty_byte a p.p_paddr p.p_filesz (buffer.byte (p.p_offset + (a - p.p_paddr)))
              (l.memory.byte a) nothing) in
          (l', rw (loads, room, empty) runs, good)
    ]

-- A header whose end wraps around 2 ^ 32 passes the test of the size: its bytes are then copied past the end of the
-- memory, which is undefined. The header is of a segment with bytes in the file, the wrapped end is in the memory,
-- the true end of these bytes is not.
pub load_segment_overflow :
    (buffer : Bytes) (l : Loading) (p : Phdr)
    → p.p_type ≡ 1
    → 0 < p.p_filesz
    → p.p_offset + p.p_filesz ≤ buffer.size
    → buffer.size < 2 ^ 32
    → (p.p_paddr + p.p_memsz) % 2 ^ 32 ≤ l.memory.size
    → l.memory.size < p.p_paddr + p.p_filesz
    → load_segment buffer l p ≡ none
unfolding load_segment copy_in
load_segment_overflow buffer l p loads some_bytes in_file file_lt wrapped outside =
    let type : (p.p_type == 1) ≡ true = ground arith in
    let room : ltb l.memory.size (u32 (p.p_paddr + p.p_memsz)) ≡ false = ground arith in
    let sum : u32 (p.p_offset + p.p_filesz) ≡ p.p_offset + p.p_filesz =
      mod-eq_of_lt (omega arith) in
    let copies : (ltb 0 p.p_filesz && leb (u32 (p.p_offset + p.p_filesz)) buffer.size) ≡ true =
      rw sum (ground arith) in
    let past : leb (p.p_paddr + p.p_filesz) l.memory.size ≡ false = ground arith in
    rw (type, room, copies, past) refl
