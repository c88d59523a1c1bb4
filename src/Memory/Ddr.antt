-- ===== src/Memory/Ddr.antt =====
-- The DRAM behind the caches: class DDRMemory of emulator/src/memory/DDR.cpp and DDR.h. The page that
-- `calculate_latency` keeps in a static variable is a field; the program has one DDRMemory. The calls
-- of the callback are listed, the last one first. A burst length or page size of 0 is undefined in C++.
pub mod Contract
pub mod Atomics
pub mod Tests
use riscv_emulator.Base.{
  ℕ, ◌+◌, ◌-◌, ◌*◌, ◌/◌, ◌%◌, ◌^◌, Bool, true, false, not, List, [], ◌∷◌, leb, ◌==◌, if◌then◌else◌,
  length, bit_and, bit_or, bit_xor,
}
use riscv_emulator.Word.{u32, sub32}
use riscv_emulator.Memory.Bytes
use riscv_emulator.Memory.Bytes.{Bytes, zeros, get_word, put_word, read_words, write_words}

pub record DdrConfig : Type 0 where
  pub size : ℕ
  pub page_size : ℕ
  pub cas_latency : ℕ
  pub burst_length : ℕ
  pub bandwidth : ℕ

pub record Access : Type 0 where
  pub addr : ℕ
  pub is_write : Bool
  pub latency : ℕ

pub record Ddr : Type 0 where
  pub config : DdrConfig
  pub memory : Bytes
  pub read_count : ℕ
  pub write_count : ℕ
  pub total_latency : ℕ
  pub last_page : ℕ
  pub has_callback : Bool
  pub completed : List Access

unfoldable pub create : DdrConfig → Ddr
create config = record {
  config = config;
  memory = zeros config.size;
  read_count = 0;
  write_count = 0;
  total_latency = 0;
  last_page = 0;
  has_callback = false;
  completed = [];
}

unfoldable pub set_access_complete_callback : Ddr → Ddr
set_access_complete_callback d = record d { has_callback = true }

unfoldable pub calculate_latency : Ddr → ℕ → ℕ → ℕ × Ddr
calculate_latency d addr size =
    let burst_cycles = sub32 (u32 (size + d.config.burst_length)) 1 / d.config.burst_length in
    let latency = u32 (d.config.cas_latency + burst_cycles) in
    let current_page = addr / d.config.page_size in
    if not (current_page == d.last_page)
    then (u32 (latency + 5), record d { last_page = current_page })
    else (latency, d)

-- The statistics of an access: its latency, `reads` reads and `writes` writes.
unfoldable pub track : Ddr → ℕ → ℕ → ℕ → ℕ → ℕ × Ddr
unfolding calculate_latency
track d addr size reads writes =
    let timed = calculate_latency d addr size in
    (
      timed.0,
      record (timed.1) {
        total_latency = (timed.1.total_latency + timed.0) % 2 ^ 64;
        read_count = (timed.1.read_count + reads) % 2 ^ 64;
        write_count = (timed.1.write_count + writes) % 2 ^ 64;
      },
    )

unfoldable pub call_back : Ddr → ℕ → Bool → ℕ → Ddr
call_back d addr is_write latency =
    if d.has_callback
    then record d {
      completed = record { addr = addr; is_write = is_write; latency = latency } ∷ d.completed;
    }
    else d

unfoldable pub read_word : Ddr → ℕ → ℕ × Ddr
unfolding track call_back
read_word d addr =
    let tracked = track d addr 4 1 0 in
    let d' = call_back tracked.1 addr false tracked.0 in (Bytes.read_word d'.memory addr, d')

unfoldable pub write_word : Ddr → ℕ → ℕ → Ddr
unfolding track call_back
write_word d addr value =
    let tracked = track d addr 4 0 1 in
    let d' = call_back tracked.1 addr true tracked.0 in
    record d' { memory = Bytes.write_word d'.memory addr value }

unfoldable pub read_block : Ddr → ℕ → ℕ → List ℕ × Ddr
unfolding track
read_block d addr words =
    let d' = (track d addr (u32 (words * 4)) words 0).1 in (read_words d'.memory addr 0 words, d')

unfoldable pub write_block : Ddr → ℕ → List ℕ → Ddr
unfolding track
write_block d addr words =
    let d' = (track d addr (u32 (length words * 4)) 0 (length words)).1 in
    record d' { memory = write_words d'.memory addr 0 words }

-- The body that the atomic operations share: the new value from the old one, and whether the callback
-- is called for the read.
unfoldable pub modify : Ddr → ℕ → Bool → (ℕ → ℕ) → ℕ × Ddr
unfolding track call_back
modify d addr calls_back new_value =
    if leb (addr + 4) d.memory.size
    then (let old_value = get_word d.memory addr in
        let d' = record d { memory = put_word d.memory addr (new_value old_value) } in
        let tracked = track d' addr 4 1 1 in
        (old_value, if calls_back then call_back tracked.1 addr false tracked.0 else tracked.1))
    else (0, d)

unfoldable pub atomic_add : Ddr → ℕ → ℕ → ℕ × Ddr
unfolding modify
atomic_add d addr value = modify d addr true (λ old. u32 (old + value))

unfoldable pub atomic_swap : Ddr → ℕ → ℕ → ℕ × Ddr
unfolding modify
atomic_swap d addr value = modify d addr true (λ old. value)

unfoldable pub atomic_compare_and_swap : Ddr → ℕ → ℕ → ℕ → ℕ × Ddr
unfolding track
atomic_compare_and_swap d addr expected desired =
    if leb (addr + 4) d.memory.size
    then (let current_value = get_word d.memory addr in
        if current_value == expected
        then (
          current_value,
          (track (record d { memory = put_word d.memory addr desired }) addr 4 1 1).1,
        )
        else (current_value, (track d addr 4 1 0).1))
    else (0, d)

unfoldable pub atomic_fetch_and_add : Ddr → ℕ → ℕ → ℕ × Ddr
unfolding modify
atomic_fetch_and_add d addr value = modify d addr false (λ old. u32 (old + value))

unfoldable pub atomic_fetch_and_sub : Ddr → ℕ → ℕ → ℕ × Ddr
unfolding modify
atomic_fetch_and_sub d addr value = modify d addr false (λ old. sub32 old value)

unfoldable pub atomic_fetch_and_and : Ddr → ℕ → ℕ → ℕ × Ddr
unfolding modify
atomic_fetch_and_and d addr value = modify d addr false (λ old. bit_and old value)

unfoldable pub atomic_fetch_and_or : Ddr → ℕ → ℕ → ℕ × Ddr
unfolding modify
atomic_fetch_and_or d addr value = modify d addr false (λ old. bit_or old value)

unfoldable pub atomic_fetch_and_xor : Ddr → ℕ → ℕ → ℕ × Ddr
unfolding modify
atomic_fetch_and_xor d addr value = modify d addr false (λ old. bit_xor old value)

unfoldable pub reset_stats : Ddr → Ddr
reset_stats d = record d { read_count = 0; write_count = 0; total_latency = 0 }
