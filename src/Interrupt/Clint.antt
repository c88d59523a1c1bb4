-- ===== src/Interrupt/Clint.antt =====
-- The core-local interruptor: class CLINT of emulator/src/interrupt/CLINT.cpp and CLINT.h.
-- A method returns the new state. The mutex is taken once by each method and released at its end,
-- so a call is one step; the log lines are left out. Registers are numbers below 2 ^ 64, `size` is
-- the access width in bytes.
pub mod Registers
pub mod Timer
pub mod Invariant
use riscv_emulator.Base.{
  ℕ, ◌+◌, ◌-◌, ◌*◌, ◌/◌, ◌%◌, ◌^◌, Bool, true, false, not, ◌&&◌, ◌||◌, List, ltb, leb, ◌==◌,
  if◌then◌else◌, to_nat, length, get_or, set, replicate, fill,
}

pub record Clint : Type 0 where
  pub num_cores : ℕ
  pub mtime : ℕ
  pub mtimecmp : List ℕ
  pub msip : List Bool

abbrev pub clint_base : ℕ
clint_base = 0x02000000

abbrev pub msip_base : ℕ
msip_base = 0x0000

abbrev pub mtimecmp_base : ℕ
mtimecmp_base = 0x4000

abbrev pub mtime_offset : ℕ
mtime_offset = 0xBFF8

abbrev pub max_u64 : ℕ
max_u64 = 0xFFFFFFFFFFFFFFFF

unfoldable pub create : ℕ → Clint
create n = record {
  num_cores = n;
  mtime = 0;
  mtimecmp = replicate n max_u64;
  msip = replicate n false;
}

unfoldable pub is_valid_core_id : Clint → ℕ → Bool
is_valid_core_id c core_id = ltb core_id c.num_cores

-- `addr - CLINT_BASE` in uint64_t.
abbrev pub offset_of : ℕ → ℕ
offset_of addr = (addr + 2 ^ 64 - clint_base) % 2 ^ 64

-- The tests of the two register files; `num_cores_ * 4` is a product of uint32_t.
abbrev pub in_msip : Clint → ℕ → Bool
in_msip c offset = leb msip_base offset && ltb offset (msip_base + c.num_cores * 4 % 2 ^ 32)

abbrev pub in_mtimecmp : Clint → ℕ → Bool
in_mtimecmp c offset =
    leb mtimecmp_base offset && ltb offset (mtimecmp_base + c.num_cores * 8 % 2 ^ 32)

-- The core that an offset in a register file stands for, as uint32_t.
abbrev pub msip_id : ℕ → ℕ
msip_id offset = (offset - msip_base) / 4 % 2 ^ 32

abbrev pub mtimecmp_id : ℕ → ℕ
mtimecmp_id offset = (offset - mtimecmp_base) / 8 % 2 ^ 32

unfoldable pub core_id_from_addr : Clint → ℕ → ℕ
core_id_from_addr c addr =
    let offset = offset_of addr in
    if in_msip c offset
    then msip_id offset
    else if in_mtimecmp c offset
    then mtimecmp_id offset
    else c.num_cores

unfoldable pub read : Clint → ℕ → ℕ → ℕ
unfolding is_valid_core_id
read c addr size =
    let offset = offset_of addr in
    let msip_core = msip_id offset in
    let mtimecmp_core = mtimecmp_id offset in
    if in_msip c offset
    then (if is_valid_core_id c msip_core then to_nat (get_or c.msip msip_core false) else 0)
    else if in_mtimecmp c offset
    then (if is_valid_core_id c mtimecmp_core then get_or c.mtimecmp mtimecmp_core 0 else 0)
    else if offset == mtime_offset && leb 8 size
    then c.mtime
    else 0

unfoldable pub write : Clint → ℕ → ℕ → ℕ → Clint
unfolding is_valid_core_id
write c addr value size =
    let offset = offset_of addr in
    let msip_core = msip_id offset in
    let mtimecmp_core = mtimecmp_id offset in
    if in_msip c offset
    then (if is_valid_core_id c msip_core
        then record c { msip = set c.msip msip_core (not (value == 0)) }
        else c)
    else if in_mtimecmp c offset
    then (if is_valid_core_id c mtimecmp_core
        then record c { mtimecmp = set c.mtimecmp mtimecmp_core value }
        else c)
    else if offset == mtime_offset && leb 8 size
    then record c { mtime = value }
    else c

unfoldable pub set_mtimecmp : Clint → ℕ → ℕ → Clint
unfolding is_valid_core_id
set_mtimecmp c core_id value =
    if is_valid_core_id c core_id then record c { mtimecmp = set c.mtimecmp core_id value } else c

unfoldable pub get_mtimecmp : Clint → ℕ → ℕ
unfolding is_valid_core_id
get_mtimecmp c core_id = if is_valid_core_id c core_id then get_or c.mtimecmp core_id 0 else 0

unfoldable pub generate_software_interrupt : Clint → ℕ → Clint
unfolding is_valid_core_id
generate_software_interrupt c core_id =
    if is_valid_core_id c core_id then record c { msip = set c.msip core_id true } else c

unfoldable pub clear_software_interrupt : Clint → ℕ → Clint
unfolding is_valid_core_id
clear_software_interrupt c core_id =
    if is_valid_core_id c core_id then record c { msip = set c.msip core_id false } else c

unfoldable pub clear_software_interrupt_pending : Clint → ℕ → Clint
unfolding clear_software_interrupt
clear_software_interrupt_pending c core_id = clear_software_interrupt c core_id

unfoldable pub set_timer : Clint → ℕ → Clint
set_timer c time = record c { mtime = time }

unfoldable pub get_timer : Clint → ℕ
get_timer c = c.mtime

-- The loop over the cores only logs.
unfoldable pub update_timer : Clint → ℕ → Clint
update_timer c delta_cycles = record c { mtime = (c.mtime + delta_cycles) % 2 ^ 64 }

unfoldable pub has_timer_interrupt : Clint → ℕ → Bool
unfolding is_valid_core_id
has_timer_interrupt c core_id =
    if is_valid_core_id c core_id then leb (get_or c.mtimecmp core_id 0) c.mtime else false

unfoldable pub has_software_interrupt : Clint → ℕ → Bool
unfolding is_valid_core_id
has_software_interrupt c core_id =
    if is_valid_core_id c core_id then get_or c.msip core_id false else false

unfoldable pub has_any_interrupt : Clint → ℕ → Bool
unfolding has_timer_interrupt has_software_interrupt
has_any_interrupt c core_id = has_timer_interrupt c core_id || has_software_interrupt c core_id

unfoldable pub clear_timer_interrupt : Clint → ℕ → Clint
unfolding is_valid_core_id
clear_timer_interrupt c core_id =
    if is_valid_core_id c core_id then record c { mtimecmp = set c.mtimecmp core_id max_u64 } else c

-- `std::fill` keeps the length; the loop writes the first `num_cores_` flags.
unfoldable pub reset : Clint → Clint
reset c = record c {
  mtime = 0;
  mtimecmp = replicate (length c.mtimecmp) max_u64;
  msip = fill c.num_cores false c.msip;
}
