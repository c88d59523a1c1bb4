-- ===== src/Core/Csr.antt =====
-- The control and status registers: Core::read_csr, Core::write_csr, Core::update_mmu_from_satp,
-- Core::get_satp_value and Core::init_csrs. The vector `csr_registers` has 4096 elements.
pub mod Laws
use mathlib.Core.Option
use riscv_emulator.Base.{
  ℕ, ◌+◌, ◌*◌, ◌/◌, ◌%◌, ◌^◌, Bool, ◌||◌, bit_and, bit_or, leb, ◌==◌, if◌then◌else◌,
}
use riscv_emulator.Word.{u32, not32}
use riscv_emulator.Memory.Mmu.{set_page_table_base}
use riscv_emulator.Core.State.{Core, write_csr_register}
use riscv_emulator.Core.Counters.{read_global_counter}

-- The addresses.
abbrev pub sstatus : ℕ
sstatus = 0x100

abbrev pub sie : ℕ
sie = 0x104

abbrev pub stvec : ℕ
stvec = 0x105

abbrev pub sepc : ℕ
sepc = 0x141

abbrev pub scause : ℕ
scause = 0x142

abbrev pub stval : ℕ
stval = 0x143

abbrev pub satp : ℕ
satp = 0x180

abbrev pub mstatus : ℕ
mstatus = 0x300

abbrev pub medeleg : ℕ
medeleg = 0x302

abbrev pub mie : ℕ
mie = 0x304

abbrev pub mtvec : ℕ
mtvec = 0x305

abbrev pub mideleg : ℕ
mideleg = 0x30A

abbrev pub mepc : ℕ
mepc = 0x341

abbrev pub mcause : ℕ
mcause = 0x342

abbrev pub mtval : ℕ
mtval = 0x343

abbrev pub mip : ℕ
mip = 0x344

abbrev pub cycle_time : ℕ
cycle_time = 0xC01

abbrev pub mhartid : ℕ
mhartid = 0xF14

-- The number of elements.
abbrev pub csr_count : ℕ
csr_count = 4096

-- What a read of sstatus shows of the value of mstatus.
abbrev pub sstatus_of : ℕ → ℕ
sstatus_of m =
    let low =
      bit_or (bit_or (bit_or (bit_and m 0x1) (bit_and m 0x2)) (bit_and m 0x4 * 2 ^ 3))
        (bit_and m 0x8) in
    let mid =
      bit_or (bit_or (bit_or low (bit_and m 0x10 * 2 ^ 1)) (bit_and m 0x20 * 2 ^ 1))
        (bit_and m 0x40 * 2 ^ 1) in
    let high =
      bit_or (bit_or (bit_or mid (bit_and m 0x80)) (bit_and m 0x100 * 2 ^ 4))
        (bit_and m 0x200 * 2 ^ 8) in
    bit_or (bit_or (bit_or high (bit_and m 0x400 * 2 ^ 4)) (bit_and m 0x80000)) (bit_and m 0x100000)

unfoldable pub get_satp_value : Core → ℕ
get_satp_value c = c.csr_registers satp

-- The next value of the time counter.
abbrev pub next_time : Core → ℕ
next_time c = u32 (c.csr_registers cycle_time + u32 (50 + u32 (c.core_id * 5)))

-- The value that `read_csr` returns.
unfoldable pub csr_value : Core → ℕ → ℕ
unfolding get_satp_value read_global_counter
csr_value c addr =
    if leb csr_count addr
    then 0
    else if addr == sstatus
    then sstatus_of (c.csr_registers mstatus)
    else if addr == satp
    then get_satp_value c
    else if addr == mhartid
    then c.core_id
    else if addr == cycle_time
    then next_time c
    else if addr == 0xB00
    then c.performance_counter
    else if addr == 0xB01
    then c.performance_control
    else if addr == 0xB02
    then c.performance_event_select
    else if addr == 0xB10
    then read_global_counter c 0
    else if addr == 0xB11
    then read_global_counter c 1
    else if addr == 0xB12
    then read_global_counter c 2
    else if addr == 0xB13
    then read_global_counter c 3
    else c.csr_registers addr

-- What `read_csr` does to the state: only the time counter moves.
unfoldable pub after_read : Core → ℕ → Core
after_read c addr = if addr == cycle_time then write_csr_register c cycle_time (next_time c) else c

unfoldable pub read_csr : Core → ℕ → ℕ × Core
unfolding csr_value after_read
read_csr c addr = (csr_value c addr, after_read c addr)

-- The page table base of a SATP value.
abbrev pub base_of_satp : ℕ → ℕ
base_of_satp value = if value / 2 ^ 31 % 2 == 0 then 0 else bit_and value 0x3FFFFF * 2 ^ 12 % 2 ^ 32

unfoldable pub update_mmu_from_satp : Core → ℕ → Core
update_mmu_from_satp c value = record c {
  mmu = Option.map (λ m. set_page_table_base m (base_of_satp value)) c.mmu;
}

-- The bits that a write replaces.
abbrev pub masked : ℕ → ℕ → ℕ → ℕ
masked old value mask = bit_or (bit_and old (not32 mask)) (bit_and value mask)

abbrev pub sstatus_mask : ℕ
sstatus_mask = 0x622

-- SSIP, STIP and SEIP.
abbrev pub mip_mask : ℕ
mip_mask = 0x222

abbrev pub control_counter : Core → ℕ → Core
control_counter c value = record c {
  performance_control = value;
  performance_counter = if bit_and value 0x2 == 0 then c.performance_counter else 0;
}

abbrev pub reset_global : Core → ℕ → Core
reset_global c value = if bit_and value 0x2 == 0 then c else record c {
  global = record { instructions = 0; memory_accesses = 0; branches = 0; cache_hits = 0 };
}

-- The addresses that `write_csr` ignores.
abbrev pub is_read_only : ℕ → Bool
is_read_only addr =
    (addr == mhartid || addr == 0xB00)
    || ((addr == 0xB10 || addr == 0xB11) || (addr == 0xB12 || addr == 0xB13))

unfoldable pub write_csr : Core → ℕ → ℕ → Core
unfolding update_mmu_from_satp
write_csr c addr value =
    if leb csr_count addr
    then c
    else if addr == sstatus
    then write_csr_register c mstatus (masked (c.csr_registers mstatus) value sstatus_mask)
    else if addr == mip
    then write_csr_register c mip (masked (c.csr_registers mip) value mip_mask)
    else if addr == satp
    then update_mmu_from_satp (write_csr_register c satp value) value
    else if is_read_only addr
    then c
    else if addr == 0xB01
    then control_counter c value
    else if addr == 0xB02
    then record c { performance_event_select = value }
    else if addr == 0xB14
    then reset_global c value
    else write_csr_register c addr value

-- The registers that `init_csrs` fills.
abbrev pub initial_csr : ℕ → ℕ
initial_csr addr = if addr == mstatus then 0x1800 else if addr == mie then 0x888 else 0

unfoldable pub init_csrs : Core → Core
init_csrs c = record c { csr_registers = initial_csr }
