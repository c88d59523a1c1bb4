-- ===== src/Core/Trap.antt =====
-- Traps: Core::take_interrupt, Core::take_supervisor_interrupt, Core::take_exception, the MRET case
-- of Core::step, Core::update_mip_csr, Core::check_pending_interrupts and Core::handle_interrupt.
-- None of them reads the time counter, so a read leaves the state as it is.
pub mod Status
pub mod Return
pub mod Pending
pub mod Tests
use riscv_emulator.Base.{
  ℕ, ◌+◌, ◌*◌, ◌/◌, ◌%◌, ◌^◌, Bool, true, false, not, ◌&&◌, ◌||◌, Option, none, some, bit_and,
  bit_or, leb, ◌==◌, if◌then◌else◌,
}
use riscv_emulator.Word.{u32, not32, shl32, shr32}
use riscv_emulator.Interrupt.Clint.{Clint, has_software_interrupt, has_timer_interrupt}
use riscv_emulator.Interrupt.Plic.{Plic, has_pending_interrupts}
use riscv_emulator.Core.State.{Core, prv_s, prv_m, write_csr_register}
use riscv_emulator.Core.Csr.{
  sstatus, sie, stvec, sepc, scause, stval, mstatus, medeleg, mie, mtvec, mideleg, mepc, mcause,
  mtval, mip, csr_value, write_csr,
}

-- The bit `k` of a register, moved to 0.
abbrev pub bit_at : ℕ → ℕ → ℕ
bit_at value k = bit_and (shr32 value k) 0x1

-- Where a trap jumps to, for a trap vector register `tvec`.
abbrev pub vector : ℕ → ℕ → ℕ
vector tvec cause_code =
    let base = bit_and tvec (not32 0x3) in
    if bit_and tvec 0x3 == 1 then u32 (base + cause_code * 4) else base

-- The writes of a machine trap and of a supervisor trap, and the jump.
abbrev pub enter_machine : Core → ℕ → ℕ → ℕ → Core
enter_machine c status cause cause_code =
    let s1 = write_csr c mstatus status in
    let s2 = write_csr s1 mepc c.pc in
    let s3 = write_csr s2 mcause cause in
    let s4 = write_csr s3 mtval 0 in record s4 { pc = vector (csr_value s4 mtvec) cause_code }

abbrev pub enter_supervisor : Core → ℕ → ℕ → ℕ → Core
enter_supervisor c status cause cause_code =
    let s1 = write_csr c sstatus status in
    let s2 = write_csr s1 sepc c.pc in
    let s3 = write_csr s2 scause cause in
    let s4 = write_csr s3 stval 0 in record s4 { pc = vector (csr_value s4 stvec) cause_code }

-- The three kinds of ExceptionType that `handle_interrupt` passes on.
pub data MachineInterrupt : Type 0 where
  machine_software_interrupt machine_timer_interrupt machine_external_interrupt : MachineInterrupt

abbrev pub interrupt_cause : MachineInterrupt → ℕ
interrupt_cause machine_software_interrupt = bit_or 0x80000000 0x3
interrupt_cause machine_timer_interrupt = bit_or 0x80000000 0x7
interrupt_cause machine_external_interrupt = bit_or 0x80000000 0xB

unfoldable pub take_interrupt : Core → MachineInterrupt → Core
unfolding csr_value write_csr
take_interrupt c interrupt_type =
    let status = csr_value c mstatus in
    let saved = shl32 (bit_at status 3) 7 in
    let cause = interrupt_cause interrupt_type in
    enter_machine c (bit_or (bit_or (bit_and status (not32 0x8)) saved) (shl32 0x3 11)) cause
      (bit_and cause 0xFFF)

unfoldable pub take_supervisor_interrupt : Core → ℕ → Core
unfolding csr_value write_csr
take_supervisor_interrupt c cause =
    let status = csr_value c sstatus in
    let saved = shl32 (bit_at status 1) 5 in
    let full = bit_or 0x80000000 cause in
    enter_supervisor c (bit_or (bit_or (bit_and status (not32 0x2)) saved) (shl32 0x1 8)) full
      (bit_and full 0xFFF)

-- The status values that `take_exception` writes.
abbrev pub supervisor_status : ℕ → ℕ → ℕ
supervisor_status status privilege =
    let cleared = bit_and (bit_and status (not32 0x100)) (not32 0x2) in
    bit_or (bit_or cleared (shl32 (bit_at status 1) 5)) (shl32 privilege 8)

abbrev pub machine_status : ℕ → ℕ → ℕ
machine_status status privilege =
    let cleared = bit_and (bit_and status (not32 0x1800)) (not32 0x8) in
    bit_or (bit_or cleared (shl32 (bit_at status 3) 7)) (shl32 privilege 11)

-- Causes are at most 15 in every call, so the shift is by less than 32.
unfoldable pub take_exception : Core → ℕ → Core
unfolding csr_value write_csr
take_exception c cause =
    let cause_code = bit_and cause 0xFFF in
    let delegated = bit_at (csr_value c medeleg) cause_code == 1 in
    if delegated && leb c.privilege_level prv_s
    then record (enter_supervisor c (supervisor_status (csr_value c sstatus) c.privilege_level)
        cause cause_code) { privilege_level = prv_s }
    else record (enter_machine c (machine_status (csr_value c mstatus) c.privilege_level) cause
        cause_code) { privilege_level = prv_m }

-- The value of mstatus after MRET.
abbrev pub returned_status : ℕ → ℕ
returned_status status =
    let enabled = bit_or (bit_and status (not32 0x8)) (shl32 (bit_at status 7) 3) in
    let saved = bit_or (bit_and enabled (not32 0x80)) 0x80 in
    bit_or (bit_and saved (not32 0x1800)) (shl32 0x3 11)

unfoldable pub mret : Core → Core
unfolding csr_value write_csr
mret c =
    let status = csr_value c mstatus in
    record (write_csr c mstatus (returned_status status)) {
      privilege_level = bit_and (shr32 status 11) 0x3;
      pc = csr_value c mepc;
    }

abbrev pub software_bit : Option Clint → ℕ → ℕ
software_bit none i = 0
software_bit (some clint) i = if has_software_interrupt clint i then 0x800 else 0

abbrev pub timer_bit : Option Clint → ℕ → ℕ
timer_bit none i = 0
timer_bit (some clint) i = if has_timer_interrupt clint i then 0x200 else 0

abbrev pub external_bit : Option Plic → ℕ → ℕ
external_bit none i = 0
external_bit (some plic) i = if has_pending_interrupts plic i then 0x100 else 0

unfoldable pub update_mip_csr : Core → Core
unfolding has_software_interrupt has_timer_interrupt has_pending_interrupts
update_mip_csr c = write_csr_register c mip (
    bit_or (bit_or (software_bit c.clint c.core_id) (timer_bit c.clint c.core_id))
      (external_bit c.plic c.core_id))

unfoldable pub check_pending_interrupts : Core → Bool × Core
unfolding csr_value update_mip_csr
check_pending_interrupts core =
    let c = update_mip_csr core in
    let machine = not (bit_and (bit_and (csr_value c mip) (csr_value c mie)) 0xB00 == 0) in
    let delegated = bit_and (csr_value c mip) (csr_value c mideleg) in
    let supervisor =
      if bit_at (csr_value c sstatus) 1 == 0
      then false
      else not (bit_and (bit_and delegated (csr_value c sie)) 0x222 == 0) in
    (machine || supervisor, c)

-- The interrupts that are pending, enabled and not delegated.
abbrev pub machine_interrupts : Core → ℕ
machine_interrupts c =
    bit_and (bit_and (csr_value c mip) (csr_value c mie)) (not32 (csr_value c mideleg))

-- The delegated interrupts, at the places that sie uses, and enabled there.
abbrev pub supervisor_interrupts : Core → ℕ
supervisor_interrupts c =
    let delegated = bit_and (csr_value c mip) (csr_value c mideleg) in
    let software = if bit_and delegated 0x800 == 0 then 0 else shl32 1 1 in
    let timer = if bit_and delegated 0x200 == 0 then 0 else shl32 1 5 in
    let external = if bit_and delegated 0x100 == 0 then 0 else shl32 1 9 in
    bit_and (bit_or (bit_or software timer) external) (csr_value c sie)

-- The supervisor part of `handle_interrupt`, and its machine part.
unfoldable pub handle_supervisor : Core → Core
unfolding csr_value
handle_supervisor c =
    let s_interrupts = supervisor_interrupts c in
    if bit_at (csr_value c sstatus) 1 == 0
    then c
    else if not (bit_and s_interrupts (shl32 1 1) == 0)
    then take_supervisor_interrupt c 0x1
    else if not (bit_and s_interrupts (shl32 1 5) == 0)
    then take_supervisor_interrupt c 0x5
    else if not (bit_and s_interrupts (shl32 1 9) == 0)
    then take_supervisor_interrupt c 0x9
    else c

unfoldable pub handle_pending : Core → Core
unfolding csr_value
handle_pending c =
    let m_interrupts = machine_interrupts c in
    if bit_at (csr_value c mstatus) 3 == 0
    then handle_supervisor c
    else if not (bit_and m_interrupts 0x800 == 0)
    then take_interrupt c machine_software_interrupt
    else if not (bit_and m_interrupts 0x200 == 0)
    then take_interrupt c machine_timer_interrupt
    else if not (bit_and m_interrupts 0x100 == 0)
    then take_interrupt c machine_external_interrupt
    else handle_supervisor c

-- mstatus and sstatus are read before the second `update_mip_csr`, which leaves them as they are.
unfoldable pub handle_interrupt : Core → Core
handle_interrupt core =
    let (pending, c) = check_pending_interrupts core in
    if pending then handle_pending (update_mip_csr c) else c
