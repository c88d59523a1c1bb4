-- ===== src/Core/Execute/Bounds/Traps.antt =====
-- The bounds under traps.
use riscv_emulator.Base.{
  ℕ, ◌^◌, ◌<◌, not, ◌&&◌, arith, leb, ◌==◌, if_both, Option, none, some, bit_and, bit_or,
  bit_and_le, bit_or_lt,
}
use riscv_emulator.Interrupt.Clint.{Clint}
use riscv_emulator.Interrupt.Plic.{Plic}
use riscv_emulator.Word.{not32, shl32}
use riscv_emulator.Core.State.{Core, prv_s, prv_m}
use riscv_emulator.Core.Csr.{
  csr_value, sstatus, mstatus, mepc, mcause, mtval, mtvec, sepc, scause, stval, stvec, mip, medeleg,
}
use riscv_emulator.Core.Trap.{
  bit_at, vector, enter_machine, enter_supervisor, machine_status, supervisor_status,
  returned_status, take_interrupt, take_supervisor_interrupt, take_exception, mret,
  MachineInterrupt, machine_software_interrupt, machine_timer_interrupt, machine_external_interrupt,
  interrupt_cause, software_bit, timer_bit, external_bit, update_mip_csr, handle_interrupt,
  handle_pending, handle_supervisor, check_pending_interrupts, machine_interrupts,
  supervisor_interrupts,
}
use riscv_emulator.Core.Execute.Bounds.Writes.{
  IsBounded, write_csr_register-IsBounded, write_csr-IsBounded, csr_value-lt, jump-IsBounded,
}

or_lt : {a b : ℕ} → a < 2 ^ 32 → b < 2 ^ 32 → bit_or a b < 2 ^ 32
or_lt {a} {b} ha hb = bit_or_lt 32 a b ha hb

and_lt : (a b : ℕ) → a < 2 ^ 32 → bit_and a b < 2 ^ 32
and_lt a b h = omega (arith, bit_and_le a b)

shl32-lt : (a k : ℕ) → shl32 a k < 2 ^ 32
shl32-lt a k = omega arith

vector-lt : (tvec code : ℕ) → tvec < 2 ^ 32 → vector tvec code < 2 ^ 32
vector-lt tvec code h =
    if_both (λ x. x < 2 ^ 32) (bit_and tvec 0x3 == 1) (omega arith) (and_lt tvec (not32 0x3) h)

enter_machine-IsBounded :
    (c : Core) (status cause code : ℕ)
    → IsBounded c
    → status < 2 ^ 32
    → cause < 2 ^ 32
    → IsBounded (enter_machine c status cause code)
enter_machine-IsBounded c status cause code w hs hc =
    let w1 = write_csr-IsBounded c mstatus status w hs in
    let w2 = write_csr-IsBounded _ mepc c.pc w1 w.pc in
    let w3 = write_csr-IsBounded _ mcause cause w2 hc in
    let w4 = write_csr-IsBounded _ mtval 0 w3 (omega arith) in
    jump-IsBounded _ _ _ w4 (vector-lt _ code (csr_value-lt _ mtvec w4))

enter_supervisor-IsBounded :
    (c : Core) (status cause code : ℕ)
    → IsBounded c
    → status < 2 ^ 32
    → cause < 2 ^ 32
    → IsBounded (enter_supervisor c status cause code)
enter_supervisor-IsBounded c status cause code w hs hc =
    let w1 = write_csr-IsBounded c sstatus status w hs in
    let w2 = write_csr-IsBounded _ sepc c.pc w1 w.pc in
    let w3 = write_csr-IsBounded _ scause cause w2 hc in
    let w4 = write_csr-IsBounded _ stval 0 w3 (omega arith) in
    jump-IsBounded _ _ _ w4 (vector-lt _ code (csr_value-lt _ stvec w4))

interrupt_cause-lt : (k : MachineInterrupt) → interrupt_cause k < 2 ^ 32
interrupt_cause-lt machine_software_interrupt = omega arith
interrupt_cause-lt machine_timer_interrupt = omega arith
interrupt_cause-lt machine_external_interrupt = omega arith

pub take_interrupt-IsBounded :
    (c : Core) (k : MachineInterrupt) → IsBounded c → IsBounded (take_interrupt c k)
unfolding take_interrupt
take_interrupt-IsBounded c k w =
    enter_machine-IsBounded c _ (interrupt_cause k) _ w
      (or_lt (or_lt (and_lt _ (not32 0x8) (csr_value-lt c mstatus w)) (shl32-lt _ 7))
        (shl32-lt 0x3 11))
      (interrupt_cause-lt k)

pub take_supervisor_interrupt-IsBounded :
    (c : Core) (cause : ℕ)
    → IsBounded c
    → cause < 2 ^ 32
    → IsBounded (take_supervisor_interrupt c cause)
unfolding take_supervisor_interrupt
take_supervisor_interrupt-IsBounded c cause w h =
    enter_supervisor-IsBounded c _ _ _ w
      (or_lt (or_lt (and_lt _ (not32 0x2) (csr_value-lt c sstatus w)) (shl32-lt _ 5))
        (shl32-lt 0x1 8))
      (or_lt (omega arith) h)

pub take_exception-IsBounded :
    (c : Core) (cause : ℕ) → IsBounded c → cause < 2 ^ 32 → IsBounded (take_exception c cause)
unfolding take_exception
take_exception-IsBounded c cause w h =
    let code = bit_and cause 0xFFF in
    let m = enter_machine c (machine_status (csr_value c mstatus) c.privilege_level) cause code in
    let u =
      enter_supervisor c (supervisor_status (csr_value c sstatus) c.privilege_level) cause code in
    let wm : IsBounded m =
      enter_machine-IsBounded c _ cause code w
        (or_lt
          (or_lt (and_lt _ (not32 0x8) (and_lt _ (not32 0x1800) (csr_value-lt c mstatus w)))
            (shl32-lt _ 7))
          (shl32-lt c.privilege_level 11))
        h in
    let wu : IsBounded u =
      enter_supervisor-IsBounded c _ cause code w
        (or_lt
          (or_lt (and_lt _ (not32 0x2) (and_lt _ (not32 0x100) (csr_value-lt c sstatus w)))
            (shl32-lt _ 5))
          (shl32-lt c.privilege_level 8))
        h in
    if_both IsBounded (bit_at (csr_value c medeleg) code == 1 && leb c.privilege_level prv_s)
      (jump-IsBounded u u.pc prv_s wu wu.pc) (jump-IsBounded m m.pc prv_m wm wm.pc)

pub mret-IsBounded : (c : Core) → IsBounded c → IsBounded (mret c)
unfolding mret
mret-IsBounded c w =
    let status = csr_value c mstatus in
    let enabled : bit_or (bit_and status (not32 0x8)) (shl32 (bit_at status 7) 3) < 2 ^ 32 =
      or_lt (and_lt status (not32 0x8) (csr_value-lt c mstatus w)) (shl32-lt _ 3) in
    let small : 0x80 < 2 ^ 32 = omega arith in
    let saved = or_lt (and_lt _ (not32 0x80) enabled) small in
    jump-IsBounded _ _ _
      (write_csr-IsBounded c mstatus (returned_status status) w
        (or_lt (and_lt _ (not32 0x1800) saved) (shl32-lt 0x3 11)))
      (csr_value-lt c mepc w)

software_bit-lt : (o : Option Clint) (i : ℕ) → software_bit o i < 2 ^ 32
software_bit-lt none i = omega arith
software_bit-lt (some clint) i = ground arith

timer_bit-lt : (o : Option Clint) (i : ℕ) → timer_bit o i < 2 ^ 32
timer_bit-lt none i = omega arith
timer_bit-lt (some clint) i = ground arith

external_bit-lt : (o : Option Plic) (i : ℕ) → external_bit o i < 2 ^ 32
external_bit-lt none i = omega arith
external_bit-lt (some plic) i = ground arith

pub update_mip_csr-IsBounded : (c : Core) → IsBounded c → IsBounded (update_mip_csr c)
unfolding update_mip_csr
update_mip_csr-IsBounded c w = write_csr_register-IsBounded c mip _ w (
    or_lt (or_lt (software_bit-lt c.clint c.core_id) (timer_bit-lt c.clint c.core_id))
      (external_bit-lt c.plic c.core_id))

handle_supervisor-IsBounded : (c : Core) → IsBounded c → IsBounded (handle_supervisor c)
unfolding handle_supervisor
handle_supervisor-IsBounded c w =
    let s = supervisor_interrupts c in
    if_both IsBounded (bit_at (csr_value c sstatus) 1 == 0) w (
      if_both IsBounded (not (bit_and s (shl32 1 1) == 0))
        (take_supervisor_interrupt-IsBounded c 0x1 w (omega arith))
        (if_both IsBounded (not (bit_and s (shl32 1 5) == 0))
          (take_supervisor_interrupt-IsBounded c 0x5 w (omega arith))
          (if_both IsBounded (not (bit_and s (shl32 1 9) == 0))
            (take_supervisor_interrupt-IsBounded c 0x9 w (omega arith)) w)))

handle_pending-IsBounded : (c : Core) → IsBounded c → IsBounded (handle_pending c)
unfolding handle_pending
handle_pending-IsBounded c w =
    let m = machine_interrupts c in
    if_both IsBounded (bit_at (csr_value c mstatus) 3 == 0) (handle_supervisor-IsBounded c w) (
      if_both IsBounded (not (bit_and m 0x800 == 0))
        (take_interrupt-IsBounded c machine_software_interrupt w)
        (if_both IsBounded (not (bit_and m 0x200 == 0))
          (take_interrupt-IsBounded c machine_timer_interrupt w)
          (if_both IsBounded (not (bit_and m 0x100 == 0))
            (take_interrupt-IsBounded c machine_external_interrupt w)
            (handle_supervisor-IsBounded c w))))

pub check_pending_interrupts-IsBounded :
    (c : Core) → IsBounded c → IsBounded (check_pending_interrupts c).1
unfolding check_pending_interrupts
check_pending_interrupts-IsBounded c w = update_mip_csr-IsBounded c w

-- Taking interrupts keeps the bounds.
pub handle_interrupt-IsBounded : (c : Core) → IsBounded c → IsBounded (handle_interrupt c)
unfolding handle_interrupt
handle_interrupt-IsBounded c w =
    let d = check_pending_interrupts-IsBounded c w in
    if_both IsBounded (check_pending_interrupts c).0
      (handle_pending-IsBounded _ (update_mip_csr-IsBounded _ d)) d
