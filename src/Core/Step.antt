-- ===== src/Core/Step.antt =====
-- The life of a core: the constructor, Core::reset and Core::step. The debugger, the profilers and
-- the boot signals of the simulator are left out; what MultiCoreMonitor::should_core_execute answers
-- and the word that the fetch reads are arguments of a step.
pub mod Invariant
use riscv_emulator.Base.{
  ℕ, ◌+◌, ◌*◌, ◌%◌, ◌^◌, Bool, true, false, not, Option, none, some, List, [], ◌∷◌, ◌==◌,
  if◌then◌else◌,
}
use riscv_emulator.Word.{u32}
use riscv_emulator.Interrupt.Clint.{Clint}
use riscv_emulator.Interrupt.Plic.{Plic}
use riscv_emulator.Core.State.{Core, prv_m, put}
use riscv_emulator.Core.Csr.{initial_csr, init_csrs, mhartid}
use riscv_emulator.Core.Trap.{check_pending_interrupts, handle_interrupt}
use riscv_emulator.Core.Execute.{Executed, next, host_trap, memory_access, execute, retire}

-- The argument is the simulator's memory size, `none` without a simulator.
abbrev pub stack_top : Option ℕ → ℕ
stack_top none = 0x100000
stack_top (some memory_size) = u32 memory_size

unfoldable pub reset : Option ℕ → Core → Core
reset memory_size c = record c {
  pc = c.initial_pc;
  regs = put (λ x. 0) 2 (stack_top memory_size);
  has_booted = false;
  is_waiting_for_interrupt = false;
  csr_registers = put c.csr_registers mhartid c.core_id;
}

unfoldable pub create : ℕ → ℕ → Core
unfolding init_csrs reset
create id initial = reset none (
    init_csrs (record {
      core_id = id;
      initial_pc = initial;
      pc = 0;
      regs = λ x. 0;
      has_booted = false;
      is_waiting_for_interrupt = false;
      mmu = none;
      clint = none;
      plic = none;
      csr_registers = λ x. 0;
      privilege_level = prv_m;
      performance_counter = 0;
      performance_control = 0;
      performance_event_select = 0;
      global = record { instructions = 0; memory_accesses = 0; branches = 0; cache_hits = 0 };
    }))

abbrev pub retired : Executed → Executed
retired (next c) = next (retire c)
retired host_trap = host_trap
retired memory_access = memory_access

-- From the test of the WFI state on.
unfoldable pub wake_and_execute : Core → ℕ → Executed
wake_and_execute core instr =
    let (pending, c) = check_pending_interrupts core in
    if not core.is_waiting_for_interrupt
    then retired (execute core instr)
    else if pending
    then retired (execute (handle_interrupt (record c { is_waiting_for_interrupt = false })) instr)
    else next c

unfoldable pub step : Core → Bool → ℕ → Executed
unfolding wake_and_execute
step core should_execute instr =
    let c = handle_interrupt core in
    if not should_execute then next c else wake_and_execute (record c { has_booted = true }) instr

-- What a step meets: the interrupt controllers as the devices and the other cores left them, the
-- monitor's answer and the fetched word.
pub record Input : Type 0 where
  pub clint : Option Clint
  pub plic : Option Plic
  pub should_execute : Bool
  pub instr : ℕ

-- Several steps.
pub run : Core → List Input → Executed
run c [] = next c
run c (i ∷ rest) =
    elim (step (record c { clint = i.clint; plic = i.plic }) i.should_execute i.instr) [
      | next d ↦ run d rest
      | host_trap ↦ host_trap
      | memory_access ↦ memory_access
    ]
