-- ===== src/Core/Step/Invariant.antt =====
-- What holds of a core at every moment.
use riscv_emulator.Base.{
  ℕ, ◌^◌, ◌<◌, ◌≡◌, refl, ◌∙◌, arith, Bool, true, false, not, Option, List, [], ◌∷◌, ◌==◌, if_both,
  bit_and,
}
use riscv_emulator.Interrupt.Clint.{Clint}
use riscv_emulator.Interrupt.Plic.{Plic}
use riscv_emulator.Core.State.{Core}
use riscv_emulator.Core.Csr.{csr_value, mstatus, sstatus}
use riscv_emulator.Core.Counters.{
  up, increment_performance_counter, increment_global_counter, update_performance_counter,
}
use riscv_emulator.Word.{shl32}
use riscv_emulator.Core.Trap.{
  MachineInterrupt, machine_software_interrupt, machine_timer_interrupt, machine_external_interrupt,
  bit_at, update_mip_csr, take_interrupt, take_supervisor_interrupt, handle_supervisor,
  handle_pending, machine_interrupts, supervisor_interrupts, check_pending_interrupts,
  handle_interrupt,
}
use riscv_emulator.Core.Execute.{Executed, next, host_trap, memory_access, retire}
use riscv_emulator.Core.Execute.Bounds.{Next, execute-IsBounded}
use riscv_emulator.Core.Execute.Bounds.Writes.{IsBounded, write_register-IsBounded}
use riscv_emulator.Core.Execute.Bounds.Traps.{
  check_pending_interrupts-IsBounded, handle_interrupt-IsBounded,
}
use riscv_emulator.Core.Step.{Input, create, retired, wake_and_execute, step, run}

up-lt : (n : ℕ) → n < 2 ^ 32 → up n < 2 ^ 32
up-lt n h = ground arith

increment_performance_counter-IsBounded :
    (c : Core) → IsBounded c → IsBounded (increment_performance_counter c)
unfolding increment_performance_counter
increment_performance_counter-IsBounded c w = record {
  core_id = w.core_id;
  pc = w.pc;
  regs = w.regs;
  csrs = w.csrs;
  counters = record {
    counter = up-lt c.performance_counter w.counters.counter;
    control = w.counters.control;
    event = w.counters.event;
    instructions = w.counters.instructions;
    memory_accesses = w.counters.memory_accesses;
    branches = w.counters.branches;
    cache_hits = w.counters.cache_hits;
  };
}

increment_global_counter-IsBounded :
    (c : Core) (event_type : ℕ) → IsBounded c → IsBounded (increment_global_counter c event_type)
unfolding increment_global_counter
increment_global_counter-IsBounded c event_type w = record {
  core_id = ground (arith, w.core_id);
  pc = ground (arith, w.pc);
  regs = λ i. ground (arith, w.regs i);
  csrs = λ a. ground (arith, w.csrs a);
  counters = record {
    counter = ground (arith, w.counters);
    control = ground (arith, w.counters);
    event = ground (arith, w.counters);
    instructions = ground (arith, w.counters);
    memory_accesses = ground (arith, w.counters);
    branches = ground (arith, w.counters);
    cache_hits = ground (arith, w.counters);
  };
}

update_performance_counter-IsBounded :
    (c : Core) → IsBounded c → IsBounded (update_performance_counter c)
unfolding update_performance_counter
update_performance_counter-IsBounded core w =
    let c = increment_global_counter core 0 in
    let wc = increment_global_counter-IsBounded core 0 w in
    let event = c.performance_event_select in
    let counted = increment_performance_counter-IsBounded c wc in
    if_both IsBounded (bit_and c.performance_control 0x1 == 0) wc (
      if_both IsBounded (event == 0) counted (
        if_both IsBounded (event == 1) (increment_global_counter-IsBounded _ 1 counted) (
          if_both IsBounded (event == 2) (increment_global_counter-IsBounded _ 2 counted)
            (if_both IsBounded (event == 3) (increment_global_counter-IsBounded _ 3 counted) wc))))

-- Bounded, and x0 is 0.
pub record IsWellFormed (c : Core) : Type 0 where
  pub bounded : IsBounded c
  pub zero : c.regs 0 ≡ 0

retire-IsWellFormed : (c : Core) → IsBounded c → IsWellFormed (retire c)
unfolding retire
retire-IsWellFormed c w = record {
  bounded = write_register-IsBounded _ 0 0 (update_performance_counter-IsBounded c w) (omega arith);
  zero = refl;
}

-- Taking interrupts does not write x0.
take_interrupt-zero : (c : Core) (k : MachineInterrupt) → (take_interrupt c k).regs 0 ≡ c.regs 0
unfolding take_interrupt
take_interrupt-zero c k = refl

take_supervisor_interrupt-zero :
    (c : Core) (k : ℕ) → (take_supervisor_interrupt c k).regs 0 ≡ c.regs 0
unfolding take_supervisor_interrupt
take_supervisor_interrupt-zero c k = refl

handle_supervisor-zero : (c : Core) → (handle_supervisor c).regs 0 ≡ c.regs 0
unfolding handle_supervisor
handle_supervisor-zero c =
    let s = supervisor_interrupts c in
    let P = λ (d : Core). d.regs 0 ≡ c.regs 0 in
    if_both P (bit_at (csr_value c sstatus) 1 == 0) refl (
      if_both P (not (bit_and s (shl32 1 1) == 0)) (take_supervisor_interrupt-zero c 0x1) (
        if_both P (not (bit_and s (shl32 1 5) == 0)) (take_supervisor_interrupt-zero c 0x5) (
          if_both P (not (bit_and s (shl32 1 9) == 0)) (take_supervisor_interrupt-zero c 0x9)
            refl)))

handle_pending-zero : (c : Core) → (handle_pending c).regs 0 ≡ c.regs 0
unfolding handle_pending
handle_pending-zero c =
    let m = machine_interrupts c in
    let P = λ (d : Core). d.regs 0 ≡ c.regs 0 in
    if_both P (bit_at (csr_value c mstatus) 3 == 0) (handle_supervisor-zero c) (
      if_both P (not (bit_and m 0x800 == 0)) (take_interrupt-zero c machine_software_interrupt) (
        if_both P (not (bit_and m 0x200 == 0)) (take_interrupt-zero c machine_timer_interrupt) (
          if_both P (not (bit_and m 0x100 == 0)) (take_interrupt-zero c machine_external_interrupt)
            (handle_supervisor-zero c))))

handle_interrupt-zero : (c : Core) → (handle_interrupt c).regs 0 ≡ c.regs 0
unfolding handle_interrupt check_pending_interrupts update_mip_csr
handle_interrupt-zero c =
    if_both (λ (d : Core). d.regs 0 ≡ c.regs 0) (check_pending_interrupts c).0
      (handle_pending-zero (update_mip_csr (check_pending_interrupts c).1)) refl

handle_interrupt-IsWellFormed : (c : Core) → IsWellFormed c → IsWellFormed (handle_interrupt c)
handle_interrupt-IsWellFormed c w = record {
  bounded = handle_interrupt-IsBounded c w.bounded;
  zero = handle_interrupt-zero c ∙ w.zero;
}

check_pending_interrupts-IsWellFormed :
    (c : Core) → IsWellFormed c → IsWellFormed (check_pending_interrupts c).1
unfolding check_pending_interrupts update_mip_csr
check_pending_interrupts-IsWellFormed c w = record {
  bounded = check_pending_interrupts-IsBounded c w.bounded;
  zero = w.zero;
}

-- The flags play no part.
flags-IsWellFormed :
    (c : Core) (booted waiting : Bool)
    → IsWellFormed c
    → IsWellFormed (record c { has_booted = booted; is_waiting_for_interrupt = waiting })
flags-IsWellFormed c booted waiting w = record {
  bounded = record {
    core_id = w.bounded.core_id;
    pc = w.bounded.pc;
    regs = w.bounded.regs;
    csrs = w.bounded.csrs;
    counters = w.bounded.counters;
  };
  zero = w.zero;
}

retired-IsWellFormed : (e : Executed) → Next IsBounded e → Next IsWellFormed (retired e)
retired-IsWellFormed (next c) w = retire-IsWellFormed c w
retired-IsWellFormed host_trap w = tt
retired-IsWellFormed memory_access w = tt

wake_and_execute-IsWellFormed :
    (c : Core) (instr : ℕ) → IsWellFormed c → Next IsWellFormed (wake_and_execute c instr)
unfolding wake_and_execute
wake_and_execute-IsWellFormed core instr w =
    let c = (check_pending_interrupts core).1 in
    let wc = check_pending_interrupts-IsWellFormed core w in
    let awake = record c { is_waiting_for_interrupt = false } in
    let wa =
      handle_interrupt-IsBounded awake (flags-IsWellFormed c c.has_booted false wc).bounded in
    let P = Next IsWellFormed in
    if_both P (not core.is_waiting_for_interrupt)
      (retired-IsWellFormed _ (execute-IsBounded core instr w.bounded))
      (if_both P (check_pending_interrupts core).0
        (retired-IsWellFormed _ (execute-IsBounded (handle_interrupt awake) instr wa)) wc)

step-IsWellFormed :
    (c : Core) (go : Bool) (instr : ℕ) → IsWellFormed c → Next IsWellFormed (step c go instr)
unfolding step
step-IsWellFormed core go instr w =
    let c = handle_interrupt core in
    let wc = handle_interrupt-IsWellFormed core w in
    if_both (Next IsWellFormed) (not go) wc (
      wake_and_execute-IsWellFormed (record c { has_booted = true }) instr
        (flags-IsWellFormed c true c.is_waiting_for_interrupt wc))

attach-IsWellFormed :
    (c : Core) (clint : Option Clint) (plic : Option Plic)
    → IsWellFormed c
    → IsWellFormed (record c { clint = clint; plic = plic })
attach-IsWellFormed c clint plic w = record {
  bounded = record {
    core_id = w.bounded.core_id;
    pc = w.bounded.pc;
    regs = w.bounded.regs;
    csrs = w.bounded.csrs;
    counters = w.bounded.counters;
  };
  zero = w.zero;
}

-- What holds after one step and after any others holds after all.
run_on :
    (e : Executed) (rest : List Input)
    → ((d : Core) → IsWellFormed d → Next IsWellFormed (run d rest))
    → Next IsWellFormed e
    → Next IsWellFormed
        (elim e [ next d ↦ run d rest | host_trap ↦ host_trap | memory_access ↦ memory_access ])
run_on (next d) rest keep w = keep d w
run_on host_trap rest keep w = tt
run_on memory_access rest keep w = tt

pub create-IsWellFormed : (id pc : ℕ) → id < 2 ^ 32 → pc < 2 ^ 32 → IsWellFormed (create id pc)
unfolding create
create-IsWellFormed id pc hi hp = record {
  bounded = record {
    core_id = hi;
    pc = hp;
    regs = λ i. ground arith;
    csrs = λ a. ground arith;
    counters = record {
      counter = omega arith;
      control = omega arith;
      event = omega arith;
      instructions = omega arith;
      memory_accesses = omega arith;
      branches = omega arith;
      cache_hits = omega arith;
    };
  };
  zero = refl;
}

-- After every step of a core that starts well-formed, as a new one does, whatever words it fetches,
-- the monitor answers and the interrupt controllers raise in between, the pc, every register, every
-- CSR and every counter is below 2 ^ 32 and x0 is 0, up to the first load, store, atomic instruction
-- or trapping division.
pub Next-run : (c : Core) (inputs : List Input) → IsWellFormed c → Next IsWellFormed (run c inputs)
unfolding run
Next-run c [] w = w
Next-run c (i ∷ rest) w =
    run_on _ rest (λ d. Next-run d rest)
      (step-IsWellFormed _ i.should_execute i.instr (attach-IsWellFormed c i.clint i.plic w))
