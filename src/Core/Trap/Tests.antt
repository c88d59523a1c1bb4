-- ===== src/Core/Trap/Tests.antt =====
-- Traps, interrupts and CSRs of a core in user mode and of one with pending interrupts.
use riscv_emulator.Base.{
  ℕ, ◌<◌, ◌≡◌, refl, arith, inl, true, false, max, [], ◌∷◌, none, some, bit, ◌==◌, if◌then◌else◌,
}
use riscv_emulator.Interrupt.Clint.{has_software_interrupt}
use riscv_emulator.Memory.Mmu
use riscv_emulator.Core.State.{Core, put, prv_u, prv_m}
use riscv_emulator.Core.Csr.{
  initial_csr, mstatus, mip, sstatus, mtvec, mepc, mcause, mtval, csr_value, write_csr,
}
use riscv_emulator.Core.Csr.Laws.{masked_writes}
use riscv_emulator.Core.Trap.{
  take_exception, take_interrupt, mret, update_mip_csr, handle_interrupt,
  machine_software_interrupt, machine_timer_interrupt, machine_external_interrupt,
}
use riscv_emulator.Core.Trap.Return.{
  IsMachineTrap, is_trap_register, take_exception_lem, mret-take_exception,
}
use riscv_emulator.Core.Trap.Pending.{fires, handle_interrupt_lem, initial_mie_masks}

abbrev user_core : Core
user_core = record {
  core_id = 1;
  initial_pc = 0;
  pc = 0x1000;
  regs = λ x. 0;
  has_booted = true;
  is_waiting_for_interrupt = false;
  mmu = none;
  clint = none;
  plic = none;
  csr_registers = put (put initial_csr mtvec 0x8001) mstatus 0x8;
  privilege_level = prv_u;
  performance_counter = 0;
  performance_control = 0;
  performance_event_select = 0;
  global = record { instructions = 0; memory_accesses = 0; branches = 0; cache_hits = 0 };
}

-- The timer of core 1 has run out, and core 0 has sent it nothing.
abbrev interrupted : Core
interrupted = record user_core {
  clint =
      some (record { num_cores = 2; mtime = 5; mtimecmp = 9 ∷ 3 ∷ []; msip = true ∷ false ∷ [] });
}

user_core-IsMachineTrap : IsMachineTrap user_core 8
unfolding csr_value
user_core-IsMachineTrap = record {
  small = omega arith;
  word = omega arith;
  privilege = omega arith;
  not_delegated = inl refl;
}

take_exception_example :
    (t : Core) × (take_exception user_core 8 ≡ t)
    × (t.privilege_level ≡ prv_m)
    × (t.regs ≡ user_core.regs)
    × (csr_value t mepc ≡ 0x1000)
    × (csr_value t mcause ≡ 8)
    × (csr_value t mtval ≡ 0)
    × (t.pc ≡ 0x8020)
    × ((k : ℕ)
        → k < 32
        → bit k (csr_value t mstatus) ≡ (
            if k == 3
            then 0
            else if k == 7
            then max (bit 3 (csr_value user_core mstatus)) (bit 7 (csr_value user_core mstatus))
            else if k == 11
            then bit 0 prv_u
            else if k == 12
            then bit 1 prv_u
            else bit k (csr_value user_core mstatus)))
    × ((a : ℕ) → is_trap_register a ≡ false → csr_value t a ≡ csr_value user_core a)
unfolding csr_value
take_exception_example = take_exception_lem user_core 8 user_core-IsMachineTrap

mret-take_exception_example :
    (r : Core) × (mret (take_exception user_core 8) ≡ r)
    × (r.pc ≡ 0x1000)
    × (r.privilege_level ≡ prv_u)
    × (r.regs ≡ user_core.regs)
    × (bit 3 (csr_value r mstatus)
        ≡ max (bit 3 (csr_value user_core mstatus)) (bit 7 (csr_value user_core mstatus)))
    × ((a : ℕ) → is_trap_register a ≡ false → csr_value r a ≡ csr_value user_core a)
mret-take_exception_example = mret-take_exception user_core 8 user_core-IsMachineTrap

handle_interrupt_example :
    (d : Core) × (update_mip_csr interrupted ≡ d)
    × (handle_interrupt interrupted ≡ (
        if fires interrupted machine_software_interrupt
        then take_interrupt d machine_software_interrupt
        else if fires interrupted machine_timer_interrupt
        then take_interrupt d machine_timer_interrupt
        else if fires interrupted machine_external_interrupt
        then take_interrupt d machine_external_interrupt
        else d))
handle_interrupt_example =
    handle_interrupt_lem interrupted (unfold csr_value in refl) (unfold csr_value in refl)

initial_mie_example : handle_interrupt interrupted ≡ update_mip_csr interrupted
initial_mie_example =
    initial_mie_masks interrupted (unfold csr_value in refl) (unfold csr_value in refl)
      (unfold csr_value in refl) (unfold has_software_interrupt in refl)

masked_writes_example :
    (bit 1 (csr_value (write_csr user_core mip 0xFF) mip) ≡ 1)
    × (bit 1 (csr_value (write_csr user_core sstatus 0xFF) mstatus) ≡ 1)
masked_writes_example = masked_writes user_core 0xFF 1 (omega arith)

abbrev mapped_core : Core
mapped_core = record user_core { mmu = some (Mmu.create 4096 2 true) }
