-- ===== src/Core/Execute/Tests.antt =====
-- Encoded instructions and a short run.
use riscv_emulator.Base.{◌≡◌, refl, arith, true, false, [], ◌∷◌, none, List}
use riscv_emulator.Core.State.{Core, put, prv_m, write_register}
use riscv_emulator.Core.Csr.{initial_csr}
use riscv_emulator.Core.Decode.Formats.{r_type, b_type}
use riscv_emulator.Core.Alu.Spec.{sub, funct7}
use riscv_emulator.Core.Execute.{next, advance, execute}
use riscv_emulator.Core.Execute.Bounds.{Next}
use riscv_emulator.Core.Execute.Encoded.{
  blt, branch_fields, register_fields, execute-b_type, execute-r_type,
}
use riscv_emulator.Core.Step.{Input, create, run}
use riscv_emulator.Core.Step.Invariant.{IsWellFormed, create-IsWellFormed, Next-run}

-- x5 is -1 and every other register 3.
abbrev core : Core
core = record {
  core_id = 0;
  initial_pc = 0;
  pc = 0x1000;
  regs = put (λ x. 3) 5 0xFFFFFFFF;
  has_booted = true;
  is_waiting_for_interrupt = false;
  mmu = none;
  clint = none;
  plic = none;
  csr_registers = initial_csr;
  privilege_level = prv_m;
  performance_counter = 0;
  performance_control = 0;
  performance_event_select = 0;
  global = record { instructions = 0; memory_accesses = 0; branches = 0; cache_hits = 0 };
}

-- BLT x5, x6, -4.
execute-b_type_example :
    execute core (b_type (branch_fields blt 5 6) 0x1FFC) ≡ next (record core { pc = 0xFFC })
execute-b_type_example =
    execute-b_type core blt 5 6 0x1FFC (omega arith) (omega arith) (omega arith) refl (omega arith)
      (omega arith)

-- SUB x7, x5, x6.
execute-r_type_example :
    execute core (r_type (register_fields sub 7 5 6) (funct7 sub))
    ≡ next (advance (write_register core 7 0xFFFFFFFC))
execute-r_type_example =
    execute-r_type core sub 7 5 6 refl (omega arith) (omega arith) (omega arith) (omega arith)
      (omega arith)

-- ADDI x1, x0, -1 and then ECALL.
abbrev inputs : List Input
inputs =
    record { clint = none; plic = none; should_execute = true; instr = 0xFFF00093 }
    ∷ record { clint = none; plic = none; should_execute = true; instr = 0x00000073 }
    ∷ []

Next-run_example : Next IsWellFormed (run (create 1 0x80000000) inputs)
Next-run_example =
    Next-run (create 1 0x80000000) inputs
      (create-IsWellFormed 1 0x80000000 (omega arith) (omega arith))
