-- ===== src/Core/State.antt =====
-- The state of class Core (emulator/include/core/Core.h) with the static counters that all cores
-- share, its registers, and Core::get_reg and Core::set_reg. An array is a function of the index.
-- The profilers, the caches and the simulator are not part of it.
use riscv_emulator.Base.{ℕ, Bool, not, ◌&&◌, Option, ltb, ◌==◌, if◌then◌else◌}
use riscv_emulator.Interrupt.Clint.{Clint}
use riscv_emulator.Interrupt.Plic.{Plic}
use riscv_emulator.Memory.Mmu.{Mmu}

-- The static counters.
pub record GlobalCounters : Type 0 where
  pub instructions : ℕ
  pub memory_accesses : ℕ
  pub branches : ℕ
  pub cache_hits : ℕ

pub record Core : Type 0 where
  pub core_id : ℕ
  pub initial_pc : ℕ
  pub pc : ℕ
  pub regs : ℕ → ℕ
  pub has_booted : Bool
  pub is_waiting_for_interrupt : Bool
  pub mmu : Option Mmu
  pub clint : Option Clint
  pub plic : Option Plic
  pub csr_registers : ℕ → ℕ
  pub privilege_level : ℕ
  pub performance_counter : ℕ
  pub performance_control : ℕ
  pub performance_event_select : ℕ
  pub global : GlobalCounters

-- PrivilegeLevel.
abbrev pub prv_u : ℕ
prv_u = 0

abbrev pub prv_s : ℕ
prv_s = 1

abbrev pub prv_m : ℕ
prv_m = 3

-- `f[k] = v`.
abbrev pub put : (ℕ → ℕ) → ℕ → ℕ → ℕ → ℕ
put f k v x = if x == k then v else f x

abbrev pub write_register : Core → ℕ → ℕ → Core
write_register c rd v = record c { regs = put c.regs rd v }

abbrev pub write_csr_register : Core → ℕ → ℕ → Core
write_csr_register c addr v = record c { csr_registers = put c.csr_registers addr v }

unfoldable pub get_reg : Core → ℕ → ℕ
get_reg c reg_num = if ltb reg_num 32 then c.regs reg_num else 0

unfoldable pub set_reg : Core → ℕ → ℕ → Core
set_reg c reg_num value =
    if ltb reg_num 32 && not (reg_num == 0) then write_register c reg_num value else c
