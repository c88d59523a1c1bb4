-- ===== src/Core/Execute/Bounds/Writes.antt =====
-- The bounds under the writes of registers and CSRs, and under traps.
use riscv_emulator.Base.{
  ℕ, ◌*◌, ◌^◌, ◌<◌, arith, leb, ◌==◌, if◌then◌else◌, if_both, bit_and, bit_or, bit_and_le,
  bit_and_le_right, bit_or_lt,
}
use riscv_emulator.Word.{not32}
use riscv_emulator.Core.State.{Core, GlobalCounters, put, write_register, write_csr_register}
use riscv_emulator.Core.Csr.{
  sstatus, sstatus_mask, mip_mask, is_read_only, cycle_time, control_counter, reset_global, mstatus,
  satp, csr_value, after_read, write_csr, sstatus_of, masked, mip, update_mmu_from_satp, next_time,
}

pub record AreCounters (n control_value selected : ℕ) (global : GlobalCounters) : Type 0 where
  pub counter : n < 2 ^ 32
  pub control : control_value < 2 ^ 32
  pub event : selected < 2 ^ 32
  pub instructions : global.instructions < 2 ^ 32
  pub memory_accesses : global.memory_accesses < 2 ^ 32
  pub branches : global.branches < 2 ^ 32
  pub cache_hits : global.cache_hits < 2 ^ 32

pub record IsBounded (c : Core) : Type 0 where
  pub core_id : c.core_id < 2 ^ 32
  pub pc : c.pc < 2 ^ 32
  pub regs : (i : ℕ) → c.regs i < 2 ^ 32
  pub csrs : (a : ℕ) → c.csr_registers a < 2 ^ 32
  pub counters :
      AreCounters c.performance_counter c.performance_control c.performance_event_select c.global

put-lt :
    (f : ℕ → ℕ) (k v : ℕ) → ((i : ℕ) → f i < 2 ^ 32) → v < 2 ^ 32 → (i : ℕ) → put f k v i < 2 ^ 32
put-lt f k v h hv i = ground (arith, h i)

pub write_register-IsBounded :
    (c : Core) (rd v : ℕ) → IsBounded c → v < 2 ^ 32 → IsBounded (write_register c rd v)
write_register-IsBounded c rd v w h = record {
  core_id = w.core_id;
  pc = w.pc;
  regs = put-lt c.regs rd v w.regs h;
  csrs = w.csrs;
  counters = w.counters;
}

pub write_csr_register-IsBounded :
    (c : Core) (a v : ℕ) → IsBounded c → v < 2 ^ 32 → IsBounded (write_csr_register c a v)
write_csr_register-IsBounded c a v w h = record {
  core_id = w.core_id;
  pc = w.pc;
  regs = w.regs;
  csrs = put-lt c.csr_registers a v w.csrs h;
  counters = w.counters;
}

pub jump-IsBounded :
    (c : Core) (target privilege : ℕ)
    → IsBounded c
    → target < 2 ^ 32
    → IsBounded (record c { pc = target; privilege_level = privilege })
jump-IsBounded c target privilege w h = record {
  core_id = w.core_id;
  pc = h;
  regs = w.regs;
  csrs = w.csrs;
  counters = w.counters;
}

kept : (m x : ℕ) → x < 2 ^ 32 → bit_and m x < 2 ^ 32
kept m x h = omega (arith, bit_and_le_right m x)

shown : (m x k : ℕ) → x * 2 ^ k < 2 ^ 32 → bit_and m x * 2 ^ k < 2 ^ 32
shown m x k h = grind (arith, bit_and_le_right m x)

either : {a b : ℕ} → a < 2 ^ 32 → b < 2 ^ 32 → bit_or a b < 2 ^ 32
either {a} {b} ha hb = bit_or_lt 32 a b ha hb

sstatus_of-lt : (m : ℕ) → sstatus_of m < 2 ^ 32
sstatus_of-lt m =
    either
      (either
        (either
          (either
            (either
              (either
                (either
                  (either
                    (either
                      (either
                        (either (either (kept m 0x1 (omega arith)) (kept m 0x2 (omega arith)))
                          (shown m 0x4 3 (omega arith)))
                        (kept m 0x8 (omega arith)))
                      (shown m 0x10 1 (omega arith)))
                    (shown m 0x20 1 (omega arith)))
                  (shown m 0x40 1 (omega arith)))
                (kept m 0x80 (omega arith)))
              (shown m 0x100 4 (omega arith)))
            (shown m 0x200 8 (omega arith)))
          (shown m 0x400 4 (omega arith)))
        (kept m 0x80000 (omega arith)))
      (kept m 0x100000 (omega arith))

pub csr_value-lt : (c : Core) (a : ℕ) → IsBounded c → csr_value c a < 2 ^ 32
unfolding csr_value
csr_value-lt c a w =
    ground
      (arith, sstatus_of-lt (c.csr_registers mstatus), w.csrs a, w.csrs satp, w.counters, w.core_id)

masked-lt : (old v m : ℕ) → old < 2 ^ 32 → v < 2 ^ 32 → masked old v m < 2 ^ 32
masked-lt old v m ho hv =
    bit_or_lt 32 (bit_and old (not32 m)) (bit_and v m) (omega (arith, bit_and_le old (not32 m)))
      (omega (arith, bit_and_le v m))

update_mmu_from_satp-IsBounded :
    (c : Core) (v : ℕ) → IsBounded c → IsBounded (update_mmu_from_satp c v)
unfolding update_mmu_from_satp
update_mmu_from_satp-IsBounded c v w = record {
  core_id = w.core_id;
  pc = w.pc;
  regs = w.regs;
  csrs = w.csrs;
  counters = w.counters;
}

-- New counters.
counters-IsBounded :
    (c : Core) (n control event : ℕ) (g : GlobalCounters)
    → IsBounded c
    → AreCounters n control event g
    → IsBounded (record c {
      performance_counter = n;
      performance_control = control;
      performance_event_select = event;
      global = g;
    })
counters-IsBounded c n control event g w h = record {
  core_id = w.core_id;
  pc = w.pc;
  regs = w.regs;
  csrs = w.csrs;
  counters = h;
}

control_counter-IsBounded :
    (c : Core) (v : ℕ) → IsBounded c → v < 2 ^ 32 → IsBounded (control_counter c v)
control_counter-IsBounded c v w h =
    counters-IsBounded c (if bit_and v 0x2 == 0 then c.performance_counter else 0) v
      c.performance_event_select c.global w
      (record {
        counter = ground (arith, w.counters);
        control = h;
        event = w.counters.event;
        instructions = w.counters.instructions;
        memory_accesses = w.counters.memory_accesses;
        branches = w.counters.branches;
        cache_hits = w.counters.cache_hits;
      })

select-IsBounded :
    (c : Core) (v : ℕ)
    → IsBounded c
    → v < 2 ^ 32
    → IsBounded (record c { performance_event_select = v })
select-IsBounded c v w h =
    counters-IsBounded c c.performance_counter c.performance_control v c.global w (record {
      counter = w.counters.counter;
      control = w.counters.control;
      event = h;
      instructions = w.counters.instructions;
      memory_accesses = w.counters.memory_accesses;
      branches = w.counters.branches;
      cache_hits = w.counters.cache_hits;
    })

abbrev no_counts : GlobalCounters
no_counts = record { instructions = 0; memory_accesses = 0; branches = 0; cache_hits = 0 }

reset_global-IsBounded : (c : Core) (v : ℕ) → IsBounded c → IsBounded (reset_global c v)
reset_global-IsBounded c v w = if_both IsBounded (bit_and v 0x2 == 0) w (
    counters-IsBounded c c.performance_counter c.performance_control c.performance_event_select
      no_counts w
      (record {
        counter = w.counters.counter;
        control = w.counters.control;
        event = w.counters.event;
        instructions = omega arith;
        memory_accesses = omega arith;
        branches = omega arith;
        cache_hits = omega arith;
      }))

pub write_csr-IsBounded :
    (c : Core) (a v : ℕ) → IsBounded c → v < 2 ^ 32 → IsBounded (write_csr c a v)
unfolding write_csr
write_csr-IsBounded c a v w h = if_both IsBounded (leb 4096 a) w (
    if_both IsBounded (a == sstatus)
      (write_csr_register-IsBounded c mstatus _ w
        (masked-lt (c.csr_registers mstatus) v sstatus_mask (w.csrs mstatus) h))
      (if_both IsBounded (a == mip)
        (write_csr_register-IsBounded c mip _ w
          (masked-lt (c.csr_registers mip) v mip_mask (w.csrs mip) h))
        (if_both IsBounded (a == satp)
          (update_mmu_from_satp-IsBounded (write_csr_register c satp v) v
            (write_csr_register-IsBounded c satp v w h))
          (if_both IsBounded (is_read_only a) w (
            if_both IsBounded (a == 0xB01) (control_counter-IsBounded c v w h) (
              if_both IsBounded (a == 0xB02) (select-IsBounded c v w h) (
                if_both IsBounded (a == 0xB14) (reset_global-IsBounded c v w)
                  (write_csr_register-IsBounded c a v w h))))))))

pub after_read-IsBounded : (c : Core) (a : ℕ) → IsBounded c → IsBounded (after_read c a)
unfolding after_read
after_read-IsBounded c a w =
    if_both IsBounded (a == cycle_time)
      (write_csr_register-IsBounded c cycle_time (next_time c) w (omega arith)) w
