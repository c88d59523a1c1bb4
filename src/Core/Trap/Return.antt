-- ===== src/Core/Trap/Return.antt =====
-- A trap into machine mode and the return from it.
use riscv_emulator.Base.{
  ℕ, ◌+◌, ◌*◌, ◌/◌, ◌%◌, ◌^◌, ◌<◌, ◌≡◌, ◌⊎◌, refl, ap, ◌∙◌, max, Bool, false, ◌&&◌, ◌||◌, arith,
  leb, ◌==◌, if◌then◌else◌, bit, bit_and, bit_and_low, bit_and_high,
}
use riscv_emulator.Core.State.{Core, prv_m, prv_s, put}
use riscv_emulator.Core.Csr.{
  sstatus, medeleg, mstatus, mtvec, mepc, mcause, mtval, satp, cycle_time, csr_value,
}
use riscv_emulator.Core.Trap.{bit_at, machine_status, vector, take_exception, mret}
use riscv_emulator.Core.Trap.Status.{bit-machine_status, bit-returned_status, mpp-machine_status}

-- The cause is one of the manual's and is not delegated, or the core is above supervisor mode.
pub record IsMachineTrap (c : Core) (cause : ℕ) : Type 0 where
  pub small : cause < 32
  pub word : csr_value c mtvec < 2 ^ 32
  pub privilege : c.privilege_level < 4
  pub not_delegated : (bit_at (csr_value c medeleg) cause ≡ 0) ⊎ (prv_s < c.privilege_level)

-- The registers that the trap and MRET write. A read of sstatus shows bits of mstatus.
abbrev pub is_trap_register : ℕ → Bool
is_trap_register a = (a == mstatus || a == sstatus) || (a == mepc || (a == mcause || a == mtval))

small_cause : (cause : ℕ) → cause < 32 → bit_and cause 0xFFF ≡ cause
small_cause cause h = omega (arith, bit_and_low 12 cause)

goes_to_machine :
    (c : Core) (cause : ℕ)
    → IsMachineTrap c cause
    → (bit_at (csr_value c medeleg) (bit_and cause 0xFFF) == 1 && leb c.privilege_level prv_s)
      ≡ false
goes_to_machine c cause w = rw (small_cause cause w.small) (ground (arith, w.not_delegated))

-- The state in the trap handler.
abbrev trapped : Core → ℕ → Core
trapped c cause = record c {
  pc = vector (c.csr_registers mtvec) cause;
  csr_registers =
      put
        (put
          (put
            (put c.csr_registers mstatus
              (machine_status (c.csr_registers mstatus) c.privilege_level))
            mepc c.pc)
          mcause cause)
        mtval 0;
  privilege_level = prv_m;
}

take_exception-trapped :
    (c : Core) (cause : ℕ) → IsMachineTrap c cause → take_exception c cause ≡ trapped c cause
unfolding take_exception
take_exception-trapped c cause w = rw (goes_to_machine c cause w, small_cause cause w.small) refl

vector_lem :
    (tvec cause : ℕ)
    → tvec < 2 ^ 32
    → vector tvec cause
      ≡ (if tvec % 4 == 1 then (tvec / 4 * 4 + cause * 4) % 2 ^ 32 else tvec / 4 * 4)
vector_lem tvec cause h =
    let base : bit_and tvec 0xFFFFFFFC ≡ tvec / 4 * 4 =
      omega (arith, bit_and_high 2 tvec 0x3FFFFFFF, bit_and_low 30 (tvec / 4)) in
    rw base (ground (arith, bit_and_low 2 tvec))

-- A CSR that traps do not write reads as before.
kept :
    (c d : Core) (a : ℕ)
    → is_trap_register a ≡ false
    → record d { pc = c.pc; privilege_level = c.privilege_level; csr_registers = c.csr_registers }
      ≡ c
    → ((x : ℕ) → is_trap_register x ≡ false → d.csr_registers x ≡ c.csr_registers x)
    → csr_value d a ≡ csr_value c a
unfolding csr_value
kept c d a h e same = ground (
  arith,
  same a h,
  same satp refl,
  same cycle_time refl,
  ap (λ (x : Core). x.core_id) e,
  ap (λ (x : Core). x.performance_counter) e,
  ap (λ (x : Core). x.performance_control) e,
  ap (λ (x : Core). x.performance_event_select) e,
  ap (λ (x : Core). x.global) e,
)

-- A trap into machine mode stores the pc and the cause, clears mtval, disables interrupts, keeps the
-- privilege level in MPP, sets MPIE where MIE or MPIE was set, keeps every other bit of mstatus,
-- every other CSR and every register, and goes on in machine mode at the vector's base, or, in
-- vectored mode, at base + 4 * cause.
pub take_exception_lem :
    (c : Core) (cause : ℕ)
    → IsMachineTrap c cause
    → (t : Core) × (take_exception c cause ≡ t)
      × (t.privilege_level ≡ prv_m)
      × (t.regs ≡ c.regs)
      × (csr_value t mepc ≡ c.pc)
      × (csr_value t mcause ≡ cause)
      × (csr_value t mtval ≡ 0)
      × (t.pc ≡ (
          let tvec = csr_value c mtvec in
          if tvec % 4 == 1 then (tvec / 4 * 4 + cause * 4) % 2 ^ 32 else tvec / 4 * 4))
      × ((k : ℕ)
          → k < 32
          → bit k (csr_value t mstatus) ≡ (
              if k == 3
              then 0
              else if k == 7
              then max (bit 3 (csr_value c mstatus)) (bit 7 (csr_value c mstatus))
              else if k == 11
              then bit 0 c.privilege_level
              else if k == 12
              then bit 1 c.privilege_level
              else bit k (csr_value c mstatus)))
      × ((a : ℕ) → is_trap_register a ≡ false → csr_value t a ≡ csr_value c a)
unfolding csr_value
take_exception_lem c cause w =
    let tvec = c.csr_registers mtvec in
    (
      trapped c cause,
      take_exception-trapped c cause w,
      refl,
      refl,
      refl,
      refl,
      refl,
      vector_lem tvec cause w.word,
      λ k hk. bit-machine_status k (c.csr_registers mstatus) c.privilege_level hk w.privilege,
      λ a h. kept c (trapped c cause) a h refl (λ x k. ground arith),
    )

-- MRET right after a trap into machine mode goes back: the pc, the privilege level, the registers,
-- and every CSR that traps do not write are as before, and interrupts are enabled again if they were
-- enabled before the trap. They are enabled also where MPIE alone was set.
pub mret-take_exception :
    (c : Core) (cause : ℕ)
    → IsMachineTrap c cause
    → (r : Core) × (mret (take_exception c cause) ≡ r)
      × (r.pc ≡ c.pc)
      × (r.privilege_level ≡ c.privilege_level)
      × (r.regs ≡ c.regs)
      × (bit 3 (csr_value r mstatus)
          ≡ max (bit 3 (csr_value c mstatus)) (bit 7 (csr_value c mstatus)))
      × ((a : ℕ) → is_trap_register a ≡ false → csr_value r a ≡ csr_value c a)
unfolding csr_value mret
mret-take_exception c cause w =
    let s = c.csr_registers mstatus in
    let t = machine_status s c.privilege_level in
    (
      mret (trapped c cause),
      ap mret (take_exception-trapped c cause w),
      refl,
      mpp-machine_status s c.privilege_level w.privilege,
      refl,
      bit-returned_status 3 t (omega arith)
          ∙ bit-machine_status 7 s c.privilege_level (omega arith) w.privilege,
      λ a h. kept c (mret (trapped c cause)) a h refl (λ x k. ground arith),
    )
