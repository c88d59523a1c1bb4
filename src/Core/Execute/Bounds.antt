-- ===== src/Core/Execute/Bounds.antt =====
-- The registers, the pc and the CSRs of a core hold 32-bit numbers, whatever it executes.
pub mod Writes
pub mod Traps
use riscv_emulator.Base.{
  ℕ, zero, suc, ◌+◌, ◌-◌, ◌*◌, ◌/◌, ◌%◌, ◌^◌, ◌<◌, ◌≤◌, ◌≡◌, refl, Bool, true, false, not, ◌&&◌,
  ◌||◌, arith, ltb, leb, ◌==◌, if◌then◌else◌, if_both, to_nat, bit_and, bit_or, bit_xor, bit_and_le,
  bit_and_le_right, bit_or_lt, bit_xor_lt, bit_and_low,
}
use riscv_emulator.Word.{u32, not32, shl32, to_int, of_int, lt_int}
use riscv_emulator.Word.Laws.{of_int-lt}
use riscv_emulator.Core.Decode.{
  opcode_of, rd_of, funct3_of, rs1_of, rs2_of, funct7_of, csr_of, sign_extend, imm_i, imm_u, imm_b,
  imm_j,
}
use riscv_emulator.Core.State.{Core, write_register}
use riscv_emulator.Core.Csr.{read_csr, csr_value, after_read, write_csr}
use riscv_emulator.Core.Trap.{mret, take_exception, check_pending_interrupts, handle_interrupt}
use riscv_emulator.Core.Execute.{
  Executed, next, host_trap, memory_access, advance, put_result, execute_op_imm, execute_op, lui,
  auipc, branch, is_taken, jal, jalr, ecall_cause, write_unless_zero, wfi, privileged, csr_operand,
  system, execute, retire,
}
use riscv_emulator.Core.Execute.Bounds.Writes.{
  IsBounded, write_register-IsBounded, write_csr-IsBounded, after_read-IsBounded, csr_value-lt,
  jump-IsBounded,
}
use riscv_emulator.Core.Execute.Bounds.Traps.{
  take_exception-IsBounded, mret-IsBounded, check_pending_interrupts-IsBounded,
  handle_interrupt-IsBounded,
}
use riscv_emulator.Core.Alu.{
  Result, writes, keeps, traps, op, op_imm, sra, slt, sll, div, divu, rem, remu, high_word,
}

-- `P` holds of the next state, where there is one.
abbrev pub Next : (Core → Type 0) → Executed → Type 0
Next P (next c) = P c
Next P _ = Unit

advance-IsBounded : (c : Core) → IsBounded c → IsBounded (advance c)
advance-IsBounded c w = jump-IsBounded c _ c.privilege_level w (omega arith)

-- The word that a result writes, 0 where it writes none.
abbrev value : Result → ℕ
value (writes v) = v
value keeps = 0
value traps = 0

op_imm-lt : (f3 f7 x y : ℕ) → x < 2 ^ 32 → y < 2 ^ 32 → value (op_imm f3 f7 x y) < 2 ^ 32
unfolding op_imm
op_imm-lt f3 f7 x y hx hy =
    ground (arith, bit_and_le x y, bit_or_lt 32 x y hx hy, bit_xor_lt 32 x y hx hy)

div-lt : (x y : ℕ) → x < 2 ^ 32 → div x y < 2 ^ 32
unfolding div
div-lt x y hx = ground arith

divu-lt : (x y : ℕ) → x < 2 ^ 32 → divu x y < 2 ^ 32
unfolding divu
divu-lt x y hx = ground arith

rem-lt : (x y : ℕ) → x < 2 ^ 32 → value (rem x y) < 2 ^ 32
unfolding rem
rem-lt x y hx = ground arith

remu-lt : (x y : ℕ) → x < 2 ^ 32 → remu x y < 2 ^ 32
unfolding remu
remu-lt x y hx = ground arith

op-lt : (f3 f7 r x y : ℕ) → f3 < 8 → x < 2 ^ 32 → y < 2 ^ 32 → value (op f3 f7 r x y) < 2 ^ 32
unfolding op
op-lt zero f7 r x y hf hx hy = ground arith
op-lt (suc zero) f7 r x y hf hx hy = ground arith
op-lt (suc (suc zero)) f7 r x y hf hx hy = ground arith
op-lt (suc (suc (suc zero))) f7 r x y hf hx hy = ground arith
op-lt (suc (suc (suc (suc zero)))) f7 r x y hf hx hy =
    ground (arith, bit_xor_lt 32 x y hx hy, div-lt x y hx)
op-lt (suc (suc (suc (suc (suc zero))))) f7 r x y hf hx hy =
    ground (arith, divu-lt x y hx, rem-lt x y hx, remu-lt x y hx)
op-lt (suc (suc (suc (suc (suc (suc zero)))))) f7 r x y hf hx hy =
    ground (arith, bit_or_lt 32 x y hx hy, rem-lt x y hx)
op-lt (suc (suc (suc (suc (suc (suc (suc zero))))))) f7 r x y hf hx hy =
    ground (arith, bit_and_le x y, remu-lt x y hx)
op-lt (suc (suc (suc (suc (suc (suc (suc (suc k)))))))) f7 r x y hf hx hy = absurd (omega arith)

sign_extend-lt : (v n : ℕ) → sign_extend v n < 2 ^ 32
unfolding sign_extend
sign_extend-lt v n = omega arith

put_result-IsBounded :
    (c : Core) (rd : ℕ) (r : Result)
    → IsBounded c
    → value r < 2 ^ 32
    → Next IsBounded (put_result c rd r)
put_result-IsBounded c rd (writes v) w h = advance-IsBounded _ (write_register-IsBounded c rd v w h)
put_result-IsBounded c rd keeps w h = advance-IsBounded c w
put_result-IsBounded c rd traps w h = tt

imm_i-lt : (instr : ℕ) → imm_i instr < 2 ^ 32
unfolding imm_i
imm_i-lt instr = sign_extend-lt (instr / 2 ^ 20) 12

funct3_of-lt : (instr : ℕ) → funct3_of instr < 8
unfolding funct3_of
funct3_of-lt instr = omega (arith, bit_and_low 3 (instr / 2 ^ 12))

imm_u-lt : (instr : ℕ) → imm_u instr < 2 ^ 32
unfolding imm_u
imm_u-lt instr = omega (arith, bit_and_le_right instr 0xFFFFF000)

execute_op_imm-IsBounded :
    (c : Core) (instr : ℕ) → IsBounded c → Next IsBounded (execute_op_imm c instr)
unfolding execute_op_imm
execute_op_imm-IsBounded c instr w = put_result-IsBounded c (rd_of instr) _ w (
    op_imm-lt (funct3_of instr) (funct7_of instr) (c.regs (rs1_of instr)) (imm_i instr)
      (w.regs (rs1_of instr)) (imm_i-lt instr))

execute_op-IsBounded : (c : Core) (instr : ℕ) → IsBounded c → Next IsBounded (execute_op c instr)
unfolding execute_op
execute_op-IsBounded c instr w = put_result-IsBounded c (rd_of instr) _ w (
    op-lt (funct3_of instr) (funct7_of instr) (rs2_of instr) (c.regs (rs1_of instr))
      (c.regs (rs2_of instr)) (funct3_of-lt instr) (w.regs (rs1_of instr)) (w.regs (rs2_of instr)))

lui-IsBounded : (c : Core) (instr : ℕ) → IsBounded c → IsBounded (lui c instr)
unfolding lui
lui-IsBounded c instr w =
    advance-IsBounded _ (write_register-IsBounded c (rd_of instr) (imm_u instr) w (imm_u-lt instr))

auipc-IsBounded : (c : Core) (instr : ℕ) → IsBounded c → IsBounded (auipc c instr)
unfolding auipc
auipc-IsBounded c instr w =
    advance-IsBounded _
      (write_register-IsBounded c (rd_of instr) (u32 (c.pc + imm_u instr)) w (omega arith))

branch-IsBounded : (c : Core) (instr : ℕ) → IsBounded c → IsBounded (branch c instr)
unfolding branch
branch-IsBounded c instr w = jump-IsBounded c _ c.privilege_level w (omega arith)

jal-IsBounded : (c : Core) (instr : ℕ) → IsBounded c → IsBounded (jal c instr)
unfolding jal
jal-IsBounded c instr w =
    jump-IsBounded _ _ c.privilege_level
      (write_register-IsBounded c (rd_of instr) (u32 (c.pc + 4)) w (omega arith)) (omega arith)

jalr-IsBounded : (c : Core) (instr : ℕ) → IsBounded c → IsBounded (jalr c instr)
unfolding jalr
jalr-IsBounded c instr w =
    let target = u32 (c.regs (rs1_of instr) + imm_i instr) in
    let small : target < 2 ^ 32 = omega arith in
    if_both IsBounded (funct3_of instr == 0)
      (jump-IsBounded _ _ c.privilege_level
        (write_register-IsBounded c (rd_of instr) (u32 (c.pc + 4)) w (omega arith))
        (omega (arith, bit_and_le target (not32 0x1))))
      (advance-IsBounded c w)

write_unless_zero-IsBounded :
    (c : Core) (rd v : ℕ) → IsBounded c → v < 2 ^ 32 → IsBounded (write_unless_zero c rd v)
write_unless_zero-IsBounded c rd v w h =
    if_both IsBounded (rd == 0) w (write_register-IsBounded c rd v w h)

wait-IsBounded : (c : Core) → IsBounded c → IsBounded (record c { is_waiting_for_interrupt = true })
wait-IsBounded c w = record {
  core_id = w.core_id;
  pc = w.pc;
  regs = w.regs;
  csrs = w.csrs;
  counters = w.counters;
}

wfi-IsBounded : (c : Core) (rd : ℕ) → IsBounded c → IsBounded (wfi c rd)
wfi-IsBounded c rd w =
    let d = (check_pending_interrupts c).1 in
    let wd = check_pending_interrupts-IsBounded c w in
    advance-IsBounded _ (
      write_unless_zero-IsBounded _ rd 0
        (if_both IsBounded (check_pending_interrupts c).0 (handle_interrupt-IsBounded d wd)
          (wait-IsBounded d wd))
        (omega arith))

ecall_cause-lt : (p : ℕ) → ecall_cause p < 2 ^ 32
ecall_cause-lt p = ground arith

privileged-IsBounded : (c : Core) (instr : ℕ) → IsBounded c → IsBounded (privileged c instr)
unfolding privileged
privileged-IsBounded c instr w =
    let rd = rd_of instr in
    if_both IsBounded (instr == 0x30200073) (mret-IsBounded c w) (
      if_both IsBounded (funct7_of instr == 0x105 && csr_of instr == 0x105) (wfi-IsBounded c rd w) (
        if_both IsBounded (funct7_of instr == 0x18 && (rs1_of instr == 2 && rd == 0))
          (mret-IsBounded c w)
          (if_both IsBounded
            ((rd == 0 && rs1_of instr == 0) && (funct7_of instr == 0 && csr_of instr == 0))
            (take_exception-IsBounded c _ w (ecall_cause-lt c.privilege_level))
            (advance-IsBounded _ (write_unless_zero-IsBounded c rd 0 w (omega arith))))))

csr_operand-lt :
    (f old x imm : ℕ) → old < 2 ^ 32 → x < 2 ^ 32 → imm < 2 ^ 32 → csr_operand f old x imm < 2 ^ 32
csr_operand-lt f old x imm ho hx hi = ground (
  arith,
  bit_or_lt 32 old x ho hx,
  bit_or_lt 32 old imm ho hi,
  bit_and_le old (not32 x),
  bit_and_le old (not32 imm),
)

system-IsBounded : (c : Core) (instr : ℕ) → IsBounded c → IsBounded (system c instr)
unfolding system read_csr
system-IsBounded c instr w =
    let rd = rd_of instr in
    let a = csr_of instr in
    let d = after_read c a in
    let wd = after_read-IsBounded c a w in
    let old = csr_value-lt c a w in
    if_both IsBounded (funct3_of instr == 0) (privileged-IsBounded d instr wd) (
      if_both IsBounded (funct3_of instr == 4) (advance-IsBounded d wd) (
        advance-IsBounded _ (
          write_csr-IsBounded _ a _ (write_unless_zero-IsBounded d rd (csr_value c a) wd old) (
            csr_operand-lt (funct3_of instr) (csr_value c a) (d.regs (rs1_of instr)) _ old
              (wd.regs (rs1_of instr)) (omega (arith, bit_and_le_right (instr / 2 ^ 20) 0x1F))))))

pub execute-IsBounded : (c : Core) (instr : ℕ) → IsBounded c → Next IsBounded (execute c instr)
unfolding execute
execute-IsBounded c instr w =
    let o = opcode_of instr in
    let P = Next IsBounded in
    if_both P (o == 0x13) (execute_op_imm-IsBounded c instr w) (
      if_both P (o == 0x33) (execute_op-IsBounded c instr w) (
        if_both P (o == 0x37) (lui-IsBounded c instr w) (
          if_both P (o == 0x17) (auipc-IsBounded c instr w) (
            if_both P (o == 0x03 || (o == 0x23 || o == 0x2F)) tt (
              if_both P (o == 0x63) (branch-IsBounded c instr w) (
                if_both P (o == 0x6F) (jal-IsBounded c instr w) (
                  if_both P (o == 0x67) (jalr-IsBounded c instr w) (
                    if_both P (o == 0x73) (system-IsBounded c instr w)
                      (advance-IsBounded c w)))))))))
