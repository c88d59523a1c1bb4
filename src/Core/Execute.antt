-- ===== src/Core/Execute.antt =====
-- The cases of Core::step that do not access memory, by opcode, and the end of Core::step. The
-- instruction word has been fetched.
pub mod Encoded
pub mod Tests
pub mod Bounds
use riscv_emulator.Base.{
  ℕ, ◌+◌, ◌*◌, ◌/◌, ◌%◌, ◌^◌, Bool, true, false, not, ◌&&◌, ◌||◌, bit_and, bit_or, ltb, ◌==◌,
  if◌then◌else◌,
}
use riscv_emulator.Word.{u32, not32, to_int, lt_int}
use riscv_emulator.Core.Decode.{
  opcode_of, rd_of, funct3_of, rs1_of, rs2_of, funct7_of, csr_of, imm_i, imm_u, imm_b, imm_j,
}
use riscv_emulator.Core.Alu.{Result, writes, keeps, traps, op, op_imm}
use riscv_emulator.Core.State.{Core, prv_u, prv_s, prv_m, put, write_register}
use riscv_emulator.Core.Counters.{update_performance_counter}
use riscv_emulator.Core.Csr.{read_csr, write_csr}
use riscv_emulator.Core.Trap.{mret, take_exception, check_pending_interrupts, handle_interrupt}

-- What the switch does: `next` is the state after it; `host_trap` the undefined division of `op`;
-- `memory_access` stands for the loads, the stores and the atomic instructions.
pub data Executed : Type 0 where
  next : Core → Executed
  host_trap memory_access : Executed

abbrev pub advance : Core → Core
advance c = record c { pc = u32 (c.pc + 4) }

-- The result of the ALU put into `regs[rd]`.
abbrev pub put_result : Core → ℕ → Result → Executed
put_result c rd (writes v) = next (advance (write_register c rd v))
put_result c rd keeps = next (advance c)
put_result c rd traps = host_trap

unfoldable pub execute_op_imm : Core → ℕ → Executed
execute_op_imm c instr =
    put_result c (rd_of instr)
      (op_imm (funct3_of instr) (funct7_of instr) (c.regs (rs1_of instr)) (imm_i instr))

unfoldable pub execute_op : Core → ℕ → Executed
execute_op c instr = put_result c (rd_of instr) (
    op (funct3_of instr) (funct7_of instr) (rs2_of instr) (c.regs (rs1_of instr))
      (c.regs (rs2_of instr)))

unfoldable pub lui : Core → ℕ → Core
lui c instr = advance (write_register c (rd_of instr) (imm_u instr))

unfoldable pub auipc : Core → ℕ → Core
auipc c instr = advance (write_register c (rd_of instr) (u32 (c.pc + imm_u instr)))

-- Whether a branch is taken, by funct3 and the operands.
abbrev pub is_taken : ℕ → ℕ → ℕ → Bool
is_taken funct3 x y =
    if funct3 == 0x0
    then x == y
    else if funct3 == 0x1
    then not (x == y)
    else if funct3 == 0x4
    then lt_int (to_int x) (to_int y)
    else if funct3 == 0x5
    then not (lt_int (to_int x) (to_int y))
    else if funct3 == 0x6
    then ltb x y
    else if funct3 == 0x7
    then not (ltb x y)
    else false

unfoldable pub branch : Core → ℕ → Core
branch c instr =
    let taken = is_taken (funct3_of instr) (c.regs (rs1_of instr)) (c.regs (rs2_of instr)) in
    record c { pc = u32 (c.pc + (if taken then imm_b instr else 4)) }

unfoldable pub jal : Core → ℕ → Core
jal c instr = record (write_register c (rd_of instr) (u32 (c.pc + 4))) {
  pc = u32 (c.pc + imm_j instr);
}

unfoldable pub jalr : Core → ℕ → Core
jalr c instr =
    let new_pc = bit_and (u32 (c.regs (rs1_of instr) + imm_i instr)) (not32 0x1) in
    if funct3_of instr == 0x0
    then record (write_register c (rd_of instr) (u32 (c.pc + 4))) { pc = new_pc }
    else advance c

abbrev pub ecall_cause : ℕ → ℕ
ecall_cause privilege_level =
    if privilege_level == prv_u
    then 8
    else if privilege_level == prv_s
    then 9
    else if privilege_level == prv_m
    then 11
    else 9

-- `if (rd != 0) regs[rd] = v`.
abbrev pub write_unless_zero : Core → ℕ → ℕ → Core
write_unless_zero c rd v = if rd == 0 then c else write_register c rd v

-- WFI. Its test cannot succeed: funct7 has 7 bits.
abbrev pub wfi : Core → ℕ → Core
wfi core rd =
    let (pending, c) = check_pending_interrupts core in
    let w = if pending then handle_interrupt c else record c { is_waiting_for_interrupt = true } in
    advance (write_unless_zero w rd 0)

-- SYSTEM with funct3 = 0.
unfoldable pub privileged : Core → ℕ → Core
privileged c instr =
    let rd = rd_of instr in
    let rs1 = rs1_of instr in
    let funct7 = funct7_of instr in
    let csr_addr = csr_of instr in
    if instr == 0x30200073
    then mret c
    else if funct7 == 0x105 && csr_addr == 0x105
    then wfi c rd
    else if funct7 == 0x18 && (rs1 == 2 && rd == 0)
    then mret c
    else if (rd == 0 && rs1 == 0) && (funct7 == 0 && csr_addr == 0)
    then take_exception c (ecall_cause c.privilege_level)
    else advance (write_unless_zero c rd 0)

-- The value that a CSR instruction writes.
abbrev pub csr_operand : ℕ → ℕ → ℕ → ℕ → ℕ
csr_operand funct3 old x imm =
    if funct3 == 0x1
    then x
    else if funct3 == 0x2
    then bit_or old x
    else if funct3 == 0x3
    then bit_and old (not32 x)
    else if funct3 == 0x5
    then imm
    else if funct3 == 0x6
    then bit_or old imm
    else bit_and old (not32 imm)

unfoldable pub system : Core → ℕ → Core
system core instr =
    let rd = rd_of instr in
    let funct3 = funct3_of instr in
    let csr_addr = csr_of instr in
    let (old, c) = read_csr core csr_addr in
    let value = csr_operand funct3 old (c.regs (rs1_of instr)) (bit_and (instr / 2 ^ 20) 0x1F) in
    if funct3 == 0x0
    then privileged c instr
    else if funct3 == 0x4
    then advance c
    else advance (write_csr (write_unless_zero c rd old) csr_addr value)

unfoldable pub execute : Core → ℕ → Executed
execute c instr =
    let opcode = opcode_of instr in
    if opcode == 0x13
    then execute_op_imm c instr
    else if opcode == 0x33
    then execute_op c instr
    else if opcode == 0x37
    then next (lui c instr)
    else if opcode == 0x17
    then next (auipc c instr)
    else if opcode == 0x03 || (opcode == 0x23 || opcode == 0x2F)
    then memory_access
    else if opcode == 0x63
    then next (branch c instr)
    else if opcode == 0x6F
    then next (jal c instr)
    else if opcode == 0x67
    then next (jalr c instr)
    else if opcode == 0x73
    then next (system c instr)
    else next (advance c)

-- After the switch.
unfoldable pub retire : Core → Core
retire c = write_register (update_performance_counter c) 0 0
