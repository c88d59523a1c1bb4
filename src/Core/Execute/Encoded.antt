-- ===== src/Core/Execute/Encoded.antt =====
-- Whole instructions, from the encoded word: arithmetic, branches, calls and returns.
use riscv_emulator.Base.{
  ℕ, ◌+◌, ◌-◌, ◌/◌, ◌%◌, ◌^◌, ◌<◌, ◌≡◌, refl, ap, Bool, true, false, not, ◌&&◌, arith, ltb, ◌==◌,
  if◌then◌else◌, bit_and_low, bit_and_high, bit_and,
}
use riscv_emulator.Word.{u32}
use riscv_emulator.Core.Decode.Formats.{
  Fields, InRange, r_type, b_type, j_type, i_type, extended, fields-b_type, fields-r_type,
  low_fields-r_type, fields-i_type, fields-j_type, imm_b-b_type, imm_i-i_type, imm_j-j_type,
}
use riscv_emulator.Core.Alu.{traps, writes}
use riscv_emulator.Core.Alu.Spec.{Instruction, meaning, funct3, funct7, is_high_product}
use riscv_emulator.Core.Alu.Meaning.{op-meaning, is_rem, overflows}
use riscv_emulator.Core.State.{Core, write_register}
use riscv_emulator.Core.Execute.{
  next, host_trap, advance, execute, execute_op, branch, jal, jalr, is_taken, put_result,
}

pub data Branch : Type 0 where
  beq bne blt bge bltu bgeu : Branch

abbrev pub branch_funct3 : Branch → ℕ
branch_funct3 beq = 0
branch_funct3 bne = 1
branch_funct3 blt = 4
branch_funct3 bge = 5
branch_funct3 bltu = 6
branch_funct3 bgeu = 7

-- Signed order is unsigned order with the sign bit turned over.
abbrev pub biased : ℕ → ℕ
biased x = (x + 2 ^ 31) % 2 ^ 32

abbrev pub holds : Branch → ℕ → ℕ → Bool
holds beq x y = x == y
holds bne x y = not (x == y)
holds blt x y = ltb (biased x) (biased y)
holds bge x y = not (ltb (biased x) (biased y))
holds bltu x y = ltb x y
holds bgeu x y = not (ltb x y)

-- `pc` displaced by the signed number with the `bits` digits `v`.
abbrev pub displaced : ℕ → ℕ → ℕ → ℕ
displaced bits pc v =
    if ltb v (2 ^ (bits - 1)) then (pc + v) % 2 ^ 32 else (pc + 2 ^ 32 - (2 ^ bits - v)) % 2 ^ 32

is_taken-holds :
    (b : Branch) (x y : ℕ) → x < 2 ^ 32 → y < 2 ^ 32 → is_taken (branch_funct3 b) x y ≡ holds b x y
is_taken-holds beq x y hx hy = refl
is_taken-holds bne x y hx hy = refl
is_taken-holds blt x y hx hy = ground arith
is_taken-holds bge x y hx hy = ground arith
is_taken-holds bltu x y hx hy = refl
is_taken-holds bgeu x y hx hy = refl

branch_funct3-lt : (b : Branch) → branch_funct3 b < 8
branch_funct3-lt beq = omega arith
branch_funct3-lt bne = omega arith
branch_funct3-lt blt = omega arith
branch_funct3-lt bge = omega arith
branch_funct3-lt bltu = omega arith
branch_funct3-lt bgeu = omega arith

target :
    (t : Bool) (pc v : ℕ)
    → v < 2 ^ 13
    → u32 (pc + (if t then extended 13 v else 4)) ≡ (if t then displaced 13 pc v else u32 (pc + 4))
target true pc v h = ground arith
target false pc v h = refl

abbrev pub branch_fields : Branch → ℕ → ℕ → Fields
branch_fields b rs1 rs2 = record {
  opcode = 0x63;
  rd = 0;
  funct3 = branch_funct3 b;
  rs1 = rs1;
  rs2 = rs2;
}

branch_fields-InRange :
    (b : Branch) (rs1 rs2 : ℕ) → rs1 < 32 → rs2 < 32 → InRange (branch_fields b rs1 rs2)
branch_fields-InRange b rs1 rs2 h1 h2 = record {
  opcode = omega arith;
  rd = omega arith;
  funct3 = branch_funct3-lt b;
  rs1 = h1;
  rs2 = h2;
}

-- An encoded branch compares the two registers as the manual says and goes to pc plus its signed
-- offset where the comparison holds, else to the next word; it changes nothing but the pc.
pub execute-b_type :
    (c : Core) (b : Branch) (rs1 rs2 v : ℕ)
    → rs1 < 32
    → rs2 < 32
    → v < 2 ^ 13
    → v % 2 ≡ 0
    → c.regs rs1 < 2 ^ 32
    → c.regs rs2 < 2 ^ 32
    → execute c (b_type (branch_fields b rs1 rs2) v)
      ≡ next (record c {
        pc = if holds b (c.regs rs1) (c.regs rs2) then displaced 13 c.pc v else u32 (c.pc + 4);
      })
unfolding execute branch
execute-b_type c b rs1 rs2 v h1 h2 hv even hx hy =
    let f = branch_fields b rs1 rs2 in
    let w = branch_fields-InRange b rs1 rs2 h1 h2 in
    let (opcode, funct, first, second) = fields-b_type f v w hv in
    rw
      (
        opcode,
        funct,
        first,
        second,
        imm_b-b_type f v w hv even,
        is_taken-holds b (c.regs rs1) (c.regs rs2) hx hy,
      )
      (ap (λ p. next (record c { pc = p })) (target (holds b (c.regs rs1) (c.regs rs2)) c.pc v hv))

abbrev pub register_fields : Instruction → ℕ → ℕ → ℕ → Fields
register_fields o rd rs1 rs2 = record {
  opcode = 0x33;
  rd = rd;
  funct3 = funct3 o;
  rs1 = rs1;
  rs2 = rs2;
}

funct3-lt : (o : Instruction) → funct3 o < 8
funct3-lt o = ground arith

funct7-lt : (o : Instruction) → funct7 o < 2 ^ 7
funct7-lt o = ground arith

put_if :
    (c : Core) (rd v : ℕ) (b : Bool)
    → put_result c rd (if b then traps else writes v)
      ≡ (if b then host_trap else next (advance (write_register c rd v)))
put_if c rd v true = refl
put_if c rd v false = refl

-- An encoded register-register instruction of RV32IM, but for MULH, MULHSU and MULHU, puts what the
-- manual says into rd and goes on to the next word; the remainder of -2^31 by -1 stops the emulator.
pub execute-r_type :
    (c : Core) (o : Instruction) (rd rs1 rs2 : ℕ)
    → is_high_product o ≡ false
    → rd < 32
    → rs1 < 32
    → rs2 < 32
    → c.regs rs1 < 2 ^ 32
    → c.regs rs2 < 2 ^ 32
    → execute c (r_type (register_fields o rd rs1 rs2) (funct7 o)) ≡ (
        if is_rem o && overflows (c.regs rs1) (c.regs rs2)
        then host_trap
        else next (advance (write_register c rd (meaning o (c.regs rs1) (c.regs rs2)))))
unfolding execute execute_op
execute-r_type c o rd rs1 rs2 high hd h1 h2 hx hy =
    let f = register_fields o rd rs1 rs2 in
    let w : InRange f = record {
      opcode = omega arith;
      rd = hd;
      funct3 = funct3-lt o;
      rs1 = h1;
      rs2 = h2;
    } in
    let (opcode, dest, funct, first) = low_fields-r_type f (funct7 o) w (funct7-lt o) in
    let (second, high_bits) = fields-r_type f (funct7 o) w (funct7-lt o) in
    rw
      (
        opcode,
        dest,
        funct,
        first,
        second,
        high_bits,
        op-meaning o rs2 (c.regs rs1) (c.regs rs2) high hx hy,
      )
      (put_if c rd (meaning o (c.regs rs1) (c.regs rs2))
        (is_rem o && overflows (c.regs rs1) (c.regs rs2)))

abbrev pub call_fields : Fields
call_fields = record { opcode = 0x6F; rd = 1; funct3 = 0; rs1 = 0; rs2 = 0 }

abbrev pub return_fields : Fields
return_fields = record { opcode = 0x67; rd = 0; funct3 = 0; rs1 = 1; rs2 = 0 }

call_fields-InRange : InRange call_fields
call_fields-InRange = record {
  opcode = omega arith;
  rd = omega arith;
  funct3 = omega arith;
  rs1 = omega arith;
  rs2 = omega arith;
}

return_fields-InRange : InRange return_fields
return_fields-InRange = record {
  opcode = omega arith;
  rd = omega arith;
  funct3 = omega arith;
  rs1 = omega arith;
  rs2 = omega arith;
}

clear_low : (x : ℕ) → x < 2 ^ 32 → x % 2 ≡ 0 → bit_and x 0xFFFFFFFE ≡ x
clear_low x h even = omega (arith, bit_and_high 1 x 0x7FFFFFFF, bit_and_low 31 (x / 2))

displaced_lem : (pc v : ℕ) → v < 2 ^ 21 → u32 (pc + extended 21 v) ≡ displaced 21 pc v
displaced_lem pc v h = ground arith

-- A call, JAL x1 with an offset, goes to the pc plus the offset, and a return, JALR x0, 0(x1), with
-- x1 unchanged goes back to the word after the call.
pub jal-jalr :
    (c : Core) (v : ℕ)
    → v < 2 ^ 21
    → v % 2 ≡ 0
    → c.pc % 2 ≡ 0
    → (d : Core) × (r : Core) × (execute c (j_type call_fields v) ≡ next d)
      × (d.pc ≡ displaced 21 c.pc v)
      × (execute d (i_type return_fields 0) ≡ next r)
      × (r.pc ≡ u32 (c.pc + 4))
unfolding execute jal jalr
jal-jalr c v hv even aligned =
    let (opcode, rd) = fields-j_type call_fields v call_fields-InRange hv in
    let (opcode2, rd2, funct2, first2) =
      fields-i_type return_fields 0 return_fields-InRange (omega arith) in
    (
      jal c (j_type call_fields v),
      jalr (jal c (j_type call_fields v)) (i_type return_fields 0),
      rw opcode refl,
      rw (imm_j-j_type call_fields v call_fields-InRange hv even) (displaced_lem c.pc v hv),
      rw opcode2 refl,
      rw
          (
            funct2,
            first2,
            imm_i-i_type return_fields 0 return_fields-InRange (omega arith),
            rd,
            clear_low (u32 (u32 (c.pc + 4) + 0)) (omega arith) (omega arith),
          )
          (omega arith),
    )
