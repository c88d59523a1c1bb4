-- ===== src/Core/Alu/Meaning.antt =====
-- Core::step against the manual.
use riscv_emulator.Base.{
  ℕ, ◌+◌, ◌*◌, ◌%◌, ◌^◌, ◌<◌, ◌≡◌, ◌≢◌, ◌⊎◌, refl, Bool, true, false, ◌&&◌, arith, ◌==◌,
  if◌then◌else◌, bit_and_low,
}
use riscv_emulator.Word.{to_int, of_int, rem_int, magnitude, is_negative}
use riscv_emulator.Word.Laws.{of_int-mul_int}
use riscv_emulator.Word.Division.{quot-rem, rem-small}
use riscv_emulator.Core.Alu.{writes, traps, int_min, all_ones, op, op_imm, div, divu, rem, remu}
use riscv_emulator.Core.Alu.Spec.{
  Instruction, add, sub, sll, slt, sltu, xor, srl, sra, or, and, mul, mulh, mulhsu, mulhu, meaning,
  funct3, funct7, is_high_product,
}

-- `INT_MIN / -1`.
abbrev pub overflows : ℕ → ℕ → Bool
overflows x y = x == int_min && y == all_ones

abbrev pub is_rem : Instruction → Bool
is_rem Instruction.rem = true
is_rem _ = false

div-meaning : (x y : ℕ) → x < 2 ^ 32 → y < 2 ^ 32 → div x y ≡ meaning Instruction.div x y
unfolding div
div-meaning x y hx hy = ground arith

-- Every register-register instruction of RV32I and, of the M extension, MUL, DIV, DIVU, REM and
-- REMU give what the manual says, whatever register number stands in rs2 and on every pair of
-- 32-bit operands, but for the remainder of -2^31 by -1, which traps.
pub op-meaning :
    (o : Instruction) (r x y : ℕ)
    → is_high_product o ≡ false
    → x < 2 ^ 32
    → y < 2 ^ 32
    → op (funct3 o) (funct7 o) r x y
      ≡ (if is_rem o && overflows x y then traps else writes (meaning o x y))
unfolding op
op-meaning add r x y k hx hy = ground arith
op-meaning sub r x y k hx hy = ground arith
op-meaning sll r x y k hx hy = ground (arith, bit_and_low 5 y)
op-meaning slt r x y k hx hy = refl
op-meaning sltu r x y k hx hy = refl
op-meaning xor r x y k hx hy = refl
op-meaning srl r x y k hx hy = ground (arith, bit_and_low 5 y)
op-meaning sra r x y k hx hy = ground (arith, bit_and_low 5 y)
op-meaning or r x y k hx hy = refl
op-meaning and r x y k hx hy = refl
op-meaning mul r x y k hx hy = ground (arith, of_int-mul_int x y hx hy)
op-meaning mulh r x y k hx hy = cc
op-meaning mulhsu r x y k hx hy = cc
op-meaning mulhu r x y k hx hy = cc
op-meaning Instruction.div r x y k hx hy = ground (arith, div-meaning x y hx hy)
op-meaning Instruction.divu r x y k hx hy = unfold divu in ground arith
op-meaning Instruction.rem r x y k hx hy = unfold rem in ground arith
op-meaning Instruction.remu r x y k hx hy = unfold remu in ground arith

-- The immediate instructions compute what their register forms compute, with the immediate for the
-- second operand; only the right shifts look at funct7.
pub op_imm-op :
    (f3 f7 r x imm : ℕ)
    → f3 < 8
    → (f7 ≡ 0x00) ⊎ (f7 ≡ 0x20)
    → op_imm f3 f7 x imm ≡ op f3 (if f3 == 5 then f7 else 0x00) r x imm
unfolding op_imm op
op_imm-op f3 f7 r x imm h k = ground arith

-- Signed division: where the divisor is not 0 and the quotient fits, `rem` gives a word `r` that is
-- smaller in magnitude than the divisor and has the dividend's sign unless it is 0, and quotient
-- times divisor plus `r` is the dividend modulo 2 ^ 32.
pub div-rem :
    (x y : ℕ)
    → x < 2 ^ 32
    → y < 2 ^ 32
    → y ≢ 0
    → overflows x y ≡ false
    → (r : ℕ) × (rem x y ≡ writes r)
      × (magnitude (to_int r) < magnitude (to_int y))
      × ((magnitude (to_int r) ≡ 0) ⊎ (is_negative (to_int r) ≡ is_negative (to_int x)))
      × ((div x y * y + r) % 2 ^ 32 ≡ x)
unfolding div rem
div-rem x y hx hy ne fits =
    let p : 0 < y = omega arith in
    let (small, sign) = rem-small x y hx hy p in
    (
      of_int (rem_int (to_int x) (to_int y)),
      ground arith,
      small,
      sign,
      ground (arith, quot-rem x y hx hy p),
    )
