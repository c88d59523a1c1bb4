-- ===== src/Core/Alu.antt =====
-- The register results of the OP-IMM (0x13) and OP (0x33) cases of Core::step, as functions of the
-- instruction's fields and the operands. Operands and results are numbers below 2 ^ 32.
pub mod Spec
pub mod Meaning
use riscv_emulator.Base.{
  ℕ, ◌+◌, ◌*◌, ◌/◌, ◌%◌, ◌^◌, Bool, true, false, ◌&&◌, bit_and, bit_or, bit_xor, ltb, ◌==◌,
  if◌then◌else◌, to_nat,
}
use riscv_emulator.Word.{
  ℤ, pos, negsuc, u32, sub32, shl32, shr32, to_int, of_int, lt_int, mul_int, quot_int, rem_int,
  sar_int,
}

-- What is done to `regs[rd]`. `traps` is `INT_MIN % -1`, which C++ leaves undefined and which
-- stops the emulator on the hosts that trap on it.
pub data Result : Type 0 where
  writes : ℕ → Result
  keeps : Result
  traps : Result

abbrev pub all_ones : ℕ
all_ones = 0xFFFFFFFF

abbrev pub int_min : ℕ
int_min = 0x80000000

-- `(int32_t)x >> n`.
abbrev pub sra : ℕ → ℕ → ℕ
sra x n = of_int (sar_int (to_int x) n)

abbrev pub slt : ℕ → ℕ → ℕ
slt x y = to_nat (lt_int (to_int x) (to_int y))

-- `x << (y & 0x1f)`.
abbrev pub sll : ℕ → ℕ → ℕ
sll x y = shl32 x (bit_and y 0x1f)

unfoldable pub op_imm : ℕ → ℕ → ℕ → ℕ → Result
op_imm funct3 funct7 x imm =
    if funct3 == 0x0
    then writes (u32 (x + imm))
    else if funct3 == 0x2
    then writes (slt x imm)
    else if funct3 == 0x3
    then writes (to_nat (ltb x imm))
    else if funct3 == 0x4
    then writes (bit_xor x imm)
    else if funct3 == 0x6
    then writes (bit_or x imm)
    else if funct3 == 0x7
    then writes (bit_and x imm)
    else if funct3 == 0x1
    then writes (sll x imm)
    else if funct3 == 0x5
    then (if funct7 == 0x00
        then writes (shr32 x (bit_and imm 0x1f))
        else if funct7 == 0x20
        then writes (sra x (bit_and imm 0x1f))
        else keeps)
    else keeps

-- The upper word of a 64-bit product: `(uint32_t)(res >> 32)`.
abbrev pub high_word : ℤ → ℕ
high_word res = of_int (sar_int res 32)

unfoldable pub div : ℕ → ℕ → ℕ
div x y =
    if y == 0
    then all_ones
    else if x == int_min && y == all_ones
    then x
    else of_int (quot_int (to_int x) (to_int y))

unfoldable pub divu : ℕ → ℕ → ℕ
divu x y = if y == 0 then all_ones else x / y

unfoldable pub rem : ℕ → ℕ → Result
rem x y =
    if y == 0
    then writes x
    else if x == int_min && y == all_ones
    then traps
    else writes (of_int (rem_int (to_int x) (to_int y)))

unfoldable pub remu : ℕ → ℕ → ℕ
remu x y = if y == 0 then x else x % y

-- The arguments are funct3, funct7, the register number rs2, and the values of rs1 and rs2.
unfoldable pub op : ℕ → ℕ → ℕ → ℕ → ℕ → Result
op funct3 funct7 rs2 x y =
    if funct3 == 0x0
    then (if funct7 == 0x00
        then writes (u32 (x + y))
        else if funct7 == 0x20
        then writes (sub32 x y)
        else if funct7 == 0x01
        then writes (u32 (x * y))
        else keeps)
    else if funct3 == 0x1
    then (if funct7 == 0x01
        then (if rs2 == 0x01
            then writes (high_word (mul_int (to_int x) (to_int y)))
            else if rs2 == 0x02
            then writes (high_word (mul_int (to_int x) (pos y)))
            else if rs2 == 0x03
            then writes (x * y / 2 ^ 32 % 2 ^ 32)
            else writes (sll x y))
        else writes (sll x y))
    else if funct3 == 0x2
    then writes (slt x y)
    else if funct3 == 0x3
    then writes (to_nat (ltb x y))
    else if funct3 == 0x4
    then (if funct7 == 0x01
        then writes (div x y)
        else if funct7 == 0x00
        then writes (bit_xor x y)
        else keeps)
    else if funct3 == 0x5
    then (if funct7 == 0x01
        then writes (divu x y)
        else if funct7 == 0x21
        then rem x y
        else if funct7 == 0x25
        then writes (remu x y)
        else if funct7 == 0x00
        then writes (shr32 x (bit_and y 0x1f))
        else if funct7 == 0x20
        then writes (sra x (bit_and y 0x1f))
        else keeps)
    else if funct3 == 0x6
    then (if funct7 == 0x01 then rem x y else if funct7 == 0x00 then writes (bit_or x y) else keeps)
    else if funct3 == 0x7
    then (if funct7 == 0x01
        then writes (remu x y)
        else if funct7 == 0x00
        then writes (bit_and x y)
        else keeps)
    else keeps
