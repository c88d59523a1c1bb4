-- ===== src/Core/Alu/Spec.antt =====
-- What the RISC-V manual says of the register-register instructions, over the integers that the
-- registers stand for.
use riscv_emulator.Base.{
  ℕ, ◌+◌, ◌-◌, ◌*◌, ◌/◌, ◌%◌, ◌^◌, Bool, true, false, bit_and, bit_or, bit_xor, ltb, leb,
  if◌then◌else◌, to_nat, ◌==◌,
}
use riscv_emulator.Word.{
  ℤ, pos, negsuc, to_int, of_int, is_negative, magnitude, lt_int, mul_int, quot_int, rem_int,
  sar_int,
}

pub data Instruction : Type 0 where
  add sub sll slt sltu xor srl sra or and : Instruction
  mul mulh mulhsu mulhu div divu rem remu : Instruction

-- a - b.
abbrev pub difference : ℕ → ℕ → ℤ
difference a b = if leb b a then pos (a - b) else negsuc (b - a - 1)

abbrev neg_part : ℤ → ℕ
neg_part z = if is_negative z then magnitude z else 0

abbrev pos_part : ℤ → ℕ
pos_part z = if is_negative z then 0 else magnitude z

abbrev pub add_int : ℤ → ℤ → ℤ
add_int a b = difference (pos_part a + pos_part b) (neg_part a + neg_part b)

abbrev pub sub_int : ℤ → ℤ → ℤ
sub_int a b = difference (pos_part a + neg_part b) (neg_part a + pos_part b)

-- The result as a 32-bit word. Division by zero gives -1, and the dividend as remainder.
abbrev pub meaning : Instruction → ℕ → ℕ → ℕ
meaning add x y = of_int (add_int (to_int x) (to_int y))
meaning sub x y = of_int (sub_int (to_int x) (to_int y))
meaning sll x y = of_int (pos (x * 2 ^ (y % 32)))
meaning slt x y = to_nat (lt_int (to_int x) (to_int y))
meaning sltu x y = to_nat (ltb x y)
meaning xor x y = bit_xor x y
meaning srl x y = x / 2 ^ (y % 32)
meaning sra x y = of_int (sar_int (to_int x) (y % 32))
meaning or x y = bit_or x y
meaning and x y = bit_and x y
meaning mul x y = of_int (mul_int (to_int x) (to_int y))
meaning mulh x y = of_int (sar_int (mul_int (to_int x) (to_int y)) 32)
meaning mulhsu x y = of_int (sar_int (mul_int (to_int x) (pos y)) 32)
meaning mulhu x y = x * y / 2 ^ 32
meaning div x y = if y == 0 then of_int (negsuc 0) else of_int (quot_int (to_int x) (to_int y))
meaning divu x y = if y == 0 then of_int (negsuc 0) else x / y
meaning rem x y = if y == 0 then x else of_int (rem_int (to_int x) (to_int y))
meaning remu x y = if y == 0 then x else x % y

-- The encoding.
abbrev pub funct3 : Instruction → ℕ
funct3 add = 0
funct3 sub = 0
funct3 sll = 1
funct3 slt = 2
funct3 sltu = 3
funct3 xor = 4
funct3 srl = 5
funct3 sra = 5
funct3 or = 6
funct3 and = 7
funct3 mul = 0
funct3 mulh = 1
funct3 mulhsu = 2
funct3 mulhu = 3
funct3 div = 4
funct3 divu = 5
funct3 rem = 6
funct3 remu = 7

abbrev pub funct7 : Instruction → ℕ
funct7 add = 0x00
funct7 sub = 0x20
funct7 sll = 0x00
funct7 slt = 0x00
funct7 sltu = 0x00
funct7 xor = 0x00
funct7 srl = 0x00
funct7 sra = 0x20
funct7 or = 0x00
funct7 and = 0x00
funct7 _ = 0x01

-- The instructions whose result is the upper word of a product.
abbrev pub is_high_product : Instruction → Bool
is_high_product mulh = true
is_high_product mulhsu = true
is_high_product mulhu = true
is_high_product _ = false
