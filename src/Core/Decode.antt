-- ===== src/Core/Decode.antt =====
-- The fields and immediates that Core::step takes from an instruction word, and `sign_extend`.
pub mod Formats
use riscv_emulator.Base.{ℕ, ◌+◌, ◌-◌, ◌*◌, ◌/◌, ◌%◌, ◌^◌, bit_and, bit_or, bit_xor}

-- `(value ^ mask) - mask`, with `mask = 1 << (bits - 1)`.
unfoldable pub sign_extend : ℕ → ℕ → ℕ
sign_extend value bits = (bit_xor value (2 ^ (bits - 1)) + 2 ^ 32 - 2 ^ (bits - 1)) % 2 ^ 32

unfoldable pub opcode_of : ℕ → ℕ
opcode_of instr = bit_and instr 0x7f

unfoldable pub rd_of : ℕ → ℕ
rd_of instr = bit_and (instr / 2 ^ 7) 0x1f

unfoldable pub funct3_of : ℕ → ℕ
funct3_of instr = bit_and (instr / 2 ^ 12) 0x7

unfoldable pub rs1_of : ℕ → ℕ
rs1_of instr = bit_and (instr / 2 ^ 15) 0x1f

unfoldable pub rs2_of : ℕ → ℕ
rs2_of instr = bit_and (instr / 2 ^ 20) 0x1f

unfoldable pub funct7_of : ℕ → ℕ
funct7_of instr = bit_and (instr / 2 ^ 25) 0x7f

unfoldable pub csr_of : ℕ → ℕ
csr_of instr = bit_and (instr / 2 ^ 20) 0xFFF

unfoldable pub imm_i : ℕ → ℕ
unfolding sign_extend
imm_i instr = sign_extend (instr / 2 ^ 20) 12

unfoldable pub imm_u : ℕ → ℕ
imm_u instr = bit_and instr 0xFFFFF000

unfoldable pub imm_s : ℕ → ℕ
unfolding sign_extend
imm_s instr = sign_extend (bit_or (bit_and (instr / 2 ^ 7) 0x1f) (instr / 2 ^ 25 * 2 ^ 5)) 12

unfoldable pub imm_b : ℕ → ℕ
unfolding sign_extend
imm_b instr =
    let low = bit_and (instr / 2 ^ 8) 0xf * 2 ^ 1 in
    let mid = bit_or low (bit_and (instr / 2 ^ 25) 0x3f * 2 ^ 5) in
    let high = bit_or mid (bit_and (instr / 2 ^ 7) 0x1 * 2 ^ 11) in
    sign_extend (bit_or high (bit_and (instr / 2 ^ 31) 0x1 * 2 ^ 12)) 13

unfoldable pub imm_j : ℕ → ℕ
unfolding sign_extend
imm_j instr =
    let low = bit_and (instr / 2 ^ 21) 0x3ff * 2 ^ 1 in
    let mid = bit_or low (bit_and (instr / 2 ^ 20) 0x1 * 2 ^ 11) in
    let high = bit_or mid (bit_and (instr / 2 ^ 12) 0xff * 2 ^ 12) in
    sign_extend (bit_or high (bit_and (instr / 2 ^ 31) 0x1 * 2 ^ 20)) 21
