-- ===== src/Core/Tests.antt =====
-- Runs of the decoder and of the ALU at concrete instructions.
use riscv_emulator.Base.{ℕ, ◌+◌, ◌*◌, ◌%◌, ◌^◌, ◌<◌, ◌≡◌, ◌⊎◌, refl, arith, true}
use riscv_emulator.Word.{to_int, magnitude, is_negative}
use riscv_emulator.Core.Decode.{
  opcode_of, rd_of, funct3_of, rs1_of, rs2_of, funct7_of, imm_i, imm_s, imm_b, imm_u, imm_j,
}
use riscv_emulator.Core.Decode.Formats.{
  Fields, InRange, i_type, r_type, s_type, b_type, u_type, j_type, decode-encode,
}
use riscv_emulator.Core.Alu.{writes, op, div, rem}
use riscv_emulator.Core.Alu.Spec.{sra, funct3, funct7}
use riscv_emulator.Core.Alu.Meaning.{op-meaning, div-rem}

abbrev fields : Fields
fields = record { opcode = 0x13; rd = 10; funct3 = 5; rs1 = 31; rs2 = 7 }

fields-InRange : InRange fields
fields-InRange = record {
  opcode = omega arith;
  rd = omega arith;
  funct3 = omega arith;
  rs1 = omega arith;
  rs2 = omega arith;
}

decode-encode_example :
    (imm_i (i_type fields 0x801) ≡ 0xFFFFF801)
    × (imm_s (s_type fields 0x801) ≡ 0xFFFFF801)
    × (imm_b (b_type fields 0x1002) ≡ 0xFFFFF002)
    × (imm_u (u_type fields 0x12345) ≡ 0x12345000)
    × (imm_j (j_type fields 0x802) ≡ 0x802)
    × (opcode_of (i_type fields 0x801) ≡ 0x13)
    × (rd_of (i_type fields 0x801) ≡ 10)
    × (funct3_of (i_type fields 0x801) ≡ 5)
    × (rs1_of (i_type fields 0x801) ≡ 31)
    × (rs2_of (r_type fields 0x20) ≡ 7)
    × (funct7_of (r_type fields 0x20) ≡ 0x20)
decode-encode_example =
    decode-encode fields 0x20 0x801 0x1002 0x12345 0x802 fields-InRange (omega arith) (omega arith)
      (omega arith) refl (omega arith) (omega arith) refl

op-meaning_example : op (funct3 sra) (funct7 sra) 7 0x80000000 4 ≡ writes 0xF8000000
op-meaning_example = op-meaning sra 7 0x80000000 4 refl (omega arith) (omega arith)

div-rem_example :
    (r : ℕ) × (rem 0xFFFFFFF9 2 ≡ writes r)
    × (magnitude (to_int r) < 2)
    × ((magnitude (to_int r) ≡ 0) ⊎ (is_negative (to_int r) ≡ true))
    × ((div 0xFFFFFFF9 2 * 2 + r) % 2 ^ 32 ≡ 0xFFFFFFF9)
div-rem_example = div-rem 0xFFFFFFF9 2 (omega arith) (omega arith) (omega arith) refl
