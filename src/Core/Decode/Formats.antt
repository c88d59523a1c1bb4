-- ===== src/Core/Decode/Formats.antt =====
-- The instruction formats of the RISC-V manual, as encoders, and what the decoder makes of them.
use native.Mathlib.Nat.{pow-suc}
use riscv_emulator.Base.{
  ℕ, suc, ◌+◌, ◌-◌, ◌*◌, ◌/◌, ◌%◌, ◌^◌, ◌<◌, ◌≡◌, bit_and, bit_or, arith, ltb, if◌then◌else◌, ◌∙◌,
  bit_and_low, bit_and_high, bit_or_disjoint, bit_or_comm, bit_xor_top, pow_lt,
}
use riscv_emulator.Core.Decode.{
  sign_extend, opcode_of, rd_of, funct3_of, rs1_of, rs2_of, funct7_of, imm_i, imm_u, imm_s, imm_b,
  imm_j,
}

-- The signed value of the `bits` low digits `v`, as a uint32_t.
abbrev pub extended : ℕ → ℕ → ℕ
extended bits v = if ltb v (2 ^ (bits - 1)) then v else v + 2 ^ 32 - 2 ^ bits

sign_extend_lem : (k v : ℕ) → k < 32 → v < 2 ^ suc k → sign_extend v (suc k) ≡ extended (suc k) v
unfolding sign_extend
sign_extend_lem k v hk h =
    let e : suc k - 1 ≡ k = omega arith in
    rw e (ground (arith, bit_xor_top k v h, pow-suc 2 k, pow_lt k 32 hk))

pub record Fields : Type 0 where
  pub opcode : ℕ
  pub rd : ℕ
  pub funct3 : ℕ
  pub rs1 : ℕ
  pub rs2 : ℕ

pub record InRange (f : Fields) : Type 0 where
  pub opcode : f.opcode < 2 ^ 7
  pub rd : f.rd < 2 ^ 5
  pub funct3 : f.funct3 < 2 ^ 3
  pub rs1 : f.rs1 < 2 ^ 5
  pub rs2 : f.rs2 < 2 ^ 5

-- The encoders, at an immediate `v` of 12, 12, 13 and 21 digits, and of 20 digits for the U format.
abbrev pub i_type : Fields → ℕ → ℕ
i_type f v = v * 2 ^ 20 + f.rs1 * 2 ^ 15 + f.funct3 * 2 ^ 12 + f.rd * 2 ^ 7 + f.opcode

abbrev pub r_type : Fields → ℕ → ℕ
r_type f funct7 =
    funct7 * 2 ^ 25 + f.rs2 * 2 ^ 20 + f.rs1 * 2 ^ 15 + f.funct3 * 2 ^ 12 + f.rd * 2 ^ 7 + f.opcode

abbrev pub s_type : Fields → ℕ → ℕ
s_type f v =
    v / 2 ^ 5 * 2 ^ 25
    + f.rs2 * 2 ^ 20
    + f.rs1 * 2 ^ 15
    + f.funct3 * 2 ^ 12
    + v % 2 ^ 5 * 2 ^ 7
    + f.opcode

abbrev pub b_type : Fields → ℕ → ℕ
b_type f v =
    v / 2 ^ 12 * 2 ^ 31
    + v / 2 ^ 5 % 2 ^ 6 * 2 ^ 25
    + f.rs2 * 2 ^ 20
    + f.rs1 * 2 ^ 15
    + f.funct3 * 2 ^ 12
    + v / 2 % 2 ^ 4 * 2 ^ 8
    + v / 2 ^ 11 % 2 * 2 ^ 7
    + f.opcode

abbrev pub u_type : Fields → ℕ → ℕ
u_type f v = v * 2 ^ 12 + f.rd * 2 ^ 7 + f.opcode

abbrev pub j_type : Fields → ℕ → ℕ
j_type f v =
    v / 2 ^ 20 * 2 ^ 31
    + v / 2 % 2 ^ 10 * 2 ^ 21
    + v / 2 ^ 11 % 2 * 2 ^ 20
    + v / 2 ^ 12 % 2 ^ 8 * 2 ^ 12
    + f.rd * 2 ^ 7
    + f.opcode

bit_or_above : (k r q : ℕ) → r < 2 ^ k → bit_or r (q * 2 ^ k) ≡ q * 2 ^ k + r
bit_or_above k r q h = bit_or_comm r (q * 2 ^ k) ∙ bit_or_disjoint k q r h

pub imm_i-i_type :
    (f : Fields) (v : ℕ) → InRange f → v < 2 ^ 12 → imm_i (i_type f v) ≡ extended 12 v
unfolding imm_i
imm_i-i_type f v w h =
    let e : i_type f v / 2 ^ 20 ≡ v = omega arith in rw e (sign_extend_lem 11 v (omega arith) h)

imm_s-s_type : (f : Fields) (v : ℕ) → InRange f → v < 2 ^ 12 → imm_s (s_type f v) ≡ extended 12 v
unfolding imm_s
imm_s-s_type f v w h =
    let i = s_type f v in
    let low : bit_and (i / 2 ^ 7) 0x1f ≡ v % 2 ^ 5 = omega (arith, bit_and_low 5 (i / 2 ^ 7)) in
    let high : i / 2 ^ 25 ≡ v / 2 ^ 5 = omega arith in
    rw (low, high, bit_or_above 5 (v % 2 ^ 5) (v / 2 ^ 5) (omega arith))
      (let e : v / 2 ^ 5 * 2 ^ 5 + v % 2 ^ 5 ≡ v = omega arith in
        rw e (sign_extend_lem 11 v (omega arith) h))

pub imm_b-b_type :
    (f : Fields) (v : ℕ) → InRange f → v < 2 ^ 13 → v % 2 ≡ 0 → imm_b (b_type f v) ≡ extended 13 v
unfolding imm_b
imm_b-b_type f v w h even =
    let i = b_type f v in
    let low = v / 2 % 2 ^ 4 * 2 ^ 1 in
    let mid = v / 2 ^ 5 % 2 ^ 6 * 2 ^ 5 + low in
    let high = v / 2 ^ 11 % 2 * 2 ^ 11 + mid in
    let a : bit_and (i / 2 ^ 8) 0xf ≡ v / 2 % 2 ^ 4 = omega (arith, bit_and_low 4 (i / 2 ^ 8)) in
    let b : bit_and (i / 2 ^ 25) 0x3f ≡ v / 2 ^ 5 % 2 ^ 6 =
      omega (arith, bit_and_low 6 (i / 2 ^ 25)) in
    let c : bit_and (i / 2 ^ 7) 0x1 ≡ v / 2 ^ 11 % 2 = omega (arith, bit_and_low 1 (i / 2 ^ 7)) in
    let d : bit_and (i / 2 ^ 31) 0x1 ≡ v / 2 ^ 12 = omega (arith, bit_and_low 1 (i / 2 ^ 31)) in
    let e : v / 2 ^ 12 * 2 ^ 12 + high ≡ v = omega arith in
    rw
      (
        a,
        b,
        c,
        d,
        bit_or_above 5 low (v / 2 ^ 5 % 2 ^ 6) (omega arith),
        bit_or_above 11 mid (v / 2 ^ 11 % 2) (omega arith),
        bit_or_above 12 high (v / 2 ^ 12) (omega arith),
        e,
      )
      (sign_extend_lem 12 v (omega arith) h)

pub imm_j-j_type :
    (f : Fields) (v : ℕ) → InRange f → v < 2 ^ 21 → v % 2 ≡ 0 → imm_j (j_type f v) ≡ extended 21 v
unfolding imm_j
imm_j-j_type f v w h even =
    let i = j_type f v in
    let low = v / 2 % 2 ^ 10 * 2 ^ 1 in
    let mid = v / 2 ^ 11 % 2 * 2 ^ 11 + low in
    let high = v / 2 ^ 12 % 2 ^ 8 * 2 ^ 12 + mid in
    let a : bit_and (i / 2 ^ 21) 0x3ff ≡ v / 2 % 2 ^ 10 =
      omega (arith, bit_and_low 10 (i / 2 ^ 21)) in
    let b : bit_and (i / 2 ^ 20) 0x1 ≡ v / 2 ^ 11 % 2 = omega (arith, bit_and_low 1 (i / 2 ^ 20)) in
    let c : bit_and (i / 2 ^ 12) 0xff ≡ v / 2 ^ 12 % 2 ^ 8 =
      omega (arith, bit_and_low 8 (i / 2 ^ 12)) in
    let d : bit_and (i / 2 ^ 31) 0x1 ≡ v / 2 ^ 20 = omega (arith, bit_and_low 1 (i / 2 ^ 31)) in
    let e : v / 2 ^ 20 * 2 ^ 20 + high ≡ v = omega arith in
    rw
      (
        a,
        b,
        c,
        d,
        bit_or_above 11 low (v / 2 ^ 11 % 2) (omega arith),
        bit_or_above 12 mid (v / 2 ^ 12 % 2 ^ 8) (omega arith),
        bit_or_above 20 high (v / 2 ^ 20) (omega arith),
        e,
      )
      (sign_extend_lem 20 v (omega arith) h)

imm_u-u_type : (f : Fields) (v : ℕ) → InRange f → v < 2 ^ 20 → imm_u (u_type f v) ≡ v * 2 ^ 12
unfolding imm_u
imm_u-u_type f v w h =
    let i = u_type f v in omega (arith, bit_and_high 12 i 0xFFFFF, bit_and_low 20 (i / 2 ^ 12))

-- The fields that an I-format word carries besides its immediate.
pub fields-i_type :
    (f : Fields) (v : ℕ)
    → InRange f
    → v < 2 ^ 12
    → let i = i_type f v in
      (opcode_of i ≡ f.opcode) × (rd_of i ≡ f.rd) × (funct3_of i ≡ f.funct3) × (rs1_of i ≡ f.rs1)
unfolding opcode_of rd_of funct3_of rs1_of
fields-i_type f v w h =
    let i = i_type f v in
    (
      omega (arith, bit_and_low 7 i),
      omega (arith, bit_and_low 5 (i / 2 ^ 7)),
      omega (arith, bit_and_low 3 (i / 2 ^ 12)),
      omega (arith, bit_and_low 5 (i / 2 ^ 15)),
    )

pub fields-r_type :
    (f : Fields) (funct7 : ℕ)
    → InRange f
    → funct7 < 2 ^ 7
    → (rs2_of (r_type f funct7) ≡ f.rs2) × (funct7_of (r_type f funct7) ≡ funct7)
unfolding rs2_of funct7_of
fields-r_type f funct7 w h =
    let i = r_type f funct7 in
    (omega (arith, bit_and_low 5 (i / 2 ^ 20)), omega (arith, bit_and_low 7 (i / 2 ^ 25)))

-- An R-format word is an I-format word with funct7 and rs2 for its immediate.
pub low_fields-r_type :
    (f : Fields) (funct7 : ℕ)
    → InRange f
    → funct7 < 2 ^ 7
    → let i = r_type f funct7 in
      (opcode_of i ≡ f.opcode) × (rd_of i ≡ f.rd) × (funct3_of i ≡ f.funct3) × (rs1_of i ≡ f.rs1)
low_fields-r_type f funct7 w h =
    let e : r_type f funct7 ≡ i_type f (funct7 * 2 ^ 5 + f.rs2) = omega arith in
    rw e (fields-i_type f (funct7 * 2 ^ 5 + f.rs2) w (omega arith))

pub fields-b_type :
    (f : Fields) (v : ℕ)
    → InRange f
    → v < 2 ^ 13
    → let i = b_type f v in
      (opcode_of i ≡ f.opcode) × (funct3_of i ≡ f.funct3) × (rs1_of i ≡ f.rs1) × (rs2_of i ≡ f.rs2)
unfolding opcode_of funct3_of rs1_of rs2_of
fields-b_type f v w h =
    let i = b_type f v in
    (
      omega (arith, bit_and_low 7 i),
      omega (arith, bit_and_low 3 (i / 2 ^ 12)),
      omega (arith, bit_and_low 5 (i / 2 ^ 15)),
      omega (arith, bit_and_low 5 (i / 2 ^ 20)),
    )

pub fields-j_type :
    (f : Fields) (v : ℕ)
    → InRange f
    → v < 2 ^ 21
    → let i = j_type f v in (opcode_of i ≡ f.opcode) × (rd_of i ≡ f.rd)
unfolding opcode_of rd_of
fields-j_type f v w h =
    let i = j_type f v in (omega (arith, bit_and_low 7 i), omega (arith, bit_and_low 5 (i / 2 ^ 7)))

-- Decoding undoes the encoders of the RISC-V manual: for fields in range, the decoder takes from
-- an I, S, B, U and J word the immediate that was encoded, sign-extended to 32 bits (for B and J an
-- even offset of 13 and 21 bits, for U the upper 20 bits), from an I word its other fields, and from
-- an R word the second source register and funct7.
pub decode-encode :
    (f : Fields) (v7 v12 v13 v20 v21 : ℕ)
    → InRange f
    → v7 < 2 ^ 7
    → v12 < 2 ^ 12
    → v13 < 2 ^ 13
    → v13 % 2 ≡ 0
    → v20 < 2 ^ 20
    → v21 < 2 ^ 21
    → v21 % 2 ≡ 0
    → (imm_i (i_type f v12) ≡ extended 12 v12)
      × (imm_s (s_type f v12) ≡ extended 12 v12)
      × (imm_b (b_type f v13) ≡ extended 13 v13)
      × (imm_u (u_type f v20) ≡ v20 * 2 ^ 12)
      × (imm_j (j_type f v21) ≡ extended 21 v21)
      × (opcode_of (i_type f v12) ≡ f.opcode)
      × (rd_of (i_type f v12) ≡ f.rd)
      × (funct3_of (i_type f v12) ≡ f.funct3)
      × (rs1_of (i_type f v12) ≡ f.rs1)
      × (rs2_of (r_type f v7) ≡ f.rs2)
      × (funct7_of (r_type f v7) ≡ v7)
decode-encode f v7 v12 v13 v20 v21 w h7 h12 h13 e13 h20 h21 e21 =
    let (opcode, rd, funct3, rs1) = fields-i_type f v12 w h12 in
    let (rs2, funct7) = fields-r_type f v7 w h7 in
    (
      imm_i-i_type f v12 w h12,
      imm_s-s_type f v12 w h12,
      imm_b-b_type f v13 w h13 e13,
      imm_u-u_type f v20 w h20,
      imm_j-j_type f v21 w h21 e21,
      opcode,
      rd,
      funct3,
      rs1,
      rs2,
      funct7,
    )
