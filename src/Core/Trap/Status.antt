-- ===== src/Core/Trap/Status.antt =====
-- The bits of mstatus that traps and MRET change.
use riscv_emulator.Base.{
  ℕ, ◌*◌, ◌/◌, ◌%◌, ◌^◌, ◌<◌, ◌≡◌, ◌∙◌, zero, suc, max, ◌||◌, bit_and, bit_or, arith, ◌==◌,
  if◌then◌else◌, bit, bit-bit_and, bit-bit_or, bit-pow, bit-zero, bit-complement, bit-lt,
  bit_and-shift, bit_and_low, shift-bit, pow_lt,
}
use riscv_emulator.Word.{not32, shl32}
use riscv_emulator.Core.Trap.{bit_at, machine_status, returned_status}

bit-field : (k : ℕ) → bit k 0x1800 ≡ (if k == 11 || k == 12 then 1 else 0)
bit-field k = ground (arith, bit-bit_or k (2 ^ 11) (2 ^ 12), bit-pow k 11, bit-pow k 12)

-- A register with the bits of a mask cleared.
bit-cleared :
    (k s j : ℕ)
    → k < 32
    → j < 32
    → bit k (bit_and s (not32 (2 ^ j))) ≡ (if k == j then 0 else bit k s)
bit-cleared k s j hk hj = ground (
  arith,
  bit-bit_and k s (not32 (2 ^ j)),
  bit-complement 32 k (2 ^ j) (pow_lt j 32 hj) hk,
  bit-pow k j,
  bit-lt k s,
)

bit-unfielded :
    (k s : ℕ)
    → k < 32
    → bit k (bit_and s (not32 0x1800)) ≡ (if k == 11 || k == 12 then 0 else bit k s)
bit-unfielded k s hk = ground (
  arith,
  bit-bit_and k s (not32 0x1800),
  bit-complement 32 k 0x1800 (omega arith) hk,
  bit-field k,
  bit-lt k s,
)

-- A bit at place `j`.
bit-placed : (k b j : ℕ) → b < 2 → j < 32 → bit k (shl32 b j) ≡ (if k == j then b else 0)
bit-placed k zero j h hj = ground (arith, bit-zero k)
bit-placed k (suc zero) j h hj =
    let small : 1 * 2 ^ j % 2 ^ 32 ≡ 2 ^ j = ground (arith, pow_lt j 32 hj) in
    rw (small, bit-pow k j) (ground arith)
bit-placed k (suc (suc b)) j h hj = absurd (omega arith)

-- One bit moved from place `i` to place `j`.
bit-moved : (k s i j : ℕ) → j < 32 → bit k (shl32 (bit_at s i) j) ≡ (if k == j then bit i s else 0)
bit-moved k s i j hj = rw (bit_and-shift i s) (bit-placed k (bit i s) j (bit-lt i s) hj)

-- The two bits of a privilege level.
bit-privilege :
    (k p : ℕ)
    → p < 4
    → bit k (shl32 p 11) ≡ (if k == 11 then bit 0 p else if k == 12 then bit 1 p else 0)
bit-privilege k zero h = ground (arith, bit-zero k)
bit-privilege k (suc zero) h = ground (arith, bit-pow k 11)
bit-privilege k (suc (suc zero)) h = ground (arith, bit-pow k 12)
bit-privilege k (suc (suc (suc zero))) h = ground (arith, bit-field k)
bit-privilege k (suc (suc (suc (suc p)))) h = absurd (omega arith)

-- The status that a machine trap from privilege `p` writes: MIE (bit 3) is cleared, MPIE (7) is set
-- where MIE or MPIE was, and MPP (12:11) is `p`.
pub bit-machine_status :
    (k s p : ℕ)
    → k < 32
    → p < 4
    → bit k (machine_status s p) ≡ (
        if k == 3
        then 0
        else if k == 7
        then max (bit 3 s) (bit 7 s)
        else if k == 11
        then bit 0 p
        else if k == 12
        then bit 1 p
        else bit k s)
bit-machine_status k s p hk hp =
    let cleared = bit_and (bit_and s (not32 0x1800)) (not32 0x8) in
    let saved = shl32 (bit_at s 3) 7 in
    ground (
      arith,
      bit-bit_or k (bit_or cleared saved) (shl32 p 11),
      bit-bit_or k cleared saved,
      bit-cleared k (bit_and s (not32 0x1800)) 3 hk (omega arith),
      bit-unfielded k s hk,
      bit-moved k s 3 7 (omega arith),
      bit-privilege k p hp,
      bit-lt k s,
      bit-lt 0 p,
      bit-lt 1 p,
      bit-lt 3 s,
    )

-- The status that MRET writes.
pub bit-returned_status :
    (k s : ℕ)
    → k < 32
    → bit k (returned_status s)
      ≡ (if k == 3 then bit 7 s else if k == 7 || (k == 11 || k == 12) then 1 else bit k s)
bit-returned_status k s hk =
    let low = bit_and s (not32 0x8) in
    let enabled = bit_or low (shl32 (bit_at s 7) 3) in
    let saved = bit_or (bit_and enabled (not32 0x80)) 0x80 in
    ground (
      arith,
      bit-bit_or k (bit_and saved (not32 0x1800)) (shl32 0x3 11),
      bit-unfielded k saved hk,
      bit-privilege k 3,
      bit-bit_or k (bit_and enabled (not32 0x80)) 0x80,
      bit-pow k 7,
      bit-cleared k enabled 7 hk (omega arith),
      bit-bit_or k low (shl32 (bit_at s 7) 3),
      bit-cleared k s 3 hk (omega arith),
      bit-moved k s 7 3 (omega arith),
      bit-lt k s,
      bit-lt 7 s,
    )

-- The previous privilege level, as MRET reads it.
pub mpp-machine_status : (s p : ℕ) → p < 4 → bit_and (machine_status s p / 2 ^ 11) 0x3 ≡ p
mpp-machine_status s p hp =
    let t = machine_status s p in
    let b0 : t / 2 ^ 11 % 2 ≡ bit 0 p =
      shift-bit 11 t ∙ bit-machine_status 11 s p (omega arith) hp in
    let b1 : t / 2 ^ 12 % 2 ≡ bit 1 p =
      shift-bit 12 t ∙ bit-machine_status 12 s p (omega arith) hp in
    omega (arith, bit_and_low 2 (t / 2 ^ 11))
