-- ===== src/Base/Bits.antt =====
-- Binary digits of a number, and the bit operations digit by digit.
mod Step
use Prim.Native.Nat.{
  ℕ, zero, suc, ◌+◌, ◌-◌, ◌*◌, ◌/◌, ◌%◌, ◌^◌, ◌≤◌, ◌<◌, min, max, bit_and, bit_or, bit_xor,
}
use mathlib.Core.Path.{◌≡◌, refl, sym, ap, ◌∙◌}
use native.Mathlib.Omega.{arith}
use native.Mathlib.Nat.{pow-suc, pow-succ', one-le-pow, div-div-eq-div-mul}
use riscv_emulator.Base.Tests.{◌==◌, ltb, if◌then◌else◌, to_nat}
use Step.{bit_or_step, bit_and_step, bit_xor_step}

-- Digit `k` of `a`, 0 or 1.
abbrev pub bit : ℕ → ℕ → ℕ
bit zero a = a % 2
bit (suc k) a = bit k (a / 2)

pub bit-bit_and : (k a b : ℕ) → bit k (bit_and a b) ≡ min (bit k a) (bit k b)
bit-bit_and zero a b = omega (arith, bit_and_step a b)
bit-bit_and (suc k) a b =
    ap (bit k) (omega (arith, bit_and_step a b)) ∙ bit-bit_and k (a / 2) (b / 2)

pub bit-bit_or : (k a b : ℕ) → bit k (bit_or a b) ≡ max (bit k a) (bit k b)
bit-bit_or zero a b = omega (arith, bit_or_step a b)
bit-bit_or (suc k) a b = ap (bit k) (omega (arith, bit_or_step a b)) ∙ bit-bit_or k (a / 2) (b / 2)

pub bit-bit_xor : (k a b : ℕ) → bit k (bit_xor a b) ≡ (bit k a + bit k b) % 2
bit-bit_xor zero a b = omega (arith, bit_xor_step a b)
bit-bit_xor (suc k) a b =
    ap (bit k) (omega (arith, bit_xor_step a b)) ∙ bit-bit_xor k (a / 2) (b / 2)

pub bit-lt : (k a : ℕ) → bit k a < 2
bit-lt zero a = omega arith
bit-lt (suc k) a = bit-lt k (a / 2)

pub bit-zero : (k : ℕ) → bit k 0 ≡ 0
bit-zero zero = refl
bit-zero (suc k) = bit-zero k

pub bit-pow : (k j : ℕ) → bit k (2 ^ j) ≡ to_nat (j == k)
bit-pow zero zero = refl
bit-pow zero (suc j) = ground (arith, pow-suc 2 j)
bit-pow (suc k) zero = ground (arith, bit-zero k)
bit-pow (suc k) (suc j) = ground (arith, pow-suc 2 j, bit-pow k j)

-- Digit by digit, subtraction from `2 ^ n - 1` is the complement.
pub bit-complement : (n k x : ℕ) → x < 2 ^ n → k < n → bit k (2 ^ n - 1 - x) ≡ 1 - bit k x
bit-complement zero k x fits h = absurd (omega arith)
bit-complement (suc n) zero x fits h = ground (arith, pow-suc 2 n)
bit-complement (suc n) (suc k) x fits h =
    ap (bit k) (omega (arith, pow-suc 2 n))
    ∙ bit-complement n k (x / 2) (omega (arith, pow-suc 2 n)) (omega arith)

-- Numbers with the same digits are equal.
bits_ext_fuel : (n a b : ℕ) → a ≤ n → b ≤ n → ((k : ℕ) → bit k a ≡ bit k b) → a ≡ b
bits_ext_fuel zero a b p q h = omega arith
bits_ext_fuel (suc n) a b p q h =
    omega (arith, h 0, bits_ext_fuel n (a / 2) (b / 2) (omega arith) (omega arith) (λ k. h (suc k)))

pub bits_ext : (a b : ℕ) → ((k : ℕ) → bit k a ≡ bit k b) → a ≡ b
bits_ext a b h = bits_ext_fuel (a + b) a b (omega arith) (omega arith) h

pub bit_and-zero : (a : ℕ) → bit_and a 0 ≡ 0
bit_and-zero a = bits_ext _ _ λ k. omega (arith, bit-bit_and k a 0, bit-zero k)

pub bit_or-zero : (a : ℕ) → bit_or a 0 ≡ a
bit_or-zero a = bits_ext _ _ λ k. omega (arith, bit-bit_or k a 0, bit-zero k)

twice_pow : (q k : ℕ) → q * 2 ^ suc k ≡ 2 * (q * 2 ^ k)
twice_pow q k = omega (arith, ap (λ (t : ℕ). q * t) (pow-suc 2 k))

-- A mask of `k` low ones takes the field below `2 ^ k`.
bit_and_field : (k q r : ℕ) → r < 2 ^ k → bit_and (q * 2 ^ k + r) (2 ^ k - 1) ≡ r
bit_and_field zero q r h = omega (arith, bit_and-zero (q * 1 + r))
bit_and_field (suc k) q r h = ground (
  arith,
  bit_and_step (q * 2 ^ suc k + r) (2 ^ suc k - 1),
  twice_pow q k,
  pow-suc 2 k,
  bit_and_field k q (r / 2) (omega (arith, pow-suc 2 k)),
)

pub bit_and_low : (k a : ℕ) → bit_and a (2 ^ k - 1) ≡ a % 2 ^ k
bit_and_low k a = ground (arith, one-le-pow k 2, bit_and_field k (a / 2 ^ k) (a % 2 ^ k))

-- `(q << k) | r` is a sum where `r` fits in `k` bits.
pub bit_or_disjoint : (k q r : ℕ) → r < 2 ^ k → bit_or (q * 2 ^ k) r ≡ q * 2 ^ k + r
bit_or_disjoint zero q r h = ground (arith, bit_or-zero q)
bit_or_disjoint (suc k) q r h = ground (
  arith,
  bit_or_step (q * 2 ^ suc k) r,
  twice_pow q k,
  pow-suc 2 k,
  bit_or_disjoint k q (r / 2) (omega (arith, pow-suc 2 k)),
)

pub shift-bit : (k a : ℕ) → a / 2 ^ k % 2 ≡ bit k a
shift-bit zero a = omega arith
shift-bit (suc k) a =
    ap (λ (t : ℕ). t % 2)
      (ap (λ (t : ℕ). a / t) (pow-succ' 2 k) ∙ sym (div-div-eq-div-mul a 2 (2 ^ k)))
    ∙ shift-bit k (a / 2)

-- `(a >> k) & 1` is digit `k`.
pub bit_and-shift : (k a : ℕ) → bit_and (a / 2 ^ k) 1 ≡ bit k a
bit_and-shift k a = bit_and_low 1 (a / 2 ^ k) ∙ shift-bit k a

pub pow_lt : (k n : ℕ) → k < n → 2 ^ k < 2 ^ n
pow_lt k zero h = absurd (omega arith)
pow_lt zero (suc n) h = omega (arith, pow-suc 2 n, one-le-pow n 2)
pow_lt (suc k) (suc n) h = omega (arith, pow-suc 2 k, pow-suc 2 n, pow_lt k n (omega arith))

pub bit_or_comm : (a b : ℕ) → bit_or a b ≡ bit_or b a
bit_or_comm a b = bits_ext _ _ λ k. omega (arith, bit-bit_or k a b, bit-bit_or k b a)

-- Exclusive or with the top digit `2 ^ k` turns that digit over.
pub bit_xor_top :
    (k v : ℕ) → v < 2 ^ suc k → bit_xor v (2 ^ k) ≡ (if ltb v (2 ^ k) then v + 2 ^ k else v - 2 ^ k)
bit_xor_top zero zero h = refl
bit_xor_top zero (suc zero) h = refl
bit_xor_top zero (suc (suc v)) h = absurd (omega arith)
bit_xor_top (suc k) v h =
    ground
      (arith, bit_xor_step v (2 ^ suc k), pow-suc 2 k, pow-suc 2 (suc k), bit_xor_top k (v / 2))

-- A mask with `k` zeros at the end.
pub bit_and_high : (k a m : ℕ) → bit_and a (m * 2 ^ k) ≡ bit_and (a / 2 ^ k) m * 2 ^ k
bit_and_high zero a m = ground arith
bit_and_high (suc k) a m = ground (
  arith,
  bit_and_step a (m * 2 ^ suc k),
  twice_pow m k,
  twice_pow (bit_and (a / 2 ^ suc k) m) k,
  bit_and_high k (a / 2) m,
  ap (λ (t : ℕ). a / t) (pow-succ' 2 k) ∙ sym (div-div-eq-div-mul a 2 (2 ^ k)),
)

pub zero_bit_and : (a : ℕ) → bit_and 0 a ≡ 0
zero_bit_and a = bits_ext _ _ λ k. omega (arith, bit-bit_and k 0 a, bit-zero k)

bit_and_le_fuel : (n a b : ℕ) → a ≤ n → bit_and a b ≤ a
bit_and_le_fuel zero zero b h = omega (arith, zero_bit_and b)
bit_and_le_fuel zero (suc a) b h = absurd (omega arith)
bit_and_le_fuel (suc n) a b h =
    omega (arith, bit_and_step a b, bit_and_le_fuel n (a / 2) (b / 2) (omega arith))

pub bit_and_le : (a b : ℕ) → bit_and a b ≤ a
bit_and_le a b = bit_and_le_fuel a a b (omega arith)

pub bit_or_lt : (k a b : ℕ) → a < 2 ^ k → b < 2 ^ k → bit_or a b < 2 ^ k
bit_or_lt zero zero zero ha hb = omega arith
bit_or_lt zero (suc a) b ha hb = absurd (omega arith)
bit_or_lt zero zero (suc b) ha hb = absurd (omega arith)
bit_or_lt (suc k) a b ha hb = omega (
  arith,
  bit_or_step a b,
  pow-suc 2 k,
  bit_or_lt k (a / 2) (b / 2) (omega (arith, pow-suc 2 k)) (omega (arith, pow-suc 2 k)),
)

pub bit_xor_lt : (k a b : ℕ) → a < 2 ^ k → b < 2 ^ k → bit_xor a b < 2 ^ k
bit_xor_lt zero zero zero ha hb = omega arith
bit_xor_lt zero (suc a) b ha hb = absurd (omega arith)
bit_xor_lt zero zero (suc b) ha hb = absurd (omega arith)
bit_xor_lt (suc k) a b ha hb = omega (
  arith,
  bit_xor_step a b,
  pow-suc 2 k,
  bit_xor_lt k (a / 2) (b / 2) (omega (arith, pow-suc 2 k)) (omega (arith, pow-suc 2 k)),
)

pub bit_and_le_right : (a b : ℕ) → bit_and a b ≤ b
bit_and_le_right a b =
    let e : bit_and a b ≡ bit_and b a =
      bits_ext _ _ (λ k. omega (arith, bit-bit_and k a b, bit-bit_and k b a)) in
    omega (arith, bit_and_le b a)
