-- ===== src/Base/Bits/Step.antt =====
-- The lowest digit of `bit_and`, `bit_or` and `bit_xor`, split off. Their definition counts digits
-- from the first number down; any count that is large enough gives the same.
use Prim.Native.Nat.{
  ℕ, zero, suc, ◌+◌, ◌*◌, ◌/◌, ◌%◌, ◌≤◌, ◌<◌, min, max, bit_and, bit_or, bit_xor, digits, bitwise,
  bit_and-bitwise, bit_or-bitwise, bit_xor-bitwise, differ,
}
use mathlib.Core.Path.{◌≡◌, refl, sym, ap, ◌∙◌}
use native.Mathlib.Omega.{arith}

settled :
    (last : ℕ → ℕ) (op : ℕ → ℕ → ℕ) (bound count x y : ℕ)
    → count ≤ bound
    → x ≤ count
    → digits last op count x y ≡ bitwise last op x y
settled last op bound count zero y small fits = no_digits count
  where
    no_digits : (n : ℕ) → digits last op n zero y ≡ last y
    no_digits zero = refl
    no_digits (suc n) = refl
settled last op bound zero (suc x) y small fits = absurd (omega arith)
settled last op zero (suc count) (suc x) y small fits = absurd (omega arith)
settled last op (suc bound) (suc count) (suc x) y small fits =
    let half = suc x / 2 in
    let long : digits last op count half (y / 2) ≡ bitwise last op half (y / 2) =
      settled last op bound count half (y / 2) (omega arith) (omega arith) in
    let short : digits last op x half (y / 2) ≡ bitwise last op half (y / 2) =
      settled last op bound x half (y / 2) (omega arith) (omega arith) in
    ap (λ t. t * 2 + op (suc x % 2) (y % 2)) (long ∙ sym short)

-- The digits of a number that has one.
split_lowest :
    (last : ℕ → ℕ) (op : ℕ → ℕ → ℕ) (x y : ℕ)
    → bitwise last op (suc x) y ≡ bitwise last op (suc x / 2) (y / 2) * 2 + op (suc x % 2) (y % 2)
split_lowest last op x y =
    ap (λ t. t * 2 + op (suc x % 2) (y % 2))
      (settled last op x x (suc x / 2) (y / 2) (omega arith) (omega arith))

pub bit_and_step : (x y : ℕ) → bit_and x y ≡ min (x % 2) (y % 2) + 2 * bit_and (x / 2) (y / 2)
bit_and_step zero y = simp bit_and-bitwise (omega arith)
bit_and_step (suc x) y =
    let split = split_lowest (λ rest. 0) min x y in simp bit_and-bitwise (omega (arith, split))

pub bit_or_step : (x y : ℕ) → bit_or x y ≡ max (x % 2) (y % 2) + 2 * bit_or (x / 2) (y / 2)
bit_or_step zero y = simp bit_or-bitwise (omega arith)
bit_or_step (suc x) y =
    let split = split_lowest (λ rest. rest) max x y in simp bit_or-bitwise (omega (arith, split))

differ_digits : (x y : ℕ) → x < 2 → y < 2 → differ x y ≡ (x + y) % 2
differ_digits zero y p q = omega arith
differ_digits (suc x) zero p q = omega arith
differ_digits (suc zero) (suc zero) p q = refl
differ_digits (suc zero) (suc (suc y)) p q = absurd (omega arith)
differ_digits (suc (suc x)) (suc y) p q = absurd (omega arith)

pub bit_xor_step : (a b : ℕ) → bit_xor a b ≡ bit_xor (a / 2) (b / 2) * 2 + (a % 2 + b % 2) % 2
bit_xor_step zero b = simp bit_xor-bitwise (omega arith)
bit_xor_step (suc a) b =
    rw (← differ_digits (suc a % 2) (b % 2) (omega arith) (omega arith))
      (simp bit_xor-bitwise (split_lowest (λ rest. rest) differ a b))
