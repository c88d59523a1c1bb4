-- ===== src/Word/Laws.antt =====
-- Casts between uint32_t and int32_t, and how they meet the arithmetic.
use riscv_emulator.Base.{ℕ, ◌+◌, ◌-◌, ◌*◌, ◌%◌, ◌^◌, ◌<◌, ◌≡◌, arith}
use riscv_emulator.Word.{ℤ, pos, negsuc, to_int, of_int, mul_int}

pub of_int-to_int : (w : ℕ) → w < 2 ^ 32 → of_int (to_int w) ≡ w
of_int-to_int w h = ground arith

pub of_int-lt : (z : ℤ) → of_int z < 2 ^ 32
of_int-lt (pos n) = omega arith
of_int-lt (negsuc n) = omega arith

pub u32_product_neg : (a b : ℕ) → b < 2 ^ 32 → a * (2 ^ 32 - b) + a * b ≡ a * 2 ^ 32
u32_product_neg a b h = grind arith

-- The low word of a product does not depend on how the factors are read.
pub of_int-mul_int :
    (a b : ℕ) → a < 2 ^ 32 → b < 2 ^ 32 → of_int (mul_int (to_int a) (to_int b)) ≡ a * b % 2 ^ 32
of_int-mul_int a b ha hb =
    ground
      (arith, u32_product_neg a b hb, u32_product_neg b a ha, u32_product_neg (2 ^ 32 - a) b hb)
