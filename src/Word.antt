-- ===== src/Word.antt =====
-- The fixed-width arithmetic of C++. A uint32_t is a number below 2 ^ 32 and an int32_t its bit
-- pattern; `to_int` is the integer that the pattern stands for, and `of_int` the cast back, modulo
-- 2 ^ 32. `negsuc n` is -(n + 1). `-` on ℕ stops at 0, so 2 ^ 32 is added first.
pub mod Laws
pub mod Division
use riscv_emulator.Base.{
  ℕ, ◌+◌, ◌-◌, ◌*◌, ◌/◌, ◌%◌, ◌^◌, suc, Bool, true, false, ltb, ◌==◌, if◌then◌else◌,
}

pub data ℤ : Type 0 where
  pos negsuc : ℕ → ℤ

abbrev pub u32 : ℕ → ℕ
u32 n = n % 2 ^ 32

abbrev pub sub32 : ℕ → ℕ → ℕ
sub32 a b = (a + 2 ^ 32 - b) % 2 ^ 32

-- `~a`.
abbrev pub not32 : ℕ → ℕ
not32 a = 2 ^ 32 - 1 - a

-- `a << k` and `a >> k` of uint32_t.
abbrev pub shl32 : ℕ → ℕ → ℕ
shl32 a k = a * 2 ^ k % 2 ^ 32

abbrev pub shr32 : ℕ → ℕ → ℕ
shr32 a k = a / 2 ^ k

abbrev pub to_int : ℕ → ℤ
to_int w = if ltb w (2 ^ 31) then pos w else negsuc (2 ^ 32 - w - 1)

abbrev pub of_int : ℤ → ℕ
of_int (pos n) = n % 2 ^ 32
of_int (negsuc n) = 2 ^ 32 - 1 - n % 2 ^ 32

-- A sign and a magnitude.
abbrev pub is_negative : ℤ → Bool
is_negative (pos n) = false
is_negative (negsuc n) = true

abbrev pub magnitude : ℤ → ℕ
magnitude (pos n) = n
magnitude (negsuc n) = suc n

abbrev pub signed : Bool → ℕ → ℤ
signed false n = pos n
signed true n = if n == 0 then pos 0 else negsuc (n - 1)

abbrev pub differ : Bool → Bool → Bool
differ false b = b
differ true false = true
differ true true = false

abbrev pub lt_int : ℤ → ℤ → Bool
lt_int (pos a) (pos b) = ltb a b
lt_int (pos a) (negsuc b) = false
lt_int (negsuc a) (pos b) = true
lt_int (negsuc a) (negsuc b) = ltb b a

abbrev pub mul_int : ℤ → ℤ → ℤ
mul_int a b = signed (differ (is_negative a) (is_negative b)) (magnitude a * magnitude b)

-- `/` and `%` of C++ round towards zero: the remainder has the dividend's sign.
abbrev pub quot_int : ℤ → ℤ → ℤ
quot_int a b = signed (differ (is_negative a) (is_negative b)) (magnitude a / magnitude b)

abbrev pub rem_int : ℤ → ℤ → ℤ
rem_int a b = signed (is_negative a) (magnitude a % magnitude b)

-- `>>` of a signed integer rounds down.
abbrev pub sar_int : ℤ → ℕ → ℤ
sar_int (pos n) k = pos (n / 2 ^ k)
sar_int (negsuc n) k = negsuc (n / 2 ^ k)
