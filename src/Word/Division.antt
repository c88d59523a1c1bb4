-- ===== src/Word/Division.antt =====
-- Signed division and remainder, and how their words add up to the dividend.
use native.Mathlib.Nat.{div-add-mod', mod-lt}
use riscv_emulator.Base.{
  ℕ, zero, suc, ◌+◌, ◌-◌, ◌*◌, ◌/◌, ◌%◌, ◌^◌, ◌≤◌, ◌<◌, ◌≡◌, ◌⊎◌, refl, sym, ap, ◌∙◌, Bool, true,
  false, arith,
}
use riscv_emulator.Word.{to_int, of_int, signed, differ, is_negative, magnitude, quot_int, rem_int}
use riscv_emulator.Word.Laws.{u32_product_neg}

pub magnitude-le : (x : ℕ) → x < 2 ^ 32 → magnitude (to_int x) ≤ 2 ^ 31
magnitude-le x h = ground arith

pub to_int-signed : (b : Bool) (n : ℕ) → n < 2 ^ 31 → to_int (of_int (signed b n)) ≡ signed b n
to_int-signed true n h = ground arith
to_int-signed false n h = ground arith

pub magnitude-signed : (b : Bool) (n : ℕ) → magnitude (signed b n) ≡ n
magnitude-signed true n = ground arith
magnitude-signed false n = refl

pub is_negative-signed : (b : Bool) (n : ℕ) → (n ≡ 0) ⊎ (is_negative (signed b n) ≡ b)
is_negative-signed true n = ground arith
is_negative-signed false n = ground arith

pub to_int-eq-signed :
    (x : ℕ) → x < 2 ^ 32 → x ≡ of_int (signed (is_negative (to_int x)) (magnitude (to_int x)))
to_int-eq-signed x h = ground arith

negative : (n : ℕ) → n ≤ 2 ^ 31 → of_int (signed true n) ≡ (2 ^ 32 - n) % 2 ^ 32
negative n h = ground arith

factor-le : (q d : ℕ) → 0 < d → q ≤ q * d
factor-le q d h = grind arith

mixed_signs :
    (q d r n : ℕ)
    → n ≡ suc q * d + r
    → r < d
    → d ≤ 2 ^ 31
    → n ≤ 2 ^ 31
    → ((2 ^ 32 - suc q) % 2 ^ 32 * (d % 2 ^ 32) + (2 ^ 32 - r) % 2 ^ 32) % 2 ^ 32
      ≡ (2 ^ 32 - n) % 2 ^ 32
mixed_signs q d r n e hr hd hn =
    let small : (2 ^ 32 - suc q) % 2 ^ 32 ≡ 2 ^ 32 - suc q = omega (arith, factor-le (suc q) d) in
    let same : d % 2 ^ 32 ≡ d = omega arith in
    rw (small, same) (omega (arith, factor-le (suc q) d, u32_product_neg d (suc q)))

recompose :
    (a b : Bool) (q d r n : ℕ)
    → n ≡ q * d + r
    → r < d
    → d ≤ 2 ^ 31
    → n ≤ 2 ^ 31
    → (of_int (signed (differ a b) q) * of_int (signed b d) + of_int (signed a r)) % 2 ^ 32
      ≡ of_int (signed a n)
recompose false false q d r n e hr hd hn = ground (arith, factor-le q d)
recompose false true q d r n e hr hd hn =
    ground (arith, factor-le q d, u32_product_neg (2 ^ 32 - q) d, u32_product_neg d q)
recompose true false zero d r n e hr hd hn = ground arith
recompose true false (suc q) d r n e hr hd hn =
    let q-le : suc q ≤ 2 ^ 31 = omega (arith, factor-le (suc q) d) in
    let r-le : r ≤ 2 ^ 31 = omega arith in
    cc (negative (suc q) q-le, negative r r-le, negative n hn, mixed_signs q d r n e hr hd hn)
recompose true true q d r n e hr hd hn = ground (arith, factor-le q d, u32_product_neg q d)

divisor_pos : (y : ℕ) → y < 2 ^ 32 → 0 < y → 0 < magnitude (to_int y)
divisor_pos y h p = ground arith

-- The word of the quotient times the divisor, plus the word of the remainder, is the dividend.
pub quot-rem :
    (x y : ℕ)
    → x < 2 ^ 32
    → y < 2 ^ 32
    → 0 < y
    → (of_int (quot_int (to_int x) (to_int y)) * y + of_int (rem_int (to_int x) (to_int y)))
        % 2 ^ 32
      ≡ x
quot-rem x y hx hy p =
    ap
      (λ (t : ℕ).
        (of_int (quot_int (to_int x) (to_int y)) * t + of_int (rem_int (to_int x) (to_int y)))
        % 2 ^ 32)
      (to_int-eq-signed y hy)
    ∙ recompose (is_negative (to_int x)) (is_negative (to_int y)) (n / d) d (n % d) n
        (sym (div-add-mod' n d)) (mod-lt n (divisor_pos y hy p)) (magnitude-le y hy)
        (magnitude-le x hx)
    ∙ sym (to_int-eq-signed x hx)
  where
    n : ℕ
    n = magnitude (to_int x)

    d : ℕ
    d = magnitude (to_int y)

-- The remainder is smaller than the divisor and has the dividend's sign, unless it is 0.
pub rem-small :
    (x y : ℕ)
    → x < 2 ^ 32
    → y < 2 ^ 32
    → 0 < y
    → let r = to_int (of_int (rem_int (to_int x) (to_int y))) in
      (magnitude r < magnitude (to_int y))
      × ((magnitude r ≡ 0) ⊎ (is_negative r ≡ is_negative (to_int x)))
rem-small x y hx hy p =
    rw
      (
        to_int-signed a (n % d) (omega (arith, small, magnitude-le y hy)),
        magnitude-signed a (n % d),
      )
      (small, is_negative-signed a (n % d))
  where
    n : ℕ
    n = magnitude (to_int x)

    d : ℕ
    d = magnitude (to_int y)

    a : Bool
    a = is_negative (to_int x)

    small : n % d < d
    small = mod-lt n (divisor_pos y hy p)
