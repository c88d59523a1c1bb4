-- ===== src/Memory/Cache/Geometry.antt =====
-- The arithmetic of tags, sets and offsets.
use native.Mathlib.Nat.{
  div-add-mod', mul-add-div_right, mul-add-mod_self_right, div-eq_of_lt, div-lt_iff_lt-mul,
  mul-lt-mul_of_pos_left, pow-suc, div-div-eq-div-mul, one-le-pow, mod-eq_of_lt,
}
use riscv_emulator.Base.{
  ℕ, zero, suc, ◌+◌, ◌-◌, ◌*◌, ◌/◌, ◌%◌, ◌^◌, ◌≤◌, ◌<◌, ◌≡◌, refl, sym, ap, ◌∙◌, arith, bit_and,
  bit_and_low, bit_and_high, bit_or_disjoint, pow_lt, Bool-cases, inl, inr, ◌==◌,
}
use riscv_emulator.Word.{not32, shl32, shr32}
use riscv_emulator.Memory.Cache.{
  Cache, get_tag, get_set_index, get_block_offset, get_block_address, line_address,
}

-- The parameters that `calculate_parameters` computes, where the number of sets is at least a power of two.
pub record IsGeometry (c : Cache) : Type 0 where
  pub block : c.config.block_size ≡ 2 ^ c.block_offset_bits
  pub whole_words : c.config.block_size % 4 ≡ 0
  pub shift : c.tag_shift ≡ c.block_offset_bits + c.set_index_bits
  pub sets : 2 ^ c.set_index_bits ≤ c.num_sets
  pub fits : c.tag_shift ≤ 32

abbrev pub sets_of : Cache → ℕ
sets_of c = 2 ^ c.set_index_bits

-- The first address of way `w` of set `s`, where the line has the tag `tag`.
abbrev pub base_of : Cache → ℕ → ℕ → ℕ
base_of c s tag = (tag * sets_of c + s) * c.config.block_size

regroup : (x y : ℕ) → x * y * 2 ≡ x * 2 * y
regroup x y = grind arith

-- A product without its last multiple, and sums of products.
all_but_last : (k B n : ℕ) → B * k ≡ n → 0 < k → 0 < B → B ≤ n → n - 1 - (B - 1) ≡ (k - 1) * B
all_but_last zero B n h p q r = elim p [ ]
all_but_last (suc k) B n h p q r = grind arith

line_sum : (t B S s : ℕ) → t * (B * S) + s * B ≡ (t * S + s) * B
line_sum t B S s = grind arith

below_product : (s S B : ℕ) → s < S → 0 < B → s * B < B * S
below_product s S B h p = grind (arith, mul-lt-mul_of_pos_left {m = s} {n = S} {k = B} h p)

pub pow_add : (a b : ℕ) → 2 ^ (a + b) ≡ 2 ^ a * 2 ^ b
pow_add zero b = let e : 0 + b ≡ b = omega arith in rw e (omega arith)
pow_add (suc a) b =
    let e : suc a + b ≡ suc (a + b) = omega arith in
    rw (e, pow-suc 2 (a + b), pow-suc 2 a, pow_add a b) (regroup (2 ^ a) (2 ^ b))

-- A number by its quotient and its remainder.
div_unique : (q r n : ℕ) → r < n → (q * n + r) / n ≡ q
div_unique q r n h = omega (arith, mul-add-div_right {m = n} (omega arith) q r, div-eq_of_lt h)

mod_unique : (q r n : ℕ) → r < n → (q * n + r) % n ≡ r
mod_unique q r n h = mul-add-mod_self_right q n r ∙ mod-eq_of_lt h

pow_le : (b n : ℕ) → b ≤ n → 2 ^ b ≤ 2 ^ n
pow_le b n h = elim (Bool-cases (b == n)) [
  | inl same ↦ let e : b ≡ n = ground arith in rw e (omega arith)
  | inr less ↦ omega (arith, pow_lt b n (ground arith))
]

module _ (c : Cache) (g : IsGeometry c) where
  pub block_pos : 0 < c.config.block_size
  block_pos = omega (arith, g.block, one-le-pow c.block_offset_bits 2)

  pub sets_pos : 0 < sets_of c
  sets_pos = one-le-pow c.set_index_bits 2 (omega arith)

  pub set_lem : (a : ℕ) → get_set_index c a ≡ a / c.config.block_size % sets_of c
  set_lem a = bit_and_low c.set_index_bits (shr32 a c.block_offset_bits) ∙ rw g.block refl

  pub tag_lem : (a : ℕ) → get_tag c a ≡ a / c.config.block_size / sets_of c
  tag_lem a =
      ap (λ (n : ℕ). a / n)
        (ap (λ (k : ℕ). 2 ^ k) g.shift ∙ pow_add c.block_offset_bits c.set_index_bits)
      ∙ sym (div-div-eq-div-mul a (2 ^ c.block_offset_bits) (sets_of c))
      ∙ ap (λ (n : ℕ). a / n / sets_of c) (sym g.block)

  pub offset_lem : (a : ℕ) → get_block_offset c a ≡ a % c.config.block_size
  offset_lem a =
      ap (λ (n : ℕ). bit_and a (n - 1)) g.block
      ∙ bit_and_low c.block_offset_bits a
      ∙ ap (λ (n : ℕ). a % n) (sym g.block)

  pub address_lem :
      (a : ℕ) → a < 2 ^ 32 → get_block_address c a ≡ a / c.config.block_size * c.config.block_size
  address_lem a h =
      let b = c.block_offset_bits in
      let k = 32 - b in
      let B = 2 ^ b in
      let split : B * 2 ^ k ≡ 2 ^ 32 =
        sym (pow_add b k)
        ∙ ap (λ (n : ℕ). 2 ^ n) {x = b + k} {y = 32} (omega (arith, g.fits, g.shift)) in
      let positive = one-le-pow k 2 (omega arith) in
      let block = g.block in
      let mask : not32 (c.config.block_size - 1) ≡ (2 ^ k - 1) * B =
        ap (λ (n : ℕ). not32 (n - 1)) block
        ∙ all_but_last (2 ^ k) B (2 ^ 32) split positive (one-le-pow b 2 (omega arith))
            (pow_le b 32 (omega (arith, g.fits, g.shift))) in
      let fits : a / B < 2 ^ k =
        (div-lt_iff_lt-mul {k = B} {x = a} {y = 2 ^ k} (one-le-pow b 2 (omega arith))).1
          (grind arith) in
      ap (bit_and a) mask
      ∙ bit_and_high b a (2 ^ k - 1)
      ∙ ap (λ (n : ℕ). n * B) (bit_and_low k (a / B) ∙ mod-eq_of_lt fits)
      ∙ ap (λ (n : ℕ). a / n * n) (sym g.block)

  pub line_lem :
      (s w : ℕ)
      → s < sets_of c
      → base_of c s (c.cache_entries s w).tag < 2 ^ 32
      → line_address c s w ≡ base_of c s (c.cache_entries s w).tag
  line_lem s w h fits =
      let b = c.block_offset_bits in
      let t = (c.cache_entries s w).tag in
      let B = 2 ^ b in
      let S = sets_of c in
      let wide : 2 ^ c.tag_shift ≡ B * S =
        ap (λ (n : ℕ). 2 ^ n) g.shift ∙ pow_add b c.set_index_bits in
      let sum : t * 2 ^ c.tag_shift + s * B ≡ base_of c s t =
        ap (λ (n : ℕ). t * n + s * B) wide
        ∙ line_sum t B S s
        ∙ ap (λ (n : ℕ). (t * S + s) * n) (sym g.block) in
      let low : s * B < 2 ^ c.tag_shift =
        rw wide (below_product s S B h (one-le-pow b 2 (omega arith))) in
      let left : shl32 t c.tag_shift ≡ t * 2 ^ c.tag_shift = mod-eq_of_lt (omega arith) in
      let right : shl32 s b ≡ s * B = mod-eq_of_lt (omega arith) in
      rw (left, right) (bit_or_disjoint c.tag_shift t (s * B) low ∙ sum)

  -- Every address is in the line of its set and tag.
  pub base-address :
      (a : ℕ)
      → base_of c (get_set_index c a) (get_tag c a) ≡ a / c.config.block_size * c.config.block_size
  base-address a =
      ap (λ (n : ℕ). n * c.config.block_size)
        (ap (λ (t : ℕ). t * sets_of c + get_set_index c a) (tag_lem a)
          ∙ ap (λ (s : ℕ). a / c.config.block_size / sets_of c * sets_of c + s) (set_lem a)
          ∙ div-add-mod' (a / c.config.block_size) (sets_of c))

  -- And an address in a line has that line's set and tag.
  pub set-base :
      (s t r : ℕ)
      → s < sets_of c
      → r < c.config.block_size
      → get_set_index c (base_of c s t + r) ≡ s
  set-base s t r hs hr =
      set_lem (base_of c s t + r)
      ∙ ap (λ (n : ℕ). n % sets_of c) (div_unique (t * sets_of c + s) r c.config.block_size hr)
      ∙ mod_unique t s (sets_of c) hs

  pub tag-base :
      (s t r : ℕ) → s < sets_of c → r < c.config.block_size → get_tag c (base_of c s t + r) ≡ t
  tag-base s t r hs hr =
      tag_lem (base_of c s t + r)
      ∙ ap (λ (n : ℕ). n / sets_of c) (div_unique (t * sets_of c + s) r c.config.block_size hr)
      ∙ div_unique t s (sets_of c) hs
