-- ===== src/Memory/Cache/Create.antt =====
-- A new cache: the constructor of Cache.cpp, for the configurations that are used.
use native.Mathlib.Nat.{
  pow-suc, mul-div_left, mul-mod_left, one-le-mul, mul-le-mul_left, one-le-pow, mod-eq_of_lt,
}
use riscv_emulator.Base.{
  ℕ, zero, suc, ◌+◌, ◌-◌, ◌*◌, ◌/◌, ◌%◌, ◌^◌, ◌≤◌, ◌<◌, ◌≡◌, refl, ap, ◌∙◌, arith, true, false,
  none, some, ltb, leb, Bool-cases, inl, inr, bit_and, bit_and_low, pow_lt,
}
use riscv_emulator.Word.{u32}
use riscv_emulator.Memory.Interface.{MemoryInterface, Implements}
use riscv_emulator.Memory.Mmu.Lru.{indices}
use riscv_emulator.Memory.Cache.Stats.{zero_stats}
use riscv_emulator.Memory.Cache.{
  empty_entry, Cache, CacheConfig, log2, log2_within, is_legal, create,
}
use riscv_emulator.Memory.Cache.Geometry.{IsGeometry, pow_add}
use riscv_emulator.Memory.Cache.Search.{IsLru, IsLru-indices}
use riscv_emulator.Memory.Cache.Lines.{content, content-miss}
use riscv_emulator.Memory.Cache.Hold.{IsSound}

-- The logarithm of a power, and the power below a number.
log2_within-pow : (fuel b : ℕ) → b ≤ fuel → log2_within fuel (2 ^ b) ≡ b
unfolding log2_within
log2_within-pow zero b h = omega arith
log2_within-pow (suc fuel) zero h = ground arith
log2_within-pow (suc fuel) (suc b) h =
    let positive = one-le-pow b 2 (omega arith) in
    let double = pow-suc 2 b in
    let large : ltb (2 ^ suc b) 2 ≡ false = ground arith in
    let half : 2 ^ suc b / 2 ≡ 2 ^ b = omega arith in
    rw (large, half, log2_within-pow fuel b (omega arith)) (omega arith)

pow-log2_within : (fuel n : ℕ) → 0 < n → 2 ^ log2_within fuel n ≤ n
unfolding log2_within
pow-log2_within zero n h = omega arith
pow-log2_within (suc fuel) n h = elim (Bool-cases (ltb n 2)) [
  | inl small ↦ rw small (omega arith)
  | inr large ↦
      let two : 2 ≤ n = ground arith in
      let half = pow-log2_within fuel (n / 2) (omega arith) in
      let next : log2_within fuel (n / 2) + 1 ≡ suc (log2_within fuel (n / 2)) = omega arith in
      rw (large, next, pow-suc 2 (log2_within fuel (n / 2))) (omega arith)
]

-- A power below 2 ^ 32 has a small exponent.
small_power : (n : ℕ) → 2 ^ n < 2 ^ 32 → n ≤ 32
small_power n h = elim (Bool-cases (leb n 32)) [
  | inl small ↦ ground arith
  | inr large ↦ absurd (omega (arith, pow_lt 32 n (ground arith)))
]

-- `n` sets of lines of 2 ^ b bytes.
pub record IsConfig (config : CacheConfig) (b n : ℕ) : Type 0 where
  pub block : config.block_size ≡ 2 ^ b
  pub words : 2 ≤ b
  pub block_lt : b ≤ 32
  pub ways : 0 < config.associativity
  pub sets : 0 < n
  pub sized : config.size ≡ n * (config.block_size * config.associativity)
  pub fits : config.size < 2 ^ 32

product_positive : (x y : ℕ) → 0 < x → 0 < y → 0 < x * y
product_positive x y p q = one-le-mul {a = x} {b = y} p q

product_le : (x z : ℕ) → 0 < z → x ≤ z * x
product_le x zero h = elim h [ ]
product_le x (suc z) h = grind arith

widen : (x n k : ℕ) → 0 < k → x * n ≤ n * (x * k)
widen x n zero h = elim h [ ]
widen x n (suc k) h = grind arith

four_divides : (b : ℕ) → 2 ≤ b → 2 ^ b % 4 ≡ 0
four_divides zero h = omega arith
four_divides (suc zero) h = omega arith
four_divides (suc (suc b)) h = omega (arith, pow-suc 2 (suc b), pow-suc 2 b)

pub indices-IsLru : (n : ℕ) → 0 < n → IsLru n (indices n)
indices-IsLru zero h = elim h [ ]
indices-IsLru (suc n) h = IsLru-indices (suc n) 0 n (omega arith)

module _ (config : CacheConfig) (b n : ℕ) (h : IsConfig config b n) where
  abbrev line : ℕ
  line = config.block_size * config.associativity

  block_pos : 0 < config.block_size
  block_pos = rw h.block (one-le-pow b 2 (omega arith))

  line_pos : 0 < line
  line_pos = product_positive config.block_size config.associativity block_pos h.ways

  line_fits : u32 line ≡ line
  line_fits = mod-eq_of_lt (omega (arith, product_le line n h.sets, h.sized, h.fits))

  quotient : config.size / u32 line ≡ n
  quotient = rw (line_fits, h.sized) (mul-div_left n line_pos)

  remainder : config.size % u32 line ≡ 0
  remainder = rw (line_fits, h.sized) (mul-mod_left n line)

  block_log : log2 config.block_size ≡ b
  unfolding log2
  block_log = rw h.block (log2_within-pow 32 b h.block_lt)

  power_of_two : bit_and config.block_size (config.block_size - 1) ≡ 0
  power_of_two = rw h.block (
      bit_and_low b (2 ^ b)
      ∙ ap (λ (x : ℕ). x % 2 ^ b) {x = 2 ^ b} {y = 1 * 2 ^ b} (omega arith)
      ∙ mul-mod_left 1 (2 ^ b))

  legal : is_legal config ≡ true
  legal =
      let positive = product_positive n line h.sets line_pos in
      let sized = h.sized in
      let ways = h.ways in
      let block = block_pos in
      let words = h.words in
      let sets = h.sets in
      let size_pos : 0 < config.size = omega arith in
      rw (quotient, remainder, block_log, power_of_two) (ground arith)

  -- The cache that is made.
  abbrev pub made : Cache
  made = record {
    config = config;
    num_sets = config.size / u32 line;
    block_offset_bits = log2 config.block_size;
    set_index_bits = log2 (config.size / u32 line);
    tag_shift = log2 config.block_size + log2 (config.size / u32 line);
    stats = zero_stats;
    mmu = none;
    cache_entries = λ s w. empty_entry (config.block_size / 4);
    lru_lists = λ s. indices config.associativity;
  }

  create-made : create config ≡ some made
  unfolding create
  create-made = rw legal refl

  sets_below : 2 ^ log2 n ≤ n
  unfolding log2
  sets_below = pow-log2_within 32 n h.sets

  tag_fits : b + log2 n ≤ 32
  tag_fits =
      let below : 2 ^ b * 2 ^ log2 n ≤ 2 ^ b * n = mul-le-mul_left (2 ^ b) sets_below in
      let ways : 2 ^ b * n ≤ config.size =
        rw (h.sized, h.block) (widen (2 ^ b) n config.associativity h.ways) in
      small_power (b + log2 n) (rw (pow_add b (log2 n)) (omega (arith, h.fits)))

  made-IsGeometry : IsGeometry made
  made-IsGeometry = record {
    block = rw block_log h.block;
    whole_words = rw h.block (four_divides b h.words);
    shift = refl;
    sets = rw quotient sets_below;
    fits = rw (block_log, quotient) tag_fits;
  }

  module _ {M : Type 0} (i : MemoryInterface M) (size : ℕ) (Good : M → Type 0) (view : M → ℕ → ℕ)
      (law : Implements i size Good view) where
    pub made-IsSound :
        (m : M)
        → Good m
        → size ≤ 2 ^ 32
        → size % config.block_size ≡ 0
        → IsSound i size Good view law made m
    made-IsSound m good fits whole = record {
      lines = record {
        geometry = made-IsGeometry;
        fits = fits;
        whole = whole;
        line = λ s w hs hw valid. absurd (ground arith);
        once = λ s v w t hs hv hw hit hit'. absurd (ground arith);
      };
      lru = λ s. indices-IsLru config.associativity h.ways;
      good = good;
    }

    -- The constructor fails no assertion and makes a cache that is sound over a memory and has its content, for a
    -- block size that is a power of two from 4 on, at least one way, at least one set, and a size below 2 ^ 32.
    -- The memory is a whole number of blocks and at most 2 ^ 32 bytes.
    pub create-IsSound :
        (m : M)
        → Good m
        → size ≤ 2 ^ 32
        → size % config.block_size ≡ 0
        → (c : Cache) × (create config ≡ some c)
          × (IsSound i size Good view law c m)
          × ((a : ℕ) → content c (view m) a ≡ view m a)
    create-IsSound m good fits whole = (
      made,
      create-made,
      made-IsSound m good fits whole,
      λ a. content-miss made made-IsGeometry (view m) a (λ w lt. refl),
    )
