-- ===== src/Interrupt/Plic/Bitmap.antt =====
-- The bitmaps of PLIC.cpp: 32 sources to a uint32_t word.
use riscv_emulator.Base.{
  ℕ, ◌+◌, ◌-◌, ◌/◌, ◌%◌, ◌^◌, ◌<◌, bit_and, bit_or, ◌≡◌, Bool, true, false, not, List, arith, ltb,
  ◌==◌, if◌then◌else◌, to_nat, length, get_or, set, length-set, get_or-set, bit, bit-bit_and,
  bit-bit_or, bit-pow, bit-complement, bit-lt, bit_and-shift, pow_lt,
}

-- The words for `n` sources.
abbrev pub words_for : ℕ → ℕ
words_for n = (n + 31) / 32

-- `get_pending_bit` and `get_enable_bit`.
unfoldable pub get_bit : List ℕ → ℕ → Bool
get_bit map source_id =
    let word_index = source_id / 32 in
    let bit_index = source_id % 32 in
    if ltb word_index (length map)
    then not (bit_and (get_or map word_index 0 / 2 ^ bit_index) 1 == 0)
    else false

-- `word | (1 << b)` and `word & ~(1 << b)`.
abbrev pub with_bit : ℕ → ℕ → Bool → ℕ
with_bit word b true = bit_or word (2 ^ b)
with_bit word b false = bit_and word (2 ^ 32 - 1 - 2 ^ b)

-- `update_pending_bit` and `update_enable_bit`.
unfoldable pub update_bit : List ℕ → ℕ → Bool → List ℕ
update_bit map source_id on =
    let word_index = source_id / 32 in
    let bit_index = source_id % 32 in
    if ltb word_index (length map)
    then set map word_index (with_bit (get_or map word_index 0) bit_index on)
    else map

pub length-update_bit :
    (map : List ℕ) (s : ℕ) (on : Bool) → length (update_bit map s on) ≡ length map
unfolding update_bit
length-update_bit map s on =
    ground (arith, length-set map (s / 32) (with_bit (get_or map (s / 32) 0) (s % 32) on))

bit-with_bit :
    (w b k : ℕ) (on : Bool)
    → b < 32
    → k < 32
    → bit k (with_bit w b on) ≡ (if b == k then to_nat on else bit k w)
bit-with_bit w b k true hb hk = ground (arith, bit-bit_or k w (2 ^ b), bit-pow k b, bit-lt k w)
bit-with_bit w b k false hb hk = ground (
  arith,
  bit-bit_and k w (2 ^ 32 - 1 - 2 ^ b),
  bit-complement 32 k (2 ^ b) (pow_lt b 32 hb) hk,
  bit-pow k b,
  bit-lt k w,
)

-- The digit that the code tests.
get_bit_lem :
    (map : List ℕ) (s : ℕ)
    → get_bit map s
      ≡ (if ltb (s / 32) (length map) then bit (s % 32) (get_or map (s / 32) 0) == 1 else false)
unfolding get_bit
get_bit_lem map s =
    ground (
      arith,
      bit_and-shift (s % 32) (get_or map (s / 32) 0),
      bit-lt (s % 32) (get_or map (s / 32) 0),
    )

-- Updating one source's bit sets that bit and no other.
pub get_bit-update_bit :
    (map : List ℕ) (s x : ℕ) (on : Bool)
    → s / 32 < length map
    → get_bit (update_bit map s on) x ≡ (if s == x then on else get_bit map x)
unfolding update_bit
get_bit-update_bit map s x on h = ground (
  arith,
  get_bit_lem map x,
  get_bit_lem (set map (s / 32) (with_bit (get_or map (s / 32) 0) (s % 32) on)) x,
  length-set map (s / 32) (with_bit (get_or map (s / 32) 0) (s % 32) on),
  get_or-set map (s / 32) (x / 32) (with_bit (get_or map (s / 32) 0) (s % 32) on) 0,
  bit-with_bit (get_or map (s / 32) 0) (s % 32) (x % 32) on,
)
