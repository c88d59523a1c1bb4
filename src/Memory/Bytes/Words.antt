-- ===== src/Memory/Bytes/Words.antt =====
-- Words that are stored can be read back.
use riscv_emulator.Base.{
  ℕ, suc, zero, ◌+◌, ◌*◌, ◌/◌, ◌%◌, ◌^◌, ◌≤◌, ◌<◌, ◌≡◌, ◌≢◌, refl, ap, ◌∙◌, arith, Bool-cases, inl,
  inr, bit_or, bit_and_low, bit_or_disjoint, bit_or_comm, List, [], ◌∷◌, leb, ◌==◌, if◌then◌else◌,
  if_both, length,
}
use native.Mathlib.Nat.{mod-eq_of_lt}
use riscv_emulator.Word.{u32, shl32}
use riscv_emulator.Memory.Bytes.{
  Bytes, get_word, put_word, read_word, write_word, read_words, write_words,
}
use riscv_emulator.Memory.Interface.{
  words_at, overlay, overlay-ap, overlay-out, AllWords, IsAddress,
}

abbrev pub AreBytes : Bytes → Type 0
AreBytes m = (a : ℕ) → m.byte a < 2 ^ 8

pub or_shifted : (k q r : ℕ) → r < 2 ^ k → q * 2 ^ k < 2 ^ 32 → bit_or r (shl32 q k) ≡ q * 2 ^ k + r
or_shifted k q r h g =
    let whole : shl32 q k ≡ q * 2 ^ k = mod-eq_of_lt g in
    rw whole (bit_or_comm r (q * 2 ^ k) ∙ bit_or_disjoint k q r h)

-- A word is the sum of its bytes.
pub get_word-sum :
    (m : Bytes) (a : ℕ)
    → AreBytes m
    → get_word m a
      ≡ m.byte a + m.byte (a + 1) * 2 ^ 8 + m.byte (a + 2) * 2 ^ 16 + m.byte (a + 3) * 2 ^ 24
unfolding get_word
get_word-sum m a small =
    let b0 = small a in
    let b1 = small (a + 1) in
    let b2 = small (a + 2) in
    let b3 = small (a + 3) in
    let low = or_shifted 8 (m.byte (a + 1)) (m.byte a) b0 (omega arith) in
    let middle =
      or_shifted 16 (m.byte (a + 2)) (m.byte (a + 1) * 2 ^ 8 + m.byte a) (omega arith)
        (omega arith) in
    let high =
      or_shifted 24 (m.byte (a + 3)) (m.byte (a + 2) * 2 ^ 16 + (m.byte (a + 1) * 2 ^ 8 + m.byte a))
        (omega arith) (omega arith) in
    rw low (rw middle (rw high (omega arith)))

pub get_word-lt : (m : Bytes) (a : ℕ) → AreBytes m → get_word m a < 2 ^ 32
get_word-lt m a small =
    omega (arith, get_word-sum m a small, small a, small (a + 1), small (a + 2), small (a + 3))

pub put_word-AreBytes : (m : Bytes) (a v : ℕ) → AreBytes m → AreBytes (put_word m a v)
unfolding put_word
put_word-AreBytes m a v small b = ground (
  arith,
  small b,
  bit_and_low 8 v,
  bit_and_low 8 (v / 2 ^ 8),
  bit_and_low 8 (v / 2 ^ 16),
  bit_and_low 8 (v / 2 ^ 24),
)

stored_bytes :
    (m : Bytes) (a v : ℕ)
    → ((put_word m a v).byte a ≡ v % 2 ^ 8)
      × ((put_word m a v).byte (a + 1) ≡ v / 2 ^ 8 % 2 ^ 8)
      × ((put_word m a v).byte (a + 2) ≡ v / 2 ^ 16 % 2 ^ 8)
      × ((put_word m a v).byte (a + 3) ≡ v / 2 ^ 24 % 2 ^ 8)
unfolding put_word
stored_bytes m a v = (
  ground (arith, bit_and_low 8 v),
  ground (arith, bit_and_low 8 (v / 2 ^ 8)),
  ground (arith, bit_and_low 8 (v / 2 ^ 16)),
  ground (arith, bit_and_low 8 (v / 2 ^ 24)),
)

-- The bytes of another aligned word.
kept_byte :
    (m : Bytes) (a v b x : ℕ)
    → a % 4 ≡ 0
    → b % 4 ≡ 0
    → b ≢ a
    → b ≤ x
    → x < b + 4
    → (put_word m a v).byte x ≡ m.byte x
unfolding put_word
kept_byte m a v b x aligned aligned' ne low high = ground arith

get_word-put_word_self :
    (m : Bytes) (a v : ℕ) → AreBytes m → v < 2 ^ 32 → get_word (put_word m a v) a ≡ v
get_word-put_word_self m a v small fits =
    let (s0, s1, s2, s3) = stored_bytes m a v in
    omega (arith, get_word-sum (put_word m a v) a (put_word-AreBytes m a v small))

-- Aligned words do not overlap.
pub get_word-put_word :
    (m : Bytes) (a v b : ℕ)
    → AreBytes m
    → v < 2 ^ 32
    → a % 4 ≡ 0
    → b % 4 ≡ 0
    → get_word (put_word m a v) b ≡ (if b == a then v else get_word m b)
get_word-put_word m a v b small fits aligned aligned' = elim (Bool-cases (b == a)) [
  | inl same ↦
      rw same
        (ap (get_word (put_word m a v)) (ground arith) ∙ get_word-put_word_self m a v small fits)
  | inr apart ↦
      let ne : b ≢ a = ground arith in
      rw apart (
        omega (
          arith,
          get_word-sum (put_word m a v) b (put_word-AreBytes m a v small),
          get_word-sum m b small,
          kept_byte m a v b b aligned aligned' ne,
          kept_byte m a v b (b + 1) aligned aligned' ne,
          kept_byte m a v b (b + 2) aligned aligned' ne,
          kept_byte m a v b (b + 3) aligned aligned' ne,
        ))
]

-- The checked accesses, at the addresses of words.
pub read_word-inside : (m : Bytes) (a : ℕ) → IsAddress m.size a → read_word m a ≡ get_word m a
unfolding read_word
read_word-inside m a inside = ground arith

pub write_word-AreBytes : (m : Bytes) (a v : ℕ) → AreBytes m → AreBytes (write_word m a v)
unfolding write_word
write_word-AreBytes m a v small =
    if_both AreBytes (leb (a + 4) m.size) (put_word-AreBytes m a v small) small

pub write_word-size : (m : Bytes) (a v : ℕ) → (write_word m a v).size ≡ m.size
unfolding write_word put_word
write_word-size m a v = ground arith

pub get_word-write_word :
    (m : Bytes) (a v b : ℕ)
    → AreBytes m
    → v < 2 ^ 32
    → IsAddress m.size a
    → IsAddress m.size b
    → get_word (write_word m a v) b ≡ (if b == a then v else get_word m b)
unfolding write_word
get_word-write_word m a v b small fits inside inside' =
    ground (arith, get_word-put_word m a v b small fits inside.0 inside'.0)

-- A block of aligned words below 2 ^ 32.
pub read_words-inside :
    (m : Bytes) (a i n : ℕ)
    → m.size ≤ 2 ^ 32
    → a % 4 ≡ 0
    → a + i * 4 + 4 * n ≤ m.size
    → read_words m a i n ≡ words_at (get_word m) (a + i * 4) n
unfolding read_words
read_words-inside m a i zero fits aligned inside = refl
read_words-inside m a i (suc n) fits aligned inside =
    let here : u32 (a + i * 4) ≡ a + i * 4 = omega arith in
    let next : a + (i + 1) * 4 ≡ a + i * 4 + 4 = omega arith in
    rw (here, read_word-inside m (a + i * 4) (omega arith, omega arith))
      (ap (λ ws. get_word m (a + i * 4) ∷ ws)
        (read_words-inside m a (i + 1) n fits aligned (omega arith)
          ∙ ap (λ (x : ℕ). words_at (get_word m) x n) next))

pub write_words-AreBytes :
    (m : Bytes) (a i : ℕ) (ws : List ℕ) → AreBytes m → AreBytes (write_words m a i ws)
unfolding write_words
write_words-AreBytes m a i [] small = small
write_words-AreBytes m a i (w ∷ ws) small =
    write_words-AreBytes (write_word m (u32 (a + i * 4)) w) a (i + 1) ws
      (write_word-AreBytes m (u32 (a + i * 4)) w small)

pub write_words-size : (m : Bytes) (a i : ℕ) (ws : List ℕ) → (write_words m a i ws).size ≡ m.size
unfolding write_words
write_words-size m a i [] = refl
write_words-size m a i (w ∷ ws) =
    write_words-size (write_word m (u32 (a + i * 4)) w) a (i + 1) ws
    ∙ write_word-size m (u32 (a + i * 4)) w

pub get_word-write_words :
    (m : Bytes) (a i : ℕ) (ws : List ℕ) (b : ℕ)
    → AreBytes m
    → m.size ≤ 2 ^ 32
    → a % 4 ≡ 0
    → a + i * 4 + 4 * length ws ≤ m.size
    → AllWords ws
    → IsAddress m.size b
    → get_word (write_words m a i ws) b ≡ overlay (get_word m) (a + i * 4) ws b
unfolding write_words
get_word-write_words m a i [] b small fits aligned inside words at = refl
get_word-write_words m a i (w ∷ ws) b small fits aligned inside words at =
    let x = a + i * 4 in
    let here : u32 x ≡ x = omega arith in
    let first : IsAddress m.size x = (omega arith, omega arith) in
    let m' = write_word m x w in
    let sized = write_word-size m x w in
    let next : a + (i + 1) * 4 ≡ x + 4 = omega arith in
    let rest : get_word (write_words m' a (i + 1) ws) b ≡ overlay (get_word m') (x + 4) ws b =
      get_word-write_words m' a (i + 1) ws b (write_word-AreBytes m x w small) (omega arith) aligned
        (omega arith) words.1 (rw sized at)
      ∙ ap (λ (y : ℕ). overlay (get_word m') y ws b) next in
    let stored = get_word-write_word m x w b small words.0 first at in
    rw here (
      rest ∙ elim (Bool-cases (b == x)) [
        | inl same ↦ rw same (
            overlay-out (get_word m') (x + 4) ws b (λ k lt e. absurd (ground arith))
            ∙ stored
            ∙ rw same refl)
        | inr apart ↦
            rw apart (overlay-ap (get_word m') (get_word m) (x + 4) ws b (stored ∙ rw apart refl))
      ])
