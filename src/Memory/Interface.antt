-- ===== src/Memory/Interface.antt =====
-- The abstract class MemoryInterface of emulator/include/memory/Cache.h, over the state `M` of the
-- object behind the pointer, and what a memory that implements it promises to its users.
use riscv_emulator.Base.{
  ℕ, zero, suc, ◌+◌, ◌*◌, ◌%◌, ◌^◌, ◌≤◌, ◌<◌, ◌≡◌, refl, ap, ◌∙◌, arith, false, List, [], ◌∷◌, ◌==◌,
  if◌then◌else◌, length, get_or,
}

-- A read may change the state, which counts accesses. A block is the list of its words.
pub record MemoryInterface (M : Type 0) : Type 0 where
  pub read_word : M → ℕ → ℕ × M
  pub write_word : M → ℕ → ℕ → M
  pub read_block : M → ℕ → ℕ → List ℕ × M
  pub write_block : M → ℕ → List ℕ → M

-- `n` words from address `a` on.
abbrev pub words_at : (ℕ → ℕ) → ℕ → ℕ → List ℕ
words_at f a zero = []
words_at f a (suc n) = f a ∷ words_at f (a + 4) n

-- A memory after the words `ws` are stored from address `a` on.
abbrev pub overlay : (ℕ → ℕ) → ℕ → List ℕ → ℕ → ℕ
overlay f a [] b = f b
overlay f a (w ∷ ws) b = if b == a then w else overlay f (a + 4) ws b

abbrev pub AllWords : List ℕ → Type 0
AllWords [] = Unit
AllWords (w ∷ ws) = (w < 2 ^ 32) × AllWords ws

-- An aligned address of a word in a memory of `size` bytes.
abbrev pub IsAddress : ℕ → ℕ → Type 0
IsAddress size a = (a % 4 ≡ 0) × (a + 4 ≤ size)

-- The contract of a memory of `size` bytes: in the states that are good, `view` is its content, which
-- reads return and only writes change.
pub record Implements {M : Type 0} (i : MemoryInterface M) (size : ℕ) (Good : M → Type 0)
    (view : M → ℕ → ℕ) : Type 0 where
  pub view_lt : (m : M) (a : ℕ) → Good m → IsAddress size a → view m a < 2 ^ 32
  pub read_word_lem : (m : M) (a : ℕ) → Good m → IsAddress size a → (i.read_word m a).0 ≡ view m a
  pub read_word_good : (m : M) (a : ℕ) → Good m → IsAddress size a → Good (i.read_word m a).1
  pub read_word_keeps :
      (m : M) (a b : ℕ)
      → Good m
      → IsAddress size a
      → IsAddress size b
      → view (i.read_word m a).1 b ≡ view m b
  pub write_word_good :
      (m : M) (a v : ℕ) → Good m → IsAddress size a → v < 2 ^ 32 → Good (i.write_word m a v)
  pub write_word_lem :
      (m : M) (a v b : ℕ)
      → Good m
      → IsAddress size a
      → v < 2 ^ 32
      → IsAddress size b
      → view (i.write_word m a v) b ≡ (if b == a then v else view m b)
  pub read_block_lem :
      (m : M) (a n : ℕ)
      → Good m
      → a % 4 ≡ 0
      → a + 4 * n ≤ size
      → (i.read_block m a n).0 ≡ words_at (view m) a n
  pub read_block_good :
      (m : M) (a n : ℕ) → Good m → a % 4 ≡ 0 → a + 4 * n ≤ size → Good (i.read_block m a n).1
  pub read_block_keeps :
      (m : M) (a n b : ℕ)
      → Good m
      → a % 4 ≡ 0
      → a + 4 * n ≤ size
      → IsAddress size b
      → view (i.read_block m a n).1 b ≡ view m b
  pub write_block_good :
      (m : M) (a : ℕ) (ws : List ℕ)
      → Good m
      → a % 4 ≡ 0
      → a + 4 * length ws ≤ size
      → AllWords ws
      → Good (i.write_block m a ws)
  pub write_block_lem :
      (m : M) (a : ℕ) (ws : List ℕ) (b : ℕ)
      → Good m
      → a % 4 ≡ 0
      → a + 4 * length ws ≤ size
      → AllWords ws
      → IsAddress size b
      → view (i.write_block m a ws) b ≡ overlay (view m) a ws b

pub length-words_at : (f : ℕ → ℕ) (a n : ℕ) → length (words_at f a n) ≡ n
length-words_at f a zero = refl
length-words_at f a (suc n) = omega (arith, length-words_at f (a + 4) n)

pub get_or-words_at : (f : ℕ → ℕ) (a n k : ℕ) → k < n → get_or (words_at f a n) k 0 ≡ f (a + 4 * k)
get_or-words_at f a zero k h = absurd (omega arith)
get_or-words_at f a (suc n) zero h = ground arith
get_or-words_at f a (suc n) (suc k) h =
    get_or-words_at f (a + 4) n k (omega arith) ∙ ap f (omega arith)

pub overlay-in :
    (f : ℕ → ℕ) (a : ℕ) (ws : List ℕ) (k : ℕ)
    → k < length ws
    → overlay f a ws (a + 4 * k) ≡ get_or ws k 0
overlay-in f a [] k h = absurd (omega arith)
overlay-in f a (w ∷ ws) zero h = ground arith
overlay-in f a (w ∷ ws) (suc k) h =
    let skip : (a + 4 * suc k == a) ≡ false = ground arith in
    let next : a + 4 * suc k ≡ a + 4 + 4 * k = omega arith in
    rw skip (ap (overlay f (a + 4) ws) next ∙ overlay-in f (a + 4) ws k (omega arith))

pub overlay-out :
    (f : ℕ → ℕ) (a : ℕ) (ws : List ℕ) (b : ℕ)
    → ((k : ℕ) → k < length ws → a + 4 * k ≡ b → ⊥)
    → overlay f a ws b ≡ f b
overlay-out f a [] b h = refl
overlay-out f a (w ∷ ws) b h =
    let skip : (b == a) ≡ false = ground (arith, h 0) in
    rw skip (overlay-out f (a + 4) ws b (λ k lt e. h (suc k) (omega arith) (omega arith)))

-- What is under the stored words is read only where none is.
pub overlay-ap :
    (f g : ℕ → ℕ) (a : ℕ) (ws : List ℕ) (b : ℕ) → f b ≡ g b → overlay f a ws b ≡ overlay g a ws b
overlay-ap f g a [] b h = h
overlay-ap f g a (w ∷ ws) b h = ground (arith, overlay-ap f g (a + 4) ws b h)
