-- ===== src/Memory/Cache/Lines.antt =====
-- The lines of a cache over a memory with content `f`: what is true of every valid line, and the word
-- that the cache and the memory together hold at an address.
use riscv_emulator.Base.{
  ℕ, ◌+◌, ◌*◌, ◌/◌, ◌%◌, ◌^◌, ◌≤◌, ◌<◌, ◌≡◌, ◌≢◌, ◌⊎◌, refl, sym, ap, ◌∙◌, arith, Bool, true, false,
  Option, none, some, leb, Bool-cases, Option-cases, inl, inr, length, get_or,
}
use native.Mathlib.Nat.{mod-lt, div-add-mod'}
use riscv_emulator.Memory.Interface.{AllWords}
use riscv_emulator.Memory.Cache.{
  Cache, CacheEntry, get_set_index, get_tag, get_block_offset, words_per_block, is_hit, search_tag,
  find_entry,
}
use riscv_emulator.Memory.Cache.Access.{word_of}
use riscv_emulator.Memory.Cache.Geometry.{
  IsGeometry, sets_of, base_of, block_pos, sets_pos, set_lem, offset_lem, base-address,
}
use riscv_emulator.Memory.Cache.Search.{
  search_tag-some, search_tag-none, search_tag_unique, search_tag-absent,
}

-- A valid line of set `s`: a whole block of words in the memory's range, and if it is not dirty, the
-- memory's words.
pub record IsLine (size : ℕ) (f : ℕ → ℕ) (c : Cache) (s : ℕ) (e : CacheEntry) : Type 0 where
  pub sized : length e.words ≡ words_per_block c
  pub words : AllWords e.words
  pub inside : base_of c s e.tag + c.config.block_size ≤ size
  pub clean :
      e.dirty ≡ false
      → (k : ℕ) → k < words_per_block c
      → get_or e.words k 0 ≡ f (base_of c s e.tag + 4 * k)

pub record AreLines (size : ℕ) (f : ℕ → ℕ) (c : Cache) : Type 0 where
  pub geometry : IsGeometry c
  pub fits : size ≤ 2 ^ 32
  pub whole : size % c.config.block_size ≡ 0
  pub line :
      (s w : ℕ)
      → s < sets_of c
      → w < c.config.associativity
      → (c.cache_entries s w).valid ≡ true
      → IsLine size f c s (c.cache_entries s w)
  pub once :
      (s v w t : ℕ)
      → s < sets_of c
      → v < c.config.associativity
      → w < c.config.associativity
      → is_hit (c.cache_entries s v) t ≡ true
      → is_hit (c.cache_entries s w) t ≡ true
      → v ≡ w

-- The word at an address: the cache's where it has the line, else the memory's.
abbrev pub seen : Cache → (ℕ → ℕ) → ℕ → Option ℕ → ℕ
seen c f a none = f a
seen c f a (some w) = word_of c a w

unfoldable pub content : Cache → (ℕ → ℕ) → ℕ → ℕ
content c f a = seen c f a (find_entry c a)

abbrev pub hits_at : Cache → ℕ → ℕ → Bool
hits_at c a w = is_hit (c.cache_entries (get_set_index c a) w) (get_tag c a)

-- Either one way has the line of an address, or none.
abbrev pub Misses : Cache → ℕ → Type 0
Misses c a = (w : ℕ) → w < c.config.associativity → hits_at c a w ≡ false

pub in_words : (q B : ℕ) → B % 4 ≡ 0 → q * B ≡ 4 * (q * (B / 4))
in_words q B whole = let e : B ≡ 4 * (B / 4) = omega arith in ap (λ (n : ℕ). q * n) e ∙ grind arith

split_offset : (b B : ℕ) → 0 < B → B % 4 ≡ 0 → b % 4 ≡ 0 → b / B * B + 4 * (b % B / 4) ≡ b
split_offset b B p whole aligned =
    let quotient : b / B * B ≡ 4 * (b / B * (B / 4)) = in_words (b / B) B whole in
    omega (arith, div-add-mod' b B)

offset_below : (b B : ℕ) → 0 < B → B % 4 ≡ 0 → b % B / 4 < B / 4
offset_below b B p whole = omega (arith, mod-lt b p)

module _ (c : Cache) (g : IsGeometry c) where
  pub set-lt : (a : ℕ) → get_set_index c a < sets_of c
  set-lt a = rw (set_lem c g a) (mod-lt (a / c.config.block_size) (sets_pos c g))

  -- An aligned address by its line and its word in the line.
  pub place :
      (a : ℕ)
      → a % 4 ≡ 0
      → base_of c (get_set_index c a) (get_tag c a) + 4 * (get_block_offset c a / 4) ≡ a
  place a aligned =
      rw (base-address c g a, offset_lem c g a)
        (split_offset a c.config.block_size (block_pos c g) g.whole_words aligned)

  pub place-lt : (a : ℕ) → get_block_offset c a / 4 < words_per_block c
  place-lt a =
      rw (offset_lem c g a) (offset_below a c.config.block_size (block_pos c g) g.whole_words)

  find_entry-search :
      (a : ℕ)
      → find_entry c a
        ≡ search_tag (c.cache_entries (get_set_index c a)) (get_tag c a) 0 c.config.associativity
  unfolding find_entry
  find_entry-search a =
      let inside : leb c.num_sets (get_set_index c a) ≡ false = ground (arith, set-lt a, g.sets) in
      rw inside refl

  pub find_entry-some :
      (a w : ℕ) → find_entry c a ≡ some w → (w < c.config.associativity) × (hits_at c a w ≡ true)
  find_entry-some a w h =
      search_tag-some (c.cache_entries (get_set_index c a)) (get_tag c a) c.config.associativity w
        (sym (find_entry-search a) ∙ h)

  pub find_entry-none : (a : ℕ) → find_entry c a ≡ none → Misses c a
  find_entry-none a h w lt =
      search_tag-none (c.cache_entries (get_set_index c a)) (get_tag c a) c.config.associativity w
        (sym (find_entry-search a) ∙ h) lt

  pub content-miss : (f : ℕ → ℕ) (a : ℕ) → Misses c a → content c f a ≡ f a
  unfolding content
  content-miss f a misses = ap (seen c f a) (
      find_entry-search a
      ∙ search_tag-absent (c.cache_entries (get_set_index c a)) (get_tag c a) c.config.associativity
          misses)

pub cases :
    (size : ℕ) (f : ℕ → ℕ) (c : Cache) (a : ℕ)
    → AreLines size f c
    → ((w : ℕ) × (w < c.config.associativity) × (hits_at c a w ≡ true)) ⊎ Misses c a
cases size f c a l = elim (Option-cases (find_entry c a)) [
  | inl missed ↦ inr (find_entry-none c l.geometry a missed)
  | inr (w, found) ↦
      inl
        (w, (find_entry-some c l.geometry a w found).0, (find_entry-some c l.geometry a w found).1)
]

pub content-hit :
    (size : ℕ) (f g : ℕ → ℕ) (c : Cache) (a w : ℕ)
    → AreLines size f c
    → w < c.config.associativity
    → hits_at c a w ≡ true
    → content c g a ≡ word_of c a w
unfolding content
content-hit size f g c a w l lt hit = ap (seen c g a) (
    find_entry-search c l.geometry a
    ∙ search_tag_unique (c.cache_entries (get_set_index c a)) (get_tag c a) c.config.associativity w
        lt hit
        (λ x lt' hit'.
          l.once (get_set_index c a) x w (get_tag c a) (set-lt c l.geometry a) lt' lt hit' hit))

-- A hit leaves all other ways without one.
pub only_hit :
    (size : ℕ) (f : ℕ → ℕ) (c : Cache) (a v w : ℕ)
    → AreLines size f c
    → v < c.config.associativity
    → w < c.config.associativity
    → hits_at c a w ≡ true
    → v ≢ w
    → hits_at c a v ≡ false
only_hit size f c a v w l hv hw hit apart = elim (Bool-cases (hits_at c a v)) [
  | inl hit' ↦
      absurd (
        apart (l.once (get_set_index c a) v w (get_tag c a) (set-lt c l.geometry a) hv hw hit' hit))
  | inr miss ↦ miss
]
