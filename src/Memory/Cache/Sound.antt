-- ===== src/Memory/Cache/Sound.antt =====
-- A cache over a memory that keeps its contract: misses.
use mathlib.Core.Path.{fun_ext, subst}
use riscv_emulator.Base.{
  ℕ, zero, suc, ◌+◌, ◌*◌, ◌/◌, ◌%◌, ◌^◌, ◌≤◌, ◌<◌, ◌≡◌, sym, ap, ◌∙◌, arith, true, false, Option,
  none, some, ◌==◌, Bool-cases, inl, inr, length, get_or,
}
use riscv_emulator.Memory.Interface.{
  MemoryInterface, Implements, AllWords, IsAddress, words_at, length-words_at, get_or-words_at,
}
use riscv_emulator.Memory.Cache.{
  Cache, CacheEntry, get_set_index, get_tag, get_block_address, words_per_block, is_hit, put_entry,
  claimed, claim, load_block, update_lru,
}
use riscv_emulator.Memory.Cache.Access.{load_claimed}
use riscv_emulator.Memory.Cache.Geometry.{base_of, base-address, address_lem, block_pos}
use riscv_emulator.Memory.Cache.Search.{AllBelow, IsLru, AllBelow-remove, IsLru-AllBelow}
use riscv_emulator.Memory.Cache.Lines.{AreLines, content, hits_at, Misses, in_words}
use riscv_emulator.Memory.Cache.Replace.{put_entry_self, replaced-AreLines}
use riscv_emulator.Memory.Cache.Fill.{block_inside, filled, fill-Replacement, fill-content}

-- The LRU lists, one of which an eviction may leave empty.
abbrev pub AreLru : Cache → Type 0
AreLru c = (s : ℕ) → IsLru c.config.associativity (c.lru_lists s)

abbrev pub AreLruBut : ℕ → Cache → Type 0
AreLruBut s c =
    (s' : ℕ)
    → AllBelow c.config.associativity (c.lru_lists s')
      × ((s' == s) ≡ false → IsLru c.config.associativity (c.lru_lists s'))

pub AreLru-AreLruBut : (s : ℕ) (c : Cache) → AreLru c → AreLruBut s c
AreLru-AreLruBut s c h s' =
    (IsLru-AllBelow c.config.associativity (c.lru_lists s') (h s'), λ ne. h s')

pub update_lru-AreLru :
    (c : Cache) (s w : ℕ) → w < c.config.associativity → AreLruBut s c → AreLru (update_lru c s w)
unfolding update_lru
update_lru-AreLru c s w lt h s' = elim (Bool-cases (s' == s)) [
  | inl same ↦ rw same (lt, AllBelow-remove c.config.associativity w (c.lru_lists s) (h s).0)
  | inr other ↦ rw other ((h s').1 other)
]

pub put_put :
    (c : Cache) (s w : ℕ) (e e' : CacheEntry)
    → put_entry (put_entry c s w e) s w e' ≡ put_entry c s w e'
put_put c s w e e' =
    ap (λ (rows : ℕ → ℕ → CacheEntry). record c { cache_entries = rows })
      (fun_ext λ s'. fun_ext λ w'. ground arith)

AllWords-words_at :
    (f : ℕ → ℕ) (a n : ℕ) → ((k : ℕ) → k < n → f (a + 4 * k) < 2 ^ 32) → AllWords (words_at f a n)
AllWords-words_at f a zero h = tt
AllWords-words_at f a (suc n) h =
    let here : a + 4 * 0 ≡ a = omega arith in
    (
      rw (sym here) (h 0 (omega arith)),
      AllWords-words_at f (a + 4) n λ k lt.
          let next : a + 4 + 4 * k ≡ a + 4 * suc k = omega arith in
          rw next (h (suc k) (omega arith)),
    )

module _ {M : Type 0} (i : MemoryInterface M) (size : ℕ) (Good : M → Type 0) (view : M → ℕ → ℕ)
    (law : Implements i size Good view) where
  -- A way that has just been filled for the address `a`, where the content was and still is `K`.
  pub record FilledAt (K : ℕ → ℕ) (a w : ℕ) (c : Cache) (m : M) : Type 0 where
    pub lines : AreLines size (view m) c
    pub good : Good m
    pub way : w < c.config.associativity
    pub hit : hits_at c a w ≡ true
    pub keeps : (b : ℕ) → IsAddress size b → content c (view m) b ≡ K b
    pub lru : AreLruBut (get_set_index c a) c

  abbrev pub Filled : (ℕ → ℕ) → ℕ → Option (ℕ × Cache × M) → Type 0
  Filled K a none = ⊥
  Filled K a (some (w, c, m)) = FilledAt K a w c m

  -- The block of an address is in range.
  pub block_lem :
      (c : Cache) (f : ℕ → ℕ) (a : ℕ)
      → AreLines size f c
      → IsAddress size a
      → (get_block_address c a ≡ base_of c (get_set_index c a) (get_tag c a))
        × (get_block_address c a % 4 ≡ 0)
        × (get_block_address c a + 4 * words_per_block c ≤ size)
  block_lem c f a l at =
      let g = l.geometry in
      let B = c.config.block_size in
      let start : get_block_address c a ≡ a / B * B = address_lem c g a (omega (arith, l.fits)) in
      let inside = block_inside a B size (block_pos c g) l.whole (omega arith) in
      let aligned = in_words (a / B) B g.whole_words in
      (start ∙ sym (base-address c g a), omega arith, omega (arith, g.whole_words))

  pub claim-Filled :
      (K : ℕ → ℕ) (c : Cache) (m : M) (a w : ℕ)
      → AreLines size (view m) c
      → Good m
      → ((b : ℕ) → IsAddress size b → content c (view m) b ≡ K b)
      → AreLruBut (get_set_index c a) c
      → IsAddress size a
      → Misses c a
      → w < c.config.associativity
      → (c.cache_entries (get_set_index c a) w).valid ≡ false
      → Filled K a (load_claimed (some i) a (claim c m (get_set_index c a) (get_tag c a) (some w)))
  unfolding load_block
  claim-Filled K c m a w l good keeps lru at misses w_lt free =
      let s = get_set_index c a in
      let t = get_tag c a in
      let e = c.cache_entries s w in
      let n = words_per_block c in
      let (start, aligned, inside) = block_lem c (view m) a l at in
      let block = i.read_block m (get_block_address c a) n in
      let words_lem : block.0 ≡ words_at (view m) (get_block_address c a) n =
        law.read_block_lem m (get_block_address c a) n good aligned inside in
      let sized : length block.0 ≡ n =
        ap length words_lem ∙ length-words_at (view m) (get_block_address c a) n in
      let all : AllWords block.0 = subst AllWords (sym words_lem) (
        AllWords-words_at (view m) (get_block_address c a) n
          λ k lt. law.view_lt m (get_block_address c a + 4 * k) good (omega arith, omega arith)) in
      let loaded : (k : ℕ) → k < n → get_or block.0 k 0 ≡ view m (base_of c s t + 4 * k) = λ k lt.
        ap (λ ws. get_or ws k 0) words_lem
        ∙ get_or-words_at (view m) (get_block_address c a) n k lt
        ∙ ap (λ (x : ℕ). view m (x + 4 * k)) start in
      let same : (b : ℕ) → IsAddress size b → view block.1 b ≡ view m b =
        λ b at'. law.read_block_keeps m (get_block_address c a) n b good aligned inside at' in
      let entry =
        filled size (view m) (view block.1) c l a w block.0 at w_lt free misses sized all loaded
          same in
      let r =
        fill-Replacement size (view m) (view block.1) c l a w block.0 at w_lt free misses sized all
          loaded same in
      let c1 = put_entry c s w (claimed e t) in
      let self : c1.cache_entries s w ≡ claimed e t = put_entry_self c s w (claimed e t) in
      let cache : put_entry c1 s w (record (c1.cache_entries s w) { words = block.0 })
          ≡ put_entry c s w entry =
        ap (λ (x : CacheEntry). put_entry c1 s w (record x { words = block.0 })) self
        ∙ put_put c s w (claimed e t) entry in
      let facts : FilledAt K a w (put_entry c s w entry) block.1 = record {
        lines = replaced-AreLines size (view m) (view block.1) c s w entry r;
        good = law.read_block_good m (get_block_address c a) n good aligned inside;
        way = w_lt;
        hit = ap (λ (x : CacheEntry). is_hit x t) (put_entry_self c s w entry) ∙ ground arith;
        keeps = λ b at'.
            fill-content size (view m) (view block.1) c l a w block.0 at w_lt free misses sized all
              loaded same b at'
            ∙ keeps b at';
        lru = lru;
      } in
      subst (λ x. FilledAt K a w x block.1) (sym cache) facts
