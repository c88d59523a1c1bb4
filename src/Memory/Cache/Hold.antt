-- ===== src/Memory/Cache/Hold.antt =====
-- A cache that holds the line of an address: the word read, the word stored, and the LRU list.
use riscv_emulator.Base.{
  ℕ, ◌^◌, ◌<◌, ◌≡◌, refl, sym, ap, ◌∙◌, arith, Bool, true, false, ◌&&◌, Option, none, some, ◌==◌,
  if◌then◌else◌, List, Bool-cases, inl, inr,
}
use riscv_emulator.Memory.Interface.{MemoryInterface, Implements, IsAddress}
use riscv_emulator.Memory.Mmu.{Mmu}
use riscv_emulator.Memory.Cache.Stats.{CacheStats}
use riscv_emulator.Memory.Cache.{Cache, CacheEntry, get_set_index, get_tag, is_hit, update_lru}
use riscv_emulator.Memory.Cache.Access.{
  word_of, store_word, touch, fill, is_write_through, store_both,
}
use riscv_emulator.Memory.Cache.Lines.{AreLines, content, hits_at, Misses, content-hit}
use riscv_emulator.Memory.Cache.Replace.{
  put_entry_self, replaced-AreLines, rest_of, AreLines-rest, content-rest,
}
use riscv_emulator.Memory.Cache.Store.{stored, store-Replacement, store-content}
use riscv_emulator.Memory.Cache.Sound.{
  AreLru, AreLruBut, AreLru-AreLruBut, update_lru-AreLru, FilledAt, Filled,
}
use riscv_emulator.Memory.Cache.Evict.{fill-Filled}

-- A content with one word changed.
abbrev pub updated : (ℕ → ℕ) → ℕ → ℕ → ℕ → ℕ
updated f a v b = if b == a then v else f b

module _ {M : Type 0} (i : MemoryInterface M) (size : ℕ) (Good : M → Type 0) (view : M → ℕ → ℕ)
    (law : Implements i size Good view) where
  abbrev At : (ℕ → ℕ) → ℕ → ℕ → Cache → M → Type 0
  At = FilledAt i size Good view law

  -- The invariant of a cache and the memory below it.
  pub record IsSound (c : Cache) (m : M) : Type 0 where
    pub lines : AreLines size (view m) c
    pub lru : AreLru c
    pub good : Good m

  -- And the content that they hold together.
  pub record Holds (K : ℕ → ℕ) (c : Cache) (m : M) : Type 0 where
    pub sound : IsSound c m
    pub keeps : (b : ℕ) → IsAddress size b → content c (view m) b ≡ K b

  pub IsSound-rest :
      (c : Cache) (m : M) (stats : CacheStats) (mmu : Option Mmu)
      → IsSound c m
      → IsSound (rest_of c stats mmu c.lru_lists) m
  IsSound-rest c m stats mmu h = record {
    lines = AreLines-rest size (view m) c stats mmu c.lru_lists h.lines;
    lru = h.lru;
    good = h.good;
  }

  pub FilledAt-rest :
      (K : ℕ → ℕ) (a w : ℕ) (c : Cache) (m : M) (stats : CacheStats) (mmu : Option Mmu)
      (lru : ℕ → List ℕ)
      → At K a w c m
      → AreLruBut (get_set_index c a) (rest_of c stats mmu lru)
      → At K a w (rest_of c stats mmu lru) m
  FilledAt-rest K a w c m stats mmu lru h but = record {
    lines = AreLines-rest size (view m) c stats mmu lru h.lines;
    good = h.good;
    way = h.way;
    hit = h.hit;
    keeps = λ b at. content-rest c stats mmu lru (view m) b ∙ h.keeps b at;
    lru = but;
  }

  pub FilledAt-Holds :
      (K : ℕ → ℕ) (a w : ℕ) (c : Cache) (m : M) → At K a w c m → AreLru c → Holds K c m
  FilledAt-Holds K a w c m h lru = record {
    sound = record { lines = h.lines; lru = lru; good = h.good };
    keeps = h.keeps;
  }

  pub touch-Holds :
      (K : ℕ → ℕ) (a w : ℕ) (c : Cache) (m : M) → At K a w c m → Holds K (touch c a w) m
  unfolding update_lru
  touch-Holds K a w c m h = record {
    sound = record {
      lines = AreLines-rest size (view m) c c.stats c.mmu (touch c a w).lru_lists h.lines;
      lru = update_lru-AreLru c (get_set_index c a) w h.way h.lru;
      good = h.good;
    };
    keeps = λ b at. content-rest c c.stats c.mmu (touch c a w).lru_lists (view m) b ∙ h.keeps b at;
  }

  pub touch-FilledAt :
      (K : ℕ → ℕ) (a w : ℕ) (c : Cache) (m : M) → At K a w c m → At K a w (touch c a w) m
  unfolding update_lru
  touch-FilledAt K a w c m h = FilledAt-rest K a w c m c.stats c.mmu (touch c a w).lru_lists h (
      AreLru-AreLruBut (get_set_index c a) (touch c a w)
        (update_lru-AreLru c (get_set_index c a) w h.way h.lru))

  pub found-FilledAt :
      (c : Cache) (m : M) (a w : ℕ)
      → IsSound c m
      → (w < c.config.associativity) × (hits_at c a w ≡ true)
      → At (content c (view m)) a w c m
  found-FilledAt c m a w h (w_lt, hit) = record {
    lines = h.lines;
    good = h.good;
    way = w_lt;
    hit = hit;
    keeps = λ b at. refl;
    lru = AreLru-AreLruBut (get_set_index c a) c h.lru;
  }

  pub word_of-FilledAt :
      (K : ℕ → ℕ) (a w : ℕ) (c : Cache) (m : M)
      → IsAddress size a
      → At K a w c m
      → word_of c a w ≡ K a
  word_of-FilledAt K a w c m at h =
      sym (content-hit size (view m) (view m) c a w h.lines h.way h.hit) ∙ h.keeps a at

  -- A word stored in the line, and perhaps in memory.
  pub store-FilledAt :
      (K : ℕ → ℕ) (a w value : ℕ) (dirty through : Bool) (c : Cache) (m m' : M)
      → At K a w c m
      → IsAddress size a
      → value < 2 ^ 32
      → Good m'
      → ((b : ℕ) → IsAddress size b → view m' b ≡ (if through && b == a then value else view m b))
      → (dirty ≡ false → ((c.cache_entries (get_set_index c a) w).dirty ≡ false) × (through ≡ true))
      → At (updated K a value) a w (store_word c a w value dirty) m'
  store-FilledAt K a w value dirty through c m m' h at fits good memory marked =
      let f = view m in
      let g = view m' in
      let s = get_set_index c a in
      let e = stored size f g c h.lines a w value dirty through at h.way h.hit fits memory marked in
      let r =
        store-Replacement size f g c h.lines a w value dirty through at h.way h.hit fits memory
          marked in
      record {
        lines = replaced-AreLines size f g c s w e r;
        good = good;
        way = h.way;
        hit = ap (λ (x : CacheEntry). is_hit x (get_tag c a)) (put_entry_self c s w e) ∙ h.hit;
        keeps = λ b at'.
            store-content size f g c h.lines a w value dirty through at h.way h.hit fits memory
              marked b at'
            ∙ ap (λ (x : ℕ). if b == a then value else x) (h.keeps b at');
        lru = h.lru;
      }

  pub store_both-FilledAt :
      (K : ℕ → ℕ) (a w value : ℕ) (c : Cache) (m : M)
      → At K a w c m
      → IsAddress size a
      → value < 2 ^ 32
      → At
          (updated K a value)
          a
          w
          (store_both (some i) c m a w value).0
          (store_both (some i) c m a w value).1
  store_both-FilledAt K a w value c m h at fits = elim (Bool-cases (is_write_through a)) [
    | inl through ↦ rw through (
        store-FilledAt K a w value (c.cache_entries (get_set_index c a) w).dirty true c m
          (i.write_word m a value) h at fits (law.write_word_good m a value h.good at fits)
          (λ b at'. law.write_word_lem m a value b h.good at fits at') (λ clean. (clean, refl)))
    | inr behind ↦ rw behind (
        store-FilledAt K a w value true false c m m h at fits h.good (λ b at'. refl)
          (λ e. absurd (ground arith)))
  ]

  Filled-ap :
      (K L : ℕ → ℕ) (a : ℕ) (o : Option (ℕ × Cache × M))
      → ((b : ℕ) → K b ≡ L b)
      → Filled i size Good view law K a o
      → Filled i size Good view law L a o
  Filled-ap K L a none e h = h
  Filled-ap K L a (some (w, c, m)) e h = record {
    lines = h.lines;
    good = h.good;
    way = h.way;
    hit = h.hit;
    keeps = λ b at. h.keeps b at ∙ e b;
    lru = h.lru;
  }

  -- After a miss, which is counted.
  pub miss-Filled :
      (c : Cache) (m : M) (a : ℕ) (stats : CacheStats)
      → IsSound c m
      → IsAddress size a
      → Misses c a
      → Filled i size Good view law
          (content c (view m))
          a
          (fill (some i) (rest_of c stats c.mmu c.lru_lists) m a)
  miss-Filled c m a stats h at misses =
      let c' = rest_of c stats c.mmu c.lru_lists in
      let s = IsSound-rest c m stats c.mmu h in
      Filled-ap (content c' (view m)) (content c (view m)) a (fill (some i) c' m a)
        (λ b. content-rest c stats c.mmu c.lru_lists (view m) b)
        (fill-Filled i size Good view law c' m a s.lines s.lru s.good at misses)
