-- ===== src/Memory/Cache/Replace.antt =====
-- One entry of the cache replaced: what the lines and the content become.
use riscv_emulator.Base.{
  ℕ, ◌+◌, ◌*◌, ◌/◌, ◌<◌, ◌≡◌, refl, sym, ◌∙◌, arith, true, false, ◌&&◌, Option, none, some, ◌==◌,
  Bool-cases, inl, inr, List, get_or,
}
use riscv_emulator.Memory.Cache.{
  Cache, CacheEntry, get_set_index, get_tag, get_block_offset, words_per_block, is_hit, put_entry,
  find_entry,
}
use riscv_emulator.Memory.Mmu.{Mmu}
use riscv_emulator.Memory.Cache.Stats.{CacheStats}
use riscv_emulator.Memory.Cache.Geometry.{sets_of, base_of}
use riscv_emulator.Memory.Cache.Lines.{
  IsLine, AreLines, content, seen, hits_at, content-miss, content-hit,
}

-- The entry at another place, and at the place itself.
abbrev pub IsOther : ℕ → ℕ → ℕ → ℕ → Type 0
IsOther s w s' w' = (s' == s && w' == w) ≡ false

put_entry-other :
    (c : Cache) (s w s' w' : ℕ) (e : CacheEntry)
    → IsOther s w s' w'
    → (put_entry c s w e).cache_entries s' w' ≡ c.cache_entries s' w'
put_entry-other c s w s' w' e other = rw other refl

pub put_entry_self :
    (c : Cache) (s w : ℕ) (e : CacheEntry) → (put_entry c s w e).cache_entries s w ≡ e
put_entry_self c s w e = let here : (s == s && w == w) ≡ true = ground arith in rw here refl

pub same_place : (s w s' w' : ℕ) → (s' == s && w' == w) ≡ true → (s' ≡ s) × (w' ≡ w)
same_place s w s' w' h = (ground arith, ground arith)

-- The words of the line of way `w'` of set `s'` in the new memory `g` are those in the old one.
abbrev pub Agrees : Cache → (ℕ → ℕ) → (ℕ → ℕ) → ℕ → CacheEntry → Type 0
Agrees c f g s e =
    (k : ℕ) → k < words_per_block c → g (base_of c s e.tag + 4 * k) ≡ f (base_of c s e.tag + 4 * k)

pub IsLine-Agrees :
    (size : ℕ) (f g : ℕ → ℕ) (c : Cache) (s : ℕ) (e : CacheEntry)
    → Agrees c f g s e
    → IsLine size f c s e
    → IsLine size g c s e
IsLine-Agrees size f g c s e agrees l = record {
  sized = l.sized;
  words = l.words;
  inside = l.inside;
  clean = λ d k lt. l.clean d k lt ∙ sym (agrees k lt);
}

IsLine-put :
    (size : ℕ) (f : ℕ → ℕ) (c : Cache) (s w : ℕ) (e : CacheEntry) (s' : ℕ) (e' : CacheEntry)
    → IsLine size f c s' e'
    → IsLine size f (put_entry c s w e) s' e'
IsLine-put size f c s w e s' e' l = record {
  sized = l.sized;
  words = l.words;
  inside = l.inside;
  clean = l.clean;
}

-- What the entry `e` and the memory `g` must satisfy to take the places of way `w` of set `s` and of `f`.
pub record Replacement (size : ℕ) (f g : ℕ → ℕ) (c : Cache) (s w : ℕ) (e : CacheEntry)
    : Type 0 where
  pub lines : AreLines size f c
  pub s_lt : s < sets_of c
  pub w_lt : w < c.config.associativity
  pub agrees :
      (s' w' : ℕ)
      → s' < sets_of c
      → w' < c.config.associativity
      → IsOther s w s' w'
      → (c.cache_entries s' w').valid ≡ true
      → Agrees c f g s' (c.cache_entries s' w')
  pub new_line : e.valid ≡ true → IsLine size g c s e
  pub new_tag :
      e.valid ≡ true
      → (v : ℕ) → v < c.config.associativity
      → IsOther s w s v
      → is_hit (c.cache_entries s v) e.tag ≡ false

pub hit-valid : (e : CacheEntry) (t : ℕ) → is_hit e t ≡ true → (e.valid ≡ true) × (e.tag ≡ t)
hit-valid e t h = elim (Bool-cases e.valid) [
  | inl valid ↦ (valid, ground arith)
  | inr free ↦ absurd (ground arith)
]

module _ (size : ℕ) (f g : ℕ → ℕ) (c : Cache) (s w : ℕ) (e : CacheEntry)
    (r : Replacement size f g c s w e) where
  replaced_line :
      (s' w' : ℕ)
      → s' < sets_of c
      → w' < c.config.associativity
      → ((put_entry c s w e).cache_entries s' w').valid ≡ true
      → IsLine size g c s' ((put_entry c s w e).cache_entries s' w')
  replaced_line s' w' hs hw valid = elim (Bool-cases (s' == s && w' == w)) [
    | inl same ↦
        let (es, ew) = same_place s w s' w' same in rw same (rw es (r.new_line (rw same at valid)))
    | inr other ↦
        let valid' : (c.cache_entries s' w').valid ≡ true = rw other at valid in
        rw other (
          IsLine-Agrees size f g c s' (c.cache_entries s' w') (r.agrees s' w' hs hw other valid')
            (r.lines.line s' w' hs hw valid'))
  ]

  -- Two hits of one tag in the set are the same way.
  new_alone :
      (v t : ℕ)
      → v < c.config.associativity
      → IsOther s w s v
      → is_hit e t ≡ true
      → is_hit (c.cache_entries s v) t ≡ true
      → ⊥
  new_alone v t hv other here there =
      let (valid, tag) = hit-valid e t here in
      let absent = r.new_tag valid v hv other in absurd (ground arith)

  replaced_once :
      (s' v v' t : ℕ)
      → s' < sets_of c
      → v < c.config.associativity
      → v' < c.config.associativity
      → is_hit ((put_entry c s w e).cache_entries s' v) t ≡ true
      → is_hit ((put_entry c s w e).cache_entries s' v') t ≡ true
      → v ≡ v'
  replaced_once s' v v' t hs hv hv' hit hit' = elim (Bool-cases (s' == s && v == w)) [
    | inl same ↦ elim (Bool-cases (s' == s && v' == w)) [
      | inl same' ↦ (same_place s w s' v same).1 ∙ sym (same_place s w s' v' same').1
      | inr other' ↦
          let es = (same_place s w s' v same).0 in
          absurd
            (new_alone v' t hv' (rw es at other') (rw same at hit) (rw es at (rw other' at hit')))
    ]
    | inr other ↦ elim (Bool-cases (s' == s && v' == w)) [
      | inl same' ↦
          let es = (same_place s w s' v' same').0 in
          absurd (new_alone v t hv (rw es at other) (rw same' at hit') (rw es at (rw other at hit)))
      | inr other' ↦ r.lines.once s' v v' t hs hv hv' (rw other at hit) (rw other' at hit')
    ]
  ]

  pub replaced-AreLines : AreLines size g (put_entry c s w e)
  replaced-AreLines = record {
    geometry = record {
      block = r.lines.geometry.block;
      whole_words = r.lines.geometry.whole_words;
      shift = r.lines.geometry.shift;
      sets = r.lines.geometry.sets;
      fits = r.lines.geometry.fits;
    };
    fits = r.lines.fits;
    whole = r.lines.whole;
    line = λ s' w' hs hw valid.
        IsLine-put size g c s w e s' ((put_entry c s w e).cache_entries s' w')
          (replaced_line s' w' hs hw valid);
    once = replaced_once;
  }

  pub content-here :
      (b : ℕ)
      → get_set_index c b ≡ s
      → is_hit e (get_tag c b) ≡ true
      → content (put_entry c s w e) g b ≡ get_or e.words (get_block_offset c b / 4) 0
  content-here b at hit =
      let same : (get_set_index c b == s && w == w) ≡ true = ground arith in
      content-hit size g g (put_entry c s w e) b w replaced-AreLines r.w_lt (rw same hit)
      ∙ rw same refl

  pub content-other :
      (b v : ℕ)
      → v < c.config.associativity
      → hits_at c b v ≡ true
      → IsOther s w (get_set_index c b) v
      → content (put_entry c s w e) g b ≡ content c f b
  content-other b v hv hit other =
      content-hit size g g (put_entry c s w e) b v replaced-AreLines hv (rw other hit)
      ∙ rw other refl
      ∙ sym (content-hit size f f c b v r.lines hv hit)

  pub content-none :
      (b : ℕ)
      → ((v : ℕ)
          → v < c.config.associativity
          → IsOther s w (get_set_index c b) v
          → hits_at c b v ≡ false)
      → (get_set_index c b ≡ s → is_hit e (get_tag c b) ≡ false)
      → content (put_entry c s w e) g b ≡ g b
  content-none b misses gone =
      content-miss (put_entry c s w e) replaced-AreLines.geometry g b λ v hv.
        elim (Bool-cases (get_set_index c b == s && v == w)) [
          | inl same ↦ rw same (gone (same_place s w (get_set_index c b) v same).0)
          | inr other ↦ rw other (misses v hv other)
        ]

-- The lines and the content do not depend on the statistics, the MMU and the LRU lists.
abbrev pub rest_of : Cache → CacheStats → Option Mmu → (ℕ → List ℕ) → Cache
rest_of c stats mmu lru = record c { stats = stats; mmu = mmu; lru_lists = lru }

IsLine-rest :
    (size : ℕ) (f : ℕ → ℕ) (c : Cache) (stats : CacheStats) (mmu : Option Mmu) (lru : ℕ → List ℕ)
    (s : ℕ) (e : CacheEntry)
    → IsLine size f c s e
    → IsLine size f (rest_of c stats mmu lru) s e
IsLine-rest size f c stats mmu lru s e l = record {
  sized = l.sized;
  words = l.words;
  inside = l.inside;
  clean = l.clean;
}

pub AreLines-rest :
    (size : ℕ) (f : ℕ → ℕ) (c : Cache) (stats : CacheStats) (mmu : Option Mmu) (lru : ℕ → List ℕ)
    → AreLines size f c
    → AreLines size f (rest_of c stats mmu lru)
AreLines-rest size f c stats mmu lru l = record {
  geometry = record {
    block = l.geometry.block;
    whole_words = l.geometry.whole_words;
    shift = l.geometry.shift;
    sets = l.geometry.sets;
    fits = l.geometry.fits;
  };
  fits = l.fits;
  whole = l.whole;
  line = λ s w hs hw valid.
      IsLine-rest size f c stats mmu lru s (c.cache_entries s w) (l.line s w hs hw valid);
  once = l.once;
}

seen-rest :
    (c : Cache) (stats : CacheStats) (mmu : Option Mmu) (lru : ℕ → List ℕ) (f : ℕ → ℕ) (a : ℕ)
    (o : Option ℕ)
    → seen (rest_of c stats mmu lru) f a o ≡ seen c f a o
seen-rest c stats mmu lru f a none = refl
seen-rest c stats mmu lru f a (some w) = refl

pub content-rest :
    (c : Cache) (stats : CacheStats) (mmu : Option Mmu) (lru : ℕ → List ℕ) (f : ℕ → ℕ) (a : ℕ)
    → content (rest_of c stats mmu lru) f a ≡ content c f a
unfolding content find_entry
content-rest c stats mmu lru f a = seen-rest c stats mmu lru f a (find_entry c a)
