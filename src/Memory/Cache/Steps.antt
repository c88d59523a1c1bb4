-- ===== src/Memory/Cache/Steps.antt =====
-- The steps of the cache on one line: an eviction, a fill and a store.
use riscv_emulator.Base.{
  ℕ, ◌+◌, ◌*◌, ◌/◌, ◌%◌, ◌≤◌, ◌<◌, ◌≡◌, refl, sym, ap, ◌∙◌, arith, true, false, ◌&&◌, ◌==◌,
  Bool-cases, inl, inr, get_or,
}
use riscv_emulator.Memory.Interface.{IsAddress}
use riscv_emulator.Memory.Cache.{
  Cache, CacheEntry, get_set_index, get_tag, get_block_offset, words_per_block, is_hit, put_entry,
  dropped,
}
use riscv_emulator.Memory.Cache.Geometry.{IsGeometry, sets_of, base_of, set-base, tag-base}
use riscv_emulator.Memory.Cache.Lines.{
  AreLines, in_words, content, hits_at, place, place-lt, content-miss, content-hit, cases, only_hit,
}
use riscv_emulator.Memory.Cache.Replace.{
  IsOther, Replacement, content-other, content-none, hit-valid, same_place,
}

-- The address `b` is in the line of tag `t` in set `s`.
abbrev pub InLine : Cache → ℕ → ℕ → ℕ → Type 0
InLine c s t b = (get_set_index c b ≡ s) × (get_tag c b ≡ t)

module _ (c : Cache) (g : IsGeometry c) where
  -- The words of a line are in it, and are aligned addresses.
  pub word-InLine :
      (s t k : ℕ) → s < sets_of c → k < words_per_block c → InLine c s t (base_of c s t + 4 * k)
  word-InLine s t k hs hk =
      let small : 4 * k < c.config.block_size = omega (arith, g.whole_words) in
      (set-base c g s t (4 * k) hs small, tag-base c g s t (4 * k) hs small)

  pub word-IsAddress :
      (size s t k : ℕ)
      → k < words_per_block c
      → base_of c s t + c.config.block_size ≤ size
      → IsAddress size (base_of c s t + 4 * k)
  word-IsAddress size s t k hk inside =
      let base = in_words (t * sets_of c + s) c.config.block_size g.whole_words in
      (omega (arith, base), omega (arith, g.whole_words))

  -- An aligned address of the line is one of its words.
  pub InLine-word :
      (s t b : ℕ) → b % 4 ≡ 0 → InLine c s t b → base_of c s t + 4 * (get_block_offset c b / 4) ≡ b
  InLine-word s t b aligned (es, et) =
      ap (λ (x : ℕ). base_of c x t + 4 * (get_block_offset c b / 4)) (sym es)
      ∙ ap (λ (x : ℕ). base_of c (get_set_index c b) x + 4 * (get_block_offset c b / 4)) (sym et)
      ∙ place c g b aligned

pub is_hit_self : (e : CacheEntry) → e.valid ≡ true → is_hit e e.tag ≡ true
is_hit_self e h = ground arith

-- The words of the valid line in way `w'` of set `s'` are outside the line of `t` in set `s`, unless it is
-- that line.
pub other_line :
    (size : ℕ) (f : ℕ → ℕ) (c : Cache) (l : AreLines size f c) (s w s' w' : ℕ)
    → s < sets_of c
    → w < c.config.associativity
    → s' < sets_of c
    → w' < c.config.associativity
    → (c.cache_entries s w).valid ≡ true
    → (c.cache_entries s' w').valid ≡ true
    → IsOther s w s' w'
    → (k : ℕ) → k < words_per_block c
    → InLine c s (c.cache_entries s w).tag (base_of c s' (c.cache_entries s' w').tag + 4 * k)
    → ⊥
other_line size f c l s w s' w' hs hw hs' hw' valid valid' other k hk (es, et) =
    let t = (c.cache_entries s w).tag in
    let t' = (c.cache_entries s' w').tag in
    let (es', et') = word-InLine c l.geometry s' t' k hs' hk in
    let same_set : s' ≡ s = sym es' ∙ es in
    let same_tag : t' ≡ t = sym et' ∙ et in
    let hit' : is_hit (c.cache_entries s w') t ≡ true =
      ap (λ (x : ℕ). is_hit (c.cache_entries x w') t) (sym same_set)
      ∙ ap (is_hit (c.cache_entries s' w')) (sym same_tag)
      ∙ is_hit_self (c.cache_entries s' w') valid' in
    let same_way : w' ≡ w =
      l.once s w' w t hs hw' hw hit' (is_hit_self (c.cache_entries s w) valid) in
    absurd (ground arith)

-- Way `w` of set `s` dropped, after its words have been stored in memory if they must be.
module _ (size : ℕ) (f g : ℕ → ℕ) (c : Cache) (l : AreLines size f c) (s w : ℕ)
    (s_lt : s < sets_of c) (w_lt : w < c.config.associativity)
    (valid : (c.cache_entries s w).valid ≡ true)
    (kept : (k : ℕ)
      → k < words_per_block c
      → g (base_of c s (c.cache_entries s w).tag + 4 * k) ≡ get_or (c.cache_entries s w).words k 0)
    (rest : (b : ℕ)
      → IsAddress size b
      → (InLine c s (c.cache_entries s w).tag b → ⊥)
      → g b ≡ f b) where
  pub drop-Replacement : Replacement size f g c s w (dropped (c.cache_entries s w))
  drop-Replacement = record {
    lines = l;
    s_lt = s_lt;
    w_lt = w_lt;
    agrees = λ s' w' hs hw other valid' k hk.
        let line = l.line s' w' hs hw valid' in
        rest (base_of c s' (c.cache_entries s' w').tag + 4 * k)
          (word-IsAddress c l.geometry size s' (c.cache_entries s' w').tag k hk line.inside)
          (other_line size f c l s w s' w' s_lt w_lt hs hw valid valid' other k hk);
    new_line = λ h. absurd (ground arith);
    new_tag = λ h. absurd (ground arith);
  }

  pub drop-content :
      (b : ℕ)
      → IsAddress size b
      → content (put_entry c s w (dropped (c.cache_entries s w))) g b ≡ content c f b
  drop-content b at =
      let e = c.cache_entries s w in
      let r = drop-Replacement in
      let none : ((v : ℕ)
            → v < c.config.associativity
            → IsOther s w (get_set_index c b) v
            → hits_at c b v ≡ false)
          → content (put_entry c s w (dropped e)) g b ≡ g b =
        λ misses. content-none size f g c s w (dropped e) r b misses (λ h. refl) in
      elim (cases size f c b l) [
        | inl (v, hv, hit) ↦ elim (Bool-cases (get_set_index c b == s && v == w)) [
          | inl same ↦
              let (es, ew) = same_place s w (get_set_index c b) v same in
              let hit' : is_hit e (get_tag c b) ≡ true = rw (sym es, sym ew) hit in
              let (valid', et) = hit-valid e (get_tag c b) hit' in
              let word = InLine-word c l.geometry s e.tag b at.0 (es, sym et) in
              none (λ v' hv' other'.
                only_hit size f c b v' v l hv' hv hit (λ again. absurd (ground arith)))
              ∙ ap g (sym word)
              ∙ kept (get_block_offset c b / 4) (place-lt c l.geometry b)
              ∙ ap (λ (x : ℕ). get_or (c.cache_entries x w).words (get_block_offset c b / 4) 0)
                  (sym es)
              ∙ sym (content-hit size f f c b w l w_lt (rw (sym ew) hit))
          | inr other ↦ content-other size f g c s w (dropped e) r b v hv hit other
        ]
        | inr misses ↦
            none (λ v hv other. misses v hv)
            ∙ rest b at (λ inside.
              let (es, et) = inside in
              let hit : hits_at c b w ≡ true =
                ap (λ (x : ℕ). is_hit (c.cache_entries x w) (get_tag c b)) es
                ∙ ap (is_hit e) et
                ∙ is_hit_self e valid in
              let miss = misses w w_lt in absurd (ground arith))
            ∙ sym (content-miss c l.geometry f b misses)
      ]
