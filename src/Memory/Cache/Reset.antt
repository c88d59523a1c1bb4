-- ===== src/Memory/Cache/Reset.antt =====
-- The whole cache invalidated, as at the reset and the load of a program.
use riscv_emulator.Base.{
  ℕ, ◌<◌, ◌≡◌, refl, arith, Bool, true, false, ◌&&◌, ltb, if_both, List, [], ◌∷◌,
}
use riscv_emulator.Memory.Interface.{MemoryInterface, Implements}
use riscv_emulator.Memory.Cache.{Cache, CacheEntry, get_set_index, get_tag, is_hit}
use riscv_emulator.Memory.Cache.Manage.{invalidate_all}
use riscv_emulator.Memory.Cache.Geometry.{IsGeometry, sets_of}
use riscv_emulator.Memory.Cache.Search.{IsLru}
use riscv_emulator.Memory.Cache.Lines.{content, content-miss, set-lt}
use riscv_emulator.Memory.Cache.Hold.{IsSound}
use riscv_emulator.Memory.Cache.Create.{indices-IsLru}

invalid :
    (c : Cache) (s w : ℕ)
    → IsGeometry c
    → s < sets_of c
    → w < c.config.associativity
    → ((invalidate_all c).cache_entries s w).valid ≡ false
unfolding invalidate_all
invalid c s w g hs hw =
    let inside : (ltb s c.num_sets && ltb w c.config.associativity) ≡ true =
      ground (arith, g.sets) in
    rw inside refl

-- A list of ways is not empty, so there are ways.
ways_pos : (n : ℕ) (xs : List ℕ) → IsLru n xs → 0 < n
ways_pos n [] h = elim h [ ]
ways_pos n (x ∷ xs) h = omega (arith, h.0)

true_is_false : {b : Bool} → b ≡ true → b ≡ false → ⊥
true_is_false h h' = absurd (ground arith)

miss : (e : CacheEntry) (t : ℕ) → e.valid ≡ false → is_hit e t ≡ false
miss e t h = ground arith

no_hit : (e : CacheEntry) (t : ℕ) → e.valid ≡ false → is_hit e t ≡ true → ⊥
no_hit e t h h' = absurd (ground arith)

module _ {M : Type 0} (i : MemoryInterface M) (size : ℕ) (Good : M → Type 0) (view : M → ℕ → ℕ)
    (law : Implements i size Good view) where
  -- A sound cache is sound after `invalidate_all`, and its content is that of the memory below.
  pub invalidate_all-IsSound :
      (c : Cache) (m : M)
      → IsSound i size Good view law c m
      → (IsSound i size Good view law (invalidate_all c) m)
        × ((b : ℕ) → content (invalidate_all c) (view m) b ≡ view m b)
  unfolding invalidate_all
  invalidate_all-IsSound c m h =
      let g = h.lines.geometry in
      let g' : IsGeometry (invalidate_all c) = record {
        block = g.block;
        whole_words = g.whole_words;
        shift = g.shift;
        sets = g.sets;
        fits = g.fits;
      } in
      (
        record {
          lines = record {
            geometry = g';
            fits = h.lines.fits;
            whole = h.lines.whole;
            line = λ s w hs hw valid.
                let free = invalid c s w g hs hw in absurd (true_is_false valid free);
            once = λ s v w t hs hv hw hit hit'.
                let free = invalid c s v g hs hv in
                absurd (no_hit ((invalidate_all c).cache_entries s v) t free hit);
          };
          lru = λ s.
              if_both (IsLru c.config.associativity) (ltb s c.num_sets)
                (indices-IsLru c.config.associativity
                  (ways_pos c.config.associativity (c.lru_lists s) (h.lru s)))
                (h.lru s);
          good = h.good;
        },
        λ b. content-miss (invalidate_all c) g' (view m) b (λ w lt.
            let free = invalid c (get_set_index c b) w g (set-lt c g b) lt in
            miss ((invalidate_all c).cache_entries (get_set_index c b) w) (get_tag c b) free),
      )
