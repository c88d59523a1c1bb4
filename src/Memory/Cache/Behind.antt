-- ===== src/Memory/Cache/Behind.antt =====
-- The writes behind the cache, to the region of the locks and the page table, in `write` of Cache.cpp.
use riscv_emulator.Base.{
  ℕ, ◌+◌, ◌*◌, ◌/◌, ◌^◌, ◌<◌, ◌≡◌, refl, sym, ap, ◌∙◌, arith, Bool, true, false, ◌&&◌, some, ◌==◌,
  if◌then◌else◌, Bool-cases, Option-cases, inl, inr, set,
}
use riscv_emulator.Memory.Interface.{MemoryInterface, Implements, IsAddress}
use riscv_emulator.Memory.Cache.{
  Cache, CacheEntry, get_set_index, get_tag, get_block_offset, is_hit, find_entry, search_tag,
  put_entry, dropped,
}
use riscv_emulator.Memory.Cache.Access.{
  count_access, count_hit, write_behind, through_found, invalidate, invalidate_found, store_word,
}
use riscv_emulator.Memory.Cache.Lines.{
  AreLines, content, hits_at, Misses, find_entry-some, find_entry-none, cases, only_hit,
  content-hit, content-miss, set-lt,
}
use riscv_emulator.Memory.Cache.Geometry.{sets_of, base_of}
use riscv_emulator.Memory.Cache.Steps.{word-InLine, word-IsAddress, is_hit_self}
use riscv_emulator.Memory.Cache.Search.{search_tag_unique}
use riscv_emulator.Memory.Cache.Replace.{
  IsLine-Agrees, Agrees, Replacement, replaced-AreLines, content-other, content-none, IsOther,
  same_place, AreLines-rest, content-rest, put_entry_self, hit-valid,
}
use riscv_emulator.Memory.Cache.Store.{store-Replacement}
use riscv_emulator.Memory.Cache.Sound.{put_put}
use riscv_emulator.Memory.Cache.Hold.{IsSound}

abbrev pub same_line : Cache → ℕ → ℕ → Bool
same_line c a b = get_set_index c b == get_set_index c a && get_tag c b == get_tag c a

-- The content after a write behind the cache: the rest of the line is as memory has it.
abbrev pub behind : Cache → (ℕ → ℕ) → ℕ → ℕ → ℕ → ℕ
behind c f a v b = if b == a then v else (if same_line c a b then f b else content c f b)

not_at : (c : Cache) (a b : ℕ) → same_line c a b ≡ false → (b == a) ≡ false
not_at c a b far = elim (Bool-cases (b == a)) [
  | inl e ↦
      let same : b ≡ a = ground arith in
      let es = ap (get_set_index c) same in let et = ap (get_tag c) same in absurd (ground arith)
  | inr ne ↦ ne
]

-- A choice between equals.
if_same : (p : Bool) {x y : ℕ} → x ≡ y → (if p then y else x) ≡ x
if_same p h = ground arith

-- The entry of a line that has been stored to and thrown away.
abbrev thrown : Cache → ℕ → ℕ → ℕ → CacheEntry
thrown c a value w =
    let e = c.cache_entries (get_set_index c a) w in
    dropped (record e { words = set e.words (get_block_offset c a / 4) value; dirty = false })

module _ {M : Type 0} (i : MemoryInterface M) (size : ℕ) (Good : M → Type 0) (view : M → ℕ → ℕ)
    (law : Implements i size Good view) where
  -- Memory written at an address whose line the cache has had in way `w` and has thrown away.
  module _ (c : Cache) (m m' : M) (a value w : ℕ) (gone : CacheEntry) (l : AreLines size (view m) c)
      (at : IsAddress size a) (fits : value < 2 ^ 32) (w_lt : w < c.config.associativity)
      (hit : hits_at c a w ≡ true) (free : gone.valid ≡ false)
      (memory : (b : ℕ) → IsAddress size b → view m' b ≡ (if b == a then value else view m b)) where
    abbrev s : ℕ
    s = get_set_index c a

    abbrev g : ℕ → ℕ
    g = view m'

    pub gone-Replacement : Replacement size (view m) g c s w gone
    gone-Replacement =
        let r =
          store-Replacement size (view m) g c l a w value true true at w_lt hit fits memory
            (λ e. absurd (ground arith)) in
        record {
          lines = l;
          s_lt = r.s_lt;
          w_lt = w_lt;
          agrees = r.agrees;
          new_line = λ e. absurd (ground arith);
          new_tag = λ e. absurd (ground arith);
        }

    far_content :
        (b : ℕ)
        → IsAddress size b
        → same_line c a b ≡ false
        → (b == a) ≡ false
        → content (put_entry c s w gone) g b ≡ content c (view m) b
    far_content b at' far apart =
        let r = gone-Replacement in
        elim (cases size (view m) c b l) [
          | inl (v, hv, hit') ↦
              let other : IsOther s w (get_set_index c b) v =
                elim (Bool-cases (get_set_index c b == s && v == w)) [
                  | inl here ↦
                      let (es, ew) = same_place s w (get_set_index c b) v here in
                      let hit'' : is_hit (c.cache_entries s w) (get_tag c b) ≡ true =
                        rw (sym es, sym ew) hit' in
                      let tag = (hit-valid (c.cache_entries s w) (get_tag c a) hit).1 in
                      let tag' = (hit-valid (c.cache_entries s w) (get_tag c b) hit'').1 in
                      absurd (ground arith)
                  | inr other ↦ other
                ] in
              content-other size (view m) g c s w gone r b v hv hit' other
          | inr absent ↦
              content-none size (view m) g c s w gone r b (λ v hv other. absent v hv)
                (λ e. ground arith)
              ∙ memory b at'
              ∙ rw apart (sym (content-miss c l.geometry (view m) b absent))
        ]

    -- An address of the line is read from memory after that, any other one as before.
    pub gone-content :
        (b : ℕ)
        → IsAddress size b
        → content (put_entry c s w gone) g b ≡ behind c (view m) a value b
    gone-content b at' =
        let r = gone-Replacement in
        elim (Bool-cases (same_line c a b)) [
          | inl near ↦
              let (es, et) = same_place s (get_tag c a) (get_set_index c b) (get_tag c b) near in
              let hit' : hits_at c b w ≡ true =
                ap (λ (x : ℕ). is_hit (c.cache_entries x w) (get_tag c b)) es
                ∙ ap (is_hit (c.cache_entries s w)) et
                ∙ hit in
              content-none size (view m) g c s w gone r b
                (λ v hv other.
                  only_hit size (view m) c b v w l hv w_lt hit' (λ e. absurd (ground arith)))
                (λ e. ground arith)
              ∙ memory b at'
              ∙ rw near refl
          | inr far ↦ let apart = not_at c a b far in rw (apart, far) (far_content b at' far apart)
        ]

  -- Memory written at an address that the cache does not have.
  module _ (c : Cache) (m m' : M) (a value : ℕ) (l : AreLines size (view m) c) (misses : Misses c a)
      (memory : (b : ℕ) → IsAddress size b → view m' b ≡ (if b == a then value else view m b)) where
    beside :
        (s' w' : ℕ)
        → s' < sets_of c
        → w' < c.config.associativity
        → (c.cache_entries s' w').valid ≡ true
        → Agrees c (view m) (view m') s' (c.cache_entries s' w')
    beside s' w' hs hw valid k hk =
        let e = c.cache_entries s' w' in
        let x = base_of c s' e.tag + 4 * k in
        let inside =
          word-IsAddress c l.geometry size s' e.tag k hk (l.line s' w' hs hw valid).inside in
        memory x inside ∙ elim (Bool-cases (x == a)) [
          | inl same ↦
              let eq : x ≡ a = ground arith in
              let (es, et) = word-InLine c l.geometry s' e.tag k hs hk in
              let hit : hits_at c a w' ≡ true =
                ap (λ (y : ℕ). hits_at c y w') (sym eq)
                ∙ ap (λ (y : ℕ). is_hit (c.cache_entries y w') (get_tag c x)) es
                ∙ ap (is_hit e) et
                ∙ is_hit_self e valid in
              let miss = misses w' hw in absurd (ground arith)
          | inr apart ↦ rw apart refl
        ]

    pub missed-AreLines : AreLines size (view m') c
    missed-AreLines = record {
      geometry = l.geometry;
      fits = l.fits;
      whole = l.whole;
      line = λ s w hs hw valid.
          IsLine-Agrees size (view m) (view m') c s (c.cache_entries s w) (beside s w hs hw valid)
            (l.line s w hs hw valid);
      once = l.once;
    }

    pub missed-content :
        (b : ℕ) → IsAddress size b → content c (view m') b ≡ behind c (view m) a value b
    missed-content b at' =
        let g = view m' in
        elim (cases size (view m) c b l) [
          | inl (v, hv, hit) ↦
              let far : same_line c a b ≡ false = elim (Bool-cases (same_line c a b)) [
                | inl near ↦
                    let (es, et) =
                      same_place (get_set_index c a) (get_tag c a) (get_set_index c b) (get_tag c b)
                        near in
                    let hit' : hits_at c a v ≡ true =
                      ap (λ (x : ℕ). is_hit (c.cache_entries x v) (get_tag c a)) (sym es)
                      ∙ ap (is_hit (c.cache_entries (get_set_index c b) v)) (sym et)
                      ∙ hit in
                    let miss = misses v hv in absurd (ground arith)
                | inr far ↦ far
              ] in
              let apart = not_at c a b far in
              content-hit size (view m) g c b v l hv hit
              ∙ sym (content-hit size (view m) (view m) c b v l hv hit)
              ∙ rw (apart, far) refl
          | inr absent ↦
              content-miss c l.geometry g b absent
              ∙ memory b at'
              ∙ ap (λ (x : ℕ). if b == a then value else x)
                  (sym (content-miss c l.geometry (view m) b absent)
                    ∙ sym (if_same (same_line c a b) (content-miss c l.geometry (view m) b absent)))
        ]

  -- The line found again by `invalidate`.
  found_again :
      (c : Cache) (m : M) (a value w : ℕ)
      → AreLines size (view m) c
      → w < c.config.associativity
      → hits_at c a w ≡ true
      → search_tag
          ((store_word c a w value false).cache_entries (get_set_index c a))
          (get_tag c a)
          0
          c.config.associativity
        ≡ some w
  found_again c m a value w l w_lt hit =
      let s = get_set_index c a in
      let row = (store_word c a w value false).cache_entries s in
      let e = record (c.cache_entries s w) {
        words = set (c.cache_entries s w).words (get_block_offset c a / 4) value;
        dirty = false;
      } in
      search_tag_unique row (get_tag c a) c.config.associativity w w_lt
        (ap (λ (x : CacheEntry). is_hit x (get_tag c a)) (put_entry_self c s w e) ∙ hit)
        λ x lt hit'. elim (Bool-cases (s == s && x == w)) [
          | inl same ↦ (same_place s w s x same).1
          | inr other ↦
              l.once s x w (get_tag c a) (set-lt c l.geometry a) lt w_lt (rw other at hit') hit
        ]

  through_lem :
      (c : Cache) (m : M) (a value w : ℕ)
      → AreLines size (view m) c
      → w < c.config.associativity
      → hits_at c a w ≡ true
      → through_found c a value (some w) ≡ put_entry c (get_set_index c a) w (thrown c a value w)
  unfolding invalidate
  through_lem c m a value w l w_lt hit =
      let s = get_set_index c a in
      let e = record (c.cache_entries s w) {
        words = set (c.cache_entries s w).words (get_block_offset c a / 4) value;
        dirty = false;
      } in
      let c1 = store_word c a w value false in
      ap (invalidate_found c1 s) (found_again c m a value w l w_lt hit)
      ∙ ap (λ (x : CacheEntry). put_entry c1 s w (dropped x)) (put_entry_self c s w e)
      ∙ put_put c s w e (dropped e)

  -- What is true of the cache and the memory after a write behind it.
  pub record IsBehind (c : Cache) (m : M) (a value : ℕ) (c' : Cache) (m' : M) : Type 0 where
    pub sound : IsSound i size Good view law c' m'
    pub content_lem :
        (b : ℕ) → IsAddress size b → content c' (view m') b ≡ behind c (view m) a value b

  -- Counting aside, which does not show.
  counted :
      (c c1 : Cache) (m m' : M) (a value core_id : ℕ)
      → IsBehind c m a value c1 m'
      → IsBehind c m a value (count_hit (count_access c1) core_id) m'
  counted c c1 m m' a value core_id h =
      let stats = (count_hit (count_access c1) core_id).stats in
      record {
        sound = record {
          lines = AreLines-rest size (view m') c1 stats c1.mmu c1.lru_lists h.sound.lines;
          lru = h.sound.lru;
          good = h.sound.good;
        };
        content_lem =
            λ b at. content-rest c1 stats c1.mmu c1.lru_lists (view m') b ∙ h.content_lem b at;
      }

  -- A write behind the cache, to the page table or the locks, leaves the cache sound and stores the value; all
  -- other words of the same line become those of the memory below, so that what the cache alone had of them is
  -- lost, and all other lines keep their content. The cache is sound, the address aligned and in range, the value
  -- a word.
  pub write_behind-IsBehind :
      (c : Cache) (m : M) (a value core_id : ℕ)
      → IsSound i size Good view law c m
      → IsAddress size a
      → value < 2 ^ 32
      → IsBehind c m a value
          (write_behind (some i) c m a value core_id).0
          (write_behind (some i) c m a value core_id).1
  unfolding write_behind
  write_behind-IsBehind c m a value core_id h at fits =
      let m' = i.write_word m a value in
      let good = law.write_word_good m a value h.good at fits in
      let memory : (b : ℕ) → IsAddress size b → view m' b ≡ (if b == a then value else view m b) =
        λ b at'. law.write_word_lem m a value b h.good at fits at' in
      elim (Option-cases (find_entry c a)) [
        | inl missed ↦
            let misses = find_entry-none c h.lines.geometry a missed in
            rw missed (
              counted c c m m' a value core_id record {
                sound = record {
                  lines = missed-AreLines c m m' a value h.lines misses memory;
                  lru = h.lru;
                  good = good;
                };
                content_lem = λ b at'. missed-content c m m' a value h.lines misses memory b at';
              })
        | inr (w, found) ↦
            let (w_lt, hit) = find_entry-some c h.lines.geometry a w found in
            let e = thrown c a value w in
            let s = get_set_index c a in
            rw (found, through_lem c m a value w h.lines w_lt hit)
              (counted c (put_entry c s w e) m m' a value core_id record {
                sound = record {
                  lines =
                      replaced-AreLines size (view m) (view m') c s w e
                        (gone-Replacement c m m' a value w e h.lines at fits w_lt hit refl memory);
                  lru = h.lru;
                  good = good;
                };
                content_lem = λ b at'.
                    gone-content c m m' a value w e h.lines at fits w_lt hit refl memory b at';
              })
      ]
