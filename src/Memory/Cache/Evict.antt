-- ===== src/Memory/Cache/Evict.antt =====
-- A cache over a memory that keeps its contract: an eviction, and the fill after a miss.
use riscv_emulator.Base.{
  ℕ, ◌+◌, ◌*◌, ◌<◌, ◌≡◌, refl, sym, ap, ◌∙◌, arith, true, false, ◌&&◌, some, ◌==◌, if◌then◌else◌,
  Bool-cases, Option-cases, inl, inr, List, get_or,
}
use riscv_emulator.Memory.Interface.{MemoryInterface, Implements, IsAddress}
use riscv_emulator.Memory.Cache.Stats.{CacheStats}
use riscv_emulator.Memory.Cache.{
  Cache, CacheEntry, get_set_index, get_tag, words_per_block, put_entry, dropped, line_address,
  count_writeback, search_invalid, claim_after, allocate_entry, evict_way, evict_lru_entry,
  write_back_block,
}
use riscv_emulator.Memory.Cache.Access.{load_claimed, fill}
use riscv_emulator.Memory.Cache.Geometry.{base_of}
use riscv_emulator.Memory.Cache.Search.{
  search_invalid-some, search_invalid-none, search_invalid-exists, AllBelow, IsLru, IsLru-AllBelow,
  pop_back-IsLru,
}
use riscv_emulator.Memory.Cache.Lines.{AreLines, content, Misses, set-lt}
use riscv_emulator.Memory.Cache.Replace.{
  put_entry_self, replaced-AreLines, rest_of, AreLines-rest, content-rest,
}
use riscv_emulator.Memory.Cache.Steps.{InLine, drop-Replacement, drop-content}
use riscv_emulator.Memory.Cache.WriteBack.{victim_line, victim_start, write_back-in, write_back-out}
use riscv_emulator.Memory.Cache.Sound.{AreLru, AreLruBut, AreLru-AreLruBut, Filled, claim-Filled}

-- The list of one set replaced.
AreLruBut-replace :
    (c : Cache) (s : ℕ) (rest : List ℕ)
    → AreLru c
    → AllBelow c.config.associativity rest
    → (s' : ℕ)
    → AllBelow c.config.associativity (if s' == s then rest else c.lru_lists s')
      × ((s' == s) ≡ false
          → IsLru c.config.associativity (if s' == s then rest else c.lru_lists s'))
AreLruBut-replace c s rest h below s' = elim (Bool-cases (s' == s)) [
  | inl same ↦ rw same (below, λ ne. absurd (ground arith))
  | inr other ↦ rw other (IsLru-AllBelow c.config.associativity (c.lru_lists s') (h s'), λ ne. h s')
]

-- A dropped way holds no line.
Misses-drop :
    (c : Cache) (a w : ℕ)
    → Misses c a
    → Misses (put_entry c (get_set_index c a) w (dropped (c.cache_entries (get_set_index c a) w))) a
Misses-drop c a w misses v hv =
    elim (Bool-cases (get_set_index c a == get_set_index c a && v == w)) [
      | inl same ↦ rw same refl
      | inr other ↦ rw other (misses v hv)
    ]

module _ {M : Type 0} (i : MemoryInterface M) (size : ℕ) (Good : M → Type 0) (view : M → ℕ → ℕ)
    (law : Implements i size Good view) where
  -- A cache with a free way for the address `a`, which it does not hold.
  record ReadyAt (K : ℕ → ℕ) (a : ℕ) (c : Cache) (m : M) : Type 0 where
    lines : AreLines size (view m) c
    good : Good m
    keeps : (b : ℕ) → IsAddress size b → content c (view m) b ≡ K b
    lru : AreLruBut (get_set_index c a) c
    misses : Misses c a
    way : ℕ
    way_lt : way < c.config.associativity
    free : (c.cache_entries (get_set_index c a) way).valid ≡ false

  ready-Filled :
      (K : ℕ → ℕ) (a : ℕ) (c : Cache) (m : M)
      → IsAddress size a
      → ReadyAt K a c m
      → Filled i size Good view law K a
          (load_claimed (some i) a (claim_after (get_set_index c a) (get_tag c a) (some (c, m))))
  ready-Filled K a c m at r =
      let (w, found, lt, free) =
        search_invalid-exists (c.cache_entries (get_set_index c a)) c.config.associativity r.way
          r.way_lt r.free in
      rw found (
        claim-Filled i size Good view law K c m a w r.lines r.good r.keeps r.lru at r.misses lt
          free)

  module _ (c : Cache) (m : M) (a w : ℕ) (rest : List ℕ) (l : AreLines size (view m) c)
      (at : IsAddress size a) (lru : AreLru c) (misses : Misses c a)
      (w_lt : w < c.config.associativity) (below : AllBelow c.config.associativity rest)
      (valid : (c.cache_entries (get_set_index c a) w).valid ≡ true) where
    abbrev s : ℕ
    s = get_set_index c a

    abbrev victim : CacheEntry
    victim = c.cache_entries s w

    abbrev lists : ℕ → List ℕ
    lists s' = if s' == s then rest else c.lru_lists s'

    drop-ReadyAt :
        (stats : CacheStats) (m' : M)
        → Good m'
        → ((k : ℕ)
            → k < words_per_block c
            → view m' (base_of c s victim.tag + 4 * k) ≡ get_or victim.words k 0)
        → ((b : ℕ) → IsAddress size b → (InLine c s victim.tag b → ⊥) → view m' b ≡ view m b)
        → ReadyAt
            (content c (view m))
            a
            (rest_of (put_entry c s w (dropped victim)) stats c.mmu lists)
            m'
    drop-ReadyAt stats m' good kept out =
        let s_lt = set-lt c l.geometry a in
        let r = drop-Replacement size (view m) (view m') c l s w s_lt w_lt valid kept out in
        let c' = put_entry c s w (dropped victim) in
        record {
          lines =
              AreLines-rest size (view m') c' stats c.mmu lists
                (replaced-AreLines size (view m) (view m') c s w (dropped victim) r);
          good = good;
          keeps = λ b at'.
              content-rest c' stats c.mmu lists (view m') b
              ∙ drop-content size (view m) (view m') c l s w s_lt w_lt valid kept out b at';
          lru = AreLruBut-replace c s rest lru below;
          misses = Misses-drop c a w misses;
          way = w;
          way_lt = w_lt;
          free = ap (λ (x : CacheEntry). x.valid) (put_entry_self c s w (dropped victim));
        }

    drop-Filled :
        (stats : CacheStats) (m' : M)
        → Good m'
        → ((k : ℕ)
            → k < words_per_block c
            → view m' (base_of c s victim.tag + 4 * k) ≡ get_or victim.words k 0)
        → ((b : ℕ) → IsAddress size b → (InLine c s victim.tag b → ⊥) → view m' b ≡ view m b)
        → Filled i size Good view law (content c (view m)) a (
            load_claimed (some i) a (
              claim_after s
                (get_tag c a)
                (some (rest_of (put_entry c s w (dropped victim)) stats c.mmu lists, m'))))
    drop-Filled stats m' good kept out =
        ready-Filled (content c (view m)) a
          (rest_of (put_entry c s w (dropped victim)) stats c.mmu lists) m' at
          (drop-ReadyAt stats m' good kept out)

    evict-Filled :
        Good m
        → Filled i size Good view law (content c (view m)) a (
            load_claimed
              (some i)
              a
              (claim_after s (get_tag c a) (some (evict_way (some i) c m s w rest))))
    unfolding write_back_block
    evict-Filled good =
        let s_lt = set-lt c l.geometry a in
        let (start, aligned, inside) =
          victim_start i size Good view law c m s w l s_lt w_lt valid in
        let old = victim_line i size Good view law c m s w l s_lt w_lt valid in
        elim (Bool-cases victim.dirty) [
          | inl dirty ↦ rw dirty (
              drop-Filled (count_writeback c).stats
                (i.write_block m (line_address c s w) victim.words)
                (law.write_block_good m (line_address c s w) victim.words good aligned inside
                  old.words)
                (λ k hk. write_back-in i size Good view law c m s w l s_lt w_lt valid k good hk)
                (λ b at' out.
                  write_back-out i size Good view law c m s w l s_lt w_lt valid b good at' out))
          | inr clean ↦
              rw clean (
                drop-Filled c.stats m good (λ k hk. sym (old.clean clean k hk)) (λ b at' out. refl))
        ]

  -- A miss brings the line in, whatever the set holds, and the content stays.
  pub fill-Filled :
      (c : Cache) (m : M) (a : ℕ)
      → AreLines size (view m) c
      → AreLru c
      → Good m
      → IsAddress size a
      → Misses c a
      → Filled i size Good view law (content c (view m)) a (fill (some i) c m a)
  unfolding fill allocate_entry evict_lru_entry
  fill-Filled c m a l lru good at misses =
      let s = get_set_index c a in
      elim (Option-cases (search_invalid (c.cache_entries s) 0 c.config.associativity)) [
        | inl full ↦
            let (w, rest, last, w_lt, below) =
              pop_back-IsLru c.config.associativity (c.lru_lists s) (lru s) in
            let valid =
              search_invalid-none (c.cache_entries s) c.config.associativity w full w_lt in
            rw (full, last) (evict-Filled c m a w rest l at lru misses w_lt below valid good)
        | inr (w, found) ↦
            let (w_lt, free) =
              search_invalid-some (c.cache_entries s) c.config.associativity w found in
            rw found (
              claim-Filled i size Good view law (content c (view m)) c m a w l good (λ b at'. refl)
                (AreLru-AreLruBut s c lru) at misses w_lt free)
      ]
