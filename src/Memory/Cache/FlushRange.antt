-- ===== src/Memory/Cache/FlushRange.antt =====
-- Whole flushes, of the line of an address and of a range.
use riscv_emulator.Base.{
  ℕ, zero, suc, ◌+◌, ◌≤◌, ◌<◌, ◌≡◌, refl, sym, ap, ◌∙◌, arith, true, ◌&&◌, some, Bool-cases,
  Option-cases, inl, inr, leb, ltb,
}
use riscv_emulator.Word.{u32}
use riscv_emulator.Memory.Interface.{MemoryInterface, Implements, IsAddress}
use riscv_emulator.Memory.Cache.{Cache, get_set_index, get_tag, is_hit, search_tag, line_address}
use riscv_emulator.Memory.Cache.Manage.{
  write_back_dirty, flush, flush_way, flush_ways, flush_sets, flush_range,
}
use riscv_emulator.Memory.Cache.Geometry.{sets_of}
use riscv_emulator.Memory.Cache.Search.{search_tag-some, search_tag-none}
use riscv_emulator.Memory.Cache.Lines.{content, set-lt, content-miss}
use riscv_emulator.Memory.Cache.Replace.{hit-valid}
use riscv_emulator.Memory.Cache.Steps.{InLine}
use riscv_emulator.Memory.Cache.Hold.{IsSound, Holds}
use riscv_emulator.Memory.Cache.Flush.{write_back_dirty-IsFlushed}

module _ {M : Type 0} (i : MemoryInterface M) (size : ℕ) (Good : M → Type 0) (view : M → ℕ → ℕ)
    (law : Implements i size Good view) where
  -- After a flush of the line of `a` memory has the content of that line, and no content has changed.
  pub record IsWrittenBack (c : Cache) (m : M) (a : ℕ) (c' : Cache) (m' : M) : Type 0 where
    pub holds : Holds i size Good view law (content c (view m)) c' m'
    pub memory :
        (b : ℕ)
        → IsAddress size b
        → InLine c (get_set_index c a) (get_tag c a) b
        → view m' b ≡ content c (view m) b

  -- A flush of an address leaves the cache sound and the content as it was, and memory then has the content of
  -- every word of the line of that address.
  pub flush-IsWrittenBack :
      (c : Cache) (m : M) (a : ℕ)
      → IsSound i size Good view law c m
      → IsWrittenBack c m a (flush (some i) c m a).0 (flush (some i) c m a).1
  unfolding flush
  flush-IsWrittenBack c m a h =
      let s = get_set_index c a in
      let t = get_tag c a in
      elim (Option-cases (search_tag (c.cache_entries s) t 0 c.config.associativity)) [
        | inl missed ↦
            let same : IsWrittenBack c m a c m = record {
              holds = record { sound = h; keeps = λ b at. refl };
              memory = λ b at (es, et). sym (
                  content-miss c h.lines.geometry (view m) b λ w lt.
                    ap (λ (x : ℕ). is_hit (c.cache_entries x w) (get_tag c b)) es
                    ∙ ap (is_hit (c.cache_entries s w)) et
                    ∙ search_tag-none (c.cache_entries s) t c.config.associativity w missed lt);
            } in
            rw missed same
        | inr (w, found) ↦
            let (w_lt, hit) =
              search_tag-some (c.cache_entries s) t c.config.associativity w found in
            let (valid, tag) = hit-valid (c.cache_entries s w) t hit in
            let done =
              write_back_dirty-IsFlushed i size Good view law c m s w h
                (set-lt c h.lines.geometry a) w_lt valid in
            let back : IsWrittenBack c m a (write_back_dirty (some i) c m s w).0
                (write_back_dirty (some i) c m s w).1 =
              record {
                holds = done.holds;
                memory = λ b at (es, et). done.memory b at (es, et ∙ sym tag);
              } in
            rw found back
      ]

  -- The states of a loop over the lines: the content stays `K`, and the shape that of `c0`.
  record IsDuring (K : ℕ → ℕ) (c0 : Cache) (c : Cache) (m : M) : Type 0 where
    holds : Holds i size Good view law K c m
    sets : sets_of c ≡ sets_of c0
    ways : c.config.associativity ≡ c0.config.associativity

  write_back_dirty-shape :
      (c : Cache) (m : M) (s w : ℕ)
      → (sets_of (write_back_dirty (some i) c m s w).0 ≡ sets_of c)
        × ((write_back_dirty (some i) c m s w).0.config.associativity ≡ c.config.associativity)
  unfolding write_back_dirty
  write_back_dirty-shape c m s w = elim (Bool-cases (c.cache_entries s w).dirty) [
    | inl dirty ↦ rw dirty (refl, refl)
    | inr clean ↦ rw clean (refl, refl)
  ]

  module _ (K : ℕ → ℕ) (c0 : Cache) (start_addr end_addr : ℕ) where
    flush_way-IsDuring :
        (c : Cache) (m : M) (s w : ℕ)
        → IsDuring K c0 c m
        → s < sets_of c0
        → w < c0.config.associativity
        → IsDuring K c0
            (flush_way (some i) start_addr end_addr c m s w).0
            (flush_way (some i) start_addr end_addr c m s w).1
    unfolding flush_way
    flush_way-IsDuring c m s w h hs hw =
        let within = leb start_addr (line_address c s w) && ltb (line_address c s w) end_addr in
        elim (Bool-cases ((c.cache_entries s w).valid && within)) [
          | inl chosen ↦
              let valid : (c.cache_entries s w).valid ≡ true = ground arith in
              let sound = h.holds.sound in
              let done =
                write_back_dirty-IsFlushed i size Good view law c m s w sound (rw h.sets hs)
                  (rw h.ways hw) valid in
              let (sets, ways) = write_back_dirty-shape c m s w in
              let r = write_back_dirty (some i) c m s w in
              let next : IsDuring K c0 r.0 r.1 = record {
                holds = record {
                  sound = done.holds.sound;
                  keeps = λ b at. done.holds.keeps b at ∙ h.holds.keeps b at;
                };
                sets = sets ∙ h.sets;
                ways = ways ∙ h.ways;
              } in
              rw chosen next
          | inr passed ↦ rw passed h
        ]

    flush_ways-IsDuring :
        (c : Cache) (m : M) (s w left : ℕ)
        → IsDuring K c0 c m
        → s < sets_of c0
        → w + left ≤ c0.config.associativity
        → IsDuring K c0
            (flush_ways (some i) start_addr end_addr c m s w left).0
            (flush_ways (some i) start_addr end_addr c m s w left).1
    unfolding flush_ways
    flush_ways-IsDuring c m s w zero h hs hw = h
    flush_ways-IsDuring c m s w (suc left) h hs hw =
        let r = flush_way (some i) start_addr end_addr c m s w in
        flush_ways-IsDuring r.0 r.1 s (w + 1) left (flush_way-IsDuring c m s w h hs (omega arith))
          hs (omega arith)

    flush_sets-IsDuring :
        (c : Cache) (m : M) (s left : ℕ)
        → IsDuring K c0 c m
        → s + left ≤ sets_of c0
        → IsDuring K c0
            (flush_sets (some i) start_addr end_addr c m s left).0
            (flush_sets (some i) start_addr end_addr c m s left).1
    unfolding flush_sets
    flush_sets-IsDuring c m s zero h hs = h
    flush_sets-IsDuring c m s (suc left) h hs =
        let r = flush_ways (some i) start_addr end_addr c m s 0 c.config.associativity in
        flush_sets-IsDuring r.0 r.1 (s + 1) left
          (flush_ways-IsDuring c m s 0 c.config.associativity h (omega arith)
            (omega (arith, h.ways)))
          (omega arith)

  -- A flush of a range leaves the cache sound and the content as it was, where the number of sets is a power
  -- of two.
  pub flush_range-Holds :
      (c : Cache) (m : M) (start_addr size' : ℕ)
      → IsSound i size Good view law c m
      → c.num_sets ≡ sets_of c
      → Holds i size Good view law
          (content c (view m))
          (flush_range (some i) c m start_addr size').0
          (flush_range (some i) c m start_addr size').1
  unfolding flush_range
  flush_range-Holds c m start_addr size' h all =
      let during : IsDuring (content c (view m)) c c m = record {
        holds = record { sound = h; keeps = λ b at. refl };
        sets = refl;
        ways = refl;
      } in
      (flush_sets-IsDuring (content c (view m)) c start_addr (u32 (start_addr + size')) c m 0
        c.num_sets during (omega arith)).holds
