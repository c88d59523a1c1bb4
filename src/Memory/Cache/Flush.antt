-- ===== src/Memory/Cache/Flush.antt =====
-- Write-backs on request: flush and flush_range of Cache.cpp over a memory that keeps its contract.
use riscv_emulator.Base.{
  ℕ, ◌+◌, ◌*◌, ◌/◌, ◌<◌, ◌≡◌, refl, sym, ap, ◌∙◌, arith, true, false, ◌&&◌, some, ◌==◌, Bool-cases,
  inl, inr, get_or,
}
use riscv_emulator.Memory.Interface.{MemoryInterface, Implements, IsAddress}
use riscv_emulator.Memory.Cache.{
  Cache, CacheEntry, get_set_index, get_tag, get_block_offset, is_hit, put_entry, line_address,
  write_back_block,
}
use riscv_emulator.Memory.Cache.Manage.{write_back_dirty}
use riscv_emulator.Memory.Cache.Geometry.{sets_of, base_of}
use riscv_emulator.Memory.Cache.Lines.{content, hits_at, place-lt, content-miss, content-hit, cases}
use riscv_emulator.Memory.Cache.Replace.{
  Replacement, replaced-AreLines, content-here, content-other, content-none, same_place,
}
use riscv_emulator.Memory.Cache.Steps.{InLine, InLine-word, word-IsAddress, other_line, is_hit_self}
use riscv_emulator.Memory.Cache.WriteBack.{victim_line, victim_start, write_back-in, write_back-out}
use riscv_emulator.Memory.Cache.Hold.{IsSound, Holds}

module _ {M : Type 0} (i : MemoryInterface M) (size : ℕ) (Good : M → Type 0) (view : M → ℕ → ℕ)
    (law : Implements i size Good view) where
  module _ (c : Cache) (m : M) (s w : ℕ) (h : IsSound i size Good view law c m)
      (s_lt : s < sets_of c) (w_lt : w < c.config.associativity)
      (valid : (c.cache_entries s w).valid ≡ true) where
    abbrev entry : CacheEntry
    entry = c.cache_entries s w

    abbrev cleaned : CacheEntry
    cleaned = record entry { dirty = false }

    abbrev g : ℕ → ℕ
    g = view (i.write_block m (line_address c s w) entry.words)

    cleaned-Replacement : Replacement size (view m) g c s w cleaned
    cleaned-Replacement = record {
      lines = h.lines;
      s_lt = s_lt;
      w_lt = w_lt;
      agrees = λ s' w' hs hw other valid' k hk.
          let line = h.lines.line s' w' hs hw valid' in
          let t' = (c.cache_entries s' w').tag in
          write_back-out i size Good view law c m s w h.lines s_lt w_lt valid
            (base_of c s' t' + 4 * k) h.good
            (word-IsAddress c h.lines.geometry size s' t' k hk line.inside)
            (other_line size (view m) c h.lines s w s' w' s_lt w_lt hs hw valid valid' other k hk);
      new_line = λ e.
          let line = victim_line i size Good view law c m s w h.lines s_lt w_lt valid in
          record {
            sized = line.sized;
            words = line.words;
            inside = line.inside;
            clean = λ d k hk.
                sym
                  (write_back-in i size Good view law c m s w h.lines s_lt w_lt valid k h.good hk);
          };
      new_tag = λ e v hv other. elim (Bool-cases (is_hit (c.cache_entries s v) entry.tag)) [
        | inl hit ↦
            let same = h.lines.once s v w entry.tag s_lt hv w_lt hit (is_hit_self entry valid) in
            absurd (ground arith)
        | inr miss ↦ miss
      ];
    }

    -- A word of the line: both hold it now.
    cleaned-memory :
        (b : ℕ) → IsAddress size b → InLine c s entry.tag b → g b ≡ content c (view m) b
    cleaned-memory b at (es, et) =
        let hit : hits_at c b w ≡ true =
          ap (λ (x : ℕ). is_hit (c.cache_entries x w) (get_tag c b)) es
          ∙ ap (is_hit entry) et
          ∙ is_hit_self entry valid in
        let k = get_block_offset c b / 4 in
        ap g (sym (InLine-word c h.lines.geometry s entry.tag b at.0 (es, et)))
        ∙ write_back-in i size Good view law c m s w h.lines s_lt w_lt valid k h.good
            (place-lt c h.lines.geometry b)
        ∙ ap (λ (x : ℕ). get_or (c.cache_entries x w).words k 0) (sym es)
        ∙ sym (content-hit size (view m) (view m) c b w h.lines w_lt hit)

    cleaned-content :
        (b : ℕ) → IsAddress size b → content (put_entry c s w cleaned) g b ≡ content c (view m) b
    cleaned-content b at =
        let r = cleaned-Replacement in
        elim (cases size (view m) c b h.lines) [
          | inl (v, hv, hit) ↦ elim (Bool-cases (get_set_index c b == s && v == w)) [
            | inl here ↦
                let (es, ew) = same_place s w (get_set_index c b) v here in
                let hit' : is_hit entry (get_tag c b) ≡ true = rw (sym es, sym ew) hit in
                content-here size (view m) g c s w cleaned r b es hit'
                ∙ ap (λ (x : ℕ). get_or (c.cache_entries x w).words (get_block_offset c b / 4) 0)
                    (sym es)
                ∙ sym (content-hit size (view m) (view m) c b w h.lines w_lt (rw (sym ew) hit))
            | inr other ↦ content-other size (view m) g c s w cleaned r b v hv hit other
          ]
          | inr absent ↦
              let gone : InLine c s entry.tag b → ⊥ = λ (es, et).
                let hit : hits_at c b w ≡ true =
                  ap (λ (x : ℕ). is_hit (c.cache_entries x w) (get_tag c b)) es
                  ∙ ap (is_hit entry) et
                  ∙ is_hit_self entry valid in
                let miss = absent w w_lt in absurd (ground arith) in
              content-none size (view m) g c s w cleaned r b (λ v hv other. absent v hv)
                (λ es.
                  ap (λ (x : ℕ). is_hit (c.cache_entries x w) (get_tag c b)) (sym es)
                  ∙ absent w w_lt)
              ∙ write_back-out i size Good view law c m s w h.lines s_lt w_lt valid b h.good at gone
              ∙ sym (content-miss c h.lines.geometry (view m) b absent)
        ]

    -- After the write-back the content is as before, and memory has the words of the line.
    pub record IsFlushed (c' : Cache) (m' : M) : Type 0 where
      pub holds : Holds i size Good view law (content c (view m)) c' m'
      pub memory :
          (b : ℕ) → IsAddress size b → InLine c s entry.tag b → view m' b ≡ content c (view m) b

    pub write_back_dirty-IsFlushed :
        IsFlushed (write_back_dirty (some i) c m s w).0 (write_back_dirty (some i) c m s w).1
    unfolding write_back_dirty write_back_block
    write_back_dirty-IsFlushed = elim (Bool-cases entry.dirty) [
      | inl dirty ↦
          let (start, aligned, inside) =
            victim_start i size Good view law c m s w h.lines s_lt w_lt valid in
          let line = victim_line i size Good view law c m s w h.lines s_lt w_lt valid in
          let flushed : IsFlushed (put_entry c s w cleaned)
              (i.write_block m (line_address c s w) entry.words) =
            record {
              holds = record {
                sound = record {
                  lines = replaced-AreLines size (view m) g c s w cleaned cleaned-Replacement;
                  lru = h.lru;
                  good =
                      law.write_block_good m (line_address c s w) entry.words h.good aligned inside
                        line.words;
                };
                keeps = cleaned-content;
              };
              memory = cleaned-memory;
            } in
          rw dirty flushed
      | inr clean ↦
          let line = victim_line i size Good view law c m s w h.lines s_lt w_lt valid in
          let flushed : IsFlushed c m = record {
            holds = record { sound = h; keeps = λ b at. refl };
            memory = λ b at (es, et).
                let hit : hits_at c b w ≡ true =
                  ap (λ (x : ℕ). is_hit (c.cache_entries x w) (get_tag c b)) es
                  ∙ ap (is_hit entry) et
                  ∙ is_hit_self entry valid in
                let k = get_block_offset c b / 4 in
                ap (view m) (sym (InLine-word c h.lines.geometry s entry.tag b at.0 (es, et)))
                ∙ sym (line.clean clean k (place-lt c h.lines.geometry b))
                ∙ ap (λ (x : ℕ). get_or (c.cache_entries x w).words k 0) (sym es)
                ∙ sym (content-hit size (view m) (view m) c b w h.lines w_lt hit);
          } in
          rw clean flushed
    ]
