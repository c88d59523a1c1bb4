-- ===== src/Memory/Cache/Fill.antt =====
-- A line brought into a free way.
use native.Mathlib.Nat.{div-add-mod', div-lt_iff_lt-mul, mul-le-mul_right}
use riscv_emulator.Base.{
  ℕ, ◌+◌, ◌*◌, ◌/◌, ◌%◌, ◌≤◌, ◌<◌, ◌≡◌, sym, ap, ◌∙◌, arith, true, false, ◌&&◌, ◌==◌, Bool-cases,
  inl, inr, List, length, get_or,
}
use riscv_emulator.Memory.Interface.{AllWords, IsAddress}
use riscv_emulator.Memory.Cache.{
  Cache, CacheEntry, get_set_index, get_tag, get_block_offset, words_per_block, is_hit, put_entry,
}
use riscv_emulator.Memory.Cache.Geometry.{base_of, base-address, block_pos}
use riscv_emulator.Memory.Cache.Lines.{
  AreLines, content, Misses, set-lt, place-lt, content-miss, cases,
}
use riscv_emulator.Memory.Cache.Replace.{
  Replacement, content-here, content-other, content-none, hit-valid, same_place,
}
use riscv_emulator.Memory.Cache.Steps.{word-IsAddress, InLine-word}

pub block_inside : (a B size : ℕ) → 0 < B → size % B ≡ 0 → a < size → a / B * B + B ≤ size
block_inside a B size p whole lt =
    let n = size / B in
    let all : n * B ≡ size = omega (arith, div-add-mod' size B) in
    let below : a / B < n = (div-lt_iff_lt-mul {k = B} {x = a} {y = n} p).1 (omega arith) in
    let product : (a / B + 1) * B ≤ n * B = mul-le-mul_right B (omega arith) in grind arith

module _ (size : ℕ) (f g : ℕ → ℕ) (c : Cache) (l : AreLines size f c) (a w : ℕ) (ws : List ℕ)
    (at : IsAddress size a) (w_lt : w < c.config.associativity)
    (free : (c.cache_entries (get_set_index c a) w).valid ≡ false) (misses : Misses c a)
    (sized : length ws ≡ words_per_block c) (words : AllWords ws)
    (loaded : (k : ℕ)
      → k < words_per_block c
      → get_or ws k 0 ≡ f (base_of c (get_set_index c a) (get_tag c a) + 4 * k))
    (same : (b : ℕ) → IsAddress size b → g b ≡ f b) where
  abbrev pub filled : CacheEntry
  filled = record { tag = get_tag c a; words = ws; valid = true; dirty = false }

  fill_inside : base_of c (get_set_index c a) (get_tag c a) + c.config.block_size ≤ size
  fill_inside =
      rw (base-address c l.geometry a)
        (block_inside a c.config.block_size size (block_pos c l.geometry) l.whole (omega arith))

  pub fill-Replacement : Replacement size f g c (get_set_index c a) w filled
  fill-Replacement = record {
    lines = l;
    s_lt = set-lt c l.geometry a;
    w_lt = w_lt;
    agrees = λ s' w' hs hw other valid k hk.
        same (base_of c s' (c.cache_entries s' w').tag + 4 * k) (
          word-IsAddress c l.geometry size s' (c.cache_entries s' w').tag k hk
            (l.line s' w' hs hw valid).inside);
    new_line = λ h. record {
      sized = sized;
      words = words;
      inside = fill_inside;
      clean = λ h k hk.
          loaded k hk
          ∙ sym (
              same (base_of c (get_set_index c a) (get_tag c a) + 4 * k) (
                word-IsAddress c l.geometry size (get_set_index c a) (get_tag c a) k hk
                  fill_inside));
    };
    new_tag = λ h v hv other. misses v hv;
  }

  -- The content stays the same.
  pub fill-content :
      (b : ℕ)
      → IsAddress size b
      → content (put_entry c (get_set_index c a) w filled) g b ≡ content c f b
  fill-content b at' =
      let s = get_set_index c a in
      let r = fill-Replacement in
      elim (cases size f c b l) [
        | inl (v, hv, hit) ↦ elim (Bool-cases (get_set_index c b == s && v == w)) [
          | inl here ↦
              let (es, ew) = same_place s w (get_set_index c b) v here in
              let hit' : is_hit (c.cache_entries s w) (get_tag c b) ≡ true =
                rw (sym es, sym ew) hit in
              let (valid, et) = hit-valid (c.cache_entries s w) (get_tag c b) hit' in
              absurd (ground arith)
          | inr other ↦ content-other size f g c s w filled r b v hv hit other
        ]
        | inr absent ↦ elim (Bool-cases (get_set_index c b == s && get_tag c a == get_tag c b)) [
          | inl here ↦
              let (es, et) = same_place s (get_tag c b) (get_set_index c b) (get_tag c a) here in
              content-here size f g c s w filled r b es (ground arith)
              ∙ loaded (get_block_offset c b / 4) (place-lt c l.geometry b)
              ∙ ap f (InLine-word c l.geometry s (get_tag c a) b at'.0 (es, sym et))
              ∙ sym (content-miss c l.geometry f b absent)
          | inr there ↦
              content-none size f g c s w filled r b (λ v hv other. absent v hv)
                (λ es. ground arith)
              ∙ same b at'
              ∙ sym (content-miss c l.geometry f b absent)
        ]
      ]
