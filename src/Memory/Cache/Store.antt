-- ===== src/Memory/Cache/Store.antt =====
-- A word stored in a line that the cache holds.
use riscv_emulator.Base.{
  ℕ, zero, suc, ◌+◌, ◌*◌, ◌/◌, ◌^◌, ◌<◌, ◌≡◌, refl, sym, ap, ◌∙◌, arith, Bool, true, false, ◌&&◌,
  ltb, ◌==◌, if◌then◌else◌, Bool-cases, inl, inr, List, [], ◌∷◌, length, get_or, set, length-set,
  get_or-set,
}
use riscv_emulator.Memory.Interface.{AllWords, IsAddress}
use riscv_emulator.Memory.Cache.{
  Cache, CacheEntry, get_set_index, get_tag, get_block_offset, words_per_block, is_hit, put_entry,
}
use riscv_emulator.Memory.Cache.Geometry.{base_of}
use riscv_emulator.Memory.Cache.Lines.{
  IsLine, AreLines, content, hits_at, set-lt, place-lt, content-miss, content-hit, cases, only_hit,
}
use riscv_emulator.Memory.Cache.Replace.{
  Replacement, content-here, content-other, content-none, hit-valid, same_place,
}
use riscv_emulator.Memory.Cache.Steps.{word-IsAddress, InLine-word, other_line}

AllWords-set : (ws : List ℕ) (i v : ℕ) → AllWords ws → v < 2 ^ 32 → AllWords (set ws i v)
AllWords-set [] i v h fits = tt
AllWords-set (w ∷ ws) zero v h fits = (fits, h.1)
AllWords-set (w ∷ ws) (suc i) v h fits = (h.0, AllWords-set ws i v h.1 fits)

if_not : (p q : Bool) (x y : ℕ) → q ≡ false → (if p && q then x else y) ≡ y
if_not p q x y h = ground arith

-- `through` is whether memory is written too; a line that is not marked dirty was clean and is.
module _ (size : ℕ) (f g : ℕ → ℕ) (c : Cache) (l : AreLines size f c) (a w value : ℕ)
    (dirty through : Bool) (at : IsAddress size a) (w_lt : w < c.config.associativity)
    (hit : hits_at c a w ≡ true) (fits : value < 2 ^ 32)
    (memory : (b : ℕ) → IsAddress size b → g b ≡ (if through && b == a then value else f b))
    (marked : dirty ≡ false
      → ((c.cache_entries (get_set_index c a) w).dirty ≡ false) × (through ≡ true)) where
  abbrev pub stored : CacheEntry
  stored =
      let e = c.cache_entries (get_set_index c a) w in
      record e { words = set e.words (get_block_offset c a / 4) value; dirty = dirty }

  abbrev old : CacheEntry
  old = c.cache_entries (get_set_index c a) w

  old_valid : (old.valid ≡ true) × (old.tag ≡ get_tag c a)
  old_valid = hit-valid old (get_tag c a) hit

  old_line : IsLine size f c (get_set_index c a) old
  old_line = l.line (get_set_index c a) w (set-lt c l.geometry a) w_lt old_valid.0

  a_word : base_of c (get_set_index c a) old.tag + 4 * (get_block_offset c a / 4) ≡ a
  a_word = InLine-word c l.geometry (get_set_index c a) old.tag a at.0 (refl, sym old_valid.1)

  stored_clean :
      dirty ≡ false
      → (k : ℕ) → k < words_per_block c
      → get_or stored.words k 0 ≡ g (base_of c (get_set_index c a) old.tag + 4 * k)
  stored_clean h k hk =
      let i = get_block_offset c a / 4 in
      let x = base_of c (get_set_index c a) old.tag + 4 * k in
      let (was_clean, written) = marked h in
      let inside =
        word-IsAddress c l.geometry size (get_set_index c a) old.tag k hk old_line.inside in
      let small : i < length old.words = omega (arith, place-lt c l.geometry a, old_line.sized) in
      get_or-set old.words i k value 0 ∙ elim (Bool-cases (i == k)) [
        | inl same ↦
            let reads : (x == a) ≡ true = ground (arith, a_word) in
            let full : ltb i (length old.words) ≡ true = ground arith in
            rw (same, full) (sym (memory x inside ∙ rw (written, reads) refl))
        | inr apart ↦
            let skips : (x == a) ≡ false = ground (arith, a_word) in
            rw apart
              (old_line.clean was_clean k hk ∙ sym (memory x inside ∙ rw (written, skips) refl))
      ]

  pub store-Replacement : Replacement size f g c (get_set_index c a) w stored
  store-Replacement = record {
    lines = l;
    s_lt = set-lt c l.geometry a;
    w_lt = w_lt;
    agrees = λ s' w' hs hw other valid k hk.
        let t' = (c.cache_entries s' w').tag in
        let x = base_of c s' t' + 4 * k in
        let inside =
          word-IsAddress c l.geometry size s' t' k hk (l.line s' w' hs hw valid).inside in
        memory x inside ∙ elim (Bool-cases (x == a)) [
          | inl same ↦
              let e : x ≡ a = ground arith in
              absurd (
                other_line size f c l (get_set_index c a) w s' w' (set-lt c l.geometry a) w_lt hs hw
                  old_valid.0 valid other k hk
                  (ap (get_set_index c) e, ap (get_tag c) e ∙ sym old_valid.1))
          | inr apart ↦ if_not through (x == a) value (f x) apart
        ];
    new_line = λ h. record {
      sized = length-set old.words (get_block_offset c a / 4) value ∙ old_line.sized;
      words = AllWords-set old.words (get_block_offset c a / 4) value old_line.words fits;
      inside = old_line.inside;
      clean = stored_clean;
    };
    new_tag = λ h v hv other.
        ap (is_hit (c.cache_entries (get_set_index c a) v)) old_valid.1
        ∙ only_hit size f c a v w l hv w_lt hit (λ e. absurd (ground arith));
  }

  -- The content changes at the address of the word alone.
  pub store-content :
      (b : ℕ)
      → IsAddress size b
      → content (put_entry c (get_set_index c a) w stored) g b
        ≡ (if b == a then value else content c f b)
  store-content b at' =
      let s = get_set_index c a in
      let r = store-Replacement in
      let i = get_block_offset c a / 4 in
      elim (cases size f c b l) [
        | inl (v, hv, hit') ↦ elim (Bool-cases (get_set_index c b == s && v == w)) [
          | inl here ↦
              let (es, ew) = same_place s w (get_set_index c b) v here in
              let hit'' : is_hit (c.cache_entries s w) (get_tag c b) ≡ true =
                rw (sym es, sym ew) hit' in
              let (valid, et) = hit-valid old (get_tag c b) hit'' in
              let j = get_block_offset c b / 4 in
              let b_word = InLine-word c l.geometry s old.tag b at'.0 (es, sym et) in
              let small : i < length old.words =
                omega (arith, place-lt c l.geometry a, old_line.sized) in
              let full : ltb i (length old.words) ≡ true = ground arith in
              let same : (i == j) ≡ (b == a) = ground (arith, a_word) in
              let kept : content c f b ≡ get_or old.words j 0 =
                content-hit size f f c b v l hv hit'
                ∙ ap (λ (x : ℕ). get_or (c.cache_entries x v).words j 0) es
                ∙ ap (λ (x : ℕ). get_or (c.cache_entries s x).words j 0) ew in
              content-here size f g c s w stored r b es hit''
              ∙ get_or-set old.words i j value 0
              ∙ rw (full, same) (ground arith)
          | inr other ↦
              let apart : (b == a) ≡ false = elim (Bool-cases (b == a)) [
                | inl same ↦
                    let e : b ≡ a = ground arith in
                    let at_a : hits_at c a v ≡ true =
                      ap (λ (x : ℕ). hits_at c x v) (sym e) ∙ hit' in
                    let ew : v ≡ w =
                      l.once s v w (get_tag c a) (set-lt c l.geometry a) hv w_lt at_a hit in
                    let es : get_set_index c b ≡ s = ap (get_set_index c) e in absurd (ground arith)
                | inr no_match ↦ no_match
              ] in
              content-other size f g c s w stored r b v hv hit' other ∙ rw apart refl
        ]
        | inr absent ↦
            let apart : (b == a) ≡ false = elim (Bool-cases (b == a)) [
              | inl same ↦
                  let e : b ≡ a = ground arith in
                  let at_a : hits_at c a w ≡ false =
                    ap (λ (x : ℕ). hits_at c x w) (sym e) ∙ absent w w_lt in
                  absurd (ground arith)
              | inr no_match ↦ no_match
            ] in
            content-none size f g c s w stored r b (λ v hv other. absent v hv)
              (λ es.
                ap (λ (x : ℕ). is_hit (c.cache_entries x w) (get_tag c b)) (sym es) ∙ absent w w_lt)
            ∙ memory b at'
            ∙ if_not through (b == a) value (f b) apart
            ∙ rw apart (sym (content-miss c l.geometry f b absent))
      ]
