-- ===== src/Memory/Cache/Layer.antt =====
-- A cache over a memory that keeps its contract keeps that contract too, so that caches can be stacked:
-- the Simulator puts the L1 caches over the L2 cache, and that one over the DRAM.
use native.Mathlib.Nat.{mod-eq_of_lt}
use mathlib.Core.Path.{subst}
use riscv_emulator.Base.{
  ℕ, zero, suc, ◌+◌, ◌*◌, ◌/◌, ◌%◌, ◌^◌, ◌≤◌, ◌<◌, ◌≡◌, refl, sym, ap, ◌∙◌, arith, Bool, true,
  false, Option, none, some, ◌==◌, if◌then◌else◌, List, [], ◌∷◌, length, get_or, Bool-cases,
  Option-cases, inl, inr,
}
use riscv_emulator.Word.{u32}
use riscv_emulator.Memory.Interface.{
  MemoryInterface, Implements, IsAddress, AllWords, words_at, overlay, overlay-out, overlay-ap,
}
use riscv_emulator.Memory.Cache.{Cache, get_set_index, get_tag, get_block_offset, find_entry}
use riscv_emulator.Memory.Cache.Access.{
  count_access, translate_by, translate_address, read_word, write_word,
}
use riscv_emulator.Memory.Cache.Blocks.{read_block_from, write_block_from}
use riscv_emulator.Memory.Cache.Lines.{content, cases, content-hit, content-miss, set-lt}
use riscv_emulator.Memory.Cache.Replace.{rest_of, hit-valid}
use riscv_emulator.Memory.Cache.Hold.{updated, IsSound, Holds}
use riscv_emulator.Memory.Cache.Transparent.{ReadsWord, WritesWord}
use riscv_emulator.Memory.Cache.Written.{read_word-ReadsWord, write_word-WritesWord}
use riscv_emulator.Memory.Cache.Unchanged.{
  HasMmu, HasMmuWritten, read_found-HasMmu, write_word_found-HasMmu,
}

AllWords-get_or : (ws : List ℕ) (k : ℕ) → AllWords ws → get_or ws k 0 < 2 ^ 32
AllWords-get_or [] k h = omega arith
AllWords-get_or (w ∷ ws) zero h = h.0
AllWords-get_or (w ∷ ws) (suc k) h = AllWords-get_or ws k h.1

-- Without an MMU an address is physical.
translate-none :
    (c : Cache) (addr : ℕ) (is_write is_instruction : Bool)
    → c.mmu ≡ none
    → (translate_by none c.mmu addr is_write is_instruction).0 ≡ addr
translate-none c addr is_write is_instruction h = rw h refl

translate-none_mmu :
    (c : Cache) (addr : ℕ) (is_write is_instruction : Bool)
    → c.mmu ≡ none
    → (translate_by none c.mmu addr is_write is_instruction).1 ≡ none
translate-none_mmu c addr is_write is_instruction h = rw h refl

module _ {M : Type 0} (i : MemoryInterface M) (size : ℕ) (Good : M → Type 0) (view : M → ℕ → ℕ)
    (law : Implements i size Good view) (small : size ≤ 2 ^ 32) where
  -- A layer in which the program is alive.
  pub record IsLayer (K : ℕ → ℕ) (c : Cache) (m : M) : Type 0 where
    pub holds : Holds i size Good view law K c m
    pub mmu : c.mmu ≡ none

  abbrev pub ReadsLayer : (ℕ → ℕ) → ℕ → Option (ℕ × Cache × M) → Type 0
  ReadsLayer K v none = ⊥
  ReadsLayer K v (some (x, c, m)) = (x ≡ v) × IsLayer K c m

  abbrev pub ReadsBlock : (ℕ → ℕ) → List ℕ → Option (List ℕ × Cache × M) → Type 0
  ReadsBlock K ws none = ⊥
  ReadsBlock K ws (some (xs, c, m)) = (xs ≡ ws) × IsLayer K c m

  abbrev pub WritesLayer : (ℕ → ℕ) → Option (Cache × M) → Type 0
  WritesLayer K none = ⊥
  WritesLayer K (some (c, m)) = IsLayer K c m

  ReadsWord-ReadsLayer :
      (K L : ℕ → ℕ) (v x : ℕ) (o : Option (ℕ × Cache × M))
      → ReadsWord i size Good view law K v o
      → HasMmu i none o
      → ((b : ℕ) → IsAddress size b → K b ≡ L b)
      → v ≡ x
      → ReadsLayer L x o
  ReadsWord-ReadsLayer K L v x none h u e same = h
  ReadsWord-ReadsLayer K L v x (some (y, c, m)) (value, h) u e same = (
    value ∙ same,
    record { holds = record { sound = h.sound; keeps = λ b at. h.keeps b at ∙ e b at }; mmu = u },
  )

  WritesWord-WritesLayer :
      (K L : ℕ → ℕ) (o : Option (Cache × M))
      → WritesWord i size Good view law K o
      → HasMmuWritten i none o
      → ((b : ℕ) → IsAddress size b → K b ≡ L b)
      → WritesLayer L o
  WritesWord-WritesLayer K L none h u e = h
  WritesWord-WritesLayer K L (some (c, m)) h u e = record {
    holds = record { sound = h.sound; keeps = λ b at. h.keeps b at ∙ e b at };
    mmu = u;
  }

  pub read_word-ReadsLayer :
      (K : ℕ → ℕ) (c : Cache) (m : M) (a : ℕ)
      → IsLayer K c m
      → IsAddress size a
      → ReadsLayer K (K a) (read_word (some i) none c m a)
  unfolding read_word translate_address
  read_word-ReadsLayer K c m a h at =
      let t = translate_by none c.mmu a false false in
      let same = translate-none c a false false h.mmu in
      let c' = rest_of c (count_access c).stats t.1 c.lru_lists in
      ReadsWord-ReadsLayer (content c (view m)) K (content c (view m) t.0) (K a)
        (read_word (some i) none c m a)
        (read_word-ReadsWord i size Good view law none c m a h.holds.sound
          (subst (IsAddress size) (sym same) at))
        (read_found-HasMmu i none c' m t.0 0 (find_entry c' t.0)
          (translate-none_mmu c a false false h.mmu))
        (λ b at'. h.holds.keeps b at') (ap (content c (view m)) same ∙ h.holds.keeps a at)

  pub write_word-WritesLayer :
      (K : ℕ → ℕ) (c : Cache) (m : M) (a value : ℕ)
      → IsLayer K c m
      → IsAddress size a
      → value < 2 ^ 32
      → WritesLayer (updated K a value) (write_word (some i) none c m a value)
  unfolding write_word translate_address
  write_word-WritesLayer K c m a value h at fits =
      let t = translate_by none c.mmu a true false in
      let same = translate-none c a true false h.mmu in
      let c' = rest_of c (count_access c).stats t.1 c.lru_lists in
      WritesWord-WritesLayer (updated (content c (view m)) t.0 value) (updated K a value)
        (write_word (some i) none c m a value)
        (write_word-WritesWord i size Good view law none c m a value h.holds.sound
          (subst (IsAddress size) (sym same) at) fits)
        (write_word_found-HasMmu i none c' m t.0 value (find_entry c' t.0)
          (translate-none_mmu c a true false h.mmu))
        (λ b at'.
          ap (λ (x : ℕ). if b == x then value else content c (view m) b) same
          ∙ ap (λ (x : ℕ). if b == a then value else x) (h.holds.keeps b at'))

  -- The loops over the words of a block.
  pub read_block_from-ReadsBlock :
      (K : ℕ → ℕ) (c : Cache) (m : M) (a k left : ℕ)
      → IsLayer K c m
      → a % 4 ≡ 0
      → a + 4 * (k + left) ≤ size
      → ReadsBlock K (words_at K (a + 4 * k) left) (read_block_from (some i) none c m a k left)
  unfolding read_block_from
  read_block_from-ReadsBlock K c m a k zero h aligned inside = (refl, h)
  read_block_from-ReadsBlock K c m a k (suc left) h aligned inside =
      let here : u32 (a + k * 4) ≡ a + 4 * k = mod-eq_of_lt (omega arith) ∙ omega arith in
      let first = read_word-ReadsLayer K c m (a + 4 * k) h (omega arith, omega arith) in
      elim (Option-cases (read_word (some i) none c m (a + 4 * k))) [
        | inl failed ↦ absurd (rw failed at first)
        | inr ((x, c', m'), found) ↦
            let (value, h') = rw found at first in
            let others =
              read_block_from-ReadsBlock K c' m' a (k + 1) left h' aligned (omega arith) in
            elim (Option-cases (read_block_from (some i) none c' m' a (k + 1) left)) [
              | inl failed ↦ absurd (rw failed at others)
              | inr ((xs, c'', m''), found') ↦
                  let (values, h'') = rw found' at others in
                  let next : a + 4 * (k + 1) ≡ a + 4 * k + 4 = omega arith in
                  rw (here, found, found')
                    (
                      ap (λ (y : ℕ). y ∷ xs) value
                          ∙ ap (λ (ys : List ℕ). K (a + 4 * k) ∷ ys)
                              (values ∙ ap (λ (y : ℕ). words_at K y left) next),
                      h'',
                    )
            ]
      ]

  -- Words stored one after another are stored together.
  overlay-updated :
      (K : ℕ → ℕ) (a x : ℕ) (ws : List ℕ) (b : ℕ)
      → overlay (updated K a x) (a + 4) ws b ≡ overlay K a (x ∷ ws) b
  overlay-updated K a x ws b = elim (Bool-cases (b == a)) [
    | inl same ↦
        let e : b ≡ a = ground arith in
        overlay-out (updated K a x) (a + 4) ws b (λ k lt e'. absurd (omega arith)) ∙ rw same refl
    | inr other ↦ overlay-ap (updated K a x) K (a + 4) ws b (rw other refl) ∙ rw other refl
  ]

  IsLayer-ap :
      (K L : ℕ → ℕ) (c : Cache) (m : M) → ((b : ℕ) → K b ≡ L b) → IsLayer K c m → IsLayer L c m
  IsLayer-ap K L c m e h = record {
    holds = record { sound = h.holds.sound; keeps = λ b at. h.holds.keeps b at ∙ e b };
    mmu = h.mmu;
  }

  WritesLayer-ap :
      (K L : ℕ → ℕ) (o : Option (Cache × M))
      → ((b : ℕ) → K b ≡ L b)
      → WritesLayer K o
      → WritesLayer L o
  WritesLayer-ap K L none e h = h
  WritesLayer-ap K L (some (c, m)) e h = IsLayer-ap K L c m e h

  pub write_block_from-WritesLayer :
      (K : ℕ → ℕ) (c : Cache) (m : M) (a k : ℕ) (ws : List ℕ)
      → IsLayer K c m
      → a % 4 ≡ 0
      → a + 4 * (k + length ws) ≤ size
      → AllWords ws
      → WritesLayer (overlay K (a + 4 * k) ws) (write_block_from (some i) none c m a k ws)
  unfolding write_block_from
  write_block_from-WritesLayer K c m a k [] h aligned inside all =
      IsLayer-ap K (overlay K (a + 4 * k) []) c m (λ b. refl) h
  write_block_from-WritesLayer K c m a k (x ∷ ws) h aligned inside (fits, all) =
      let at = a + 4 * k in
      let here : u32 (a + k * 4) ≡ at = mod-eq_of_lt (omega arith) ∙ omega arith in
      let first = write_word-WritesLayer K c m at x h (omega arith, omega arith) fits in
      elim (Option-cases (write_word (some i) none c m at x)) [
        | inl failed ↦ absurd (rw failed at first)
        | inr ((c', m'), found) ↦
            let others =
              write_block_from-WritesLayer (updated K at x) c' m' a (k + 1) ws (rw found at first)
                aligned (omega arith) all in
            let next : a + 4 * (k + 1) ≡ at + 4 = omega arith in
            rw (here, found)
              (WritesLayer-ap (overlay (updated K at x) (a + 4 * (k + 1)) ws)
                (overlay K at (x ∷ ws)) (write_block_from (some i) none c' m' a (k + 1) ws)
                (λ b.
                  ap (λ (y : ℕ). overlay (updated K at x) y ws b) next
                  ∙ overlay-updated K at x ws b)
                others)
      ]

  -- The states of the two together, and their content.
  abbrev pub LayerGood : Option (Cache × M) → Type 0
  LayerGood none = ⊥
  LayerGood (some (c, m)) = IsLayer (content c (view m)) c m

  abbrev pub layer_view : Option (Cache × M) → ℕ → ℕ
  layer_view none a = 0
  layer_view (some (c, m)) a = content c (view m) a

  pub content-lt :
      (c : Cache) (m : M) (a : ℕ)
      → IsSound i size Good view law c m
      → IsAddress size a
      → content c (view m) a < 2 ^ 32
  content-lt c m a h at = elim (cases size (view m) c a h.lines) [
    | inl (w, w_lt, hit) ↦
        let s = get_set_index c a in
        let valid = (hit-valid (c.cache_entries s w) (get_tag c a) hit).0 in
        let l = h.lines.line s w (set-lt c h.lines.geometry a) w_lt valid in
        rw (content-hit size (view m) (view m) c a w h.lines w_lt hit)
          (AllWords-get_or (c.cache_entries s w).words (get_block_offset c a / 4) l.words)
    | inr misses ↦
        rw (content-miss c h.lines.geometry (view m) a misses) (law.view_lt m a h.good at)
  ]
