-- ===== src/Memory/Cache/WriteBack.antt =====
-- The words of a line written back to a memory that keeps its contract.
use mathlib.Core.Path.{subst}
use riscv_emulator.Base.{
  ℕ, ◌+◌, ◌*◌, ◌%◌, ◌^◌, ◌≤◌, ◌<◌, ◌≡◌, sym, ap, ◌∙◌, arith, true, length, get_or,
}
use riscv_emulator.Memory.Interface.{
  MemoryInterface, Implements, IsAddress, overlay, overlay-in, overlay-out,
}
use riscv_emulator.Memory.Cache.{Cache, CacheEntry, words_per_block, line_address}
use riscv_emulator.Memory.Cache.Geometry.{sets_of, base_of, line_lem, block_pos}
use riscv_emulator.Memory.Cache.Lines.{IsLine, AreLines, in_words}
use riscv_emulator.Memory.Cache.Steps.{InLine, word-InLine, word-IsAddress}

module _ {M : Type 0} (i : MemoryInterface M) (size : ℕ) (Good : M → Type 0) (view : M → ℕ → ℕ)
    (law : Implements i size Good view) (c : Cache) (m : M) (s w : ℕ) (l : AreLines size (view m) c)
    (s_lt : s < sets_of c) (w_lt : w < c.config.associativity)
    (valid : (c.cache_entries s w).valid ≡ true) where
  abbrev victim : CacheEntry
  victim = c.cache_entries s w

  -- The memory after the victim's words are written back.
  pub victim_line : IsLine size (view m) c s victim
  victim_line = l.line s w s_lt w_lt valid

  pub victim_start :
      (line_address c s w ≡ base_of c s victim.tag)
      × (line_address c s w % 4 ≡ 0)
      × (line_address c s w + 4 * length victim.words ≤ size)
  victim_start =
      let g = l.geometry in
      let fits : base_of c s victim.tag < 2 ^ 32 =
        omega (arith, victim_line.inside, l.fits, block_pos c g) in
      let start = line_lem c g s w (s_lt) fits in
      let base = in_words (victim.tag * sets_of c + s) c.config.block_size g.whole_words in
      let sized = victim_line.sized in
      let inside = victim_line.inside in (start, omega arith, omega (arith, g.whole_words))

  pub write_back-in :
      (k : ℕ)
      → Good m
      → k < words_per_block c
      → view (i.write_block m (line_address c s w) victim.words) (base_of c s victim.tag + 4 * k)
        ≡ get_or victim.words k 0
  write_back-in k good hk =
      let (start, aligned, inside) = victim_start in
      let at' = word-IsAddress c l.geometry size s victim.tag k hk victim_line.inside in
      let sized = victim_line.sized in
      law.write_block_lem m (line_address c s w) victim.words (base_of c s victim.tag + 4 * k) good
        aligned inside victim_line.words at'
      ∙ ap (λ (x : ℕ). overlay (view m) (line_address c s w) victim.words (x + 4 * k)) (sym start)
      ∙ overlay-in (view m) (line_address c s w) victim.words k (omega arith)

  pub write_back-out :
      (b : ℕ)
      → Good m
      → IsAddress size b
      → (InLine c s victim.tag b → ⊥)
      → view (i.write_block m (line_address c s w) victim.words) b ≡ view m b
  write_back-out b good at' out =
      let (start, aligned, inside) = victim_start in
      let sized = victim_line.sized in
      law.write_block_lem m (line_address c s w) victim.words b good aligned inside
        victim_line.words at'
      ∙ overlay-out (view m) (line_address c s w) victim.words b λ k hk e. out (
          subst (InLine c s victim.tag) (ap (λ (x : ℕ). x + 4 * k) (sym start) ∙ e)
            (word-InLine c l.geometry s victim.tag k s_lt (omega arith)))
