-- ===== src/Memory/Cache/Transparent.antt =====
-- A cache does not show: its reads return the content of the memory that it and the memory below hold
-- together, and its writes change that content at one word.
use riscv_emulator.Base.{
  ℕ, ◌^◌, ◌<◌, ◌≡◌, refl, arith, Bool, true, false, Option, none, some, Bool-cases, Option-cases,
  inl, inr,
}
use riscv_emulator.Memory.Interface.{MemoryInterface, Implements, IsAddress}
use riscv_emulator.Memory.Cache.{Cache, get_set_index, find_entry}
use riscv_emulator.Memory.Cache.Access.{
  count_hit, count_miss, store_word, touch, fill, read_filled, read_found, write_filled,
  write_found, write_word_filled, write_word_found, is_write_through, store_both,
}
use riscv_emulator.Memory.Cache.Lines.{content, find_entry-some, find_entry-none}
use riscv_emulator.Memory.Cache.Sound.{
  AreLru, AreLru-AreLruBut, update_lru-AreLru, FilledAt, Filled,
}
use riscv_emulator.Memory.Cache.Hold.{
  updated, IsSound, Holds, FilledAt-Holds, FilledAt-rest, touch-Holds, touch-FilledAt,
  found-FilledAt, word_of-FilledAt, store-FilledAt, store_both-FilledAt, miss-Filled,
}

module _ {M : Type 0} (i : MemoryInterface M) (size : ℕ) (Good : M → Type 0) (view : M → ℕ → ℕ)
    (law : Implements i size Good view) where
  abbrev At : (ℕ → ℕ) → ℕ → ℕ → Cache → M → Type 0
  At = FilledAt i size Good view law

  abbrev Has : (ℕ → ℕ) → Cache → M → Type 0
  Has = Holds i size Good view law

  -- The results of reads and writes: there is one, and the cache is sound and holds the content.
  abbrev pub Reads : (ℕ → ℕ) → ℕ → Option (ℕ × Bool × Cache × M) → Type 0
  Reads K v none = ⊥
  Reads K v (some (x, hit, c, m)) = (x ≡ v) × Has K c m

  abbrev pub Writes : (ℕ → ℕ) → Option (Bool × Cache × M) → Type 0
  Writes K none = ⊥
  Writes K (some (hit, c, m)) = Has K c m

  abbrev pub ReadsWord : (ℕ → ℕ) → ℕ → Option (ℕ × Cache × M) → Type 0
  ReadsWord K v none = ⊥
  ReadsWord K v (some (x, c, m)) = (x ≡ v) × Has K c m

  abbrev pub WritesWord : (ℕ → ℕ) → Option (Cache × M) → Type 0
  WritesWord K none = ⊥
  WritesWord K (some (c, m)) = Has K c m

  read_filled-Reads :
      (K : ℕ → ℕ) (a : ℕ) (o : Option (ℕ × Cache × M))
      → IsAddress size a
      → Filled i size Good view law K a o
      → Reads K (K a) (read_filled a o)
  read_filled-Reads K a none at h = h
  read_filled-Reads K a (some (w, c, m)) at h = (
    word_of-FilledAt i size Good view law K a w c m at h,
    touch-Holds i size Good view law K a w c m h,
  )

  write_filled-Writes :
      (K : ℕ → ℕ) (a value : ℕ) (o : Option (ℕ × Cache × M))
      → IsAddress size a
      → value < 2 ^ 32
      → Filled i size Good view law K a o
      → Writes (updated K a value) (write_filled a value o)
  write_filled-Writes K a value none at fits h = h
  write_filled-Writes K a value (some (w, c, m)) at fits h =
      touch-Holds i size Good view law (updated K a value) a w (store_word c a w value true) m (
        store-FilledAt i size Good view law K a w value true false c m m h at fits h.good
          (λ b at'. refl) (λ e. absurd (ground arith)))

  write_word_filled-WritesWord :
      (K : ℕ → ℕ) (a value : ℕ) (o : Option (ℕ × Cache × M))
      → IsAddress size a
      → value < 2 ^ 32
      → Filled i size Good view law K a o
      → WritesWord (updated K a value) (write_word_filled (some i) a value o)
  write_word_filled-WritesWord K a value none at fits h = h
  write_word_filled-WritesWord K a value (some (w, c, m)) at fits h =
      let stored = store_both (some i) c m a w value in
      touch-Holds i size Good view law (updated K a value) a w stored.0 stored.1
        (store_both-FilledAt i size Good view law K a w value c m h at fits)

  store_both-AreLru :
      (c : Cache) (m : M) (a w value : ℕ) → AreLru c → AreLru (store_both (some i) c m a w value).0
  store_both-AreLru c m a w value h = elim (Bool-cases (is_write_through a)) [
    | inl through ↦ rw through h
    | inr behind ↦ rw behind h
  ]

  -- The hit: the way found, with the access counted.
  hit-FilledAt :
      (c : Cache) (m : M) (a w core_id : ℕ)
      → IsSound i size Good view law c m
      → find_entry c a ≡ some w
      → At (content c (view m)) a w (count_hit c core_id) m
  hit-FilledAt c m a w core_id h found =
      FilledAt-rest i size Good view law (content c (view m)) a w c m (count_hit c core_id).stats
        c.mmu c.lru_lists
        (found-FilledAt i size Good view law c m a w h
          (find_entry-some c h.lines.geometry a w found))
        (AreLru-AreLruBut (get_set_index c a) c h.lru)

  pub read_found-Reads :
      (c : Cache) (m : M) (a core_id : ℕ)
      → IsSound i size Good view law c m
      → IsAddress size a
      → Reads
          (content c (view m))
          (content c (view m) a)
          (read_found (some i) c m a core_id (find_entry c a))
  read_found-Reads c m a core_id h at =
      let K = content c (view m) in
      elim (Option-cases (find_entry c a)) [
        | inl missed ↦ rw missed (
            read_filled-Reads K a (fill (some i) (count_miss c core_id) m a) at (
              miss-Filled i size Good view law c m a (count_miss c core_id).stats h at
                (find_entry-none c h.lines.geometry a missed)))
        | inr (w, found) ↦
            let filled = hit-FilledAt c m a w core_id h found in
            rw found (
              word_of-FilledAt i size Good view law K a w (count_hit c core_id) m at filled,
              touch-Holds i size Good view law K a w (count_hit c core_id) m filled,
            )
      ]

  pub write_found-Writes :
      (c : Cache) (m : M) (a value core_id : ℕ)
      → IsSound i size Good view law c m
      → IsAddress size a
      → value < 2 ^ 32
      → Writes
          (updated (content c (view m)) a value)
          (write_found (some i) c m a value core_id (find_entry c a))
  write_found-Writes c m a value core_id h at fits =
      let K = content c (view m) in
      elim (Option-cases (find_entry c a)) [
        | inl missed ↦ rw missed (
            write_filled-Writes K a value (fill (some i) (count_miss c core_id) m a) at fits (
              miss-Filled i size Good view law c m a (count_miss c core_id).stats h at
                (find_entry-none c h.lines.geometry a missed)))
        | inr (w, found) ↦
            let c1 = count_hit c core_id in
            let filled = hit-FilledAt c m a w core_id h found in
            rw found (
              FilledAt-Holds i size Good view law (updated K a value) a w
                (store_word (touch c1 a w) a w value true) m
                (store-FilledAt i size Good view law K a w value true false (touch c1 a w) m m
                  (touch-FilledAt i size Good view law K a w c1 m filled) at fits h.good
                  (λ b at'. refl) (λ e. absurd (ground arith)))
                (update_lru-AreLru c1 (get_set_index c a) w filled.way filled.lru))
      ]

  pub write_word_found-WritesWord :
      (c : Cache) (m : M) (a value : ℕ)
      → IsSound i size Good view law c m
      → IsAddress size a
      → value < 2 ^ 32
      → WritesWord
          (updated (content c (view m)) a value)
          (write_word_found (some i) c m a value (find_entry c a))
  write_word_found-WritesWord c m a value h at fits =
      let K = content c (view m) in
      elim (Option-cases (find_entry c a)) [
        | inl missed ↦ rw missed (
            write_word_filled-WritesWord K a value (fill (some i) (count_miss c 0) m a) at fits (
              miss-Filled i size Good view law c m a (count_miss c 0).stats h at
                (find_entry-none c h.lines.geometry a missed)))
        | inr (w, found) ↦
            let c1 = touch (count_hit c 0) a w in
            let filled = hit-FilledAt c m a w 0 h found in
            let stored = store_both (some i) c1 m a w value in
            rw found (
              FilledAt-Holds i size Good view law (updated K a value) a w stored.0 stored.1
                (store_both-FilledAt i size Good view law K a w value c1 m
                  (touch-FilledAt i size Good view law K a w (count_hit c 0) m filled) at fits)
                (store_both-AreLru c1 m a w value
                  (update_lru-AreLru (count_hit c 0) (get_set_index c a) w filled.way filled.lru)))
      ]
