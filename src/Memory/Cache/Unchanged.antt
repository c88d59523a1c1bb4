-- ===== src/Memory/Cache/Unchanged.antt =====
-- The MMU of a cache is left alone by all that follows the translation of an address.
use mathlib.Core.Option
use riscv_emulator.Base.{ℕ, ◌≡◌, Bool, Option, none, some, Bool-cases, Option-cases, inl, inr, List}
use riscv_emulator.Memory.Interface.{MemoryInterface}
use riscv_emulator.Memory.Mmu.{Mmu}
use riscv_emulator.Memory.Mmu.Lru.{pop_back}
use riscv_emulator.Memory.Cache.{
  Cache, get_set_index, get_tag, search_invalid, claim, claim_after, allocate_entry, evict_way,
  evict_lru_entry, load_block, update_lru,
}
use riscv_emulator.Memory.Cache.Access.{
  count_hit, count_miss, touch, load_claimed, fill, read_filled, read_found, store_both,
  write_word_filled, write_word_found, is_write_through,
}

module _ {M : Type 0} (i : MemoryInterface M) (u : Option Mmu) where
  abbrev pub HasMmu : Option (ℕ × Cache × M) → Type 0
  HasMmu none = Unit
  HasMmu (some (x, c, m)) = c.mmu ≡ u

  abbrev pub HasMmuRead : Option (ℕ × Bool × Cache × M) → Type 0
  HasMmuRead none = Unit
  HasMmuRead (some (x, hit, c, m)) = c.mmu ≡ u

  abbrev pub HasMmuWritten : Option (Cache × M) → Type 0
  HasMmuWritten none = Unit
  HasMmuWritten (some (c, m)) = c.mmu ≡ u

  load-HasMmu : (a : ℕ) (o : Option (ℕ × Cache × M)) → HasMmu o → HasMmu (load_claimed (some i) a o)
  unfolding load_block
  load-HasMmu a none h = tt
  load-HasMmu a (some (w, c, m)) h = h

  claim-HasMmu :
      (c : Cache) (m : M) (s tag : ℕ) (o : Option ℕ) → c.mmu ≡ u → HasMmu (claim c m s tag o)
  claim-HasMmu c m s tag none h = tt
  claim-HasMmu c m s tag (some w) h = h

  evict_way-HasMmu :
      (c : Cache) (m : M) (s w : ℕ) (rest : List ℕ)
      → c.mmu ≡ u
      → (evict_way (some i) c m s w rest).0.mmu ≡ u
  evict_way-HasMmu c m s w rest h = elim (Bool-cases (c.cache_entries s w).dirty) [
    | inl dirty ↦ rw dirty h
    | inr clean ↦ rw clean h
  ]

  fill-HasMmu : (c : Cache) (m : M) (a : ℕ) → c.mmu ≡ u → HasMmu (fill (some i) c m a)
  unfolding fill allocate_entry evict_lru_entry
  fill-HasMmu c m a h =
      let s = get_set_index c a in
      elim (Option-cases (search_invalid (c.cache_entries s) 0 c.config.associativity)) [
        | inr (w, found) ↦ rw found (load-HasMmu a (claim c m s (get_tag c a) (some w)) h)
        | inl full ↦ elim (Option-cases (pop_back (c.lru_lists s))) [
          | inl empty ↦ rw (full, empty) tt
          | inr ((w, rest), last) ↦
              let e = evict_way (some i) c m s w rest in
              rw (full, last)
                (load-HasMmu a (claim_after s (get_tag c a) (some e)) (
                  claim-HasMmu e.0 e.1 s (get_tag c a)
                    (search_invalid (e.0.cache_entries s) 0 e.0.config.associativity)
                    (evict_way-HasMmu c m s w rest h)))
        ]
      ]

  read_filled-HasMmuRead :
      (a : ℕ) (o : Option (ℕ × Cache × M)) → HasMmu o → HasMmuRead (read_filled a o)
  unfolding update_lru
  read_filled-HasMmuRead a none h = tt
  read_filled-HasMmuRead a (some (w, c, m)) h = h

  read_found-HasMmuRead :
      (c : Cache) (m : M) (a core_id : ℕ) (o : Option ℕ)
      → c.mmu ≡ u
      → HasMmuRead (read_found (some i) c m a core_id o)
  unfolding update_lru
  read_found-HasMmuRead c m a core_id (some w) h = h
  read_found-HasMmuRead c m a core_id none h =
      read_filled-HasMmuRead a (fill (some i) (count_miss c core_id) m a)
        (fill-HasMmu (count_miss c core_id) m a h)

  without_hit-HasMmu :
      (o : Option (ℕ × Bool × Cache × M))
      → HasMmuRead o
      → HasMmu (Option.map (λ (r : ℕ × Bool × Cache × M). (r.0, r.2, r.3)) o)
  without_hit-HasMmu none h = tt
  without_hit-HasMmu (some (x, hit, c, m)) h = h

  pub read_found-HasMmu :
      (c : Cache) (m : M) (a core_id : ℕ) (o : Option ℕ)
      → c.mmu ≡ u
      → HasMmu (
          Option.map
            (λ (r : ℕ × Bool × Cache × M). (r.0, r.2, r.3))
            (read_found (some i) c m a core_id o))
  read_found-HasMmu c m a core_id o h =
      without_hit-HasMmu (read_found (some i) c m a core_id o)
        (read_found-HasMmuRead c m a core_id o h)

  store_both-HasMmu :
      (c : Cache) (m : M) (a w value : ℕ)
      → c.mmu ≡ u
      → (store_both (some i) c m a w value).0.mmu ≡ u
  store_both-HasMmu c m a w value h = elim (Bool-cases (is_write_through a)) [
    | inl through ↦ rw through h
    | inr behind ↦ rw behind h
  ]

  write_word_filled-HasMmu :
      (a value : ℕ) (o : Option (ℕ × Cache × M))
      → HasMmu o
      → HasMmuWritten (write_word_filled (some i) a value o)
  unfolding update_lru
  write_word_filled-HasMmu a value none h = tt
  write_word_filled-HasMmu a value (some (w, c, m)) h = store_both-HasMmu c m a w value h

  pub write_word_found-HasMmu :
      (c : Cache) (m : M) (a value : ℕ) (o : Option ℕ)
      → c.mmu ≡ u
      → HasMmuWritten (write_word_found (some i) c m a value o)
  unfolding update_lru
  write_word_found-HasMmu c m a value (some w) h =
      store_both-HasMmu (touch (count_hit c 0) a w) m a w value h
  write_word_found-HasMmu c m a value none h =
      write_word_filled-HasMmu a value (fill (some i) (count_miss c 0) m a)
        (fill-HasMmu (count_miss c 0) m a h)
