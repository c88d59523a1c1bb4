-- ===== src/Memory/Mmu/Coherent.antt =====
-- A translation keeps the TLB in agreement with the page table.
use mathlib.Core.Path.{subst}
use riscv_emulator.Base.{
  ℕ, zero, suc, ◌/◌, ◌^◌, ◌≡◌, ◌⊎◌, refl, sym, ap, ◌∙◌, Bool, true, false, not, ◌&&◌, ◌||◌, arith,
  ltb, ◌==◌, inl, inr, if_both, Bool-cases, none, some, Option-cases, List, [], ◌∷◌, get_or,
  get_or-set, set, length, length-set, map,
}
use riscv_emulator.Memory.Mmu.Lru.{remove, pop_back}
use riscv_emulator.Memory.Mmu.{
  Mmu, Translation, set_page_table_base, TlbEntry, PageTableEntry, no_entry, search_invalid,
  allocate_tlb_entry, claim_entry, update_tlb_lru, walk, invalidated, load_tlb_entry, translate_hit,
  translate_miss, translate_found, translate_address, read_page_table_entry, flush_tlb,
}
use riscv_emulator.Memory.Mmu.Transparent.{
  Agrees, IsCoherent, walk_page, find_cases, walk_translation, translate_address_lem,
}

abbrev pub MmuIsCoherent : (ℕ → ℕ) → Mmu → Type 0
MmuIsCoherent read_word m = IsCoherent read_word m.page_table_base m.tlb_entries

set_twice :
    (read_word : ℕ → ℕ) (base i : ℕ) (es : List TlbEntry) (e f : TlbEntry)
    → IsCoherent read_word base es
    → Agrees read_word base f
    → IsCoherent read_word base (set (set es i e) i f)
set_twice read_word base i es e f coherent agrees j valid =
    elim (Bool-cases (i == j && ltb i (length es))) [
      | inl here ↦
          let at : get_or (set (set es i e) i f) j no_entry ≡ f =
            rw (get_or-set (set es i e) i j f no_entry, length-set es i e, here) refl in
          rw at agrees
      | inr away ↦
          let at : get_or (set (set es i e) i f) j no_entry ≡ get_or es j no_entry =
            rw
              (
                get_or-set (set es i e) i j f no_entry,
                length-set es i e,
                away,
                get_or-set es i j e no_entry,
                away,
              )
              refl in
          rw at (coherent j (ap (λ (x : TlbEntry). x.valid) (sym at) ∙ valid))
    ]

-- What `allocate_tlb_entry` does to the entries.
allocate_cases :
    (m : Mmu) (v : ℕ)
    → (allocate_tlb_entry m v ≡ none)
      ⊎ ((i : ℕ) × (n : Mmu) × (e : TlbEntry) × (allocate_tlb_entry m v ≡ some (i, n))
          × (n.page_table_base ≡ m.page_table_base)
          × (n.tlb_entries ≡ set m.tlb_entries i e))
unfolding allocate_tlb_entry update_tlb_lru
allocate_cases m v =
    let claimed = λ (i : ℕ). record (get_or m.tlb_entries i no_entry) {
      virtual_page = v / 2 ^ 12;
      valid = true;
    } in
    elim (Bool-cases m.enable_tlb) [
      | inr disabled ↦ inl (simp disabled refl)
      | inl enabled ↦ elim (Option-cases (search_invalid 0 m.tlb_entries)) [
        | inr (i, found) ↦ inr (
          i,
          record (claim_entry m i (v / 2 ^ 12)) { tlb_lru = i ∷ remove i m.tlb_lru },
          claimed i,
          simp (enabled, found) refl,
          refl,
          refl,
        )
        | inl full ↦ elim (Option-cases (pop_back m.tlb_lru)) [
          | inl empty ↦ inl (simp (enabled, full, empty) refl)
          | inr ((i, rest), last) ↦ inr (
            i,
            record (claim_entry m i (v / 2 ^ 12)) { tlb_lru = i ∷ rest },
            claimed i,
            simp (enabled, full, last) refl,
            refl,
            refl,
          )
        ]
      ]
    ]

abbrev entry_of : ℕ → PageTableEntry → TlbEntry
entry_of v pte = record {
  virtual_page = v / 2 ^ 12;
  physical_frame = pte.frame;
  writable = pte.writable;
  user = pte.user;
  valid = true;
}

entry_of-Agrees :
    (read_word : ℕ → ℕ) (base v : ℕ)
    → (walk read_word base v).present ≡ true
    → Agrees read_word base (entry_of v (walk read_word base v))
entry_of-Agrees read_word base v h = record {
  present = ap (λ (p : PageTableEntry). p.present) (walk_page read_word base v) ∙ h;
  frame = sym (ap (λ (p : PageTableEntry). p.frame) (walk_page read_word base v));
  writable = sym (ap (λ (p : PageTableEntry). p.writable) (walk_page read_word base v));
}

load_tlb_entry-MmuIsCoherent :
    (read_word : ℕ → ℕ) (m : Mmu) (v : ℕ)
    → MmuIsCoherent read_word m
    → MmuIsCoherent read_word (load_tlb_entry m v (walk read_word m.page_table_base v))
unfolding load_tlb_entry
load_tlb_entry-MmuIsCoherent read_word m v coherent =
    let pte = walk read_word m.page_table_base v in
    elim (Bool-cases (not m.enable_tlb || not pte.present)) [
      | inl skipped ↦
          let same : load_tlb_entry m v pte ≡ m = simp skipped refl in
          subst (MmuIsCoherent read_word) (sym same) coherent
      | inr used ↦ elim (allocate_cases m v) [
        | inl full ↦
            let same : load_tlb_entry m v pte ≡ m = simp (used, full) refl in
            subst (MmuIsCoherent read_word) (sym same) coherent
        | inr (i, n, e, got, base, entries) ↦
            let loaded = record n { tlb_entries = set n.tlb_entries i (entry_of v pte) } in
            let same : load_tlb_entry m v pte ≡ loaded = simp (used, got) refl in
            subst (MmuIsCoherent read_word) (sym same) (
              rw (base, entries)
                (set_twice read_word m.page_table_base i m.tlb_entries e (entry_of v pte) coherent
                  (entry_of-Agrees read_word m.page_table_base v (ground arith))))
      ]
    ]

translate_miss-MmuIsCoherent :
    (read_word : ℕ → ℕ) (m : Mmu) (v : ℕ) (w x : Bool) (id : ℕ)
    → MmuIsCoherent read_word m
    → MmuIsCoherent read_word (translate_miss (some read_word) m v w x id).1
unfolding translate_miss read_page_table_entry
translate_miss-MmuIsCoherent read_word m v w x id coherent =
    let pte = walk read_word m.page_table_base v in
    let P = λ (r : Translation × Mmu). MmuIsCoherent read_word r.1 in
    if_both P (not pte.present) coherent (
      if_both P (w && not pte.writable) coherent
        (load_tlb_entry-MmuIsCoherent read_word m v coherent))

translate_hit-MmuIsCoherent :
    (read_word : ℕ → ℕ) (m : Mmu) (v i : ℕ) (w x : Bool) (id : ℕ)
    → MmuIsCoherent read_word m
    → MmuIsCoherent read_word (translate_hit m i v w x id).1
unfolding translate_hit
translate_hit-MmuIsCoherent read_word m v i w x id coherent =
    if_both (λ (r : Translation × Mmu). MmuIsCoherent read_word r.1)
      (w && not (get_or m.tlb_entries i no_entry).writable) coherent coherent

-- A translation, whatever its outcome, leaves the TLB in agreement with the page table if it was;
-- this holds of every size of TLB, with or without a free entry.
pub translate_address-MmuIsCoherent :
    (read_word : ℕ → ℕ) (m : Mmu) (v : ℕ) (w x : Bool) (id : ℕ)
    → MmuIsCoherent read_word m
    → MmuIsCoherent read_word (translate_address (some read_word) m v w x id).1
unfolding translate_address translate_found
translate_address-MmuIsCoherent read_word m v w x id coherent =
    if_both (λ (r : Translation × Mmu). MmuIsCoherent read_word r.1) (m.page_table_base == 0)
      coherent
      (elim (find_cases m v) [
        | inl (n, e, base, size, entries) ↦
            rw e (translate_miss-MmuIsCoherent read_word n v w x id (rw (base, entries) coherent))
        | inr (n, i, e, base, size, entries, h) ↦
            rw e (translate_hit-MmuIsCoherent read_word n v i w x id (rw (base, entries) coherent))
      ])

invalid_map : (es : List TlbEntry) (i : ℕ) → (get_or (map invalidated es) i no_entry).valid ≡ false
invalid_map [] i = refl
invalid_map (e ∷ es) zero = refl
invalid_map (e ∷ es) (suc i) = invalid_map es i

-- After a flush the TLB agrees with every page table.
flush_tlb-MmuIsCoherent : (read_word : ℕ → ℕ) (m : Mmu) → MmuIsCoherent read_word (flush_tlb m)
unfolding flush_tlb
flush_tlb-MmuIsCoherent read_word m i valid = absurd (ground (arith, invalid_map m.tlb_entries i))

-- A program switches page tables and translates addresses.
pub data MmuCall : Type 0 where
  switches_flushing : ℕ → MmuCall
  translates : ℕ → Bool → Bool → ℕ → MmuCall

pub run : (ℕ → ℕ) → Mmu → List MmuCall → Mmu
run read_word m [] = m
run read_word m (switches_flushing base ∷ rest) =
    run read_word (flush_tlb (set_page_table_base m base)) rest
run read_word m (translates v w x id ∷ rest) =
    run read_word (translate_address (some read_word) m v w x id).1 rest

coherent_after :
    (read_word : ℕ → ℕ) (m : Mmu) (calls : List MmuCall)
    → MmuIsCoherent read_word m
    → MmuIsCoherent read_word (run read_word m calls)
unfolding run
coherent_after read_word m [] coherent = coherent
coherent_after read_word m (switches_flushing base ∷ rest) coherent =
    coherent_after read_word (flush_tlb (set_page_table_base m base)) rest
      (flush_tlb-MmuIsCoherent read_word (set_page_table_base m base))
coherent_after read_word m (translates v w x id ∷ rest) coherent =
    coherent_after read_word (translate_address (some read_word) m v w x id).1 rest
      (translate_address-MmuIsCoherent read_word m v w x id coherent)

-- The TLB cannot be seen: after any translations and any switches of the page table that flush the
-- TLB, from any MMU, once flushed, with fixed page tables in memory, `translate_address` gives what
-- a walk alone gives, for every access but a write by an instruction fetch.
pub translate_address-run :
    (read_word : ℕ → ℕ) (m : Mmu) (calls : List MmuCall) (v : ℕ) (w x : Bool) (id : ℕ)
    → (w && x) ≡ false
    → (let n = run read_word (flush_tlb m) calls in
        (translate_address (some read_word) n v w x id).0 ≡ walk_translation read_word n v w x)
translate_address-run read_word m calls v w x id data_access =
    translate_address_lem read_word (run read_word (flush_tlb m) calls) v w x id data_access
      (coherent_after read_word (flush_tlb m) calls (flush_tlb-MmuIsCoherent read_word m))
