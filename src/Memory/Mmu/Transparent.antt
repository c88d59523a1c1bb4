-- ===== src/Memory/Mmu/Transparent.antt =====
-- The TLB against the page table.
use riscv_emulator.Base.{
  ℕ, suc, ◌+◌, ◌*◌, ◌/◌, ◌%◌, ◌^◌, ◌≡◌, ◌⊎◌, refl, sym, ap, ◌∙◌, Bool, true, false, not, ◌&&◌,
  arith, ◌==◌, inl, inr, if◌then◌else◌, Bool-cases, none, some, Option-cases, List, [], ◌∷◌, get_or,
}
use riscv_emulator.Memory.Mmu.Lru.{remove}
use riscv_emulator.Memory.Mmu.{
  Mmu, TlbEntry, PageTableEntry, Translation, translated, fault, instruction_page_fault,
  load_page_fault, store_amo_page_fault, no_entry, search_page, find_tlb_entry, update_tlb_lru,
  walk, read_page_table_entry, load_tlb_entry, translate_hit, translate_miss, translate_found,
  translate_address, count_fault, count_ok, get_physical_address, get_page_offset,
}

-- A TLB entry says what a walk of its page says.
pub record Agrees (read_word : ℕ → ℕ) (base : ℕ) (e : TlbEntry) : Type 0 where
  pub present : (walk read_word base (e.virtual_page * 2 ^ 12)).present ≡ true
  pub frame : e.physical_frame ≡ (walk read_word base (e.virtual_page * 2 ^ 12)).frame
  pub writable : e.writable ≡ (walk read_word base (e.virtual_page * 2 ^ 12)).writable

-- Every valid entry does.
abbrev pub IsCoherent : (ℕ → ℕ) → ℕ → List TlbEntry → Type 0
IsCoherent read_word base entries =
    (i : ℕ)
    → (get_or entries i no_entry).valid ≡ true
    → Agrees read_word base (get_or entries i no_entry)

-- The translation without a TLB.
abbrev pub walk_translation : (ℕ → ℕ) → Mmu → ℕ → Bool → Bool → Translation
walk_translation read_word m vaddr is_write is_instruction =
    let pte = walk read_word m.page_table_base vaddr in
    if m.page_table_base == 0
    then translated vaddr
    else if not pte.present
    then fault (
        if is_instruction
        then instruction_page_fault
        else if is_write
        then store_amo_page_fault
        else load_page_fault)
    else if is_write && not pte.writable
    then fault store_amo_page_fault
    else translated ((pte.frame * m.page_size + vaddr % m.page_size) % 2 ^ 32)

-- A walk reads the page number alone.
pub walk_page :
    (read_word : ℕ → ℕ) (base v : ℕ)
    → walk read_word base (v / 2 ^ 12 * 2 ^ 12) ≡ walk read_word base v
unfolding walk
walk_page read_word base v =
    let vpn1 : v / 2 ^ 12 * 2 ^ 12 / 2 ^ 22 ≡ v / 2 ^ 22 = omega arith in
    let vpn0 : v / 2 ^ 12 * 2 ^ 12 / 2 ^ 12 ≡ v / 2 ^ 12 = omega arith in rw (vpn1, vpn0) refl

search_page_lem :
    (vpn k i : ℕ) (es : List TlbEntry)
    → search_page vpn k es ≡ some i
    → (j : ℕ) × (i ≡ k + j)
      × ((get_or es j no_entry).valid ≡ true)
      × ((get_or es j no_entry).virtual_page ≡ vpn)
search_page_lem vpn k i [] h = ground arith
search_page_lem vpn k i (e ∷ es) h = elim (Bool-cases (e.valid && e.virtual_page == vpn)) [
  | inl here ↦
      let found : search_page vpn k (e ∷ es) ≡ some k = rw here refl in
      let same : some k ≡ some i = sym found ∙ h in (0, ground arith, ground arith, ground arith)
  | inr later ↦
      let passed : search_page vpn k (e ∷ es) ≡ search_page vpn (k + 1) es = rw later refl in
      let (j, at, valid, page) = search_page_lem vpn (k + 1) i es (sym passed ∙ h) in
      (suc j, omega arith, valid, page)
]

-- What a hit reads is what the walk gives.
hit_lem :
    (read_word : ℕ → ℕ) (m : Mmu) (v i : ℕ)
    → IsCoherent read_word m.page_table_base m.tlb_entries
    → search_page (v / 2 ^ 12) 0 m.tlb_entries ≡ some i
    → (let e = get_or m.tlb_entries i no_entry in
        let pte = walk read_word m.page_table_base v in
        (pte.present ≡ true) × (e.physical_frame ≡ pte.frame) × (e.writable ≡ pte.writable))
hit_lem read_word m v i coherent h =
    let (j, at, valid, page) = search_page_lem (v / 2 ^ 12) 0 i m.tlb_entries h in
    let same : i ≡ j = omega arith in
    let e = get_or m.tlb_entries j no_entry in
    let agrees : Agrees read_word m.page_table_base e = coherent j valid in
    let walked : walk read_word m.page_table_base (e.virtual_page * 2 ^ 12)
        ≡ walk read_word m.page_table_base v =
      rw page (walk_page read_word m.page_table_base v) in
    rw same (
      sym (ap (λ (p : PageTableEntry). p.present) walked) ∙ agrees.present,
      agrees.frame ∙ ap (λ (p : PageTableEntry). p.frame) walked,
      agrees.writable ∙ ap (λ (p : PageTableEntry). p.writable) walked,
    )

abbrev result : Translation × Mmu → Translation
result r = r.0

result_if3 :
    (a b : Bool) (p q r : Translation × Mmu)
    → result (if a then p else if b then q else r)
      ≡ (if a then result p else if b then result q else result r)
result_if3 true b p q r = refl
result_if3 false true p q r = refl
result_if3 false false p q r = refl

-- Without a write by a fetch the two kinds of fault on a hit are one.
result_hit :
    (w x writable : Bool) (t : Translation) (s u : Mmu)
    → (w && x) ≡ false
    → result (
        if w && not writable
        then (fault (if x then instruction_page_fault else store_amo_page_fault), s)
        else (t, u))
      ≡ (if w && not writable then fault store_amo_page_fault else t)
result_hit true true writable t s u h = ground arith
result_hit true false true t s u h = refl
result_hit true false false t s u h = refl
result_hit false x writable t s u h = refl

-- The result after a miss, and after a hit.
miss_lem :
    (read_word : ℕ → ℕ) (m : Mmu) (v : ℕ) (w x : Bool) (id : ℕ)
    → (m.page_table_base == 0) ≡ false
    → (translate_miss (some read_word) m v w x id).0 ≡ walk_translation read_word m v w x
unfolding translate_miss read_page_table_entry
miss_lem read_word m v w x id on =
    let pte = walk read_word m.page_table_base v in
    rw on (
      result_if3 (not pte.present) (w && not pte.writable)
        (
          fault (
              if x
              then instruction_page_fault
              else if w
              then store_amo_page_fault
              else load_page_fault),
          count_fault m id false,
        )
        (fault store_amo_page_fault, count_fault m id false)
        (
          translated (get_physical_address m pte.frame (get_page_offset m v)),
          count_ok (load_tlb_entry m v pte) id false,
        ))

hit_result :
    (read_word : ℕ → ℕ) (m : Mmu) (v i : ℕ) (w x : Bool) (id : ℕ)
    → (m.page_table_base == 0) ≡ false
    → (w && x) ≡ false
    → IsCoherent read_word m.page_table_base m.tlb_entries
    → search_page (v / 2 ^ 12) 0 m.tlb_entries ≡ some i
    → (translate_hit m i v w x id).0 ≡ walk_translation read_word m v w x
unfolding translate_hit
hit_result read_word m v i w x id on data_access coherent h =
    let (present, frame, writable) = hit_lem read_word m v i coherent h in
    rw (on, frame, writable, present)
      (result_hit w x (walk read_word m.page_table_base v).writable _ (count_fault m id true)
        (count_ok m id true) data_access)

-- The two outcomes of `find_tlb_entry`.
pub find_cases :
    (m : Mmu) (v : ℕ)
    → ((n : Mmu) × (find_tlb_entry m v ≡ (none, n))
        × (n.page_table_base ≡ m.page_table_base)
        × (n.page_size ≡ m.page_size)
        × (n.tlb_entries ≡ m.tlb_entries))
      ⊎ ((n : Mmu) × (i : ℕ) × (find_tlb_entry m v ≡ (some i, n))
          × (n.page_table_base ≡ m.page_table_base)
          × (n.page_size ≡ m.page_size)
          × (n.tlb_entries ≡ m.tlb_entries)
          × (search_page (v / 2 ^ 12) 0 m.tlb_entries ≡ some i))
unfolding find_tlb_entry update_tlb_lru
find_cases m v =
    let hits = (m.stats.tlb_hits + 1) % 2 ^ 64 in
    let misses = (m.stats.tlb_misses + 1) % 2 ^ 64 in
    elim (Bool-cases m.enable_tlb) [
      | inl enabled ↦ elim (Option-cases (search_page (v / 2 ^ 12) 0 m.tlb_entries)) [
        | inl absent ↦ inl (
          record m { stats = record (m.stats) { tlb_misses = misses } },
          simp (enabled, absent) refl,
          refl,
          refl,
          refl,
        )
        | inr (i, found) ↦ inr (
          record m {
            tlb_lru = i ∷ remove i m.tlb_lru;
            stats = record (m.stats) { tlb_hits = hits };
          },
          i,
          simp (enabled, found) refl,
          refl,
          refl,
          refl,
          found,
        )
      ]
      | inr disabled ↦ inl (m, simp disabled refl, refl, refl, refl)
    ]

same_walk :
    (read_word : ℕ → ℕ) (n m : Mmu) (v : ℕ) (w x : Bool)
    → n.page_table_base ≡ m.page_table_base
    → n.page_size ≡ m.page_size
    → walk_translation read_word n v w x ≡ walk_translation read_word m v w x
same_walk read_word n m v w x base size = rw (base, size) refl

-- Where every valid entry of the TLB agrees with the page table, `translate_address` gives, for
-- every access but a write by an instruction fetch, the address or the fault that a walk alone gives.
pub translate_address_lem :
    (read_word : ℕ → ℕ) (m : Mmu) (v : ℕ) (w x : Bool) (id : ℕ)
    → (w && x) ≡ false
    → IsCoherent read_word m.page_table_base m.tlb_entries
    → (translate_address (some read_word) m v w x id).0 ≡ walk_translation read_word m v w x
unfolding translate_address translate_found
translate_address_lem read_word m v w x id data_access coherent =
    elim (Bool-cases (m.page_table_base == 0)) [
      | inl bare ↦ rw bare refl
      | inr on ↦ elim (find_cases m v) [
        | inl (n, e, base, size, entries) ↦
            let missed : (translate_address (some read_word) m v w x id).0
                ≡ (translate_miss (some read_word) n v w x id).0 =
              rw (on, e) refl in
            missed
            ∙ miss_lem read_word n v w x id (rw base on)
            ∙ same_walk read_word n m v w x base size
        | inr (n, i, e, base, size, entries, h) ↦
            let hit : (translate_address (some read_word) m v w x id).0
                ≡ (translate_hit n i v w x id).0 =
              rw (on, e) refl in
            hit
            ∙ hit_result read_word n v i w x id (rw base on) data_access
                (rw (base, entries) coherent) (rw entries h)
            ∙ same_walk read_word n m v w x base size
      ]
    ]
