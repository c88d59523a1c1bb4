-- ===== src/Memory/Pma/Regions.antt =====
-- The order of the regions and the region that a search finds.
use riscv_emulator.Base.{
  ℕ, ◌≤◌, ◌≡◌, refl, arith, ◌&&◌, Option, none, some, List, [], ◌∷◌, ltb, leb, ◌==◌, if◌then◌else◌,
  if_both, Bool-cases, inl, inr,
}
use riscv_emulator.Memory.Pma.{
  PmaController, PmaEntry, MemoryType, CachePolicy, entry_of, insert, add_region, without,
  remove_region, clear_regions, covers, find, find_entry, initialize_default_regions,
}

-- No region starts below `low`, and the starts do not fall.
abbrev pub IsSorted : ℕ → List PmaEntry → Type 0
IsSorted low [] = Unit
IsSorted low (r ∷ rs) = (low ≤ r.start_addr) × IsSorted r.start_addr rs

IsSorted-weaken :
    (low low' : ℕ) (rs : List PmaEntry) → low' ≤ low → IsSorted low rs → IsSorted low' rs
IsSorted-weaken low low' [] le s = tt
IsSorted-weaken low low' (r ∷ rs) le s = (omega (arith, s.0), s.1)

insert-IsSorted :
    (low : ℕ) (entry : PmaEntry) (rs : List PmaEntry)
    → low ≤ entry.start_addr
    → IsSorted low rs
    → IsSorted low (insert entry rs)
insert-IsSorted low entry [] le s = (le, tt)
insert-IsSorted low entry (r ∷ rs) le s = elim (Bool-cases (ltb r.start_addr entry.start_addr)) [
  | inl below ↦ rw below (s.0, insert-IsSorted r.start_addr entry rs (ground arith) s.1)
  | inr above ↦ rw above (le, (ground arith, s.1))
]

without-IsSorted :
    (low start : ℕ) (rs : List PmaEntry) → IsSorted low rs → IsSorted low (without start rs)
without-IsSorted low start [] s = tt
without-IsSorted low start (r ∷ rs) s =
    let rest = without-IsSorted r.start_addr start rs s.1 in
    if_both (IsSorted low) (r.start_addr == start)
      (IsSorted-weaken r.start_addr low (without start rs) s.0 rest) (s.0, rest)

-- The entry that a search meets first: of the new one and the one found before, the one that starts
-- lower, and the new one of two that start together.
abbrev pub chosen : PmaEntry → ℕ → Option PmaEntry → Option PmaEntry
chosen entry addr none = if covers entry addr then some entry else none
chosen entry addr (some r) =
    if covers entry addr && leb entry.start_addr r.start_addr then some entry else some r

find-start :
    (low addr : ℕ) (rs : List PmaEntry) (f : PmaEntry)
    → IsSorted low rs
    → find rs addr ≡ some f
    → low ≤ f.start_addr
find-start low addr [] f s h = absurd (ground arith)
find-start low addr (r ∷ rs) f s h = elim (Bool-cases (covers r addr)) [
  | inl here ↦ ground (arith, s.0)
  | inr away ↦ omega (arith, s.0, find-start r.start_addr addr rs f s.1 (ground arith))
]

chosen-first :
    (entry : PmaEntry) (addr : ℕ) (o : Option PmaEntry)
    → ((f : PmaEntry) → o ≡ some f → entry.start_addr ≤ f.start_addr)
    → (if covers entry addr then some entry else o) ≡ chosen entry addr o
chosen-first entry addr none least = refl
chosen-first entry addr (some f) least = let le = least f refl in ground arith

find-insert :
    (low addr : ℕ) (entry : PmaEntry) (rs : List PmaEntry)
    → IsSorted low rs
    → find (insert entry rs) addr ≡ chosen entry addr (find rs addr)
find-insert low addr entry [] s = refl
find-insert low addr entry (r ∷ rs) s = elim (Bool-cases (ltb r.start_addr entry.start_addr)) [
  | inl below ↦ rw below (elim (Bool-cases (covers r addr)) [
    | inl here ↦ rw here (ground arith)
    | inr away ↦ rw away (find-insert r.start_addr addr entry rs s.1)
  ])
  | inr above ↦ rw above (
      chosen-first entry addr (find (r ∷ rs) addr)
        (λ f h. find-start entry.start_addr addr (r ∷ rs) f (ground arith, s.1) h))
]

-- The calls that change the regions.
pub data RegionCall : Type 0 where
  adds : ℕ → ℕ → MemoryType → CachePolicy → RegionCall
  removes : ℕ → RegionCall
  clears resets : RegionCall

unfoldable pub call : PmaController → RegionCall → PmaController
call p (adds start_addr end_addr type cache_policy) =
    add_region p start_addr end_addr type cache_policy
call p (removes start_addr) = remove_region p start_addr
call p clears = clear_regions p
call p resets = initialize_default_regions p

unfoldable pub calls : PmaController → List RegionCall → PmaController
calls p [] = p
calls p (c ∷ cs) = calls (call p c) cs

add_region-IsSorted :
    (p : PmaController) (start_addr end_addr : ℕ) (type : MemoryType) (cache_policy : CachePolicy)
    → IsSorted 0 p.pma_regions
    → IsSorted 0 (add_region p start_addr end_addr type cache_policy).pma_regions
unfolding add_region
add_region-IsSorted p start_addr end_addr type cache_policy s =
    insert-IsSorted 0 (entry_of start_addr end_addr type cache_policy) p.pma_regions (omega arith) s

initialize-IsSorted : (p : PmaController) → IsSorted 0 (initialize_default_regions p).pma_regions
unfolding initialize_default_regions add_region clear_regions
initialize-IsSorted p = ground arith

call-IsSorted :
    (p : PmaController) (c : RegionCall)
    → IsSorted 0 p.pma_regions
    → IsSorted 0 (call p c).pma_regions
unfolding call remove_region clear_regions
call-IsSorted p (adds start_addr end_addr type cache_policy) s =
    add_region-IsSorted p start_addr end_addr type cache_policy s
call-IsSorted p (removes start_addr) s = without-IsSorted 0 start_addr p.pma_regions s
call-IsSorted p clears s = tt
call-IsSorted p resets s = initialize-IsSorted p

-- Regions that are sorted by their starts are so after every sequence of additions, removals, clearings
-- and initializations, so that std::lower_bound always meets the order that it needs.
pub calls-IsSorted :
    (p : PmaController) (cs : List RegionCall)
    → IsSorted 0 p.pma_regions
    → IsSorted 0 (calls p cs).pma_regions
unfolding calls
calls-IsSorted p [] s = s
calls-IsSorted p (c ∷ cs) s = calls-IsSorted (call p c) cs (call-IsSorted p c s)

-- After `add_region` a search finds, for every address, the new region or the one that it found before:
-- the new one where it covers the address and none was found or the one found starts no lower. The
-- regions were sorted.
pub find_entry-add_region :
    (p : PmaController) (start_addr end_addr addr : ℕ) (type : MemoryType)
    (cache_policy : CachePolicy)
    → IsSorted 0 p.pma_regions
    → find_entry (add_region p start_addr end_addr type cache_policy) addr
      ≡ chosen (entry_of start_addr end_addr type cache_policy) addr (find_entry p addr)
unfolding find_entry add_region
find_entry-add_region p start_addr end_addr addr type cache_policy s =
    find-insert 0 addr (entry_of start_addr end_addr type cache_policy) p.pma_regions s
