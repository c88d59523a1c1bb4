-- ===== src/Memory/Cache/Search.antt =====
-- What the searches through the ways of a set find.
use riscv_emulator.Base.{
  ℕ, zero, suc, ◌+◌, ◌≤◌, ◌<◌, ◌≡◌, refl, sym, ap, ◌∙◌, arith, if_both, Bool, true, false, not,
  Option, none, some, ◌==◌, if◌then◌else◌, Bool-cases, Option-cases, inl, inr, List, [], ◌∷◌,
}
use riscv_emulator.Memory.Cache.{CacheEntry, is_hit, search_tag, search_invalid}
use riscv_emulator.Memory.Mmu.Lru.{pop_back, remove, indices_from}

-- A search for what passes the test `p`, of which both are instances.
abbrev pub search_by : (ℕ → Bool) → ℕ → ℕ → Option ℕ
search_by p w zero = none
search_by p w (suc left) = let rest = search_by p (w + 1) left in if p w then some w else rest

search_tag-by :
    (row : ℕ → CacheEntry) (tag w left : ℕ)
    → search_tag row tag w left ≡ search_by (λ v. is_hit (row v) tag) w left
search_tag-by row tag w zero = refl
search_tag-by row tag w (suc left) =
    ap (λ (o : Option ℕ). if is_hit (row w) tag then some w else o)
      (search_tag-by row tag (w + 1) left)

search_invalid-by :
    (row : ℕ → CacheEntry) (w left : ℕ)
    → search_invalid row w left ≡ search_by (λ v. not (row v).valid) w left
search_invalid-by row w zero = refl
search_invalid-by row w (suc left) =
    ap (λ (o : Option ℕ). if not (row w).valid then some w else o)
      (search_invalid-by row (w + 1) left)

search_by-some :
    (p : ℕ → Bool) (w left v : ℕ) → search_by p w left ≡ some v → (v < w + left) × (p v ≡ true)
search_by-some p w zero v h = absurd (ground arith)
search_by-some p w (suc left) v h = elim (Bool-cases (p w)) [
  | inl here ↦ let same : w ≡ v = ground arith in (omega arith, rw same at here)
  | inr later ↦
      let (bound, holds) = search_by-some p (w + 1) left v (ground arith) in (omega arith, holds)
]

search_by-none :
    (p : ℕ → Bool) (w left v : ℕ) → search_by p w left ≡ none → w ≤ v → v < w + left → p v ≡ false
search_by-none p w zero v h low high = absurd (omega arith)
search_by-none p w (suc left) v h low high = elim (Bool-cases (p w)) [
  | inl here ↦ absurd (ground arith)
  | inr later ↦ elim (Bool-cases (w == v)) [
    | inl same ↦ let e : v ≡ w = ground arith in rw e later
    | inr apart ↦ search_by-none p (w + 1) left v (ground arith) (ground arith) (omega arith)
  ]
]

module _ (row : ℕ → CacheEntry) where
  pub search_tag-some :
      (tag n v : ℕ) → search_tag row tag 0 n ≡ some v → (v < n) × (is_hit (row v) tag ≡ true)
  search_tag-some tag n v h =
      let (bound, hit) =
        search_by-some (λ x. is_hit (row x) tag) 0 n v (sym (search_tag-by row tag 0 n) ∙ h) in
      (omega arith, hit)

  pub search_tag-none :
      (tag n v : ℕ) → search_tag row tag 0 n ≡ none → v < n → is_hit (row v) tag ≡ false
  search_tag-none tag n v h lt =
      search_by-none (λ x. is_hit (row x) tag) 0 n v (sym (search_tag-by row tag 0 n) ∙ h)
        (omega arith) (omega arith)

  pub search_invalid-some :
      (n v : ℕ) → search_invalid row 0 n ≡ some v → (v < n) × ((row v).valid ≡ false)
  search_invalid-some n v h =
      let (bound, free) =
        search_by-some (λ x. not (row x).valid) 0 n v (sym (search_invalid-by row 0 n) ∙ h) in
      (omega arith, ground arith)

  pub search_invalid-none : (n v : ℕ) → search_invalid row 0 n ≡ none → v < n → (row v).valid ≡ true
  search_invalid-none n v h lt =
      let taken =
        search_by-none (λ x. not (row x).valid) 0 n v (sym (search_invalid-by row 0 n) ∙ h)
          (omega arith) (omega arith) in
      ground arith

  -- A tag that stands once is found, one that does not stand is not.
  pub search_tag_unique :
      (tag n v : ℕ)
      → v < n
      → is_hit (row v) tag ≡ true
      → ((x : ℕ) → x < n → is_hit (row x) tag ≡ true → x ≡ v)
      → search_tag row tag 0 n ≡ some v
  search_tag_unique tag n v lt hit once = elim (Option-cases (search_tag row tag 0 n)) [
    | inl missed ↦ let miss = search_tag-none tag n v missed lt in absurd (ground arith)
    | inr (x, found) ↦
        let (bound, hit') = search_tag-some tag n x found in
        found ∙ ap (λ (y : ℕ). some y) (once x bound hit')
  ]

  pub search_tag-absent :
      (tag n : ℕ) → ((x : ℕ) → x < n → is_hit (row x) tag ≡ false) → search_tag row tag 0 n ≡ none
  search_tag-absent tag n absent = elim (Option-cases (search_tag row tag 0 n)) [
    | inl missed ↦ missed
    | inr (x, found) ↦
        let (bound, hit') = search_tag-some tag n x found in
        let miss = absent x bound in absurd (ground arith)
  ]

  pub search_invalid-exists :
      (n v : ℕ)
      → v < n
      → (row v).valid ≡ false
      → (w : ℕ) × (search_invalid row 0 n ≡ some w) × (w < n) × ((row w).valid ≡ false)
  search_invalid-exists n v lt free = elim (Option-cases (search_invalid row 0 n)) [
    | inl missed ↦ let taken = search_invalid-none n v missed lt in absurd (ground arith)
    | inr (x, found) ↦
        let (bound, free') = search_invalid-some n x found in (x, found, bound, free')
  ]

-- An LRU list that names ways below `n`, at least one.
abbrev pub AllBelow : ℕ → List ℕ → Type 0
AllBelow n [] = Unit
AllBelow n (x ∷ xs) = (x < n) × AllBelow n xs

abbrev pub IsLru : ℕ → List ℕ → Type 0
IsLru n [] = ⊥
IsLru n (x ∷ xs) = (x < n) × AllBelow n xs

pub AllBelow-remove : (n w : ℕ) (xs : List ℕ) → AllBelow n xs → AllBelow n (remove w xs)
AllBelow-remove n w [] h = tt
AllBelow-remove n w (x ∷ xs) h =
    if_both (AllBelow n) (x == w) (AllBelow-remove n w xs h.1) (h.0, AllBelow-remove n w xs h.1)

pub IsLru-AllBelow : (n : ℕ) (xs : List ℕ) → IsLru n xs → AllBelow n xs
IsLru-AllBelow n [] h = elim h [ ]
IsLru-AllBelow n (x ∷ xs) h = h

pub pop_back-IsLru :
    (n : ℕ) (xs : List ℕ)
    → IsLru n xs
    → (w : ℕ) × (rest : List ℕ) × (pop_back xs ≡ some (w, rest)) × (w < n) × AllBelow n rest
pop_back-IsLru n [] h = elim h [ ]
pop_back-IsLru n (x ∷ []) h = (x, [], refl, h.0, tt)
pop_back-IsLru n (x ∷ y ∷ xs) h =
    let (w, rest, popped, below, others) = pop_back-IsLru n (y ∷ xs) h.1 in
    (w, x ∷ rest, rw popped refl, below, (h.0, others))

AllBelow-indices : (n i k : ℕ) → i + k ≤ n → AllBelow n (indices_from i k)
AllBelow-indices n i zero h = tt
AllBelow-indices n i (suc k) h = (omega arith, AllBelow-indices n (i + 1) k (omega arith))

pub IsLru-indices : (n i k : ℕ) → i + suc k ≤ n → IsLru n (indices_from i (suc k))
IsLru-indices n i k h = (omega arith, AllBelow-indices n (i + 1) k (omega arith))
