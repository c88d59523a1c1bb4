-- ===== src/Memory/Coherence/SingleWriter.antt =====
-- At most one cache may hold a line modified, and then no other holds it.
use riscv_emulator.Base.{
  ℕ, zero, suc, ◌+◌, ◌<◌, ◌≡◌, ◌≢◌, refl, sym, ap, ◌∙◌, arith, true, false, Option, none, some,
  List, [], ◌∷◌, ◌==◌, if◌then◌else◌, get_or, get_or-set, get_or-replicate, set, length, length-set,
  length-replicate, replicate, Bool-cases, inl, inr,
}
use riscv_emulator.Memory.Coherence.{
  CoherenceState, invalid, shared, modified, CacheCoherence, CoherenceStats, is_invalid,
  is_modified, modified_found, share_others, invalidate_others, enter, after_read_miss,
}

abbrev pub state_of : List CoherenceState → ℕ → CoherenceState
state_of states i = get_or states i invalid

-- Core `i`'s state of a line, by the directory's entry for it.
abbrev pub state_in : Option (List CoherenceState) → ℕ → CoherenceState
state_in none i = invalid
state_in (some states) i = state_of states i

-- Two different cores: if one has the line modified, the other has it invalid.
pub record IsExclusive (n : ℕ) (states : List CoherenceState) : Type 0 where
  pub size : length states ≡ n
  pub alone :
      (i j : ℕ)
      → i ≢ j
      → is_modified (state_of states i) ≡ true
      → is_invalid (state_of states j) ≡ true

share_others_lem :
    (core k i : ℕ) (ss : List CoherenceState)
    → is_modified (state_of (share_others core k ss) i)
      ≡ (if k + i == core then is_modified (state_of ss i) else false)
share_others_lem core k i [] = ground arith
share_others_lem core k zero (invalid ∷ ss) = ground arith
share_others_lem core k zero (shared ∷ ss) = ground arith
share_others_lem core k zero (modified ∷ ss) = ground arith
share_others_lem core k (suc i) (s ∷ ss) = ground (arith, share_others_lem core (k + 1) i ss)

invalidate_others_lem :
    (core k i : ℕ) (ss : List CoherenceState)
    → state_of (invalidate_others core k ss) i ≡ (if k + i == core then state_of ss i else invalid)
invalidate_others_lem core k i [] = ground arith
invalidate_others_lem core k zero (invalid ∷ ss) = ground arith
invalidate_others_lem core k zero (shared ∷ ss) = ground arith
invalidate_others_lem core k zero (modified ∷ ss) = ground arith
invalidate_others_lem core k (suc i) (s ∷ ss) =
    ground (arith, invalidate_others_lem core (k + 1) i ss)

modified_found_lem :
    (core k i : ℕ) (ss : List CoherenceState)
    → modified_found core k ss ≡ false
    → k + i ≢ core
    → is_modified (state_of ss i) ≡ false
modified_found_lem core k i [] h ne = refl
modified_found_lem core k zero (s ∷ ss) h ne = ground arith
modified_found_lem core k (suc i) (s ∷ ss) h ne =
    modified_found_lem core (k + 1) i ss (ground arith) (omega arith)

length-share_others :
    (core k : ℕ) (ss : List CoherenceState) → length (share_others core k ss) ≡ length ss
length-share_others core k [] = refl
length-share_others core k (s ∷ ss) = ap suc (length-share_others core (k + 1) ss)

length-invalidate_others :
    (core k : ℕ) (ss : List CoherenceState) → length (invalidate_others core k ss) ≡ length ss
length-invalidate_others core k [] = refl
length-invalidate_others core k (s ∷ ss) = ap suc (length-invalidate_others core (k + 1) ss)

-- After a read miss no cache holds the line modified.
pub none_modified :
    (core i : ℕ) (ss : List CoherenceState)
    → core < length ss
    → is_modified (state_of (after_read_miss core ss) i) ≡ false
none_modified core i ss fits = elim (Bool-cases (modified_found core 0 ss)) [
  | inl found ↦ rw found (
      ground (
        arith,
        share_others_lem core 0 i (set ss core shared),
        get_or-set ss core i shared invalid,
      ))
  | inr none_found ↦ rw none_found (
      ground
        (arith, modified_found_lem core 0 i ss none_found, get_or-set ss core i shared invalid))
]

length-after_read_miss :
    (core : ℕ) (ss : List CoherenceState) → length (after_read_miss core ss) ≡ length ss
length-after_read_miss core ss =
    ground (arith, length-share_others core 0 (set ss core shared), length-set ss core shared)

pub after_read_miss-IsExclusive :
    (n core : ℕ) (ss : List CoherenceState)
    → core < n
    → IsExclusive n ss
    → IsExclusive n (after_read_miss core ss)
after_read_miss-IsExclusive n core ss fits w = record {
  size = length-after_read_miss core ss ∙ w.size;
  alone = λ i j ne h. absurd (ground (arith, none_modified core i ss, w.size));
}

-- The line as its new owner leaves it.
pub owned_lem :
    (core i : ℕ) (ss : List CoherenceState)
    → core < length ss
    → state_of (set (invalidate_others core 0 ss) core modified) i
      ≡ (if i == core then modified else invalid)
owned_lem core i ss fits = ground (
  arith,
  get_or-set (invalidate_others core 0 ss) core i modified invalid,
  invalidate_others_lem core 0 i ss,
  length-invalidate_others core 0 ss,
)

pub owned-IsExclusive :
    (n core : ℕ) (ss : List CoherenceState)
    → core < n
    → length ss ≡ n
    → IsExclusive n (set (invalidate_others core 0 ss) core modified)
owned-IsExclusive n core ss fits size = record {
  size = omega (
    arith,
    length-set (invalidate_others core 0 ss) core modified,
    length-invalidate_others core 0 ss,
  );
  alone = λ i j ne h. ground (arith, owned_lem core i ss, owned_lem core j ss);
}

pub first-IsExclusive :
    (n core : ℕ) (s : CoherenceState) → core < n → IsExclusive n (set (replicate n invalid) core s)
first-IsExclusive n core s fits = record {
  size = omega (arith, length-set (replicate n invalid) core s, length-replicate n invalid);
  alone = λ i j ne h. ground (
    arith,
    get_or-set (replicate n invalid) core i s invalid,
    get_or-set (replicate n invalid) core j s invalid,
    get_or-replicate n i invalid invalid,
    get_or-replicate n j invalid invalid,
    length-replicate n invalid,
  );
}

pub invalidated-IsExclusive :
    (n core : ℕ) (ss : List CoherenceState)
    → IsExclusive n ss
    → IsExclusive n (invalidate_others core 0 ss)
invalidated-IsExclusive n core ss w = record {
  size = length-invalidate_others core 0 ss ∙ w.size;
  alone = λ i j ne h.
      ground (arith, invalidate_others_lem core 0 i ss, invalidate_others_lem core 0 j ss);
}

-- Every line of the directory is exclusive.
abbrev pub IsCoherent : CacheCoherence → Type 0
IsCoherent c =
    (a : ℕ) (ss : List CoherenceState) → c.directory a ≡ some ss → IsExclusive c.num_cores ss

pub enter-IsCoherent :
    (c : CacheCoherence) (address : ℕ) (states : List CoherenceState) (stats : CoherenceStats)
    → IsCoherent c
    → IsExclusive c.num_cores states
    → IsCoherent (enter c address states stats)
enter-IsCoherent c address states stats coherent exclusive a ss h =
    elim (Bool-cases (a == address)) [
      | inl here ↦
          let at : (enter c address states stats).directory a ≡ some states = rw here refl in
          let same : states ≡ ss = ground arith in rw (sym same) exclusive
      | inr away ↦
          let at : (enter c address states stats).directory a ≡ c.directory a = rw away refl in
          coherent a ss (sym at ∙ h)
    ]
