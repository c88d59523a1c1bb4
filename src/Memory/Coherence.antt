-- ===== src/Memory/Coherence.antt =====
-- The directory of the caches: class CacheCoherence of emulator/src/memory/Coherence.cpp and
-- Coherence.h. The directory is a function of the address, `none` where it has no entry. A core
-- number is below `num_cores` in every call; C++ is undefined beyond.
pub mod SingleWriter
pub mod Requests
pub mod Answers
pub mod Tests
use riscv_emulator.Base.{
  ℕ, ◌+◌, ◌%◌, ◌^◌, Bool, true, false, not, ◌&&◌, Option, none, some, List, [], ◌∷◌, ◌==◌,
  if◌then◌else◌, get_or, set, replicate,
}

pub data CoherenceState : Type 0 where
  invalid shared modified : CoherenceState

pub record CoherenceStats : Type 0 where
  pub read_hits : ℕ
  pub read_misses : ℕ
  pub write_hits : ℕ
  pub write_misses : ℕ
  pub invalidations : ℕ
  pub broadcasts : ℕ

pub record CacheCoherence : Type 0 where
  pub num_cores : ℕ
  pub directory : ℕ → Option (List CoherenceState)
  pub stats : CoherenceStats

abbrev pub is_invalid : CoherenceState → Bool
is_invalid invalid = true
is_invalid _ = false

abbrev pub is_shared : CoherenceState → Bool
is_shared shared = true
is_shared _ = false

abbrev pub is_modified : CoherenceState → Bool
is_modified modified = true
is_modified _ = false

abbrev pub count : ℕ → ℕ
count n = (n + 1) % 2 ^ 64

-- CoherenceStats::reset, and the statistics of a new directory.
abbrev pub zero_stats : CoherenceStats
zero_stats = record {
  read_hits = 0;
  read_misses = 0;
  write_hits = 0;
  write_misses = 0;
  invalidations = 0;
  broadcasts = 0;
}

unfoldable pub create : ℕ → CacheCoherence
create num_cores = record { num_cores = num_cores; directory = λ address. none; stats = zero_stats }

-- The loops over the cores, from core `i` on.
abbrev pub modified_found : ℕ → ℕ → List CoherenceState → Bool
modified_found core_id i [] = false
modified_found core_id i (s ∷ ss) =
    let rest = modified_found core_id (i + 1) ss in
    if not (i == core_id) && is_modified s then true else rest

abbrev pub share_others : ℕ → ℕ → List CoherenceState → List CoherenceState
share_others core_id i [] = []
share_others core_id i (s ∷ ss) =
    (if not (i == core_id) && is_modified s then shared else s) ∷ share_others core_id (i + 1) ss

abbrev pub invalidate_others : ℕ → ℕ → List CoherenceState → List CoherenceState
invalidate_others core_id i [] = []
invalidate_others core_id i (s ∷ ss) =
    (if not (i == core_id) && not (is_invalid s) then invalid else s)
    ∷ invalidate_others core_id (i + 1) ss

-- The invalidations that this loop counts.
abbrev pub counted : ℕ → ℕ → List CoherenceState → ℕ → ℕ
counted core_id i [] n = n
counted core_id i (s ∷ ss) n =
    counted core_id (i + 1) ss (if not (i == core_id) && not (is_invalid s) then count n else n)

-- `directory[address] = states`.
abbrev pub enter : CacheCoherence → ℕ → List CoherenceState → CoherenceStats → CacheCoherence
enter c address states stats = record c {
  directory = λ a. if a == address then some states else c.directory a;
  stats = stats;
}

-- The states after a read miss of a known line.
abbrev pub after_read_miss : ℕ → List CoherenceState → List CoherenceState
after_read_miss core_id states =
    let updated = set states core_id shared in
    if modified_found core_id 0 states then share_others core_id 0 updated else updated

-- A handler after its search of the directory: the entry found is the argument.
abbrev pub read_found :
    CacheCoherence → ℕ → ℕ → Option (List CoherenceState) → CoherenceState × CacheCoherence
read_found c core_id address none =
    let missed = record (c.stats) { read_misses = count c.stats.read_misses } in
    (shared, enter c address (set (replicate c.num_cores invalid) core_id shared) missed)
read_found c core_id address (some states) =
    let missed = record (c.stats) { read_misses = count c.stats.read_misses } in
    let hit = record (c.stats) { read_hits = count c.stats.read_hits } in
    let current_state = get_or states core_id invalid in
    if is_invalid current_state
    then (shared, enter c address (after_read_miss core_id states) missed)
    else (current_state, record c { stats = hit })

unfoldable pub handle_read : CacheCoherence → ℕ → ℕ → CoherenceState × CacheCoherence
handle_read c core_id address = read_found c core_id address (c.directory address)

-- The line taken for core `core_id` alone.
abbrev pub take : CacheCoherence → ℕ → ℕ → List CoherenceState → CoherenceStats → CacheCoherence
take c core_id address states stats =
    enter c address (set (invalidate_others core_id 0 states) core_id modified)
      (record stats { invalidations = counted core_id 0 states stats.invalidations })

abbrev pub write_found :
    CacheCoherence → ℕ → ℕ → Option (List CoherenceState) → CoherenceState × CacheCoherence
write_found c core_id address none =
    let missed = record (c.stats) { write_misses = count c.stats.write_misses } in
    (modified, enter c address (set (replicate c.num_cores invalid) core_id modified) missed)
write_found c core_id address (some states) =
    let missed = record (c.stats) { write_misses = count c.stats.write_misses } in
    let hit = record (c.stats) { write_hits = count c.stats.write_hits } in
    let current_state = get_or states core_id invalid in
    if is_invalid current_state
    then (modified, take c core_id address states missed)
    else if is_shared current_state
    then (modified, take c core_id address states hit)
    else (modified, record c { stats = hit })

unfoldable pub handle_write : CacheCoherence → ℕ → ℕ → CoherenceState × CacheCoherence
handle_write c core_id address = write_found c core_id address (c.directory address)

abbrev pub invalidate_found : CacheCoherence → ℕ → ℕ → Option (List CoherenceState) → CacheCoherence
invalidate_found c core_id address none = c
invalidate_found c core_id address (some states) =
    enter c address (invalidate_others core_id 0 states)
      (record (c.stats) { invalidations = counted core_id 0 states c.stats.invalidations })

unfoldable pub invalidate_other_cores : CacheCoherence → ℕ → ℕ → CacheCoherence
invalidate_other_cores c core_id address = invalidate_found c core_id address (c.directory address)

unfoldable pub broadcast_update : CacheCoherence → ℕ → ℕ → CacheCoherence
unfolding invalidate_other_cores
broadcast_update c core_id address =
    invalidate_other_cores
      (record c { stats = record (c.stats) { broadcasts = count c.stats.broadcasts } }) core_id
      address

unfoldable pub reset_stats : CacheCoherence → CacheCoherence
reset_stats c = record c { stats = zero_stats }
