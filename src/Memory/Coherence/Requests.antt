-- ===== src/Memory/Coherence/Requests.antt =====
-- The requests of the cores to the directory.
use riscv_emulator.Base.{
  ℕ, ◌<◌, ◌≡◌, ◌≢◌, refl, ◌∙◌, arith, true, Option, none, some, List, if_both, get_or, set,
  replicate,
}
use riscv_emulator.Memory.Coherence.{
  CoherenceState, invalid, shared, modified, CacheCoherence, CoherenceStats, is_invalid, is_shared,
  is_modified, create, invalidate_others, after_read_miss, take, handle_read, handle_write, count,
  counted, reset_stats, read_found, write_found, invalidate_found, invalidate_other_cores,
  broadcast_update,
}
use riscv_emulator.Memory.Coherence.SingleWriter.{
  state_of, state_in, IsExclusive, IsCoherent, enter-IsCoherent, first-IsExclusive,
  owned-IsExclusive, after_read_miss-IsExclusive, invalidated-IsExclusive,
}

-- A request's answer and the directory after it.
abbrev Leaves : (CoherenceState × CacheCoherence) → Type 0
Leaves r = IsCoherent r.1

abbrev pub Found : CacheCoherence → Option (List CoherenceState) → Type 0
Found c o = (ss : List CoherenceState) → o ≡ some ss → IsExclusive c.num_cores ss

read_found-IsCoherent :
    (c : CacheCoherence) (core address : ℕ) (o : Option (List CoherenceState))
    → core < c.num_cores
    → IsCoherent c
    → Found c o
    → IsCoherent (read_found c core address o).1
read_found-IsCoherent c core address none fits coherent found =
    enter-IsCoherent c address (set (replicate c.num_cores invalid) core shared)
      (record (c.stats) { read_misses = count c.stats.read_misses }) coherent
      (first-IsExclusive c.num_cores core shared fits)
read_found-IsCoherent c core address (some states) fits coherent found =
    if_both Leaves (is_invalid (get_or states core invalid))
      (enter-IsCoherent c address (after_read_miss core states)
        (record (c.stats) { read_misses = count c.stats.read_misses }) coherent
        (after_read_miss-IsExclusive c.num_cores core states fits (found states refl)))
      coherent

take-IsCoherent :
    (c : CacheCoherence) (core address : ℕ) (states : List CoherenceState) (stats : CoherenceStats)
    → core < c.num_cores
    → IsCoherent c
    → IsExclusive c.num_cores states
    → IsCoherent (take c core address states stats)
take-IsCoherent c core address states stats fits coherent exclusive =
    enter-IsCoherent c address (set (invalidate_others core 0 states) core modified)
      (record stats { invalidations = counted core 0 states stats.invalidations }) coherent
      (owned-IsExclusive c.num_cores core states fits exclusive.size)

write_found-IsCoherent :
    (c : CacheCoherence) (core address : ℕ) (o : Option (List CoherenceState))
    → core < c.num_cores
    → IsCoherent c
    → Found c o
    → IsCoherent (write_found c core address o).1
write_found-IsCoherent c core address none fits coherent found =
    enter-IsCoherent c address (set (replicate c.num_cores invalid) core modified)
      (record (c.stats) { write_misses = count c.stats.write_misses }) coherent
      (first-IsExclusive c.num_cores core modified fits)
write_found-IsCoherent c core address (some states) fits coherent found =
    let missed = record (c.stats) { write_misses = count c.stats.write_misses } in
    let hit = record (c.stats) { write_hits = count c.stats.write_hits } in
    let s = get_or states core invalid in
    if_both Leaves (is_invalid s)
      (take-IsCoherent c core address states missed fits coherent (found states refl))
      (if_both Leaves (is_shared s)
        (take-IsCoherent c core address states hit fits coherent (found states refl)) coherent)

invalidate_found-IsCoherent :
    (c : CacheCoherence) (core address : ℕ) (o : Option (List CoherenceState))
    → IsCoherent c
    → Found c o
    → IsCoherent (invalidate_found c core address o)
invalidate_found-IsCoherent c core address none coherent found = coherent
invalidate_found-IsCoherent c core address (some states) coherent found =
    enter-IsCoherent c address (invalidate_others core 0 states)
      (record (c.stats) { invalidations = counted core 0 states c.stats.invalidations }) coherent
      (invalidated-IsExclusive c.num_cores core states (found states refl))

pub data Request : Type 0 where
  reads writes invalidates broadcasts : ℕ → ℕ → Request
  resets : Request

-- The core that sends a request is one of the `n`.
abbrev pub IsFrom : ℕ → Request → Type 0
IsFrom n (reads core address) = core < n
IsFrom n (writes core address) = core < n
IsFrom n (invalidates core address) = core < n
IsFrom n (broadcasts core address) = core < n
IsFrom n resets = Unit

unfoldable pub request : CacheCoherence → Request → CacheCoherence
request c (reads core address) = (handle_read c core address).1
request c (writes core address) = (handle_write c core address).1
request c (invalidates core address) = invalidate_other_cores c core address
request c (broadcasts core address) = broadcast_update c core address
request c resets = reset_stats c

request-IsCoherent :
    (c : CacheCoherence) (r : Request)
    → IsFrom c.num_cores r
    → IsCoherent c
    → IsCoherent (request c r)
unfolding request handle_read handle_write invalidate_other_cores broadcast_update reset_stats
request-IsCoherent c (reads core address) fits coherent =
    read_found-IsCoherent c core address (c.directory address) fits coherent (coherent address)
request-IsCoherent c (writes core address) fits coherent =
    write_found-IsCoherent c core address (c.directory address) fits coherent (coherent address)
request-IsCoherent c (invalidates core address) fits coherent =
    invalidate_found-IsCoherent c core address (c.directory address) coherent (coherent address)
request-IsCoherent c (broadcasts core address) fits coherent =
    let sent = record c { stats = record (c.stats) { broadcasts = count c.stats.broadcasts } } in
    invalidate_found-IsCoherent sent core address (c.directory address) coherent (coherent address)
request-IsCoherent c resets fits coherent = coherent

-- A directory that requests of `n` cores can lead to.
pub data Reachable (n : ℕ) : CacheCoherence → Type 0 where
  initial : Reachable n (create n)
  after :
      {c : CacheCoherence} (r : Request) → IsFrom n r → Reachable n c → Reachable n (request c r)

abbrev Keeps : ℕ → (CoherenceState × CacheCoherence) → Type 0
Keeps n r = r.1.num_cores ≡ n

read_found-cores :
    (c : CacheCoherence) (core address : ℕ) (o : Option (List CoherenceState))
    → Keeps c.num_cores (read_found c core address o)
read_found-cores c core address none = refl
read_found-cores c core address (some states) =
    if_both (Keeps c.num_cores) (is_invalid (get_or states core invalid)) refl refl

write_found-cores :
    (c : CacheCoherence) (core address : ℕ) (o : Option (List CoherenceState))
    → Keeps c.num_cores (write_found c core address o)
write_found-cores c core address none = refl
write_found-cores c core address (some states) =
    if_both (Keeps c.num_cores) (is_invalid (get_or states core invalid)) refl
      (if_both (Keeps c.num_cores) (is_shared (get_or states core invalid)) refl refl)

invalidate_found-cores :
    (c : CacheCoherence) (core address : ℕ) (o : Option (List CoherenceState))
    → (invalidate_found c core address o).num_cores ≡ c.num_cores
invalidate_found-cores c core address none = refl
invalidate_found-cores c core address (some states) = refl

request-cores : (c : CacheCoherence) (r : Request) → (request c r).num_cores ≡ c.num_cores
unfolding request handle_read handle_write invalidate_other_cores broadcast_update reset_stats
request-cores c (reads core address) = read_found-cores c core address (c.directory address)
request-cores c (writes core address) = write_found-cores c core address (c.directory address)
request-cores c (invalidates core address) =
    invalidate_found-cores c core address (c.directory address)
request-cores c (broadcasts core address) =
    invalidate_found-cores
      (record c { stats = record (c.stats) { broadcasts = count c.stats.broadcasts } }) core address
      (c.directory address)
request-cores c resets = refl

create-IsCoherent : (n : ℕ) → IsCoherent (create n)
unfolding create
create-IsCoherent n a ss h = absurd (ground arith)

create-cores : (n : ℕ) → (create n).num_cores ≡ n
unfolding create
create-cores n = refl

Reachable-cores : {n : ℕ} {c : CacheCoherence} → Reachable n c → c.num_cores ≡ n
Reachable-cores {n} initial = create-cores n
Reachable-cores (after {c} r from reached) = request-cores c r ∙ Reachable-cores reached

pub Reachable-IsCoherent : (n : ℕ) (c : CacheCoherence) → Reachable n c → IsCoherent c
Reachable-IsCoherent n _ initial = create-IsCoherent n
Reachable-IsCoherent n _ (after {c} r from reached) =
    request-IsCoherent c r (rw (Reachable-cores reached) from) (Reachable-IsCoherent n c reached)

pub invalid_lem : (s : CoherenceState) → is_invalid s ≡ true → s ≡ invalid
invalid_lem invalid h = refl
invalid_lem shared h = absurd (ground arith)
invalid_lem modified h = absurd (ground arith)

exclusive_in :
    (n : ℕ) (o : Option (List CoherenceState)) (i j : ℕ)
    → ((ss : List CoherenceState) → o ≡ some ss → IsExclusive n ss)
    → i ≢ j
    → is_modified (state_in o i) ≡ true
    → state_in o j ≡ invalid
exclusive_in n none i j exclusive ne h = refl
exclusive_in n (some ss) i j exclusive ne h =
    invalid_lem (state_of ss j) ((exclusive ss refl).alone i j ne h)

-- Whatever requests the cores of a new directory for `n` cores send, in whatever order: if one core has a
-- line modified, every other core has it invalid. Each request comes from a core below `n`.
pub Reachable-exclusive :
    (n : ℕ) (c : CacheCoherence) (address i j : ℕ)
    → Reachable n c
    → i ≢ j
    → is_modified (state_in (c.directory address) i) ≡ true
    → state_in (c.directory address) j ≡ invalid
Reachable-exclusive n c address i j reached ne h =
    exclusive_in c.num_cores (c.directory address) i j (Reachable-IsCoherent n c reached address) ne
      h
