-- ===== src/Memory/Coherence/Answers.antt =====
-- The answers of the directory to reads and writes, and the line that each leaves.
use riscv_emulator.Base.{
  ℕ, zero, suc, ◌+◌, ◌<◌, ◌≡◌, refl, ap, ◌∙◌, arith, Bool, true, false, Option, none, some, List,
  [], ◌∷◌, ◌==◌, if◌then◌else◌, get_or, get_or-set, get_or-replicate, set, length, length-replicate,
  replicate, Bool-cases, inl, inr,
}
use riscv_emulator.Memory.Coherence.{
  CoherenceState, invalid, shared, modified, CacheCoherence, CoherenceStats, is_invalid, is_shared,
  is_modified, invalidate_others, modified_found, share_others, enter, after_read_miss, take,
  handle_read, handle_write, count, counted, read_found, write_found,
}
use riscv_emulator.Memory.Coherence.SingleWriter.{
  state_of, state_in, IsExclusive, IsCoherent, owned_lem,
}
use riscv_emulator.Memory.Coherence.Requests.{Found, invalid_lem}

-- The answer of a write, and the line that it leaves to the writer alone.
abbrev pub IsOwned : ℕ → ℕ → (CoherenceState × CacheCoherence) → Type 0
IsOwned core address r =
    (r.0 ≡ modified)
    × ((i : ℕ) → state_in (r.1.directory address) i ≡ (if i == core then modified else invalid))

entered :
    (c : CacheCoherence) (address : ℕ) (ss : List CoherenceState) (stats : CoherenceStats)
    → (enter c address ss stats).directory address ≡ some ss
entered c address ss stats = ground arith

enter-IsOwned :
    (c : CacheCoherence) (core address : ℕ) (owned : List CoherenceState) (stats : CoherenceStats)
    → ((i : ℕ) → state_of owned i ≡ (if i == core then modified else invalid))
    → IsOwned core address (modified, enter c address owned stats)
enter-IsOwned c core address owned stats alone =
    (refl, λ i. ap (λ o. state_in o i) (entered c address owned stats) ∙ alone i)

if_cases :
    (P : (CoherenceState × CacheCoherence) → Type 0) (b : Bool)
    {x y : CoherenceState × CacheCoherence}
    → (b ≡ true → P x)
    → (b ≡ false → P y)
    → P (if b then x else y)
if_cases P true f g = f refl
if_cases P false f g = g refl

is_modified_lem : (s : CoherenceState) → is_invalid s ≡ false → is_shared s ≡ false → s ≡ modified
is_modified_lem invalid h g = absurd (ground arith)
is_modified_lem shared h g = absurd (ground arith)
is_modified_lem modified h g = refl

-- A line that its owner writes again.
held_lem :
    (n core i : ℕ) (states : List CoherenceState)
    → IsExclusive n states
    → state_of states core ≡ modified
    → state_of states i ≡ (if i == core then modified else invalid)
held_lem n core i states exclusive held = elim (Bool-cases (i == core)) [
  | inl own ↦ rw own (ap (state_of states) (ground arith) ∙ held)
  | inr other ↦ rw other (
      invalid_lem (state_of states i) (exclusive.alone core i (ground arith) (ap is_modified held)))
]

first_lem :
    (n core i : ℕ)
    → core < n
    → state_of (set (replicate n invalid) core modified) i
      ≡ (if i == core then modified else invalid)
first_lem n core i fits = ground (
  arith,
  get_or-set (replicate n invalid) core i modified invalid,
  get_or-replicate n i invalid invalid,
  length-replicate n invalid,
)

write_found-IsOwned :
    (c : CacheCoherence) (core address : ℕ) (o : Option (List CoherenceState))
    → core < c.num_cores
    → c.directory address ≡ o
    → Found c o
    → IsOwned core address (write_found c core address o)
write_found-IsOwned c core address none fits same found =
    enter-IsOwned c core address (set (replicate c.num_cores invalid) core modified)
      (record (c.stats) { write_misses = count c.stats.write_misses })
      (λ i. first_lem c.num_cores core i fits)
write_found-IsOwned c core address (some states) fits same found =
    let missed = record (c.stats) { write_misses = count c.stats.write_misses } in
    let hit = record (c.stats) { write_hits = count c.stats.write_hits } in
    let s = get_or states core invalid in
    let exclusive = found states refl in
    let taken : (stats : CoherenceStats)
        → IsOwned core address (modified, take c core address states stats) =
      λ stats.
        enter-IsOwned c core address (set (invalidate_others core 0 states) core modified)
          (record stats { invalidations = counted core 0 states stats.invalidations })
          (λ i. owned_lem core i states (omega (arith, exclusive.size))) in
    if_cases (IsOwned core address) (is_invalid s) (λ h. taken missed)
      (λ h.
        if_cases (IsOwned core address) (is_shared s) (λ g. taken hit)
          (λ g. (
            refl,
            λ i.
                ap (λ o. state_in o i) same
                ∙ held_lem c.num_cores core i states exclusive (is_modified_lem s h g),
          )))

-- After a core's write it alone holds the line: its state is modified, which is also the answer, and
-- the state of every other core is invalid. The directory is coherent and the core is one of its cores.
pub handle_write_lem :
    (c : CacheCoherence) (core address : ℕ)
    → core < c.num_cores
    → IsCoherent c
    → IsOwned core address (handle_write c core address)
unfolding handle_write
handle_write_lem c core address fits coherent =
    write_found-IsOwned c core address (c.directory address) fits refl (coherent address)

-- The answer of a read is the core's state of the line afterwards.
abbrev pub IsServed : ℕ → ℕ → (CoherenceState × CacheCoherence) → Type 0
IsServed core address r = (state_in (r.1.directory address) core ≡ r.0) × (is_invalid r.0 ≡ false)

share_others-kept :
    (core k i : ℕ) (ss : List CoherenceState)
    → k + i ≡ core
    → state_of (share_others core k ss) i ≡ state_of ss i
share_others-kept core k i [] h = refl
share_others-kept core k zero (s ∷ ss) h = ground arith
share_others-kept core k (suc i) (s ∷ ss) h = share_others-kept core (k + 1) i ss (omega arith)

shared_lem :
    (core : ℕ) (ss : List CoherenceState)
    → core < length ss
    → state_of (after_read_miss core ss) core ≡ shared
shared_lem core ss fits =
    let first : state_of (set ss core shared) core ≡ shared =
      ground (arith, get_or-set ss core core shared invalid) in
    elim (Bool-cases (modified_found core 0 ss)) [
      | inl found ↦
          rw found (share_others-kept core 0 core (set ss core shared) (omega arith) ∙ first)
      | inr none_found ↦ rw none_found first
    ]

read_found-IsServed :
    (c : CacheCoherence) (core address : ℕ) (o : Option (List CoherenceState))
    → core < c.num_cores
    → c.directory address ≡ o
    → Found c o
    → IsServed core address (read_found c core address o)
read_found-IsServed c core address none fits same found =
    let first = set (replicate c.num_cores invalid) core shared in
    (
      ap (λ o. state_in o core)
            (entered c address first (record (c.stats) { read_misses = count c.stats.read_misses }))
          ∙ ground (
            arith,
            get_or-set (replicate c.num_cores invalid) core core shared invalid,
            length-replicate c.num_cores invalid,
          ),
      refl,
    )
read_found-IsServed c core address (some states) fits same found =
    if_cases (IsServed core address) (is_invalid (get_or states core invalid))
      (λ h. (
        ap (λ o. state_in o core)
              (entered c address (after_read_miss core states)
                (record (c.stats) { read_misses = count c.stats.read_misses }))
            ∙ shared_lem core states (omega (arith, (found states refl).size)),
        refl,
      ))
      (λ h. (ap (λ o. state_in o core) same, h))

-- A read answers shared or modified, and the answer is the state of the line that the directory then
-- has for the core. The directory is coherent and the core is one of its cores.
pub handle_read_lem :
    (c : CacheCoherence) (core address : ℕ)
    → core < c.num_cores
    → IsCoherent c
    → IsServed core address (handle_read c core address)
unfolding handle_read
handle_read_lem c core address fits coherent =
    read_found-IsServed c core address (c.directory address) fits refl (coherent address)
