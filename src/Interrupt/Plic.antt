-- ===== src/Interrupt/Plic.antt =====
-- The platform-level interrupt controller: class PLIC of emulator/src/interrupt/PLIC.cpp, PLIC.h.
-- A method returns the new state. `plic_mutex_` is a plain std::mutex: a method that takes it while
-- its caller in the same thread holds it never returns, which is the outcome `deadlock`; `held`
-- says whether the caller holds it. The log lines are left out. Registers are numbers below 2 ^ 32.
pub mod Bitmap
pub mod Mmio
pub mod Arbitration
pub mod Claims
use riscv_emulator.Base.{
  ℕ, zero, suc, ◌+◌, ◌-◌, ◌*◌, ◌/◌, ◌%◌, ◌^◌, Bool, true, false, not, ◌&&◌, ◌||◌, List, [], ◌∷◌,
  bit_and, ltb, leb, ◌==◌, if◌then◌else◌, length, get_or, set, replicate, fill,
}
use Bitmap.{words_for, get_bit, update_bit}

pub record Plic : Type 0 where
  pub num_sources : ℕ
  pub num_targets : ℕ
  pub priorities : List ℕ
  pub pending : List ℕ
  pub enable : List (List ℕ)
  pub thresholds : List ℕ
  pub claimed : List ℕ

pub data Outcome (A : Type 0) : Type 0 where
  done : A → Plic → Outcome A
  deadlock : Outcome A

abbrev pub plic_base : ℕ
plic_base = 0x0C000000

abbrev pub priority_base : ℕ
priority_base = 0

abbrev pub pending_base : ℕ
pending_base = 0x001000

abbrev pub enable_base : ℕ
enable_base = 0x002000

abbrev pub claim_complete_base : ℕ
claim_complete_base = 0x200000

-- The constructor's validation of its parameters.
abbrev pub checked : ℕ → ℕ → ℕ → ℕ
checked n limit default = if n == 0 || ltb limit n then default else n

unfoldable pub create : ℕ → ℕ → Plic
create sources targets =
    let n = checked sources 1024 32 in
    let t = checked targets 15872 4 in
    record {
      num_sources = n;
      num_targets = t;
      priorities = replicate n 0;
      pending = replicate (words_for n) 0;
      enable = replicate t (replicate (words_for n) 0);
      thresholds = replicate t 0;
      claimed = replicate t 0;
    }

-- Source 0 is reserved.
abbrev pub is_valid_source_id : Plic → ℕ → Bool
is_valid_source_id p source_id = ltb 0 source_id && ltb source_id p.num_sources

abbrev pub is_valid_target_id : Plic → ℕ → Bool
is_valid_target_id p target_id = ltb target_id p.num_targets

unfoldable pub get_pending_bit : Plic → ℕ → Bool
get_pending_bit p source_id = get_bit p.pending source_id

unfoldable pub update_pending_bit : Plic → ℕ → Bool → Plic
update_pending_bit p source_id on = record p { pending = update_bit p.pending source_id on }

unfoldable pub get_enable_bit : Plic → ℕ → ℕ → Bool
get_enable_bit p target_id source_id = get_bit (get_or p.enable target_id []) source_id

unfoldable pub update_enable_bit : Plic → ℕ → ℕ → Bool → Plic
update_enable_bit p target_id source_id on = record p {
  enable = set p.enable target_id (update_bit (get_or p.enable target_id []) source_id on);
}

-- The loop of `find_highest_priority_pending` from `source` on, with `left` rounds to go.
unfoldable pub scan : Plic → ℕ → ℕ → ℕ → ℕ → ℕ → ℕ
scan p t zero source best_source best_priority = best_source
scan p t (suc left) source best_source best_priority =
    let priority = get_or p.priorities source 0 in
    let better =
      (get_pending_bit p source && get_enable_bit p t source)
      && (ltb (get_or p.thresholds t 0) priority && ltb best_priority priority) in
    scan p t left (source + 1) (if better then source else best_source)
      (if better then priority else best_priority)

unfoldable pub find_highest_priority_pending : Plic → ℕ → ℕ
find_highest_priority_pending p t = scan p t (p.num_sources - 1) 1 0 0

unfoldable pub get_highest_priority_pending : Plic → ℕ → ℕ
get_highest_priority_pending p t =
    if is_valid_target_id p t then find_highest_priority_pending p t else 0

unfoldable pub has_pending_interrupts : Plic → ℕ → Bool
unfolding get_highest_priority_pending
has_pending_interrupts p t =
    if is_valid_target_id p t then not (get_highest_priority_pending p t == 0) else false

unfoldable pub set_pending : Plic → ℕ → Bool → Plic
set_pending p source_id on =
    if is_valid_source_id p source_id then update_pending_bit p source_id on else p

unfoldable pub is_pending : Plic → ℕ → Bool
is_pending p source_id =
    if is_valid_source_id p source_id then get_pending_bit p source_id else false

unfoldable pub claim_interrupt : Plic → ℕ → ℕ → Plic
claim_interrupt p t source_id =
    if is_valid_target_id p t && is_valid_source_id p source_id
    then update_pending_bit (record p { claimed = set p.claimed t source_id }) source_id false
    else p

unfoldable pub set_priority : Plic → ℕ → ℕ → Plic
set_priority p source_id priority =
    if is_valid_source_id p source_id
    then record p { priorities = set p.priorities source_id (bit_and priority 7) }
    else p

unfoldable pub get_priority : Plic → ℕ → ℕ
get_priority p source_id =
    if is_valid_source_id p source_id then get_or p.priorities source_id 0 else 0

unfoldable pub set_enable : Plic → ℕ → ℕ → Bool → Plic
set_enable p t source_id on =
    if is_valid_target_id p t && is_valid_source_id p source_id
    then update_enable_bit p t source_id on
    else p

unfoldable pub is_enabled : Plic → ℕ → ℕ → Bool
is_enabled p t source_id =
    if is_valid_target_id p t && is_valid_source_id p source_id
    then get_enable_bit p t source_id
    else false

unfoldable pub set_threshold : Plic → ℕ → ℕ → Plic
set_threshold p t threshold =
    if is_valid_target_id p t
    then record p { thresholds = set p.thresholds t (bit_and threshold 7) }
    else p

unfoldable pub get_threshold : Plic → ℕ → ℕ
get_threshold p t = if is_valid_target_id p t then get_or p.thresholds t 0 else 0

-- `claim` behind its validity test and its lock.
abbrev pub claim_best : Plic → ℕ → ℕ → Outcome ℕ
claim_best p t source_id =
    if source_id == 0
    then done 0 p
    else done source_id
        (update_pending_bit (record p { claimed = set p.claimed t source_id }) source_id false)

unfoldable pub claim : Bool → Plic → ℕ → Outcome ℕ
claim held p t =
    if not (is_valid_target_id p t)
    then done 0 p
    else if held
    then deadlock
    else if not (get_or p.claimed t 0 == 0)
    then done (get_or p.claimed t 0) p
    else claim_best p t (find_highest_priority_pending p t)

unfoldable pub complete : Bool → Plic → ℕ → ℕ → Outcome Unit
complete held p t source_id =
    if not (is_valid_target_id p t && is_valid_source_id p source_id)
    then done tt p
    else if held
    then deadlock
    else if get_or p.claimed t 0 == source_id
    then done tt (record p { claimed = set p.claimed t 0 })
    else done tt p

unfoldable pub complete_interrupt : Plic → ℕ → ℕ → Outcome Unit
complete_interrupt p t source_id = complete false p t source_id

-- The loop that clears the bitmaps of the first `n` targets.
abbrev pub reset_rows : ℕ → List (List ℕ) → List (List ℕ)
reset_rows zero rows = rows
reset_rows (suc n) [] = []
reset_rows (suc n) (row ∷ rows) = replicate (length row) 0 ∷ reset_rows n rows

unfoldable pub reset : Plic → Plic
reset p = record p {
  priorities = replicate (length p.priorities) 0;
  pending = fill (length p.pending) 0 p.pending;
  enable = reset_rows p.num_targets p.enable;
  thresholds = replicate (length p.thresholds) 0;
  claimed = replicate (length p.claimed) 0;
}
