-- ===== src/Core/Counters.antt =====
-- The performance counters: Core::update_performance_counter, Core::increment_performance_counter,
-- Core::increment_global_counter and Core::read_global_counter.
use riscv_emulator.Base.{ℕ, ◌+◌, bit_and, ltb, ◌==◌, if◌then◌else◌}
use riscv_emulator.Core.State.{Core}

abbrev pub saturated : ℕ
saturated = 0xFFFFFFFF

-- `if (n < 0xFFFFFFFF) n++`.
abbrev pub up : ℕ → ℕ
up n = if ltb n saturated then n + 1 else n

unfoldable pub increment_performance_counter : Core → Core
increment_performance_counter c = record c { performance_counter = up c.performance_counter }

unfoldable pub increment_global_counter : Core → ℕ → Core
increment_global_counter c event_type =
    let g = c.global in
    if event_type == 0
    then record c { global = record g { instructions = up g.instructions } }
    else if event_type == 1
    then record c { global = record g { memory_accesses = up g.memory_accesses } }
    else if event_type == 2
    then record c { global = record g { branches = up g.branches } }
    else if event_type == 3
    then record c { global = record g { cache_hits = up g.cache_hits } }
    else c

unfoldable pub read_global_counter : Core → ℕ → ℕ
read_global_counter c event_type =
    if event_type == 0
    then c.global.instructions
    else if event_type == 1
    then c.global.memory_accesses
    else if event_type == 2
    then c.global.branches
    else if event_type == 3
    then c.global.cache_hits
    else 0

unfoldable pub update_performance_counter : Core → Core
unfolding increment_performance_counter increment_global_counter
update_performance_counter core =
    let c = increment_global_counter core 0 in
    let event = c.performance_event_select in
    if bit_and c.performance_control 0x1 == 0
    then c
    else if event == 0
    then increment_performance_counter c
    else if event == 1
    then increment_global_counter (increment_performance_counter c) 1
    else if event == 2
    then increment_global_counter (increment_performance_counter c) 2
    else if event == 3
    then increment_global_counter (increment_performance_counter c) 3
    else c
