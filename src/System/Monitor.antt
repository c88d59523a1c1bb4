-- ===== src/System/Monitor.antt =====
-- The states of the cores: class MultiCoreMonitor of emulator/src/system/MultiCoreMonitor.cpp and .h. A
-- memory is a byte array of which the monitor writes whole words; memcpy stores the low byte first, as on
-- the hosts that the emulator is built for. A mutex that a method takes once makes it one step. The log
-- lines are left out.
pub mod Release
use riscv_emulator.Base.{
  ℕ, zero, suc, ◌+◌, ◌*◌, ◌%◌, ◌^◌, Bool, true, false, not, ◌&&◌, ◌||◌, List, [], ◌∷◌, ltb, leb,
  ◌==◌, if◌then◌else◌, length, get_or, set, replicate,
}
use riscv_emulator.Memory.Bytes.{Bytes, get_word, put_word}

pub data CoreState : Type 0 where
  halt running idle error : CoreState

pub record MultiCoreMonitor : Type 0 where
  pub num_cores : ℕ
  pub core_states : List CoreState
  pub release_signal_detected : Bool
  pub release_signal_cycle : ℕ
  pub release_processed : Bool
  pub initialization_phase : Bool

abbrev pub core_states_addr : ℕ
core_states_addr = 0x90000

abbrev pub release_signal_addr : ℕ
release_signal_addr = 0x98000

abbrev pub init_phase_addr : ℕ
init_phase_addr = 0x98004

abbrev pub release_signal_magic : ℕ
release_signal_magic = 0xDEADBEEF

abbrev pub is_halt : CoreState → Bool
is_halt halt = true
is_halt running = false
is_halt idle = false
is_halt error = false

abbrev pub is_running : CoreState → Bool
is_running halt = false
is_running running = true
is_running idle = false
is_running error = false

abbrev pub is_idle : CoreState → Bool
is_idle halt = false
is_idle running = false
is_idle idle = true
is_idle error = false

abbrev pub is_error : CoreState → Bool
is_error halt = false
is_error running = false
is_error idle = false
is_error error = true

-- `core_state_to_value` and `value_to_core_state`.
abbrev pub core_state_to_value : CoreState → ℕ
core_state_to_value halt = 0x01
core_state_to_value running = 0x02
core_state_to_value idle = 0x03
core_state_to_value error = 0xFF

abbrev pub value_to_core_state : ℕ → CoreState
value_to_core_state value =
    if value == 0x01
    then halt
    else if value == 0x02
    then running
    else if value == 0x03
    then idle
    else error

-- Core 0 runs, the others halt.
abbrev pub initial_states : ℕ → List CoreState
initial_states zero = []
initial_states (suc n) = running ∷ replicate n halt

unfoldable pub create : ℕ → MultiCoreMonitor
create num_cores = record {
  num_cores = num_cores;
  core_states = initial_states num_cores;
  release_signal_detected = false;
  release_signal_cycle = 0;
  release_processed = false;
  initialization_phase = true;
}

unfoldable pub initialize_core_states : MultiCoreMonitor → MultiCoreMonitor
initialize_core_states m = record m { core_states = initial_states m.num_cores }

abbrev pub is_valid_core_id : MultiCoreMonitor → ℕ → Bool
is_valid_core_id m core_id = ltb core_id m.num_cores

unfoldable pub set_core_state : MultiCoreMonitor → ℕ → CoreState → MultiCoreMonitor
set_core_state m core_id state =
    if is_valid_core_id m core_id
    then record m { core_states = set m.core_states core_id state }
    else m

unfoldable pub get_core_state : MultiCoreMonitor → ℕ → CoreState
get_core_state m core_id =
    if is_valid_core_id m core_id then get_or m.core_states core_id error else error

unfoldable pub core_self_report_state : MultiCoreMonitor → ℕ → CoreState → MultiCoreMonitor
unfolding get_core_state set_core_state
core_self_report_state m core_id state =
    if not (is_valid_core_id m core_id)
    then m
    else if not (core_id == 0) && is_error (get_core_state m core_id)
    then m
    else set_core_state m core_id state

unfoldable pub check_release_signal : MultiCoreMonitor → Bytes → Bool × MultiCoreMonitor
check_release_signal m memory =
    if ltb memory.size (release_signal_addr + 4)
    then (false, m)
    else if get_word memory release_signal_addr == release_signal_magic
    then (true, record m { release_signal_detected = true })
    else (false, m)

-- The loop that lets the halted cores run, from core `core_id` on.
abbrev pub release_from : ℕ → List CoreState → List CoreState
release_from core_id [] = []
release_from core_id (s ∷ states) =
    (if not (core_id == 0) && is_halt s then running else s) ∷ release_from (core_id + 1) states

-- `write_core_state_to_memory` for the cores from `core_id` on.
abbrev pub write_core_state : Bytes → ℕ → CoreState → Bytes
write_core_state memory core_id state =
    let addr = core_states_addr + core_id * 4 in
    if ltb memory.size (addr + 4) then memory else put_word memory addr (core_state_to_value state)

abbrev pub write_states_from : Bytes → ℕ → List CoreState → Bytes
write_states_from memory core_id [] = memory
write_states_from memory core_id (s ∷ states) =
    write_states_from (write_core_state memory core_id s) (core_id + 1) states

abbrev pub write_states : MultiCoreMonitor → Bytes → Bytes
write_states m memory =
    if leb (core_states_addr + m.num_cores * 4) memory.size
    then write_states_from memory 0 m.core_states
    else memory

unfoldable pub handle_release_signal : MultiCoreMonitor → Bytes → ℕ → MultiCoreMonitor × Bytes
handle_release_signal m memory current_cycle =
    if not m.release_signal_detected || m.release_processed
    then (m, memory)
    else (let released = record m {
      release_signal_cycle = current_cycle;
      core_states = release_from 0 m.core_states;
      release_processed = true;
    } in
        (released, write_states released memory))

abbrev pub count_from : (CoreState → Bool) → List CoreState → ℕ
count_from is_state [] = 0
count_from is_state (s ∷ states) =
    let rest = count_from is_state states in if is_state s then rest + 1 else rest

-- `get_cores_in_state` takes the state by its test.
abbrev pub get_cores_in_state : MultiCoreMonitor → (CoreState → Bool) → ℕ
get_cores_in_state m is_state = count_from is_state m.core_states

abbrev pub get_active_core_count : MultiCoreMonitor → ℕ
get_active_core_count m = get_cores_in_state m is_running

abbrev pub has_error_cores : MultiCoreMonitor → Bool
has_error_cores m = ltb 0 (get_cores_in_state m is_error)

abbrev pub all_idle : List CoreState → Bool
all_idle [] = true
all_idle (s ∷ states) =
    let rest = all_idle states in if not (is_idle s) && not (is_error s) then false else rest

unfoldable pub all_cores_idle : MultiCoreMonitor → Bool
all_cores_idle m = all_idle m.core_states

unfoldable pub halt_all_cores : MultiCoreMonitor → MultiCoreMonitor
halt_all_cores m = record m { core_states = replicate m.num_cores halt }

unfoldable pub should_core_execute : MultiCoreMonitor → ℕ → Bool
unfolding get_core_state
should_core_execute m core_id =
    is_running (get_core_state m core_id) || (is_error (get_core_state m core_id) && core_id == 0)

unfoldable pub reset : MultiCoreMonitor → MultiCoreMonitor
reset m = record m {
  core_states = initial_states m.num_cores;
  release_signal_detected = false;
  release_signal_cycle = 0;
  release_processed = false;
  initialization_phase = true;
}

unfoldable pub set_initialization_phase : MultiCoreMonitor → Bool → MultiCoreMonitor
set_initialization_phase m is_init = record m { initialization_phase = is_init }

unfoldable pub write_initialization_phase_to_memory : MultiCoreMonitor → Bytes → Bytes
write_initialization_phase_to_memory m memory =
    if ltb memory.size (init_phase_addr + 4)
    then memory
    else put_word memory init_phase_addr (if m.initialization_phase then 1 else 0)

unfoldable pub write_state_to_memory : MultiCoreMonitor → Bytes → Bytes
unfolding write_initialization_phase_to_memory
write_state_to_memory m memory =
    if ltb memory.size (core_states_addr + m.num_cores * 4)
    then memory
    else write_initialization_phase_to_memory m (write_states_from memory 0 m.core_states)
