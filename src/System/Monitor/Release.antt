-- ===== src/System/Monitor/Release.antt =====
-- The release of the halted cores and the words in memory that tell the states.
use mathlib.Core.Path.{subst}
use riscv_emulator.Base.{
  ℕ, zero, suc, ◌+◌, ◌*◌, ◌%◌, ◌^◌, ◌≤◌, ◌<◌, ◌≡◌, refl, sym, ap, ◌∙◌, arith, true, false, not,
  ◌&&◌, List, [], ◌∷◌, ltb, leb, ◌==◌, if◌then◌else◌, length, get_or,
}
use riscv_emulator.Memory.Bytes.{Bytes, get_word, put_word}
use riscv_emulator.Memory.Bytes.Words.{AreBytes, get_word-put_word, put_word-AreBytes}
use riscv_emulator.System.Monitor.{
  MultiCoreMonitor, CoreState, halt, running, idle, error, is_halt, core_states_addr,
  core_state_to_value, value_to_core_state, release_from, write_core_state, write_states_from,
  handle_release_signal,
}

pub value-state : (s : CoreState) → value_to_core_state (core_state_to_value s) ≡ s
value-state halt = refl
value-state running = refl
value-state idle = refl
value-state error = refl

value_lt : (s : CoreState) → core_state_to_value s < 2 ^ 32
value_lt halt = omega arith
value_lt running = omega arith
value_lt idle = omega arith
value_lt error = omega arith

put_word-size : (m : Bytes) (a v : ℕ) → (put_word m a v).size ≡ m.size
unfolding put_word
put_word-size m a v = refl

abbrev state_address : ℕ → ℕ
state_address core_id = core_states_addr + core_id * 4

write_core_state-inside :
    (m : Bytes) (core_id : ℕ) (s : CoreState)
    → state_address core_id + 4 ≤ m.size
    → write_core_state m core_id s ≡ put_word m (state_address core_id) (core_state_to_value s)
write_core_state-inside m core_id s h =
    let inside : ltb m.size (core_states_addr + core_id * 4 + 4) ≡ false = ground arith in
    rw inside refl

-- The words written for the cores from `core_id` on.
record AreWritten (m : Bytes) (core_id : ℕ) (states : List CoreState) (m' : Bytes) : Type 0 where
  bytes : AreBytes m'
  size : m'.size ≡ m.size
  here :
      (k : ℕ)
      → k < length states
      → get_word m' (state_address (core_id + k)) ≡ core_state_to_value (get_or states k error)
  there :
      (b : ℕ)
      → b % 4 ≡ 0
      → ((k : ℕ) → k < length states → state_address (core_id + k) ≡ b → ⊥)
      → get_word m' b ≡ get_word m b

each_here :
    (word : ℕ → ℕ) (core_id : ℕ) (s : CoreState) (states : List CoreState)
    → word (state_address core_id) ≡ core_state_to_value s
    → ((k : ℕ)
        → k < length states
        → word (state_address (core_id + 1 + k)) ≡ core_state_to_value (get_or states k error))
    → (k : ℕ) → k < length (s ∷ states)
    → word (state_address (core_id + k)) ≡ core_state_to_value (get_or (s ∷ states) k error)
each_here word core_id s states head rest zero lt =
    let e : state_address (core_id + 0) ≡ state_address core_id = omega arith in ap word e ∙ head
each_here word core_id s states head rest (suc k) lt =
    let e : state_address (core_id + suc k) ≡ state_address (core_id + 1 + k) = omega arith in
    ap word e ∙ rest k (omega arith)

write_states_from-AreWritten :
    (m : Bytes) (core_id : ℕ) (states : List CoreState)
    → AreBytes m
    → state_address (core_id + length states) ≤ m.size
    → AreWritten m core_id states (write_states_from m core_id states)
write_states_from-AreWritten m core_id [] small h = record {
  bytes = small;
  size = refl;
  here = λ k lt. absurd (omega arith);
  there = λ b aligned out. refl;
}
write_states_from-AreWritten m core_id (s ∷ states) small h =
    let a = state_address core_id in
    let first = write_core_state-inside m core_id s (omega arith) in
    let m1 = put_word m a (core_state_to_value s) in
    let rest =
      write_states_from-AreWritten m1 (core_id + 1) states
        (put_word-AreBytes m a (core_state_to_value s) small)
        (omega (arith, put_word-size m a (core_state_to_value s))) in
    let head : get_word (write_states_from m1 (core_id + 1) states) a ≡ core_state_to_value s =
      rest.there a (omega arith) (λ k lt e. absurd (omega arith))
      ∙ get_word-put_word m a (core_state_to_value s) a small (value_lt s) (omega arith)
          (omega arith)
      ∙ ground arith in
    let all : AreWritten m core_id (s ∷ states) (write_states_from m1 (core_id + 1) states) =
      record {
        bytes = rest.bytes;
        size = rest.size ∙ put_word-size m a (core_state_to_value s);
        here =
            each_here (get_word (write_states_from m1 (core_id + 1) states)) core_id s states head
              rest.here;
        there = λ b aligned out.
            let apart : (b == a) ≡ false = ground (arith, out 0) in
            rest.there b aligned (λ k lt e. out (suc k) (omega arith) (omega arith))
            ∙ get_word-put_word m a (core_state_to_value s) b small (value_lt s) (omega arith)
                aligned
            ∙ rw apart refl;
      } in
    rw first all

length-release_from :
    (core_id : ℕ) (states : List CoreState) → length (release_from core_id states) ≡ length states
length-release_from core_id [] = refl
length-release_from core_id (s ∷ states) = omega (arith, length-release_from (core_id + 1) states)

abbrev released : ℕ → CoreState → CoreState
released core_id s = if not (core_id == 0) && is_halt s then running else s

get_or-release_from :
    (core_id : ℕ) (states : List CoreState) (k : ℕ)
    → k < length states
    → get_or (release_from core_id states) k error ≡ released (core_id + k) (get_or states k error)
get_or-release_from core_id [] k lt = absurd (omega arith)
get_or-release_from core_id (s ∷ states) zero lt =
    let e : core_id ≡ core_id + 0 = omega arith in ap (λ (x : ℕ). released x s) e
get_or-release_from core_id (s ∷ states) (suc k) lt =
    let e : core_id + 1 + k ≡ core_id + suc k = omega arith in
    get_or-release_from (core_id + 1) states k (omega arith)
    ∙ ap (λ (x : ℕ). released x (get_or states k error)) e

-- What a release must do: `r` is the monitor and the memory after it.
pub record IsReleased (m : MultiCoreMonitor) (memory : Bytes) (r : MultiCoreMonitor × Bytes)
    : Type 0 where
  pub states :
      (k : ℕ)
      → k < m.num_cores
      → get_or r.0.core_states k error ≡ (
          if not (k == 0) && is_halt (get_or m.core_states k error)
          then running
          else get_or m.core_states k error)
  pub told :
      (k : ℕ)
      → k < m.num_cores
      → value_to_core_state (get_word r.1 (core_states_addr + k * 4))
        ≡ get_or r.0.core_states k error
  pub others :
      (b : ℕ)
      → b % 4 ≡ 0
      → ((k : ℕ) → k < m.num_cores → core_states_addr + k * 4 ≡ b → ⊥)
      → get_word r.1 b ≡ get_word memory b
  pub once : (cycle : ℕ) → handle_release_signal r.0 r.1 cycle ≡ r

-- Once the signal has been detected, the first `handle_release_signal` lets every halted core but core 0 run,
-- leaves all other states, and tells each core's new state in its word in memory, from which it can be read
-- back; it changes no other aligned word, and a second call does nothing. There is a state for every core and
-- room for their words.
pub handle_release_signal-IsReleased :
    (m : MultiCoreMonitor) (memory : Bytes) (cycle : ℕ)
    → AreBytes memory
    → length m.core_states ≡ m.num_cores
    → core_states_addr + m.num_cores * 4 ≤ memory.size
    → m.release_signal_detected ≡ true
    → m.release_processed ≡ false
    → IsReleased m memory (handle_release_signal m memory cycle)
unfolding handle_release_signal
handle_release_signal-IsReleased m memory cycle small sized room detected fresh =
    let states' = release_from 0 m.core_states in
    let count : length states' ≡ m.num_cores = length-release_from 0 m.core_states ∙ sized in
    let fits : leb (core_states_addr + m.num_cores * 4) memory.size ≡ true = ground arith in
    let written = write_states_from-AreWritten memory 0 states' small (omega arith) in
    let m' = record m {
      release_signal_cycle = cycle;
      core_states = states';
      release_processed = true;
    } in
    let address : (k : ℕ) → core_states_addr + k * 4 ≡ state_address (0 + k) = λ k. omega arith in
    let done : IsReleased m memory (m', write_states_from memory 0 states') = record {
      states = λ k lt.
          let e : 0 + k ≡ k = omega arith in
          get_or-release_from 0 m.core_states k (omega arith)
          ∙ ap (λ (x : ℕ). released x (get_or m.core_states k error)) e;
      told = λ k lt.
          ap value_to_core_state (
            ap (get_word (write_states_from memory 0 states')) (address k)
            ∙ written.here k (omega arith))
          ∙ value-state (get_or states' k error);
      others =
          λ b aligned out. written.there b aligned (λ k lt e. out k (omega arith) (address k ∙ e));
      once = λ c. rw detected refl;
    } in
    let runs : handle_release_signal m memory cycle ≡ (m', write_states_from memory 0 states') =
      rw (detected, fresh, fits) refl in
    subst (IsReleased m memory) (sym runs) done
