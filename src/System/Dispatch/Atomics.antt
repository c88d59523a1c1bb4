-- ===== src/System/Dispatch/Atomics.antt =====
-- The atomic operations on the memory of the Simulator, Simulator.cpp of emulator/src/system.
use riscv_emulator.Base.{
  ℕ, ◌+◌, ◌%◌, ◌^◌, ◌<◌, ◌≡◌, refl, ◌∙◌, arith, true, leb, ◌==◌, if◌then◌else◌, bit_and, bit_or,
  bit_xor, Bool-cases, inl, inr,
}
use riscv_emulator.Word.{u32, sub32}
use riscv_emulator.Memory.Interface.{IsAddress}
use riscv_emulator.Memory.Bytes.{Bytes, get_word, put_word}
use riscv_emulator.Memory.Bytes.Words.{AreBytes, get_word-lt, get_word-put_word, put_word-AreBytes}
use riscv_emulator.Memory.Ddr.Atomics.{
  AtomicOp, adds, swaps, fetch_adds, fetch_subs, fetch_ands, fetch_ors, fetch_xors, compare_swaps,
  result, IsWordOp, result-lt,
}
use riscv_emulator.System.Dispatch.{System}

-- The body that the operations share, but for the comparison of one of them.
abbrev pub modify : System → ℕ → (ℕ → ℕ) → ℕ × System
modify s addr new_value =
    if leb (addr + 4) s.memory.size
    then (
      get_word s.memory addr,
      record s { memory = put_word s.memory addr (new_value (get_word s.memory addr)) },
    )
    else (0, s)

unfoldable pub atomic_add : System → ℕ → ℕ → ℕ × System
atomic_add s addr value = modify s addr (λ old. u32 (old + value))

unfoldable pub atomic_swap : System → ℕ → ℕ → ℕ × System
atomic_swap s addr value = modify s addr (λ old. value)

unfoldable pub atomic_compare_and_swap : System → ℕ → ℕ → ℕ → ℕ × System
atomic_compare_and_swap s addr expected desired =
    if leb (addr + 4) s.memory.size
    then (let current_value = get_word s.memory addr in
        (
          current_value,
          if current_value == expected
              then record s { memory = put_word s.memory addr desired }
              else s,
        ))
    else (0, s)

unfoldable pub atomic_fetch_and_add : System → ℕ → ℕ → ℕ × System
unfolding atomic_add
atomic_fetch_and_add s addr value = atomic_add s addr value

unfoldable pub atomic_fetch_and_sub : System → ℕ → ℕ → ℕ × System
atomic_fetch_and_sub s addr value = modify s addr (λ old. sub32 old value)

unfoldable pub atomic_fetch_and_and : System → ℕ → ℕ → ℕ × System
atomic_fetch_and_and s addr value = modify s addr (λ old. bit_and old value)

unfoldable pub atomic_fetch_and_or : System → ℕ → ℕ → ℕ × System
atomic_fetch_and_or s addr value = modify s addr (λ old. bit_or old value)

unfoldable pub atomic_fetch_and_xor : System → ℕ → ℕ → ℕ × System
atomic_fetch_and_xor s addr value = modify s addr (λ old. bit_xor old value)

unfoldable pub memory_atomic : System → ℕ → AtomicOp → ℕ × System
memory_atomic s addr (adds v) = atomic_add s addr v
memory_atomic s addr (swaps v) = atomic_swap s addr v
memory_atomic s addr (fetch_adds v) = atomic_fetch_and_add s addr v
memory_atomic s addr (fetch_subs v) = atomic_fetch_and_sub s addr v
memory_atomic s addr (fetch_ands v) = atomic_fetch_and_and s addr v
memory_atomic s addr (fetch_ors v) = atomic_fetch_and_or s addr v
memory_atomic s addr (fetch_xors v) = atomic_fetch_and_xor s addr v
memory_atomic s addr (compare_swaps expected desired) =
    atomic_compare_and_swap s addr expected desired

-- An exchange of the word at `addr`, with all else left as it was.
pub record ExchangesWord (s : System) (addr : ℕ) (op : AtomicOp) (r : ℕ × System) : Type 0 where
  pub old : r.0 ≡ get_word s.memory addr
  pub words :
      (b : ℕ)
      → b % 4 ≡ 0
      → get_word r.1.memory b
        ≡ (if b == addr then result op (get_word s.memory addr) else get_word s.memory b)
  pub bytes : AreBytes r.1.memory
  pub size : r.1.memory.size ≡ s.memory.size
  pub devices : r.1.devices ≡ s.devices
  pub clint : r.1.clint ≡ s.clint

put_word-size : (m : Bytes) (a v : ℕ) → (put_word m a v).size ≡ m.size
unfolding put_word
put_word-size m a v = refl

modify-ExchangesWord :
    (s : System) (addr : ℕ) (op : AtomicOp)
    → AreBytes s.memory
    → IsAddress s.memory.size addr
    → IsWordOp op
    → ExchangesWord s addr op (modify s addr (result op))
modify-ExchangesWord s addr op small at word =
    let old = get_word s.memory addr in
    let inside : leb (addr + 4) s.memory.size ≡ true = ground arith in
    let done : ExchangesWord s addr op
        (old, record s { memory = put_word s.memory addr (result op old) }) =
      record {
        old = refl;
        words = λ b aligned.
            get_word-put_word s.memory addr (result op old) b small
              (result-lt op old word (get_word-lt s.memory addr small)) at.0 aligned;
        bytes = put_word-AreBytes s.memory addr (result op old) small;
        size = put_word-size s.memory addr (result op old);
        devices = refl;
        clint = refl;
      } in
    rw inside done

compare-ExchangesWord :
    (s : System) (addr expected desired : ℕ)
    → AreBytes s.memory
    → IsAddress s.memory.size addr
    → desired < 2 ^ 32
    → ExchangesWord s addr
        (compare_swaps expected desired)
        (atomic_compare_and_swap s addr expected desired)
unfolding atomic_compare_and_swap
compare-ExchangesWord s addr expected desired small at fits =
    let old = get_word s.memory addr in
    let inside : leb (addr + 4) s.memory.size ≡ true = ground arith in
    elim (Bool-cases (old == expected)) [
      | inl same ↦
          let done : ExchangesWord s addr (compare_swaps expected desired)
              (old, record s { memory = put_word s.memory addr desired }) =
            record {
              old = refl;
              words = λ b aligned.
                  get_word-put_word s.memory addr desired b small fits at.0 aligned ∙ rw same refl;
              bytes = put_word-AreBytes s.memory addr desired small;
              size = put_word-size s.memory addr desired;
              devices = refl;
              clint = refl;
            } in
          rw (inside, same) done
      | inr apart ↦
          let done : ExchangesWord s addr (compare_swaps expected desired) (old, s) = record {
            old = refl;
            words = λ b aligned. rw apart (ground arith);
            bytes = small;
            size = refl;
            devices = refl;
            clint = refl;
          } in
          rw (inside, apart) done
    ]

-- Every atomic operation on memory returns the old word, stores the new one that its name says, and
-- changes no other word, no device and not the CLINT. The address is aligned and in range, the operand a
-- word.
pub memory_atomic-ExchangesWord :
    (s : System) (addr : ℕ) (op : AtomicOp)
    → AreBytes s.memory
    → IsAddress s.memory.size addr
    → IsWordOp op
    → ExchangesWord s addr op (memory_atomic s addr op)
unfolding memory_atomic atomic_add atomic_swap atomic_fetch_and_add atomic_fetch_and_sub
    atomic_fetch_and_and atomic_fetch_and_or atomic_fetch_and_xor
memory_atomic-ExchangesWord s addr (adds v) small at word =
    modify-ExchangesWord s addr (adds v) small at word
memory_atomic-ExchangesWord s addr (swaps v) small at word =
    modify-ExchangesWord s addr (swaps v) small at word
memory_atomic-ExchangesWord s addr (fetch_adds v) small at word =
    modify-ExchangesWord s addr (fetch_adds v) small at word
memory_atomic-ExchangesWord s addr (fetch_subs v) small at word =
    modify-ExchangesWord s addr (fetch_subs v) small at word
memory_atomic-ExchangesWord s addr (fetch_ands v) small at word =
    modify-ExchangesWord s addr (fetch_ands v) small at word
memory_atomic-ExchangesWord s addr (fetch_ors v) small at word =
    modify-ExchangesWord s addr (fetch_ors v) small at word
memory_atomic-ExchangesWord s addr (fetch_xors v) small at word =
    modify-ExchangesWord s addr (fetch_xors v) small at word
memory_atomic-ExchangesWord s addr (compare_swaps expected desired) small at word =
    compare-ExchangesWord s addr expected desired small at word
