-- ===== src/Memory/Ddr/Atomics.antt =====
-- The atomic operations of the DRAM against their meaning.
use riscv_emulator.Base.{
  ℕ, ◌+◌, ◌-◌, ◌%◌, ◌^◌, ◌<◌, ◌≡◌, refl, ap, ◌∙◌, arith, Bool, true, false, ◌==◌, if◌then◌else◌,
  if_both, leb, bit_and, bit_or, bit_xor, bit_or_lt, bit_xor_lt, bit_and_le, Bool-cases, inl, inr,
}
use riscv_emulator.Memory.Bytes.{Bytes, get_word, put_word}
use riscv_emulator.Memory.Bytes.Words.{get_word-lt, get_word-put_word}
use riscv_emulator.Memory.Interface.{IsAddress}
use riscv_emulator.Memory.Ddr.{
  Ddr, track, call_back, modify, atomic_add, atomic_swap, atomic_compare_and_swap,
  atomic_fetch_and_add, atomic_fetch_and_sub, atomic_fetch_and_and, atomic_fetch_and_or,
  atomic_fetch_and_xor,
}
use riscv_emulator.Memory.Ddr.Contract.{IsSound, view, track-memory, call_back-memory}

pub data AtomicOp : Type 0 where
  adds swaps fetch_adds fetch_subs fetch_ands fetch_ors fetch_xors : ℕ → AtomicOp
  compare_swaps : ℕ → ℕ → AtomicOp

-- The word that an operation leaves in the place of `old`.
abbrev pub result : AtomicOp → ℕ → ℕ
result (adds v) old = (old + v) % 2 ^ 32
result (swaps v) old = v
result (fetch_adds v) old = (old + v) % 2 ^ 32
result (fetch_subs v) old = (old + 2 ^ 32 - v) % 2 ^ 32
result (fetch_ands v) old = bit_and old v
result (fetch_ors v) old = bit_or old v
result (fetch_xors v) old = bit_xor old v
result (compare_swaps expected desired) old = if old == expected then desired else old

abbrev pub IsWordOp : AtomicOp → Type 0
IsWordOp (adds v) = v < 2 ^ 32
IsWordOp (swaps v) = v < 2 ^ 32
IsWordOp (fetch_adds v) = v < 2 ^ 32
IsWordOp (fetch_subs v) = v < 2 ^ 32
IsWordOp (fetch_ands v) = v < 2 ^ 32
IsWordOp (fetch_ors v) = v < 2 ^ 32
IsWordOp (fetch_xors v) = v < 2 ^ 32
IsWordOp (compare_swaps expected desired) = desired < 2 ^ 32

unfoldable pub atomic : Ddr → ℕ → AtomicOp → ℕ × Ddr
atomic d addr (adds v) = atomic_add d addr v
atomic d addr (swaps v) = atomic_swap d addr v
atomic d addr (fetch_adds v) = atomic_fetch_and_add d addr v
atomic d addr (fetch_subs v) = atomic_fetch_and_sub d addr v
atomic d addr (fetch_ands v) = atomic_fetch_and_and d addr v
atomic d addr (fetch_ors v) = atomic_fetch_and_or d addr v
atomic d addr (fetch_xors v) = atomic_fetch_and_xor d addr v
atomic d addr (compare_swaps expected desired) = atomic_compare_and_swap d addr expected desired

pub result-lt : (op : AtomicOp) (old : ℕ) → IsWordOp op → old < 2 ^ 32 → result op old < 2 ^ 32
result-lt (adds v) old w fits = omega arith
result-lt (swaps v) old w fits = w
result-lt (fetch_adds v) old w fits = omega arith
result-lt (fetch_subs v) old w fits = omega arith
result-lt (fetch_ands v) old w fits = omega (arith, bit_and_le old v)
result-lt (fetch_ors v) old w fits = bit_or_lt 32 old v fits w
result-lt (fetch_xors v) old w fits = bit_xor_lt 32 old v fits w
result-lt (compare_swaps expected desired) old w fits = ground arith

-- The old word is returned, the new one is stored, and no other word changes.
abbrev pub IsExchange : Ddr → ℕ → (ℕ → ℕ) → (ℕ × Ddr) → Type 0
IsExchange d addr new r =
    (r.0 ≡ view d addr)
    × ((b : ℕ)
        → IsAddress d.memory.size b
        → view r.1 b ≡ (if b == addr then new (view d addr) else view d b))

exchanged :
    (size : ℕ) (d d' : Ddr) (addr : ℕ) (new : ℕ → ℕ)
    → IsSound size d
    → IsAddress size addr
    → new (view d addr) < 2 ^ 32
    → d'.memory ≡ put_word d.memory addr (new (view d addr))
    → IsExchange d addr new (view d addr, d')
exchanged size d d' addr new s at fits stored = (
  refl,
  λ b at'.
      ap (λ (m : Bytes). get_word m b) stored
      ∙ get_word-put_word d.memory addr (new (view d addr)) b s.bytes fits at.0 at'.0,
)

modify-IsExchange :
    (size : ℕ) (d : Ddr) (addr : ℕ) (calls_back : Bool) (new : ℕ → ℕ)
    → IsSound size d
    → IsAddress size addr
    → new (view d addr) < 2 ^ 32
    → IsExchange d addr new (modify d addr calls_back new)
unfolding modify
modify-IsExchange size d addr calls_back new s at fits =
    let inside : leb (addr + 4) d.memory.size ≡ true = ground (arith, s.sized) in
    let d' = record d { memory = put_word d.memory addr (new (view d addr)) } in
    let tracked = track d' addr 4 1 1 in
    rw inside (
      exchanged size d (if calls_back then call_back tracked.1 addr false tracked.0 else tracked.1)
        addr new s at fits
        (if_both (λ (e : Ddr). e.memory ≡ d'.memory) calls_back
          (call_back-memory tracked.1 addr false tracked.0 ∙ track-memory d' addr 4 1 1)
          (track-memory d' addr 4 1 1)))

compare_and_swap-IsExchange :
    (size : ℕ) (d : Ddr) (addr expected desired : ℕ)
    → IsSound size d
    → IsAddress size addr
    → desired < 2 ^ 32
    → IsExchange d addr
        (result (compare_swaps expected desired))
        (atomic_compare_and_swap d addr expected desired)
unfolding atomic_compare_and_swap
compare_and_swap-IsExchange size d addr expected desired s at fits =
    let inside : leb (addr + 4) d.memory.size ≡ true = ground (arith, s.sized) in
    let d' = record d { memory = put_word d.memory addr desired } in
    elim (Bool-cases (view d addr == expected)) [
      | inl same ↦
          rw (inside, same)
            (exchanged size d (track d' addr 4 1 1).1 addr (λ old. desired) s at fits
              (track-memory d' addr 4 1 1))
      | inr apart ↦
          rw (inside, apart)
            (
              refl,
              λ b at'. ap (λ (m : Bytes). get_word m b) (track-memory d addr 4 1 0) ∙ ground arith,
            )
    ]

-- Every atomic operation of the DRAM returns the old word and stores the new one that its name says,
-- and leaves all other words as they were. The address is aligned and in range, the operand a word.
pub atomic-IsExchange :
    (size : ℕ) (d : Ddr) (addr : ℕ) (op : AtomicOp)
    → IsSound size d
    → IsAddress size addr
    → IsWordOp op
    → IsExchange d addr (result op) (atomic d addr op)
unfolding atomic atomic_add atomic_swap atomic_fetch_and_add atomic_fetch_and_sub
    atomic_fetch_and_and atomic_fetch_and_or atomic_fetch_and_xor
atomic-IsExchange size d addr (compare_swaps expected desired) s at w =
    compare_and_swap-IsExchange size d addr expected desired s at w
atomic-IsExchange size d addr (adds v) s at w =
    modify-IsExchange size d addr true (result (adds v)) s at
      (result-lt (adds v) (view d addr) w (get_word-lt d.memory addr s.bytes))
atomic-IsExchange size d addr (swaps v) s at w =
    modify-IsExchange size d addr true (result (swaps v)) s at w
atomic-IsExchange size d addr (fetch_adds v) s at w =
    modify-IsExchange size d addr false (result (fetch_adds v)) s at
      (result-lt (fetch_adds v) (view d addr) w (get_word-lt d.memory addr s.bytes))
atomic-IsExchange size d addr (fetch_subs v) s at w =
    modify-IsExchange size d addr false (result (fetch_subs v)) s at
      (result-lt (fetch_subs v) (view d addr) w (get_word-lt d.memory addr s.bytes))
atomic-IsExchange size d addr (fetch_ands v) s at w =
    modify-IsExchange size d addr false (result (fetch_ands v)) s at
      (result-lt (fetch_ands v) (view d addr) w (get_word-lt d.memory addr s.bytes))
atomic-IsExchange size d addr (fetch_ors v) s at w =
    modify-IsExchange size d addr false (result (fetch_ors v)) s at
      (result-lt (fetch_ors v) (view d addr) w (get_word-lt d.memory addr s.bytes))
atomic-IsExchange size d addr (fetch_xors v) s at w =
    modify-IsExchange size d addr false (result (fetch_xors v)) s at
      (result-lt (fetch_xors v) (view d addr) w (get_word-lt d.memory addr s.bytes))
