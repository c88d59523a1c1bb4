-- ===== src/Memory/Mmu/Lru.antt =====
-- The LRU list of the TLB: std::list<uint32_t> with the most recently used index in front.
use riscv_emulator.Base.{ℕ, zero, suc, ◌+◌, Option, none, some, List, [], ◌∷◌, ◌==◌, if◌then◌else◌}
use mathlib.Core.Option

-- `back` and `pop_back`.
abbrev pub pop_back : List ℕ → Option (ℕ × List ℕ)
pop_back [] = none
pop_back (x ∷ []) = some (x, [])
pop_back (x ∷ y ∷ xs) = Option.map (λ (p : ℕ × List ℕ). (p.0, x ∷ p.1)) (pop_back (y ∷ xs))

-- `list::remove` takes out every occurrence.
abbrev pub remove : ℕ → List ℕ → List ℕ
remove i [] = []
remove i (x ∷ xs) = if x == i then remove i xs else x ∷ remove i xs

-- `for (i = 0; i < n; i++) push_back(i)`.
abbrev pub indices_from : ℕ → ℕ → List ℕ
indices_from i zero = []
indices_from i (suc n) = i ∷ indices_from (i + 1) n

abbrev pub indices : ℕ → List ℕ
indices n = indices_from 0 n
