-- ===== src/Interrupt/Plic/Arbitration.antt =====
-- Which source `find_highest_priority_pending` picks.
use mathlib.Core.Path.{subst}
use native.Mathlib.Nat.{add-zero}
use riscv_emulator.Base.{
  ℕ, zero, suc, ◌+◌, ◌-◌, ◌≤◌, ◌<◌, ◌≡◌, ◌≢◌, refl, sym, Bool, true, false, ◌&&◌, arith, ltb, ◌==◌,
  if◌then◌else◌, get_or, Bool-cases, inl, inr,
}
use riscv_emulator.Interrupt.Plic.{
  Plic, get_pending_bit, get_enable_bit, scan, find_highest_priority_pending,
}

abbrev pub priority_of : Plic → ℕ → ℕ
priority_of p x = get_or p.priorities x 0

-- Source `x` may interrupt target `t`.
abbrev pub competes : Plic → ℕ → ℕ → Bool
competes p t x =
    (get_pending_bit p x && get_enable_bit p t x) && ltb (get_or p.thresholds t 0) (priority_of p x)

-- Among the sources from 1 up to `n`, `s` is the first of the highest priority that competes for
-- target `t`, or 0 where none does.
pub record IsBest (p : Plic) (t n s : ℕ) : Type 0 where
  pub chosen : s ≢ 0 → (s < n) × (competes p t s ≡ true)
  pub first :
      (x : ℕ)
      → 0 < x
      → x < n
      → competes p t x ≡ true
      → (s ≢ 0) × (priority_of p x ≤ priority_of p s) × (priority_of p x ≡ priority_of p s → s ≤ x)

-- What the loop keeps in `best_priority`.
abbrev best_of : Plic → ℕ → ℕ
best_of p s = if s == 0 then 0 else priority_of p s

-- The test of the loop's body.
abbrev better : Plic → ℕ → ℕ → ℕ → Bool
better p t source best =
    (get_pending_bit p source && get_enable_bit p t source)
    && (ltb (get_or p.thresholds t 0) (priority_of p source) && ltb best (priority_of p source))

IsBest-replaced :
    (p : Plic) (t n s : ℕ)
    → 0 < n
    → better p t n (best_of p s) ≡ true
    → IsBest p t n s
    → IsBest p t (n + 1) n
IsBest-replaced p t n s pos h b = record {
  chosen = λ ne. (omega arith, ground arith);
  first = λ x px lx cx. ground (arith, b.first x, h);
}

IsBest-kept :
    (p : Plic) (t n s : ℕ)
    → 0 < n
    → better p t n (best_of p s) ≡ false
    → IsBest p t n s
    → IsBest p t (n + 1) s
IsBest-kept p t n s pos h b = record {
  chosen = λ ne. ground (arith, b.chosen ne);
  first = λ x px lx cx. ground (arith, b.first x, h, b.chosen);
}

IsBest-advance :
    (p : Plic) (t n s : ℕ)
    → 0 < n
    → IsBest p t n s
    → IsBest p t (n + 1) (if better p t n (best_of p s) then n else s)
IsBest-advance p t n s pos b = elim (Bool-cases (better p t n (best_of p s))) [
  | inl h ↦ rw h (IsBest-replaced p t n s pos h b)
  | inr h ↦ rw h (IsBest-kept p t n s pos h b)
]

scan-IsBest :
    (p : Plic) (t left n s best : ℕ)
    → 0 < n
    → best ≡ best_of p s
    → IsBest p t n s
    → IsBest p t (n + left) (scan p t left n s best)
unfolding scan
scan-IsBest p t zero n s best pos e b = rw add-zero b
scan-IsBest p t (suc left) n s best pos e b =
    let shift : n + suc left ≡ n + 1 + left = omega arith in
    rw shift (
      scan-IsBest p t left (n + 1) _ _ (omega arith) (ground arith)
        (rw e (IsBest-advance p t n s pos b)))

IsBest-none : (p : Plic) (t : ℕ) → IsBest p t 1 0
IsBest-none p t = record {
  chosen = λ ne. absurd (ne refl);
  first = λ x px lx cx. absurd (omega arith);
}

-- The search returns the enabled and pending source of the highest priority above the target's
-- threshold, the lowest numbered among equals, and 0 exactly where there is no such source.
pub find_highest_priority_pending_lem :
    (p : Plic) (t : ℕ)
    → 0 < p.num_sources
    → IsBest p t p.num_sources (find_highest_priority_pending p t)
unfolding find_highest_priority_pending
find_highest_priority_pending_lem p t pos =
    let e : p.num_sources ≡ 1 + (p.num_sources - 1) = omega arith in
    subst (λ n. IsBest p t n (scan p t (p.num_sources - 1) 1 0 0)) (sym e)
      (scan-IsBest p t (p.num_sources - 1) 1 0 0 (omega arith) refl (IsBest-none p t))
