-- ===== src/Interrupt/Plic/Claims.antt =====
-- The life of an interrupt: pending, claimed, completed.
use riscv_emulator.Base.{
  ℕ, ◌<◌, ◌≡◌, ◌≢◌, refl, Bool, true, false, arith, ◌==◌, if◌then◌else◌, get_or, get_or-set, set,
  length, length-set,
}
use riscv_emulator.Interrupt.Plic.Bitmap.{words_for, get_bit-update_bit}
use riscv_emulator.Interrupt.Plic.Arbitration.{find_highest_priority_pending_lem}
use riscv_emulator.Interrupt.Plic.{
  Plic, done, is_valid_source_id, find_highest_priority_pending, claim, complete, set_pending,
  is_pending, update_pending_bit, get_pending_bit,
}

pub record IsSized (p : Plic) : Type 0 where
  pub some_source : 0 < p.num_sources
  pub words : length p.pending ≡ words_for p.num_sources
  pub claims : length p.claimed ≡ p.num_targets

-- Setting or clearing the pending bit of a valid source changes that source's bit alone.
pub is_pending-set_pending :
    (p : Plic) (s x : ℕ) (on : Bool)
    → IsSized p
    → is_valid_source_id p s ≡ true
    → is_pending (set_pending p s on) x ≡ (if s == x then on else is_pending p x)
unfolding is_pending set_pending update_pending_bit get_pending_bit
is_pending-set_pending p s x on w valid = ground (arith, get_bit-update_bit p.pending s x on)

-- The state after `claim` has picked source `s` for target `t`.
abbrev pub taken : Plic → ℕ → ℕ → Plic
taken p t s = update_pending_bit (record p { claimed = set p.claimed t s }) s false

is_pending-taken :
    (p : Plic) (t s x : ℕ)
    → IsSized p
    → s < p.num_sources
    → s ≢ 0
    → is_pending (taken p t s) x ≡ (if s == x then false else is_pending p x)
unfolding is_pending update_pending_bit get_pending_bit
is_pending-taken p t s x w lt ne = ground (arith, get_bit-update_bit p.pending s x false)

claim_takes :
    (p : Plic) (t s : ℕ)
    → t < p.num_targets
    → get_or p.claimed t 0 ≡ 0
    → find_highest_priority_pending p t ≡ s
    → s ≢ 0
    → claim false p t ≡ done s (taken p t s)
unfolding claim
claim_takes p t s ht free e ne = ground arith

claim_again :
    (p : Plic) (t s : ℕ)
    → IsSized p
    → t < p.num_targets
    → s ≢ 0
    → claim false (taken p t s) t ≡ done s (taken p t s)
unfolding claim update_pending_bit
claim_again p t s w ht ne = ground (arith, get_or-set p.claimed t t s 0)

abbrev pub released : Plic → ℕ → Plic
released p t = record p { claimed = set p.claimed t 0 }

complete_releases :
    (p : Plic) (t s : ℕ)
    → IsSized p
    → t < p.num_targets
    → s < p.num_sources
    → s ≢ 0
    → complete false (taken p t s) t s ≡ done tt (released (taken p t s) t)
unfolding complete update_pending_bit
complete_releases p t s w ht lt ne = ground (arith, get_or-set p.claimed t t s 0)

-- When target `t` has no claim and the search finds source `s`, a claim returns `s` and clears its
-- pending bit alone; a second claim returns `s` again and changes nothing; and completing `s` frees
-- the target and leaves the pending bits as the claim left them.
pub claim-complete :
    (p : Plic) (t s : ℕ)
    → IsSized p
    → t < p.num_targets
    → get_or p.claimed t 0 ≡ 0
    → find_highest_priority_pending p t ≡ s
    → s ≢ 0
    → (q : Plic) × (r : Plic) × (claim false p t ≡ done s q)
      × ((x : ℕ) → is_pending q x ≡ (if s == x then false else is_pending p x))
      × (claim false q t ≡ done s q)
      × (complete false q t s ≡ done tt r)
      × (get_or r.claimed t 0 ≡ 0)
      × ((x : ℕ) → is_pending r x ≡ is_pending q x)
unfolding is_pending update_pending_bit get_pending_bit
claim-complete p t s w ht free e ne =
    let best = find_highest_priority_pending_lem p t w.some_source in
    let lt : s < p.num_sources = ground (arith, best.chosen) in
    (
      taken p t s,
      released (taken p t s) t,
      claim_takes p t s ht free e ne,
      λ x. is_pending-taken p t s x w lt ne,
      claim_again p t s w ht ne,
      complete_releases p t s w ht lt ne,
      ground (arith, get_or-set (set p.claimed t s) t t 0 0, length-set p.claimed t s),
      λ x. refl,
    )
