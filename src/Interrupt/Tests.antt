-- ===== src/Interrupt/Tests.antt =====
-- Runs of the CLINT and of the PLIC at concrete states.
use riscv_emulator.Base.{
  ℕ, ◌≡◌, refl, arith, true, false, List, [], ◌∷◌, get_or, ◌==◌, if◌then◌else◌,
}
use riscv_emulator.Interrupt.Clint.{
  Clint, read, write, set_mtimecmp, update_timer, has_timer_interrupt, clear_timer_interrupt,
  generate_software_interrupt,
}
use riscv_emulator.Interrupt.Clint.Registers.{address_of, msip, IsSized, read-write}
use riscv_emulator.Interrupt.Clint
use riscv_emulator.Interrupt.Plic.Claims
use riscv_emulator.Interrupt.Plic.Mmio
use riscv_emulator.Interrupt.Clint.Invariant.{Call, writes, generates, updates_timer}
use riscv_emulator.Interrupt.Plic.{
  Plic, done, find_highest_priority_pending, claim, complete, is_pending, scan, get_pending_bit,
  get_enable_bit,
}
use riscv_emulator.Interrupt.Plic.Bitmap.{get_bit}
use riscv_emulator.Interrupt.Plic.Arbitration.{IsBest, find_highest_priority_pending_lem}
use riscv_emulator.Interrupt.Plic.Claims.{claim-complete, is_pending-set_pending}

abbrev two_cores : Clint
two_cores = record { num_cores = 2; mtime = 5; mtimecmp = 9 ∷ 3 ∷ []; msip = false ∷ true ∷ [] }

two_cores-IsSized : IsSized two_cores
two_cores-IsSized = record { few = omega arith; compares = refl; flags = refl }

read-write_example : read (write two_cores (address_of (msip 0)) 7 8) (address_of (msip 0)) 8 ≡ 1
read-write_example =
    read-write two_cores (msip 0) (msip 0) 7 two_cores-IsSized (omega arith) (omega arith)

abbrev some_calls : List Call
some_calls = writes 0x02004000 17 8 ∷ generates 1 ∷ updates_timer 20 ∷ []

-- Sources 1 and 3 are pending, with priorities 2 and 5, and enabled for target 0.
abbrev two_pending : Plic
two_pending = record {
  num_sources = 4;
  num_targets = 1;
  priorities = 0 ∷ 2 ∷ 0 ∷ 5 ∷ [];
  pending = 10 ∷ [];
  enable = (14 ∷ []) ∷ [];
  thresholds = 1 ∷ [];
  claimed = 0 ∷ [];
}

two_pending-IsSized : Claims.IsSized two_pending
two_pending-IsSized = record { some_source = omega arith; words = refl; claims = refl }

find_highest_priority_pending_example :
    IsBest two_pending 0 4 (find_highest_priority_pending two_pending 0)
find_highest_priority_pending_example =
    find_highest_priority_pending_lem two_pending 0 (omega arith)

two_pending-best : find_highest_priority_pending two_pending 0 ≡ 3
unfolding find_highest_priority_pending scan get_pending_bit get_bit get_enable_bit
two_pending-best = refl

claim-complete_example :
    (q : Plic) × (r : Plic) × (claim false two_pending 0 ≡ done 3 q)
    × ((x : ℕ) → is_pending q x ≡ (if 3 == x then false else is_pending two_pending x))
    × (claim false q 0 ≡ done 3 q)
    × (complete false q 0 3 ≡ done tt r)
    × (get_or r.claimed 0 0 ≡ 0)
    × ((x : ℕ) → is_pending r x ≡ is_pending q x)
claim-complete_example =
    claim-complete two_pending 0 3 two_pending-IsSized (omega arith) refl two_pending-best
      (omega arith)
