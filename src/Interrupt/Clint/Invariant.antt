-- ===== src/Interrupt/Clint/Invariant.antt =====
-- The sizes and ranges of the CLINT's state, kept by every method.
use riscv_emulator.Base.{ℕ, ◌^◌, ◌<◌, ◌≡◌, List, [], ◌∷◌, get_or, length}
use riscv_emulator.Interrupt.Clint.{
  Clint, write, set_mtimecmp, generate_software_interrupt, clear_software_interrupt,
  clear_software_interrupt_pending, set_timer, update_timer, clear_timer_interrupt, reset,
}

-- The calls that change the state, with their arguments.
pub data Call : Type 0 where
  writes : ℕ → ℕ → ℕ → Call
  sets_mtimecmp : ℕ → ℕ → Call
  generates clears clears_pending clears_timer : ℕ → Call
  sets_timer updates_timer : ℕ → Call
  resets : Call

-- Values and times that the C++ types can hold.
abbrev pub Fits : Call → Type 0
Fits (writes addr value size) = value < 2 ^ 64
Fits (sets_mtimecmp i value) = value < 2 ^ 64
Fits (sets_timer time) = time < 2 ^ 64
Fits _ = Unit

pub step : Clint → Call → Clint
step c (writes addr value size) = write c addr value size
step c (sets_mtimecmp i value) = set_mtimecmp c i value
step c (generates i) = generate_software_interrupt c i
step c (clears i) = clear_software_interrupt c i
step c (clears_pending i) = clear_software_interrupt_pending c i
step c (clears_timer i) = clear_timer_interrupt c i
step c (sets_timer time) = set_timer c time
step c (updates_timer d) = update_timer c d
step c resets = reset c

pub record IsWellFormed (n : ℕ) (c : Clint) : Type 0 where
  pub cores : c.num_cores ≡ n
  pub compares : length c.mtimecmp ≡ n
  pub flags : length c.msip ≡ n
  pub time : c.mtime < 2 ^ 64
  pub ranges : (i : ℕ) → get_or c.mtimecmp i 0 < 2 ^ 64

pub run : Clint → List Call → Clint
run c [] = c
run c (k ∷ ks) = run (step c k) ks

abbrev pub AllFit : List Call → Type 0
AllFit [] = Unit
AllFit (k ∷ ks) = Fits k × AllFit ks
