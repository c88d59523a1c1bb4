-- ===== src/Interrupt/Clint/Timer.antt =====
-- When a timer interrupt is pending.
use riscv_emulator.Base.{
  ℕ, ◌+◌, ◌^◌, ◌<◌, ◌≡◌, true, false, arith, leb, ◌==◌, if◌then◌else◌, get_or-set,
}
use riscv_emulator.Interrupt.Clint.{
  Clint, max_u64, set_mtimecmp, get_mtimecmp, update_timer, has_timer_interrupt,
  clear_timer_interrupt,
}
use riscv_emulator.Interrupt.Clint.Registers.{IsSized}

-- After core `i` sets its compare register to `v` and `d` cycles pass without wrap of the timer,
-- the interrupt of core `i` is pending exactly from time `v` on, and that of another core `j`
-- exactly from that core's own compare value on.
pub timer_fires :
    (c : Clint) (i j v d : ℕ)
    → IsSized c
    → i < c.num_cores
    → j < c.num_cores
    → c.mtime + d < 2 ^ 64
    → has_timer_interrupt (update_timer (set_mtimecmp c i v) d) j
      ≡ leb (if i == j then v else get_mtimecmp c j) (c.mtime + d)
unfolding has_timer_interrupt update_timer set_mtimecmp get_mtimecmp
timer_fires c i j v d w hi hj fits = ground (arith, get_or-set c.mtimecmp i j v 0)

-- A pending timer interrupt stays pending while the timer runs on without wrap, and is gone after
-- `clear_timer_interrupt`, for as long as the timer stays below its last value.
pub clear_timer_lasts :
    (c : Clint) (i d : ℕ)
    → IsSized c
    → has_timer_interrupt c i ≡ true
    → c.mtime + d < max_u64
    → (has_timer_interrupt (update_timer c d) i ≡ true)
      × (has_timer_interrupt (update_timer (clear_timer_interrupt c i) d) i ≡ false)
unfolding has_timer_interrupt update_timer clear_timer_interrupt
clear_timer_lasts c i d w h fits = ground (arith, get_or-set c.mtimecmp i i max_u64 0)
