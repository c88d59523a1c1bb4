-- ===== src/Memory/Coherence/Tests.antt =====
-- Two cores that write and read the same line.
use riscv_emulator.Base.{true, ◌≡◌, refl, arith}
use riscv_emulator.Memory.Coherence.{
  CacheCoherence, invalid, create, handle_read, handle_write, is_modified,
}
use riscv_emulator.Memory.Coherence.SingleWriter.{state_in}
use riscv_emulator.Memory.Coherence.Requests.{
  Reachable, initial, after, reads, writes, request, Reachable-exclusive,
}

-- Core 0 has written the line at 64, core 1 has read and then written it.
abbrev written : CacheCoherence
written = request (request (request (create 2) (writes 0 64)) (reads 1 64)) (writes 1 64)

written-Reachable : Reachable 2 written
written-Reachable =
    after (writes 1 64) (omega arith)
      (after (reads 1 64) (omega arith) (after (writes 0 64) (omega arith) initial))

core_one_owns : is_modified (state_in (written.directory 64) 1) ≡ true
unfolding request create handle_read handle_write
core_one_owns = refl

two_cores : written.num_cores ≡ 2
unfolding request create handle_read handle_write
two_cores = refl

Reachable-exclusive_example : state_in (written.directory 64) 0 ≡ invalid
Reachable-exclusive_example =
    Reachable-exclusive 2 written 64 1 0 written-Reachable (omega arith) core_one_owns
