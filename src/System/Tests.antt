-- ===== src/System/Tests.antt =====
-- A memory of 1 MB with a UART and a CLINT for two cores, and a monitor of three cores.
use riscv_emulator.Base.{
  ℕ, ◌+◌, ◌%◌, ◌/◌, ◌^◌, ◌<◌, ◌≡◌, refl, arith, true, false, some, [], ◌∷◌, ◌==◌, if◌then◌else◌,
  length,
}
use riscv_emulator.Memory.Bytes.{Bytes, zeros, get_word, put_word}
use riscv_emulator.Memory.Bytes.Words.{AreBytes, put_word-AreBytes}
use riscv_emulator.Memory.Ddr.Atomics.{compare_swaps}
use riscv_emulator.Interrupt.Clint
use riscv_emulator.System.Uart
use riscv_emulator.System.Uart.{Uart}
use riscv_emulator.System.Dispatch.{System, read_word, write_word, read_byte, read_halfword}
use riscv_emulator.System.Dispatch.Atomics.{
  ExchangesWord, memory_atomic, memory_atomic-ExchangesWord,
}
use riscv_emulator.System.Dispatch.Ram.{IsRam, read_word-write_word, narrow_reads}
use riscv_emulator.System.Monitor
use riscv_emulator.System.Monitor.{
  MultiCoreMonitor, handle_release_signal, check_release_signal, release_signal_addr,
  release_signal_magic,
}
use riscv_emulator.System.Monitor.Release.{IsReleased, handle_release_signal-IsReleased}

zeros-AreBytes : (n : ℕ) → AreBytes (zeros n)
zeros-AreBytes n a = omega arith

abbrev system : System
system = record {
  memory = zeros 0x100000;
  devices = (0x10000000, Uart.create) ∷ [];
  clint = some (Clint.create 2);
}

memory-IsRam : (a : ℕ) → a < 0x100000 → IsRam system a
memory-IsRam a h = record { no_device = ground arith; no_clint = ground arith }

read_word-write_word_example :
    read_word (write_word system 0x90000 7) 0x90004
    ≡ (if 0x90004 == 0x90000 then 7 else read_word system 0x90004)
read_word-write_word_example =
    read_word-write_word system 0x90000 7 0x90004 (zeros-AreBytes 0x100000) (omega arith)
      (refl, omega arith) (refl, omega arith) (memory-IsRam 0x90000 (omega arith))
      (memory-IsRam 0x90004 (omega arith))

narrow_reads_example :
    (read_byte system 0x90000 ≡ read_word system 0x90000 % 2 ^ 8)
    × (read_byte system (0x90000 + 1) ≡ read_word system 0x90000 / 2 ^ 8 % 2 ^ 8)
    × (read_byte system (0x90000 + 2) ≡ read_word system 0x90000 / 2 ^ 16 % 2 ^ 8)
    × (read_byte system (0x90000 + 3) ≡ read_word system 0x90000 / 2 ^ 24)
    × (read_halfword system 0x90000 ≡ read_word system 0x90000 % 2 ^ 16)
    × (read_halfword system (0x90000 + 2) ≡ read_word system 0x90000 / 2 ^ 16)
narrow_reads_example =
    narrow_reads system 0x90000 (zeros-AreBytes 0x100000) (refl, omega arith)
      (λ k lt. memory-IsRam (0x90000 + k) (omega arith))

memory_atomic-ExchangesWord_example :
    ExchangesWord system 0x82010
      (compare_swaps 0 1)
      (memory_atomic system 0x82010 (compare_swaps 0 1))
memory_atomic-ExchangesWord_example =
    memory_atomic-ExchangesWord system 0x82010 (compare_swaps 0 1) (zeros-AreBytes 0x100000)
      (refl, omega arith) (omega arith)

-- The monitor has seen the signal that a core has written.
abbrev signalled : Bytes
signalled = put_word (zeros 0x100000) release_signal_addr release_signal_magic

abbrev monitor : MultiCoreMonitor
monitor = (check_release_signal (Monitor.create 3) signalled).1

monitor-detected : monitor.release_signal_detected ≡ true
unfolding check_release_signal Monitor.create put_word get_word
monitor-detected = refl

monitor-fresh :
    (monitor.release_processed ≡ false) × (monitor.num_cores ≡ 3) × (length monitor.core_states ≡ 3)
unfolding check_release_signal Monitor.create put_word get_word
monitor-fresh = (refl, refl, refl)

signalled-size : signalled.size ≡ 0x100000
unfolding put_word
signalled-size = refl

handle_release_signal-IsReleased_example :
    IsReleased monitor signalled (handle_release_signal monitor signalled 17)
handle_release_signal-IsReleased_example =
    handle_release_signal-IsReleased monitor signalled 17
      (put_word-AreBytes (zeros 0x100000) release_signal_addr release_signal_magic
        (zeros-AreBytes 0x100000))
      (omega (arith, monitor-fresh.1, monitor-fresh.2))
      (omega (arith, monitor-fresh.1, signalled-size)) monitor-detected monitor-fresh.0
