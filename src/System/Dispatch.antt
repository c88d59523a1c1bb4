-- ===== src/System/Dispatch.antt =====
-- The accesses of the Simulator to memory and devices, Simulator.cpp of emulator/src/system. `devices` is
-- the map from base addresses to devices, in the order in which it is gone through; the only class of
-- devices is UART. Sums of an address and a constant that C++ computes in 32 bits wrap; those with a
-- sizeof do not. The atomic operations access a word through a pointer, which is little-endian on the
-- hosts that the emulator is built for. The log lines are left out.
pub mod Atomics
pub mod Ram
use riscv_emulator.Base.{
  ℕ, zero, suc, ◌+◌, ◌-◌, ◌*◌, ◌/◌, ◌%◌, ◌^◌, Bool, true, false, ◌&&◌, ◌||◌, Option, none, some,
  List, [], ◌∷◌, ltb, leb, ◌==◌, if◌then◌else◌, bit_and, bit_or,
}
use riscv_emulator.Word.{u32, shl32, shr32}
use riscv_emulator.Interrupt.Clint
use riscv_emulator.Interrupt.Clint.{Clint}
use riscv_emulator.Memory.Bytes
use riscv_emulator.Memory.Bytes.{Bytes, read_words, write_words}
use riscv_emulator.System.Uart
use riscv_emulator.System.Uart.{Uart}

pub record System : Type 0 where
  pub memory : Bytes
  pub devices : List (ℕ × Uart)
  pub clint : Option Clint

-- `register_device`, `devices[base_addr] = dev`.
unfoldable pub register_device : List (ℕ × Uart) → ℕ → Uart → List (ℕ × Uart)
register_device [] base_addr dev = (base_addr, dev) ∷ []
register_device (d ∷ devices) base_addr dev =
    if d.0 == base_addr
    then (base_addr, dev) ∷ devices
    else d ∷ register_device devices base_addr dev

unfoldable pub get_device : List (ℕ × Uart) → ℕ → Option Uart
get_device [] addr = none
get_device (d ∷ devices) addr =
    let rest = get_device devices addr in if d.0 == addr then some d.1 else rest

-- The registers of a device, of 32 bytes.
abbrev pub in_device : ℕ → ℕ → Bool
in_device base addr = leb base addr && ltb addr (u32 (base + 32))

-- What the first device that has the address reads, and the devices after a write to it.
abbrev pub device_read : List (ℕ × Uart) → ℕ → Option ℕ
device_read [] addr = none
device_read (d ∷ devices) addr =
    let rest = device_read devices addr in
    if in_device d.0 addr then some (Uart.read d.1 (addr - d.0)) else rest

abbrev pub consed : ℕ × Uart → Option (List (ℕ × Uart)) → Option (List (ℕ × Uart))
consed d none = none
consed d (some devices) = some (d ∷ devices)

abbrev pub device_write : List (ℕ × Uart) → ℕ → ℕ → Option (List (ℕ × Uart))
device_write [] addr value = none
device_write (d ∷ devices) addr value =
    let rest = device_write devices addr value in
    if in_device d.0 addr
    then some ((d.0, Uart.write d.1 (addr - d.0) value) ∷ devices)
    else consed d rest

abbrev pub in_alias : ℕ → Bool
in_alias addr = leb 0x20000000 addr && ltb addr 0x20010000

abbrev pub in_clint : ℕ → Bool
in_clint addr = (leb 0x02000000 addr && ltb addr 0x02010000) || in_alias addr

abbrev pub clint_addr : ℕ → ℕ
clint_addr addr = if in_alias addr then u32 (addr + 0x1E000000) else addr

abbrev pub clint_read : Option Clint → ℕ → ℕ
clint_read none addr = 0
clint_read (some c) addr = u32 (Clint.read c (clint_addr addr) 4)

abbrev pub clint_write : Option Clint → ℕ → ℕ → Option Clint
clint_write none addr value = none
clint_write (some c) addr value = some (Clint.write c (clint_addr addr) value 4)

-- The read of a device if there is one, else what memory gives.
abbrev pub or_else : Option ℕ → ℕ → ℕ
or_else none value = value
or_else (some value) other = value

unfoldable pub read_word : System → ℕ → ℕ
read_word s addr =
    or_else (device_read s.devices addr)
      (if in_clint addr then clint_read s.clint addr else Bytes.read_word s.memory addr)

abbrev pub write_memory : System → ℕ → ℕ → System
write_memory s addr value =
    if in_clint addr
    then record s { clint = clint_write s.clint addr value }
    else record s { memory = Bytes.write_word s.memory addr value }

abbrev pub write_device : System → System → Option (List (ℕ × Uart)) → System
write_device s other none = other
write_device s other (some devices) = record s { devices = devices }

unfoldable pub write_word : System → ℕ → ℕ → System
write_word s addr value =
    write_device s (write_memory s addr value) (device_write s.devices addr value)

abbrev pub put_byte : Bytes → ℕ → ℕ → Bytes
put_byte m addr value = record m { byte = λ a. if a == addr then value % 2 ^ 8 else m.byte a }

unfoldable pub write_byte : System → ℕ → ℕ → System
write_byte s addr value =
    write_device s
      (if ltb addr s.memory.size then record s { memory = put_byte s.memory addr value } else s)
      (device_write s.devices addr value)

unfoldable pub write_halfword : System → ℕ → ℕ → System
write_halfword s addr value =
    write_device s
      (if leb (addr + 2) s.memory.size
        then record s {
          memory =
              put_byte (put_byte s.memory addr (bit_and value 0xFF)) (addr + 1)
                (bit_and (shr32 value 8) 0xFF);
        }
        else s)
      (device_write s.devices addr value)

unfoldable pub read_byte : System → ℕ → ℕ
read_byte s addr =
    or_else (device_read s.devices addr) (if ltb addr s.memory.size then s.memory.byte addr else 0)
    % 2 ^ 8

unfoldable pub read_halfword : System → ℕ → ℕ
read_halfword s addr =
    or_else (device_read s.devices addr) (
      if leb (addr + 2) s.memory.size
      then bit_or (s.memory.byte addr) (shl32 (s.memory.byte (addr + 1)) 8)
      else 0)
    % 2 ^ 16

-- Blocks go to memory alone.
unfoldable pub read_block : System → ℕ → ℕ → List ℕ
read_block s addr words = read_words s.memory addr 0 words

unfoldable pub write_block : System → ℕ → List ℕ → System
write_block s addr words = record s { memory = write_words s.memory addr 0 words }
