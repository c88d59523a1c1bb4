-- ===== src/System/Uart.antt =====
-- The serial port: class UART of emulator/src/device/UART.cpp and emulator/include/device/UART.h. The
-- characters sent are listed, the last one first. The mutex makes a method one step; the log lines of a
-- debug build are left out.
use riscv_emulator.Base.{ℕ, ◌%◌, ◌^◌, ◌&&◌, List, [], ◌∷◌, ◌==◌, if◌then◌else◌, bit_and, bit_or}

pub record Uart : Type 0 where
  pub dr : ℕ
  pub fr : ℕ
  pub lcr : ℕ
  pub lsr : ℕ
  pub output : List ℕ

abbrev pub create : Uart
create = record { dr = 0; fr = 0x90; lcr = 0; lsr = 0x60; output = [] }

abbrev pub output_char : Uart → ℕ → Uart
output_char u ch = record u { output = ch ∷ u.output }

-- The registers that a write stores to, before a character is sent.
abbrev pub store : Uart → ℕ → ℕ → Uart
store u offset value = if offset == 3 then record u { lcr = bit_and value 0xFF } else u

abbrev pub send : Uart → ℕ → Uart
send u value =
    let u' = record u { dr = bit_and value 0xFF } in
    record (output_char u' (u'.dr % 2 ^ 8)) { lsr = bit_or u.lsr 0x60 }

unfoldable pub write : Uart → ℕ → ℕ → Uart
write u offset value =
    let stored = store u offset value in
    if offset == 0 && bit_and stored.lcr 0x80 == 0 then send stored value else stored

unfoldable pub read : Uart → ℕ → ℕ
read u offset =
    if offset == 0
    then u.dr
    else if offset == 1
    then u.dr
    else if offset == 5
    then u.lsr
    else if offset == 4
    then u.fr
    else 0

-- A string sent to the data register, its first character first.
unfoldable pub sends : Uart → List ℕ → Uart
sends u [] = u
sends u (x ∷ xs) = sends (write u 0 x) xs

-- The characters of a list of values, the last one first, in front of `out`.
abbrev pub printed : List ℕ → List ℕ → List ℕ
printed [] out = out
printed (x ∷ xs) out = printed xs (x % 2 ^ 8 ∷ out)
