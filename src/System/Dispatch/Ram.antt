-- ===== src/System/Dispatch/Ram.antt =====
-- Loads and stores of the Simulator's memory, by words, halfwords and bytes.
use mathlib.Core.Path.{subst}
use riscv_emulator.Base.{
  ℕ, ◌+◌, ◌*◌, ◌/◌, ◌%◌, ◌^◌, ◌<◌, ◌≡◌, refl, sym, ap, ◌∙◌, arith, true, false, Option, none, List,
  [], ◌∷◌, ltb, leb, ◌==◌, if◌then◌else◌, Bool-cases, inl, inr, bit_or,
}
use riscv_emulator.Word.{shl32}
use riscv_emulator.Memory.Interface.{IsAddress}
use riscv_emulator.Memory.Bytes
use riscv_emulator.Memory.Bytes.{Bytes, get_word, put_word}
use riscv_emulator.Memory.Bytes.Words.{
  AreBytes, or_shifted, get_word-sum, get_word-write_word, read_word-inside, write_word-size,
}
use riscv_emulator.System.Uart.{Uart}
use riscv_emulator.System.Dispatch.{
  System, in_device, device_read, device_write, in_clint, read_word, write_word, read_byte,
  read_halfword,
}

-- An address that neither a device nor the CLINT has.
pub record IsRam (s : System) (a : ℕ) : Type 0 where
  pub no_device : device_read s.devices a ≡ none
  pub no_clint : in_clint a ≡ false

some_is_none : {x : ℕ} → Option.some x ≡ none → ⊥
some_is_none h = ground arith

device_write-none :
    (devices : List (ℕ × Uart)) (a v : ℕ)
    → device_read devices a ≡ none
    → device_write devices a v ≡ none
device_write-none [] a v h = refl
device_write-none (d ∷ devices) a v h = elim (Bool-cases (in_device d.0 a)) [
  | inl here ↦ absurd (ground arith)
  | inr there ↦
      let h' : device_read devices a ≡ none = rw there at h in
      rw (there, device_write-none devices a v h') refl
]

-- A word stored in memory is read back, and no other word changes, where both addresses are aligned, in
-- range, and of no device.
pub read_word-write_word :
    (s : System) (a v b : ℕ)
    → AreBytes s.memory
    → v < 2 ^ 32
    → IsAddress s.memory.size a
    → IsAddress s.memory.size b
    → IsRam s a
    → IsRam s b
    → read_word (write_word s a v) b ≡ (if b == a then v else read_word s b)
unfolding read_word write_word
read_word-write_word s a v b small fits at at' ram ram' =
    let quiet = device_write-none s.devices a v ram.no_device in
    rw (quiet, ram.no_clint, ram'.no_device, ram'.no_clint)
      (read_word-inside (Bytes.write_word s.memory a v) b (rw (write_word-size s.memory a v) at')
        ∙ get_word-write_word s.memory a v b small fits at at'
        ∙ ap (λ (x : ℕ). if b == a then v else x) (sym (read_word-inside s.memory b at')))

-- Two bytes put together.
half_lem : (x y : ℕ) → x < 2 ^ 8 → y < 2 ^ 8 → bit_or x (shl32 y 8) ≡ x + y * 2 ^ 8
half_lem x y hx hy = or_shifted 8 y x hx (omega arith) ∙ omega arith

-- Memory does not tell the widths of accesses apart: a byte of an aligned word, read alone, is that digit of
-- the word, the lowest byte first, and so are its halves. The word is in range and of no device and not of
-- the CLINT, nor are the bytes and the halves.
pub narrow_reads :
    (s : System) (a : ℕ)
    → AreBytes s.memory
    → IsAddress s.memory.size a
    → ((k : ℕ) → k < 4 → IsRam s (a + k))
    → (read_byte s a ≡ read_word s a % 2 ^ 8)
      × (read_byte s (a + 1) ≡ read_word s a / 2 ^ 8 % 2 ^ 8)
      × (read_byte s (a + 2) ≡ read_word s a / 2 ^ 16 % 2 ^ 8)
      × (read_byte s (a + 3) ≡ read_word s a / 2 ^ 24)
      × (read_halfword s a ≡ read_word s a % 2 ^ 16)
      × (read_halfword s (a + 2) ≡ read_word s a / 2 ^ 16)
unfolding read_byte read_halfword read_word
narrow_reads s a small at ram =
    let start : a + 0 ≡ a = omega arith in
    let none0 : device_read s.devices a ≡ none =
      subst (λ (x : ℕ). device_read s.devices x ≡ none) start (ram 0 (omega arith)).no_device in
    let quiet : in_clint a ≡ false =
      subst (λ (x : ℕ). in_clint x ≡ false) start (ram 0 (omega arith)).no_clint in
    let word : Bytes.read_word s.memory a
        ≡ s.memory.byte a
          + s.memory.byte (a + 1) * 2 ^ 8
          + s.memory.byte (a + 2) * 2 ^ 16
          + s.memory.byte (a + 3) * 2 ^ 24 =
      read_word-inside s.memory a at ∙ get_word-sum s.memory a small in
    let b0 = small a in
    let b1 = small (a + 1) in
    let b2 = small (a + 2) in
    let b3 = small (a + 3) in
    let next : a + 2 + 1 ≡ a + 3 = omega arith in
    let in0 : ltb a s.memory.size ≡ true = ground arith in
    let in1 : ltb (a + 1) s.memory.size ≡ true = ground arith in
    let in2 : ltb (a + 2) s.memory.size ≡ true = ground arith in
    let in3 : ltb (a + 3) s.memory.size ≡ true = ground arith in
    let half0 : leb (a + 2) s.memory.size ≡ true = ground arith in
    let half2 : leb (a + 2 + 2) s.memory.size ≡ true = ground arith in
    (
      rw (none0, quiet, in0, word) (omega arith),
      rw ((ram 1 (omega arith)).no_device, none0, quiet, in1, word) (omega arith),
      rw ((ram 2 (omega arith)).no_device, none0, quiet, in2, word) (omega arith),
      rw ((ram 3 (omega arith)).no_device, none0, quiet, in3, word) (omega arith),
      rw (none0, quiet, half0, word, half_lem (s.memory.byte a) (s.memory.byte (a + 1)) b0 b1)
          (omega arith),
      rw
          (
            (ram 2 (omega arith)).no_device,
            none0,
            quiet,
            half2,
            next,
            word,
            half_lem (s.memory.byte (a + 2)) (s.memory.byte (a + 3)) b2 b3,
          )
          (omega arith),
    )
