-- ===== src/Core/Trap/Pending.antt =====
-- Which interrupt Core::handle_interrupt takes.
use mathlib.Core.Path.{fun_ext}
use native.Mathlib.Nat.{one-le-pow}
use riscv_emulator.Base.{
  ℕ, ◌^◌, ◌≡◌, ◌<◌, refl, ap, ◌∙◌, Bool, true, false, ◌&&◌, ◌||◌, not, arith, ◌==◌, if◌then◌else◌,
  bit, bit_and, bit_or, bit-lt, bit-pow, bit-zero, bit-bit_and, bit-bit_or, bit-complement,
  bit_and-shift, to_nat, Bool-cases, inl, inr, bits_ext, zero_bit_and, bit_and-zero, bit_and_high,
  Option, none, some,
}
use riscv_emulator.Interrupt.Clint.{Clint, has_software_interrupt, has_timer_interrupt}
use riscv_emulator.Interrupt.Plic.{Plic, has_pending_interrupts}
use riscv_emulator.Word.{not32}
use riscv_emulator.Core.State.{Core, put, write_csr_register}
use riscv_emulator.Core.Csr.{initial_csr, mstatus, mie, mip, mideleg, sie, csr_value}
use riscv_emulator.Core.Trap.{
  update_mip_csr, check_pending_interrupts, handle_interrupt, handle_pending, handle_supervisor,
  take_interrupt, MachineInterrupt, machine_software_interrupt, machine_timer_interrupt,
  machine_external_interrupt, software_bit, timer_bit, external_bit,
}

put_twice : (f : ℕ → ℕ) (k v : ℕ) → put (put f k v) k v ≡ put f k v
put_twice f k v = fun_ext λ x. same x
  where
    same : (x : ℕ) → put (put f k v) k v x ≡ put f k v x
    same x = ground arith

update_mip_csr_twice : (c : Core) → update_mip_csr (update_mip_csr c) ≡ update_mip_csr c
unfolding update_mip_csr
update_mip_csr_twice c =
    ap (λ (f : ℕ → ℕ). record c { csr_registers = f }) (put_twice c.csr_registers mip _)

-- Bits 11, 9 and 8.
bit-lines : (k : ℕ) → bit k 0xB00 ≡ (if k == 11 || (k == 9 || k == 8) then 1 else 0)
bit-lines k = ground (
  arith,
  bit-bit_or k 0x800 0x300,
  bit-bit_or k 0x200 0x100,
  bit-pow k 11,
  bit-pow k 9,
  bit-pow k 8,
)

all_clear : (x : ℕ) → bit 11 x ≡ 0 → bit 9 x ≡ 0 → bit 8 x ≡ 0 → bit_and x 0xB00 ≡ 0
all_clear x b11 b9 b8 = bits_ext _ _ clear
  where
    clear : (k : ℕ) → bit k (bit_and x 0xB00) ≡ bit k 0
    clear k = rw (bit-bit_and k x 0xB00, bit-lines k, bit-zero k) (grind arith)

-- A test of one bit.
bit_test : (k a : ℕ) → (bit_and a (2 ^ k) == 0) ≡ (bit k a == 0)
bit_test k a = ground (arith, bit_and_high k a 1, bit_and-shift k a, bit-lt k a, one-le-pow k 2)

-- The interrupt controllers ask for a machine interrupt.
abbrev pub is_raised : Core → MachineInterrupt → Bool
is_raised c machine_software_interrupt = elim c.clint [
  | none ↦ false
  | some clint ↦ has_software_interrupt clint c.core_id
]
is_raised c machine_timer_interrupt = elim c.clint [
  | none ↦ false
  | some clint ↦ has_timer_interrupt clint c.core_id
]
is_raised c machine_external_interrupt = elim c.plic [
  | none ↦ false
  | some plic ↦ has_pending_interrupts plic c.core_id
]

-- Where `update_mip_csr` shows the interrupts.
abbrev pub place : MachineInterrupt → ℕ
place machine_software_interrupt = 11
place machine_timer_interrupt = 9
place machine_external_interrupt = 8

abbrev mip_of : Bool → Bool → Bool → ℕ
mip_of s t e =
    bit_or (bit_or (if s then 0x800 else 0) (if t then 0x200 else 0)) (if e then 0x100 else 0)

abbrev raised_mip : Core → ℕ
raised_mip c =
    mip_of (is_raised c machine_software_interrupt) (is_raised c machine_timer_interrupt)
      (is_raised c machine_external_interrupt)

raised_software :
    (o : Option Clint) (i : ℕ)
    → software_bit o i ≡ (
        if (elim o [ none ↦ false | some clint ↦ has_software_interrupt clint i ])
        then 0x800
        else 0)
raised_software none i = refl
raised_software (some clint) i = refl

raised_timer :
    (o : Option Clint) (i : ℕ)
    → timer_bit o i
      ≡ (if (elim o [ none ↦ false | some clint ↦ has_timer_interrupt clint i ]) then 0x200 else 0)
raised_timer none i = refl
raised_timer (some clint) i = refl

raised_external :
    (o : Option Plic) (i : ℕ)
    → external_bit o i
      ≡ (if (elim o [ none ↦ false | some plic ↦ has_pending_interrupts plic i ]) then 0x100 else 0)
raised_external none i = refl
raised_external (some plic) i = refl

mip-update_mip_csr : (c : Core) → update_mip_csr c ≡ write_csr_register c mip (raised_mip c)
unfolding update_mip_csr
mip-update_mip_csr c =
    rw
      (
        raised_software c.clint c.core_id,
        raised_timer c.clint c.core_id,
        raised_external c.plic c.core_id,
      )
      refl

bits-mip_of :
    (s t e : Bool)
    → (bit 11 (mip_of s t e) ≡ to_nat s)
      × (bit 9 (mip_of s t e) ≡ to_nat t)
      × (bit 8 (mip_of s t e) ≡ to_nat e)
bits-mip_of false false false = (refl, refl, refl)
bits-mip_of false false true = (refl, refl, refl)
bits-mip_of false true false = (refl, refl, refl)
bits-mip_of false true true = (refl, refl, refl)
bits-mip_of true false false = (refl, refl, refl)
bits-mip_of true false true = (refl, refl, refl)
bits-mip_of true true false = (refl, refl, refl)
bits-mip_of true true true = (refl, refl, refl)

-- Raised, and enabled at that place in mie.
abbrev pub fires : Core → MachineInterrupt → Bool
fires c k = is_raised c k && bit (place k) (csr_value c mie) == 1

-- A word with one of the three bits set is not 0 under the mask.
bit_shows : (k y : ℕ) → bit k 0xB00 ≡ 1 → bit k y ≡ 1 → (bit_and y 0xB00 == 0) ≡ false
bit_shows k y inside h = elim (Bool-cases (bit_and y 0xB00 == 0)) [
  | inl e ↦
      let zero_mask : bit_and y 0xB00 ≡ 0 = ground arith in
      let b : bit k (bit_and y 0xB00) ≡ bit k 0 = ap (bit k) zero_mask in
      absurd (omega (arith, bit-bit_and k y 0xB00, bit-zero k))
  | inr n ↦ n
]

three_bits :
    (y : ℕ) (p q r : Bool)
    → bit 11 y ≡ to_nat p
    → bit 9 y ≡ to_nat q
    → bit 8 y ≡ to_nat r
    → not (bit_and y 0xB00 == 0) ≡ (p || (q || r))
three_bits y true q r b11 b9 b8 = ap not (bit_shows 11 y refl b11)
three_bits y false true r b11 b9 b8 = ap not (bit_shows 9 y refl b9)
three_bits y false false true b11 b9 b8 = ap not (bit_shows 8 y refl b8)
three_bits y false false false b11 b9 b8 = rw (all_clear y b11 b9 b8) refl

bit-masked :
    (k x m : ℕ) (b : Bool) → bit k x ≡ to_nat b → bit k (bit_and x m) ≡ to_nat (b && bit k m == 1)
bit-masked k x m b h = rw (bit-bit_and k x m, h) (ground (arith, bit-lt k m))

any_line :
    (s t e : Bool) (m : ℕ)
    → not (bit_and (bit_and (mip_of s t e) m) 0xB00 == 0)
      ≡ ((s && bit 11 m == 1) || ((t && bit 9 m == 1) || (e && bit 8 m == 1)))
any_line s t e m =
    let x = bit_and (mip_of s t e) m in
    let (b11, b9, b8) = bits-mip_of s t e in
    three_bits x (s && bit 11 m == 1) (t && bit 9 m == 1) (e && bit 8 m == 1)
      (bit-masked 11 (mip_of s t e) m s b11) (bit-masked 9 (mip_of s t e) m t b9)
      (bit-masked 8 (mip_of s t e) m e b8)

one_line :
    (k x m : ℕ) (b : Bool)
    → k < 32
    → bit k x ≡ to_nat b
    → not (bit_and (bit_and (bit_and x m) (not32 0)) (2 ^ k) == 0) ≡ (b && bit k m == 1)
one_line k x m b hk h =
    let y = bit_and x m in
    rw
      (
        bit_test k (bit_and y (not32 0)),
        bit-bit_and k y (not32 0),
        bit-complement 32 k 0 (omega arith) hk,
        bit-zero k,
        bit-bit_and k x m,
        h,
      )
      (ground (arith, bit-lt k m))

or_nothing : (x b : Bool) → (x || (if b then false else false)) ≡ x
or_nothing true b = refl
or_nothing false true = refl
or_nothing false false = refl

no_choice : (b : Bool) (c : Core) → (if b then c else c) ≡ c
no_choice true c = refl
no_choice false c = refl

nothing_delegated : (c : Core) → c.csr_registers mideleg ≡ 0 → handle_supervisor c ≡ c
unfolding handle_supervisor
nothing_delegated c h =
    rw (h, bit_and-zero (c.csr_registers mip), zero_bit_and (c.csr_registers sie)) (no_choice _ c)

-- The state of the tests: mip shows what is raised, and nothing is delegated.
pending_lem :
    (c : Core)
    → csr_value c mideleg ≡ 0
    → (check_pending_interrupts c).0 ≡ (
        fires c machine_software_interrupt
        || (fires c machine_timer_interrupt || fires c machine_external_interrupt))
unfolding check_pending_interrupts csr_value
pending_lem c h =
    let hm : c.csr_registers mideleg ≡ 0 = h in
    let m = c.csr_registers mie in
    rw
      (
        raised_software c.clint c.core_id,
        raised_timer c.clint c.core_id,
        raised_external c.plic c.core_id,
        hm,
        bit_and-zero (raised_mip c),
        zero_bit_and (c.csr_registers sie),
        any_line (is_raised c machine_software_interrupt) (is_raised c machine_timer_interrupt)
            (is_raised c machine_external_interrupt) m,
      )
      (or_nothing _ _)

handled :
    (c : Core)
    → bit 3 (csr_value c mstatus) ≡ 1
    → csr_value c mideleg ≡ 0
    → (let d = write_csr_register c mip (raised_mip c) in
        handle_pending d ≡ (
          if fires c machine_software_interrupt
          then take_interrupt d machine_software_interrupt
          else if fires c machine_timer_interrupt
          then take_interrupt d machine_timer_interrupt
          else if fires c machine_external_interrupt
          then take_interrupt d machine_external_interrupt
          else d))
unfolding handle_pending csr_value
handled c enabled h =
    let m = c.csr_registers mie in
    let d = write_csr_register c mip (raised_mip c) in
    let s = is_raised c machine_software_interrupt in
    let t = is_raised c machine_timer_interrupt in
    let e = is_raised c machine_external_interrupt in
    let (b11, b9, b8) = bits-mip_of s t e in
    let hm : c.csr_registers mideleg ≡ 0 = h in
    rw
      (
        bit_and-shift 3 (c.csr_registers mstatus),
        enabled,
        nothing_delegated d h,
        h,
        one_line 11 (mip_of s t e) m s (omega arith) b11,
        one_line 9 (mip_of s t e) m t (omega arith) b9,
        one_line 8 (mip_of s t e) m e (omega arith) b8,
      )
      refl

if_none :
    {A : Type 0} (s t e : Bool) (x y z d : A)
    → (if (s || (t || e)) then (if s then x else if t then y else if e then z else d) else d)
      ≡ (if s then x else if t then y else if e then z else d)
if_none true t e x y z d = refl
if_none false true e x y z d = refl
if_none false false true x y z d = refl
if_none false false false x y z d = refl

shows : (c : Core) → (check_pending_interrupts c).1 ≡ update_mip_csr c
unfolding check_pending_interrupts
shows c = refl

-- With MIE set and nothing delegated, `handle_interrupt` shows in mip what the CLINT and the PLIC
-- raise for the core and takes the first of software, timer and external interrupt that is raised
-- and enabled; it takes none where there is no such interrupt. An interrupt is enabled by its bit
-- at the places 11, 9 and 8 of mie.
pub handle_interrupt_lem :
    (c : Core)
    → bit 3 (csr_value c mstatus) ≡ 1
    → csr_value c mideleg ≡ 0
    → (d : Core) × (update_mip_csr c ≡ d)
      × (handle_interrupt c ≡ (
          if fires c machine_software_interrupt
          then take_interrupt d machine_software_interrupt
          else if fires c machine_timer_interrupt
          then take_interrupt d machine_timer_interrupt
          else if fires c machine_external_interrupt
          then take_interrupt d machine_external_interrupt
          else d))
unfolding handle_interrupt
handle_interrupt_lem c enabled h =
    let d = write_csr_register c mip (raised_mip c) in
    (
      write_csr_register c mip (raised_mip c),
      mip-update_mip_csr c,
      rw
          (
            pending_lem c h,
            shows c,
            update_mip_csr_twice c,
            mip-update_mip_csr c,
            handled c enabled h,
          )
          (if_none (fires c machine_software_interrupt) (fires c machine_timer_interrupt)
            (fires c machine_external_interrupt) (take_interrupt d machine_software_interrupt)
            (take_interrupt d machine_timer_interrupt) (take_interrupt d machine_external_interrupt)
            d),
    )

-- With mie as `init_csrs` leaves it, MIE set and nothing delegated, the CLINT's timer and the PLIC
-- never interrupt the core: where no software interrupt is raised, `handle_interrupt` only shows in
-- mip what is raised.
pub initial_mie_masks :
    (c : Core)
    → bit 3 (csr_value c mstatus) ≡ 1
    → csr_value c mideleg ≡ 0
    → csr_value c mie ≡ initial_csr mie
    → is_raised c machine_software_interrupt ≡ false
    → handle_interrupt c ≡ update_mip_csr c
initial_mie_masks c enabled h e quiet =
    let (d, shown, taken) = handle_interrupt_lem c enabled h in
    taken ∙ rw (quiet, e, shown) (ground arith)
