-- ===== src/Interrupt/Clint/Registers.antt =====
-- The memory-mapped registers of the CLINT, seen as a register file.
use riscv_emulator.Base.{
  ℕ, ◌+◌, ◌*◌, ◌≤◌, ◌<◌, ◌≡◌, refl, Bool, true, false, not, arith, ◌==◌, if◌then◌else◌, to_nat,
  length, get_or, get_or-set, set, length-set,
}
use riscv_emulator.Interrupt.Clint.{
  Clint, clint_base, mtimecmp_base, mtime_offset, read, write, generate_software_interrupt,
  clear_software_interrupt,
}

pub data Register : Type 0 where
  msip mtimecmp : ℕ → Register
  mtime : Register

abbrev pub address_of : Register → ℕ
address_of (msip i) = clint_base + i * 4
address_of (mtimecmp i) = clint_base + mtimecmp_base + i * 8
address_of mtime = clint_base + mtime_offset

-- The register exists, and the two files do not run into one another.
abbrev pub Exists : Clint → Register → Type 0
Exists c (msip i) = i < c.num_cores
Exists c (mtimecmp i) = i < c.num_cores
Exists c mtime = Unit

abbrev pub same : Register → Register → Bool
same (msip i) (msip j) = i == j
same (mtimecmp i) (mtimecmp j) = i == j
same mtime mtime = true
same _ _ = false

-- What a register holds after `v` is written to it: an MSIP register keeps one bit.
abbrev pub stored : Register → ℕ → ℕ
stored (msip i) v = to_nat (not (v == 0))
stored _ v = v

pub record IsSized (c : Clint) : Type 0 where
  pub few : c.num_cores ≤ 4095
  pub compares : length c.mtimecmp ≡ c.num_cores
  pub flags : length c.msip ≡ c.num_cores

-- What a register holds.
abbrev pub value_of : Clint → Register → ℕ
value_of c (msip i) = to_nat (get_or c.msip i false)
value_of c (mtimecmp i) = get_or c.mtimecmp i 0
value_of c mtime = c.mtime

read_lem :
    (c : Clint) (q : Register) → IsSized c → Exists c q → read c (address_of q) 8 ≡ value_of c q
unfolding read
read_lem c (msip i) w e = ground arith
read_lem c (mtimecmp i) w e = ground arith
read_lem c mtime w e = ground arith

abbrev put : Clint → Register → ℕ → Clint
put c (msip i) v = record c { msip = set c.msip i (not (v == 0)) }
put c (mtimecmp i) v = record c { mtimecmp = set c.mtimecmp i v }
put c mtime v = record c { mtime = v }

write_lem :
    (c : Clint) (r : Register) (v : ℕ)
    → IsSized c
    → Exists c r
    → write c (address_of r) v 8 ≡ put c r v
unfolding write
write_lem c (msip i) v w e = ground arith
write_lem c (mtimecmp i) v w e = ground arith
write_lem c mtime v w e = ground arith

put-IsSized : (c : Clint) (r : Register) (v : ℕ) → IsSized c → IsSized (put c r v)
put-IsSized c (msip i) v w = record {
  few = w.few;
  compares = w.compares;
  flags = omega (arith, w.flags, length-set c.msip i (not (v == 0)));
}
put-IsSized c (mtimecmp i) v w = record {
  few = w.few;
  compares = omega (arith, w.compares, length-set c.mtimecmp i v);
  flags = w.flags;
}
put-IsSized c mtime v w = record { few = w.few; compares = w.compares; flags = w.flags }

value_of-put :
    (c : Clint) (r q : Register) (v : ℕ)
    → IsSized c
    → Exists c r
    → value_of (put c r v) q ≡ (if same r q then stored r v else value_of c q)
value_of-put c (msip i) (msip j) v w e = ground (arith, get_or-set c.msip i j (not (v == 0)) false)
value_of-put c (mtimecmp i) (mtimecmp j) v w e = ground (arith, get_or-set c.mtimecmp i j v 0)
value_of-put c (msip i) (mtimecmp j) v w e = refl
value_of-put c (msip i) mtime v w e = refl
value_of-put c (mtimecmp i) (msip j) v w e = refl
value_of-put c (mtimecmp i) mtime v w e = refl
value_of-put c mtime (msip j) v w e = refl
value_of-put c mtime (mtimecmp j) v w e = refl
value_of-put c mtime mtime v w e = refl

Exists-put : (c : Clint) (r q : Register) (v : ℕ) → Exists c q → Exists (put c r v) q
Exists-put c (msip i) (msip j) v e = e
Exists-put c (mtimecmp i) (msip j) v e = e
Exists-put c mtime (msip j) v e = e
Exists-put c (msip i) (mtimecmp j) v e = e
Exists-put c (mtimecmp i) (mtimecmp j) v e = e
Exists-put c mtime (mtimecmp j) v e = e
Exists-put c r mtime v e = tt

-- For at most 4095 cores the CLINT is a register file under 8-byte accesses: a read that follows a
-- write gives what was stored, if the two name the same register, and else what it gave before.
pub read-write :
    (c : Clint) (r q : Register) (v : ℕ)
    → IsSized c
    → Exists c r
    → Exists c q
    → read (write c (address_of r) v 8) (address_of q) 8
      ≡ (if same r q then stored r v else read c (address_of q) 8)
read-write c r q v w er eq =
    rw
      (
        write_lem c r v w er,
        read_lem (put c r v) q (put-IsSized c r v w) (Exists-put c r q v eq),
        read_lem c q w eq,
      )
      (value_of-put c r q v w er)

-- A store to MSIP of a core is the software interrupt: any value but 0 raises it, 0 clears it.
pub write-software_interrupt :
    (c : Clint) (i v size : ℕ)
    → IsSized c
    → i < c.num_cores
    → write c (address_of (msip i)) v size
      ≡ (if v == 0 then clear_software_interrupt c i else generate_software_interrupt c i)
unfolding write clear_software_interrupt generate_software_interrupt
write-software_interrupt c i v size w h = ground arith

write_upper :
    (c : Clint) (i v : ℕ)
    → IsSized c
    → i < c.num_cores
    → write c (address_of (mtimecmp i) + 4) v 4 ≡ put c (mtimecmp i) v
unfolding write
write_upper c i v w h = ground arith

read_half_timer : (c : Clint) → IsSized c → read c (address_of mtime) 4 ≡ 0
unfolding read
read_half_timer c w = ground arith

write_half_timer : (c : Clint) (v : ℕ) → IsSized c → write c (address_of mtime) v 4 ≡ c
unfolding write
write_half_timer c v w = ground arith

-- RV32 reaches the 64-bit registers by words of 4 bytes. A store to the upper word of a compare
-- register replaces the whole register by that word, and a load of the timer gives 0.
pub word_access :
    (c : Clint) (i v : ℕ)
    → IsSized c
    → i < c.num_cores
    → (read (write c (address_of (mtimecmp i) + 4) v 4) (address_of (mtimecmp i)) 8 ≡ v)
      × (read c (address_of mtime) 4 ≡ 0)
      × (write c (address_of mtime) v 4 ≡ c)
word_access c i v w h = (
  rw (write_upper c i v w h, read_lem _ (mtimecmp i) (put-IsSized c (mtimecmp i) v w) h)
      (ground (arith, value_of-put c (mtimecmp i) (mtimecmp i) v w h)),
  read_half_timer c w,
  write_half_timer c v w,
)
