-- ===== src/Interrupt/Plic/Mmio.antt =====
-- The memory-mapped interface of the PLIC: PLIC::read and PLIC::write. Both hold `plic_mutex_` for
-- their whole run. Products of uint32_t wrap at 2 ^ 32.
use riscv_emulator.Base.{
  ℕ, ◌+◌, ◌-◌, ◌*◌, ◌/◌, ◌%◌, ◌^◌, Bool, true, ◌&&◌, [], bit_and, ltb, leb, if◌then◌else◌, length,
  get_or, set,
}
use riscv_emulator.Interrupt.Plic.Bitmap.{words_for}
use riscv_emulator.Interrupt.Plic.{
  Plic, Outcome, done, plic_base, priority_base, pending_base, enable_base, claim_complete_base,
  is_valid_source_id, is_valid_target_id, claim, complete,
}

abbrev pub offset_of : ℕ → ℕ
offset_of addr = (addr + 2 ^ 64 - plic_base) % 2 ^ 64

-- The register files that an offset may lie in.
abbrev pub in_priority : Plic → ℕ → Bool
in_priority p offset =
    leb priority_base offset && ltb offset (priority_base + p.num_sources * 4 % 2 ^ 32)

abbrev pub in_pending : Plic → ℕ → Bool
in_pending p offset =
    leb pending_base offset && ltb offset (pending_base + words_for p.num_sources * 4 % 2 ^ 32)

abbrev pub in_enable : Plic → ℕ → Bool
in_enable p offset =
    leb enable_base offset
    && ltb offset (enable_base + p.num_targets * words_for p.num_sources * 4 % 2 ^ 32)

abbrev pub in_claim : Plic → ℕ → Bool
in_claim p offset =
    leb claim_complete_base offset && ltb offset (claim_complete_base + p.num_targets * 4 % 2 ^ 32)

abbrev pub in_threshold : Plic → ℕ → Bool
in_threshold p offset =
    leb (claim_complete_base + p.num_targets * 4 % 2 ^ 32) offset
    && ltb offset (claim_complete_base + p.num_targets * 8 % 2 ^ 32)

-- The target and the word of an offset among the enable bitmaps.
abbrev pub enable_target : Plic → ℕ → ℕ
enable_target p offset = (offset - enable_base) / (words_for p.num_sources * 4)

abbrev pub enable_word : Plic → ℕ → ℕ
enable_word p offset = (offset - enable_base) % (words_for p.num_sources * 4) / 4

abbrev pub claim_target : ℕ → ℕ
claim_target offset = (offset - claim_complete_base) / 4

abbrev pub threshold_target : Plic → ℕ → ℕ
threshold_target p offset = (offset - claim_complete_base - p.num_targets * 4 % 2 ^ 32) / 4

-- The bodies, at an offset from PLIC_BASE.
unfoldable pub read_at : Plic → ℕ → Outcome ℕ
read_at p offset =
    let source_id = (offset - priority_base) / 4 in
    let row = get_or p.enable (enable_target p offset) [] in
    if in_priority p offset
    then done (if is_valid_source_id p source_id then get_or p.priorities source_id 0 else 0) p
    else if in_pending p offset
    then done (get_or p.pending ((offset - pending_base) / 4) 0) p
    else if in_enable p offset
    then done
        (if is_valid_target_id p (enable_target p offset) && ltb (enable_word p offset) (length row)
          then get_or row (enable_word p offset) 0
          else 0)
        p
    else if in_claim p offset
    then (if is_valid_target_id p (claim_target offset)
        then claim true p (claim_target offset)
        else done 0 p)
    else if in_threshold p offset
    then done
        (if is_valid_target_id p (threshold_target p offset)
          then get_or p.thresholds (threshold_target p offset) 0
          else 0)
        p
    else done 0 p

unfoldable pub write_at : Plic → ℕ → ℕ → Outcome Unit
write_at p offset value =
    let source_id = (offset - priority_base) / 4 in
    let t = enable_target p offset in
    let row = get_or p.enable t [] in
    if in_priority p offset
    then done tt (
        if is_valid_source_id p source_id
        then record p { priorities = set p.priorities source_id (bit_and value 7) }
        else p)
    else if in_enable p offset
    then done tt (
        if is_valid_target_id p t && ltb (enable_word p offset) (length row)
        then record p { enable = set p.enable t (set row (enable_word p offset) value) }
        else p)
    else if in_claim p offset
    then (if is_valid_target_id p (claim_target offset)
        then complete true p (claim_target offset) value
        else done tt p)
    else if in_threshold p offset
    then done tt (
        if is_valid_target_id p (threshold_target p offset)
        then record p {
          thresholds = set p.thresholds (threshold_target p offset) (bit_and value 7);
        }
        else p)
    else done tt p

unfoldable pub read : Plic → ℕ → Outcome ℕ
read p addr = read_at p (offset_of addr)

unfoldable pub write : Plic → ℕ → ℕ → Outcome Unit
write p addr value = write_at p (offset_of addr) value

-- The address of the claim and complete register of a target.
abbrev pub claim_address : ℕ → ℕ
claim_address t = plic_base + claim_complete_base + t * 4
