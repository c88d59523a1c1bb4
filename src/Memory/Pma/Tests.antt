-- ===== src/Memory/Pma/Tests.antt =====
-- A table of two regions that overlap.
use riscv_emulator.Base.{◌≡◌, arith, [], ◌∷◌, some, true}
use riscv_emulator.Memory.Pma.{
  PmaController, create, add_region, find_entry, entry_of, normal_memory, device_memory, write_back,
  uncached,
}
use riscv_emulator.Memory.Pma.Regions.{IsSorted, find_entry-add_region}

create-IsSorted : IsSorted 0 create.pma_regions
unfolding create
create-IsSorted = tt

-- The region that is there, at 0x1000, starts above the one that is added at 0x800.
abbrev one_region : PmaController
one_region = record {
  pma_regions = entry_of 0x1000 0x1FFF normal_memory write_back ∷ [];
  pmacfg = λ i. 0;
  pmaaddr = λ i. 0;
  mseccfg = 0;
  enabled = true;
}

find_entry_example :
    find_entry (add_region one_region 0x800 0x2FFF device_memory uncached) 0x1800
    ≡ some (entry_of 0x800 0x2FFF device_memory uncached)
unfolding find_entry
find_entry_example =
    find_entry-add_region one_region 0x800 0x2FFF 0x1800 device_memory uncached (omega arith, tt)
