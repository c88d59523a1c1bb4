-- ===== src/Memory/Cache/Tests.antt =====
-- Caches of two sets of two lines of 16 bytes over a DRAM of 256 bytes.
use riscv_emulator.Base.{ℕ, ◌≡◌, refl, arith, true, false, none, some}
use riscv_emulator.Memory.Interface.{Implements}
use riscv_emulator.Memory.Ddr.Contract.{interface, view, interface-Implements}
use riscv_emulator.Memory.Ddr.Contract
use riscv_emulator.Memory.Ddr.Tests.{dram, dram-IsSound}
use riscv_emulator.Memory.Cache.{Cache, CacheConfig, create}
use riscv_emulator.Memory.Cache.Access.{read, write, write_behind, translate_address}
use riscv_emulator.Memory.Cache.Blocks.{layer}
use riscv_emulator.Memory.Cache.Lines.{content}
use riscv_emulator.Memory.Cache.Hold.{IsSound, updated}
use riscv_emulator.Memory.Cache.Transparent.{Reads, Writes}
use riscv_emulator.Memory.Cache.Written.{read-Reads, write-Writes}
use riscv_emulator.Memory.Cache.Behind.{IsBehind, write_behind-IsBehind}
use riscv_emulator.Memory.Cache.Manage.{flush}
use riscv_emulator.Memory.Cache.FlushRange.{IsWrittenBack, flush-IsWrittenBack}
use riscv_emulator.Memory.Cache.Exchange.{Exchanges, cache_atomic, cache_atomic-Exchanges}
use riscv_emulator.Memory.Ddr.Atomics.{compare_swaps, result}
use riscv_emulator.Memory.Cache.Layer.{LayerGood, layer_view}
use riscv_emulator.Memory.Cache.Stack.{layer-Implements}
use riscv_emulator.Memory.Cache.Create.{IsConfig, made, made-IsSound, create-IsSound}

abbrev config : CacheConfig
config = record {
  size = 64;
  associativity = 2;
  block_size = 16;
  is_instruction_cache = false;
  access_latency = 1;
  miss_penalty = 10;
}

config-IsConfig : IsConfig config 4 2
config-IsConfig = record {
  block = refl;
  words = omega arith;
  block_lt = omega arith;
  ways = omega arith;
  sets = omega arith;
  sized = refl;
  fits = omega arith;
}

abbrev law : Implements interface 256 (Contract.IsSound 256) view
law = interface-Implements 256 (omega arith)

abbrev cache : Cache
cache = made config 4 2 config-IsConfig

cache-IsSound : IsSound interface 256 (Contract.IsSound 256) view law cache dram
cache-IsSound =
    made-IsSound config 4 2 config-IsConfig interface 256 (Contract.IsSound 256) view law dram
      dram-IsSound (omega arith) refl

create-IsSound_example :
    (c : Cache) × (create config ≡ some c)
    × (IsSound interface 256 (Contract.IsSound 256) view law c dram)
    × ((a : ℕ) → content c (view dram) a ≡ view dram a)
create-IsSound_example =
    create-IsSound config 4 2 config-IsConfig interface 256 (Contract.IsSound 256) view law dram
      dram-IsSound (omega arith) refl

layer-Implements_example :
    Implements
      (layer interface)
      256
      (LayerGood interface 256 (Contract.IsSound 256) view law (omega arith))
      (layer_view interface 256 (Contract.IsSound 256) view law (omega arith))
layer-Implements_example =
    layer-Implements interface 256 (Contract.IsSound 256) view law (omega arith)

read-Reads_example :
    Reads interface 256
      (Contract.IsSound 256)
      view
      law
      (content cache (view dram))
      (content cache (view dram) (translate_address none cache 72 false false).0)
      (read (some interface) none cache dram 72 false 0)
unfolding translate_address
read-Reads_example =
    read-Reads interface 256 (Contract.IsSound 256) view law none cache dram 72 false 0
      cache-IsSound (refl, omega arith)

write-Writes_example :
    Writes interface 256
      (Contract.IsSound 256)
      view
      law
      (updated (content cache (view dram)) (translate_address none cache 72 true false).0 5)
      (write (some interface) none cache dram 72 5 0)
unfolding translate_address
write-Writes_example =
    write-Writes interface 256 (Contract.IsSound 256) view law none cache dram 72 5 0 cache-IsSound
      (refl, omega arith) (omega arith) refl

write_behind-IsBehind_example :
    IsBehind interface 256
      (Contract.IsSound 256)
      view
      law
      cache
      dram
      72
      5
      (write_behind (some interface) cache dram 72 5 0).0
      (write_behind (some interface) cache dram 72 5 0).1
write_behind-IsBehind_example =
    write_behind-IsBehind interface 256 (Contract.IsSound 256) view law cache dram 72 5 0
      cache-IsSound (refl, omega arith) (omega arith)

flush-IsWrittenBack_example :
    IsWrittenBack interface 256
      (Contract.IsSound 256)
      view
      law
      cache
      dram
      72
      (flush (some interface) cache dram 72).0
      (flush (some interface) cache dram 72).1
flush-IsWrittenBack_example =
    flush-IsWrittenBack interface 256 (Contract.IsSound 256) view law cache dram 72 cache-IsSound

cache_atomic-Exchanges_example :
    Exchanges interface 256
      (Contract.IsSound 256)
      view
      law
      cache
      dram
      (translate_address none cache 72 true false).0
      (result (compare_swaps 0 5) (view dram (translate_address none cache 72 true false).0))
      (cache_atomic (some interface) none cache dram 72 (compare_swaps 0 5) 0)
unfolding translate_address
cache_atomic-Exchanges_example =
    cache_atomic-Exchanges interface 256 (Contract.IsSound 256) view law none cache dram 72
      (compare_swaps 0 5) 0 cache-IsSound (refl, omega arith) (omega arith)
