-- ===== src/Memory/Cache/Stats.antt =====
-- The statistics of a cache: struct CacheStats of emulator/include/memory/Cache.h. Its rates, which
-- are floating point, are left out.
use riscv_emulator.Base.{
  ℕ, ◌+◌, ◌%◌, ◌^◌, Bool, List, [], ltb, if◌then◌else◌, length, get_or, set, replicate,
}

pub record CacheStats : Type 0 where
  pub hits : ℕ
  pub misses : ℕ
  pub accesses : ℕ
  pub writebacks : ℕ
  pub total_access_time : ℕ
  pub total_miss_penalty : ℕ
  pub total_hit_time : ℕ
  pub total_miss_time : ℕ
  pub core_hits : List ℕ
  pub core_misses : List ℕ
  pub core_accesses : List ℕ
  pub core_writebacks : List ℕ
  pub core_access_time : List ℕ
  pub core_miss_penalty : List ℕ
  pub core_hit_time : List ℕ
  pub core_miss_time : List ℕ

abbrev pub zero_stats : CacheStats
zero_stats = record {
  hits = 0;
  misses = 0;
  accesses = 0;
  writebacks = 0;
  total_access_time = 0;
  total_miss_penalty = 0;
  total_hit_time = 0;
  total_miss_time = 0;
  core_hits = [];
  core_misses = [];
  core_accesses = [];
  core_writebacks = [];
  core_access_time = [];
  core_miss_penalty = [];
  core_hit_time = [];
  core_miss_time = [];
}

unfoldable pub init_core_stats : CacheStats → ℕ → CacheStats
init_core_stats s num_cores = record s {
  core_hits = replicate num_cores 0;
  core_misses = replicate num_cores 0;
  core_accesses = replicate num_cores 0;
  core_writebacks = replicate num_cores 0;
  core_access_time = replicate num_cores 0;
  core_miss_penalty = replicate num_cores 0;
  core_hit_time = replicate num_cores 0;
  core_miss_time = replicate num_cores 0;
}

-- `x += n` of a uint64_t, and `v[i] += n` of a vector of them.
abbrev pub add64 : ℕ → ℕ → ℕ
add64 x n = (x + n) % 2 ^ 64

abbrev pub add_at : List ℕ → ℕ → ℕ → List ℕ
add_at xs i n = set xs i (add64 (get_or xs i 0) n)

unfoldable pub update_core_stats : CacheStats → ℕ → Bool → ℕ → ℕ → CacheStats
update_core_stats s core_id is_hit access_time miss_penalty =
    if ltb core_id (length s.core_accesses)
    then (let s' = record s {
      core_accesses = add_at s.core_accesses core_id 1;
      core_access_time = add_at s.core_access_time core_id access_time;
    } in
        if is_hit
        then record s' {
          core_hits = add_at s.core_hits core_id 1;
          core_hit_time = add_at s.core_hit_time core_id access_time;
          total_hit_time = add64 s.total_hit_time access_time;
        }
        else record s' {
          core_misses = add_at s.core_misses core_id 1;
          core_miss_penalty = add_at s.core_miss_penalty core_id miss_penalty;
          core_miss_time = add_at s.core_miss_time core_id access_time;
          total_miss_time = add64 s.total_miss_time access_time;
        })
    else s

unfoldable pub update_core_writeback : CacheStats → ℕ → CacheStats
update_core_writeback s core_id =
    if ltb core_id (length s.core_writebacks)
    then record s { core_writebacks = add_at s.core_writebacks core_id 1 }
    else s

unfoldable pub reset : CacheStats → CacheStats
reset s = record {
  hits = 0;
  misses = 0;
  accesses = 0;
  writebacks = 0;
  total_access_time = 0;
  total_miss_penalty = 0;
  total_hit_time = 0;
  total_miss_time = 0;
  core_hits = replicate (length s.core_hits) 0;
  core_misses = replicate (length s.core_misses) 0;
  core_accesses = replicate (length s.core_accesses) 0;
  core_writebacks = replicate (length s.core_writebacks) 0;
  core_access_time = replicate (length s.core_access_time) 0;
  core_miss_penalty = replicate (length s.core_miss_penalty) 0;
  core_hit_time = replicate (length s.core_hit_time) 0;
  core_miss_time = replicate (length s.core_miss_time) 0;
}
