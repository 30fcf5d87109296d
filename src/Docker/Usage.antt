-- ===== src/Docker/Usage.antt =====
-- The memory of a sample.
use observant_agent.Base.{ℕ, ◌≤◌, List, [], ◌∷◌, arith, ltb, if◌then◌else◌}
use observant_agent.Base.Text.{Bytes}
use observant_agent.Docker.Sample.{
  StatsJson, without_cache, memory_of, cache_keys, max_plausible_memory,
}

without_cache-le :
    (keys : List Bytes) (stats : List (Bytes × ℕ)) (used : ℕ) → without_cache keys stats used ≤ used
unfolding without_cache
without_cache-le [] stats used = omega arith
without_cache-le (key ∷ keys) stats used = ground (arith, without_cache-le keys stats used)

-- Whatever the runtime reports: the memory in use is at most the reported usage; it is at most the
-- limit where the reading is good and a limit is reported, at most 1 TiB where none is, and 0 where
-- the reading is bad; and a reported limit is at most 1 TiB.
pub memory_of_bounds :
    (raw : StatsJson)
    → let m = memory_of raw in
      (m.used ≤ raw.memory_usage)
      × (m.used ≤ (if m.ok then (if ltb 0 m.limit then m.limit else max_plausible_memory) else 0))
      × (m.limit ≤ max_plausible_memory)
unfolding memory_of
memory_of_bounds raw =
    let less = without_cache-le cache_keys raw.memory_stats raw.memory_usage in ground arith
