-- ===== src/Docker/Sample.antt =====
-- internal/docker/docker.go: `stats`, the arithmetic of one sample of a running container.
use observant_agent.Base.{
  ℕ, ◌+◌, ◌-◌, ◌/◌, ◌%◌, ◌^◌, Bool, true, false, not, ◌&&◌, ◌||◌, List, [], ◌∷◌, Option, none, some,
  ltb, leb, ◌==◌, if◌then◌else◌, length,
}
use observant_agent.Base.Clock.{Time, is_zero}
use observant_agent.Base.Decimal.{ℤ, pos}
use observant_agent.Base.Dict.{lookup, insert}
use observant_agent.Base.Text.{Bytes, codes, bytes_eq, to_lower}
use observant_agent.Docker.Restart.{Client, Container, CpuSample}
use observant_agent.Lineproto.Point.{Floats}

-- The float arithmetic of the collectors, over the floats of the encoder.
pub record Arith : Type 1 where
  pub floats : Floats
  pub mul : floats.Float → floats.Float → floats.Float
  pub div : floats.Float → floats.Float → floats.Float
  pub add : floats.Float → floats.Float → floats.Float
  pub sub : floats.Float → floats.Float → floats.Float
  pub less_eq : floats.Float → floats.Float → Bool
  pub less : floats.Float → floats.Float → Bool
  pub round : floats.Float → floats.Float

-- `maxPlausibleMemory`.
abbrev pub max_plausible_memory : ℕ
max_plausible_memory = 2 ^ 40

-- `statsJSON`, its nested structs flattened; `networks` and `stats` are maps.
pub record StatsJson : Type 0 where
  pub total_usage : ℕ
  pub percpu_usage : List ℕ
  pub system_cpu_usage : ℕ
  pub online_cpus : ℕ
  pub memory_usage : ℕ
  pub memory_limit : ℕ
  pub memory_stats : List (Bytes × ℕ)
  pub networks : List (Bytes × (ℕ × ℕ))
  pub blkio : List (Bytes × ℕ)
  pub pids : ℕ

pub record Stats (F : Type 0) : Type 0 where
  pub container : Container
  pub cpu_percent : F
  pub mem_used : ℕ
  pub mem_limit : ℕ
  pub mem_percent : F
  pub net_rx_bytes : ℕ
  pub net_tx_bytes : ℕ
  pub blk_read_byte : ℕ
  pub blk_write_byt : ℕ
  pub pids : ℕ
  pub cpu_total_nanos : ℕ
  pub mem_used_ok : Bool
  pub restart_count : ℤ
  pub has_restart_count : Bool

-- The number of cores that the percentage is relative to.
unfoldable pub cores_of : StatsJson → ℕ
cores_of raw =
    let cores = if raw.online_cpus == 0 then length raw.percpu_usage else raw.online_cpus in
    if cores == 0 then 1 else cores

-- The memory of a sample: `MemUsed`, `MemLimit` and `MemUsedOK`.
pub record Memory : Type 0 where
  pub used : ℕ
  pub limit : ℕ
  pub ok : Bool

-- The keys of the reclaimable page cache.
abbrev pub cache_keys : List Bytes
cache_keys = codes "inactive_file" ∷ codes "total_inactive_file" ∷ codes "cache" ∷ []

-- The loop over the keys: the first one that is there is taken off, unless it is more than `used`.
unfoldable pub without_cache : List Bytes → List (Bytes × ℕ) → ℕ → ℕ
without_cache [] stats used = used
without_cache (key ∷ keys) stats used = elim (lookup key stats) [
  | some v ↦ if leb v used then used - v else used
  | none ↦ without_cache keys stats used
]

unfoldable pub memory_of : StatsJson → Memory
memory_of raw =
    let used = without_cache cache_keys raw.memory_stats raw.memory_usage in
    let limit = if ltb max_plausible_memory raw.memory_limit then 0 else raw.memory_limit in
    let ok = not (ltb max_plausible_memory used) in
    let used = if ok then used else 0 in
    record {
      used = if (ok && ltb 0 limit) && ltb limit used then limit else used;
      limit = limit;
      ok = ok;
    }

-- `+=` on `uint64`.
abbrev pub add_uint64 : ℕ → ℕ → ℕ
add_uint64 a b = (a + b) % 2 ^ 64

unfoldable pub sum_networks : ℕ × ℕ → List (Bytes × (ℕ × ℕ)) → ℕ × ℕ
sum_networks sums [] = sums
sum_networks (rx, tx) ((name, (r, t)) ∷ ns) = sum_networks (add_uint64 rx r, add_uint64 tx t) ns

unfoldable pub sum_blkio : ℕ × ℕ → List (Bytes × ℕ) → ℕ × ℕ
sum_blkio sums [] = sums
sum_blkio (read, write) ((op, v) ∷ bs) =
    sum_blkio
      (if bytes_eq (to_lower op) (codes "read")
        then (add_uint64 read v, write)
        else if bytes_eq (to_lower op) (codes "write")
        then (read, add_uint64 write v)
        else (read, write))
      bs

module _ (ar : Arith) where
  open ar use {floats, mul, div, add, less, round}
  open floats use {Float, is_nan, is_inf, of_uint64}

  unfoldable pub clamp_percent : Float → ℕ → Float
  clamp_percent v cores =
      let max = mul (of_uint64 cores) (of_uint64 100) in
      if (is_nan v || is_inf v) || less v (of_uint64 0)
      then of_uint64 0
      else if less max v
      then max
      else div (round (mul v (of_uint64 100))) (of_uint64 100)

  -- `d.Seconds()` of a duration in nanoseconds that is not negative.
  unfoldable pub seconds : ℕ → Float
  seconds d =
      add (of_uint64 (d / 1_000_000_000))
        (div (of_uint64 (d % 1_000_000_000)) (of_uint64 1_000_000_000))

  -- The percentage from two readings; a duration below zero, where `now` is before `prev`, reads as 0.
  unfoldable pub cpu_between : CpuSample → CpuSample → ℕ → Float
  unfolding clamp_percent seconds
  cpu_between prev now cores =
      if ltb prev.system now.system
      then clamp_percent
          (mul
            (mul (div (of_uint64 (now.total - prev.total)) (of_uint64 (now.system - prev.system)))
              (of_uint64 cores))
            (of_uint64 100))
          cores
      else if not (is_zero prev.seen)
      then (let wall = seconds (now.seen - prev.seen) in
          let used = div (of_uint64 (now.total - prev.total)) (of_uint64 1_000_000_000) in
          if less (of_uint64 0) wall
          then clamp_percent (mul (div used wall) (of_uint64 100)) cores
          else of_uint64 0)
      else of_uint64 0

  -- `had && now.total >= prev.total` guards both paths.
  unfoldable pub cpu_percent_of : Option CpuSample → CpuSample → ℕ → Float
  unfolding cpu_between
  cpu_percent_of none now cores = of_uint64 0
  cpu_percent_of (some prev) now cores =
      if leb prev.total now.total then cpu_between prev now cores else of_uint64 0

  unfoldable pub mem_percent_of : Memory → Float
  mem_percent_of m =
      if m.ok && ltb 0 m.limit
      then div (round (mul (div (of_uint64 m.used) (of_uint64 m.limit)) (of_uint64 10000)))
          (of_uint64 100)
      else of_uint64 0

  -- The sample of a container from what the runtime answered at time `now`, and the client with the
  -- CPU reading of this cycle.
  unfoldable pub stats : Client → Container → StatsJson → Time → Client × Stats Float
  unfolding cores_of memory_of cpu_percent_of mem_percent_of sum_networks sum_blkio
  stats c ct raw now =
      let reading : CpuSample = record {
        total = raw.total_usage;
        system = raw.system_cpu_usage;
        seen = now;
      } in
      let memory = memory_of raw in
      let (rx, tx) = sum_networks (0, 0) raw.networks in
      let (read, write) = sum_blkio (0, 0) raw.blkio in
      (
        record c { prev = insert ct.id reading c.prev },
        record {
          container = record ct { running = true };
          cpu_percent = cpu_percent_of (lookup ct.id c.prev) reading (cores_of raw);
          mem_used = memory.used;
          mem_limit = memory.limit;
          mem_percent = mem_percent_of memory;
          net_rx_bytes = rx;
          net_tx_bytes = tx;
          blk_read_byte = read;
          blk_write_byt = write;
          pids = raw.pids;
          cpu_total_nanos = raw.total_usage;
          mem_used_ok = memory.ok;
          restart_count = pos 0;
          has_restart_count = false;
        },
      )
