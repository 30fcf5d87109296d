-- ===== src/Collect/Readers.antt =====
-- internal/collect/collect.go: `Collector`, and the readers of the processor, the load, the memory,
-- the block devices, the interfaces and the host.
use observant_agent.Base.{
  ℕ, suc, zero, Bool, false, not, ◌&&◌, List, [], ◌∷◌, Option, none, some, ◌==◌, if◌then◌else◌, map,
  select,
}
use observant_agent.Base.Clock.{Time}
use observant_agent.Base.Decimal.{ℤ, pos, negsuc}
use observant_agent.Base.Results.{Result, ok, err}
use observant_agent.Base.Text.{Bytes, codes}
use observant_agent.Collect.Deadline.{Problem, fault, deadline}
use observant_agent.Collect.Filters.{skip_block_device, skip_interface}
use observant_agent.Collect.Metrics.{Times, Cpu, Load, Mem, DiskIo, Net, Host}
use observant_agent.Collect.Percent.{round2, or_zero_times, cpu_between}
use observant_agent.Collect.Probes.{Swap, VirtualMemory, IoCounters, NetCounters, Probes}
use observant_agent.Docker.Sample.{Arith}

-- `prev_cpu` is `none` where `haveCPU` is false. The timeouts are those that `New` sets.
pub record Collector (F : Type 0) : Type 0 where
  pub prev_cpu : Option (Times F)
  pub cores : ℤ
  pub mount_err : List (Bytes × Bool)
  pub mount_timeouts : List (Bytes × ℕ)
  pub timeout_at : List (Bytes × Time)
  pub inflight : List (Bytes × Bool)

abbrev pub new_collector : {F : Type 0} → Collector F
new_collector = record {
  prev_cpu = none;
  cores = pos 0;
  mount_err = [];
  mount_timeouts = [];
  timeout_at = [];
  inflight = [];
}

-- The texts of `collectorTimeout` and `mountTimeout`.
abbrev pub collector_timeout : Bytes
collector_timeout = codes "5s"

abbrev pub mount_timeout : Bytes
mount_timeout = codes "2s"

-- `n > 0` replaces the number of cores.
abbrev pub cores_or : ℤ → Result Problem ℤ → ℤ
cores_or old (err p) = old
cores_or old (ok (pos zero)) = old
cores_or old (ok (pos (suc n))) = pos (suc n)
cores_or old (ok (negsuc n)) = old

abbrev pub is_zero_int : ℤ → Bool
is_zero_int (pos n) = n == 0
is_zero_int (negsuc n) = false

-- The value that a reader makes of an answer.
abbrev pub on_ok : {A B : Type 0} → (A → B) → Result Problem A → Result Problem B
on_ok f (err p) = err p
on_ok f (ok a) = ok (f a)

abbrev pub disk_io_of : Bytes × IoCounters → DiskIo
disk_io_of (name, v) = record {
  device = name;
  read_bytes = v.read_bytes;
  write_bytes = v.write_bytes;
  read_ops = v.read_count;
  write_ops = v.write_count;
  read_time = v.read_time;
  write_time = v.write_time;
  io_time = v.io_time;
  in_progress = v.iops_in_progress;
}

-- Neither skipped nor idle since boot.
unfoldable pub keeps_device : Bytes × IoCounters → Bool
keeps_device (name, v) =
    not (skip_block_device name)
    && not (v.read_bytes == 0 && v.write_bytes == 0 && v.read_count == 0 && v.write_count == 0)

abbrev pub net_of : NetCounters → Net
net_of v = record {
  interface = v.name;
  rx_bytes = v.bytes_recv;
  tx_bytes = v.bytes_sent;
  rx_packets = v.packets_recv;
  tx_packets = v.packets_sent;
  rx_errs = v.errin;
  tx_errs = v.errout;
  rx_drops = v.dropin;
  tx_drops = v.dropout;
}

unfoldable pub keeps_interface : NetCounters → Bool
keeps_interface v = not (skip_interface v.name) && not (v.bytes_recv == 0 && v.bytes_sent == 0)

module _ (ar : Arith) where
  open ar use {floats, mul, div, add, sub, less, less_eq, round}
  open floats use {Float, is_nan, is_inf, of_uint64}

  module _ (probes : Probes Float) where
    open probes use {
      cpu_times, cpu_counts, load_avg, virtual_memory, swap_memory, io_counters, net_counters,
      host_info, sort_disk_io, sort_nets,
    }

    -- The number of cores is asked for until it is known.
    unfoldable pub count_cores : Collector Float → Collector Float
    unfolding deadline
    count_cores c =
        if is_zero_int c.cores
        then (let (r, flags) =
              deadline c.inflight (codes "cpu.counts") collector_timeout cpu_counts in
            record c { cores = cores_or c.cores r; inflight = flags })
        else c

    -- Behind the reading of the counters.
    unfoldable pub cpu_from :
        Collector Float
        → Result Problem (List (Times Float))
        → Result Problem (Cpu Float) × Collector Float
    unfolding count_cores cpu_between
    cpu_from c (err p) = (err p, c)
    cpu_from c (ok []) = (err (fault (codes "no cpu times returned")), c)
    cpu_from c (ok (now ∷ rest)) =
        let c1 = count_cores c in
        (
          ok (cpu_between ar c1.cores (or_zero_times ar c1.prev_cpu) now),
          record c1 { prev_cpu = some now },
        )

    unfoldable pub collect_cpu : Collector Float → Result Problem (Cpu Float) × Collector Float
    unfolding cpu_from deadline
    collect_cpu c =
        let (r, flags) = deadline c.inflight (codes "cpu") collector_timeout cpu_times in
        cpu_from (record c { inflight = flags }) r

    -- `Prime`.
    unfoldable pub prime_from :
        Collector Float → Result Problem (List (Times Float)) → Collector Float
    prime_from c (err p) = c
    prime_from c (ok []) = c
    prime_from c (ok (now ∷ rest)) = record c { prev_cpu = some now }

    unfoldable pub prime : Collector Float → Collector Float
    unfolding prime_from deadline
    prime c =
        let (r, flags) = deadline c.inflight (codes "cpu") collector_timeout cpu_times in
        prime_from (record c { inflight = flags }) r

    unfoldable pub collect_load : Collector Float → Result Problem (Load Float) × Collector Float
    unfolding deadline
    collect_load c =
        let (r, flags) = deadline c.inflight (codes "load") collector_timeout load_avg in
        (r, record c { inflight = flags })

    -- The memory with the swap, where that is known.
    unfoldable pub mem_of : VirtualMemory Float → Result Problem (Swap Float) → Mem Float
    unfolding round2
    mem_of v (err p) = record {
      total = v.total;
      used = v.used;
      available = v.available;
      free = v.free;
      cached = v.cached;
      buffers = v.buffers;
      used_percent = round2 ar v.used_percent;
      swap_total = 0;
      swap_used = 0;
      swap_free = 0;
      swap_used_percent = of_uint64 0;
    }
    mem_of v (ok s) = record {
      total = v.total;
      used = v.used;
      available = v.available;
      free = v.free;
      cached = v.cached;
      buffers = v.buffers;
      used_percent = round2 ar v.used_percent;
      swap_total = s.total;
      swap_used = s.used;
      swap_free = s.free;
      swap_used_percent = round2 ar s.used_percent;
    }

    unfoldable pub mem_from :
        Collector Float
        → Result Problem (VirtualMemory Float)
        → Result Problem (Mem Float) × Collector Float
    unfolding mem_of deadline
    mem_from c (err p) = (err p, c)
    mem_from c (ok v) =
        let (r, flags) = deadline c.inflight (codes "mem.swap") collector_timeout swap_memory in
        (ok (mem_of v r), record c { inflight = flags })

    unfoldable pub collect_mem : Collector Float → Result Problem (Mem Float) × Collector Float
    unfolding mem_from deadline
    collect_mem c =
        let (r, flags) = deadline c.inflight (codes "mem") collector_timeout virtual_memory in
        mem_from (record c { inflight = flags }) r

    unfoldable pub collect_disk_io :
        Collector Float → Result Problem (List DiskIo) × Collector Float
    unfolding deadline keeps_device
    collect_disk_io c =
        let (r, flags) = deadline c.inflight (codes "diskio") collector_timeout io_counters in
        (
          on_ok (λ vs. sort_disk_io (map disk_io_of (select keeps_device vs))) r,
          record c { inflight = flags },
        )

    unfoldable pub collect_net : Collector Float → Result Problem (List Net) × Collector Float
    unfolding deadline keeps_interface
    collect_net c =
        let (r, flags) = deadline c.inflight (codes "net") collector_timeout net_counters in
        (
          on_ok (λ vs. sort_nets (map net_of (select keeps_interface vs))) r,
          record c { inflight = flags },
        )

    unfoldable pub collect_host : Collector Float → Result Problem Host × Collector Float
    unfolding deadline
    collect_host c =
        let (r, flags) = deadline c.inflight (codes "host") collector_timeout host_info in
        (r, record c { inflight = flags })
