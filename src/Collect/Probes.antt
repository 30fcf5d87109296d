-- ===== src/Collect/Probes.antt =====
-- What the readers of internal/collect/collect.go take from gopsutil, the clock and the libraries.
use observant_agent.Base.{ℕ, List}
use observant_agent.Base.Clock.{Time}
use observant_agent.Base.Decimal.{ℤ}
use observant_agent.Base.Text.{Bytes}
use observant_agent.Collect.Deadline.{Outcome}
use observant_agent.Collect.Metrics.{Times, Load, Disk, DiskIo, Net, Host}

-- What the readers take from the answers of gopsutil.
pub record Swap (F : Type 0) : Type 0 where
  pub total : ℕ
  pub used : ℕ
  pub free : ℕ
  pub used_percent : F

pub record VirtualMemory (F : Type 0) : Type 0 where
  pub total : ℕ
  pub used : ℕ
  pub available : ℕ
  pub free : ℕ
  pub cached : ℕ
  pub buffers : ℕ
  pub used_percent : F

pub record Partition : Type 0 where
  pub device : Bytes
  pub mountpoint : Bytes
  pub fstype : Bytes

pub record Usage (F : Type 0) : Type 0 where
  pub total : ℕ
  pub used : ℕ
  pub free : ℕ
  pub used_percent : F
  pub inodes_total : ℕ
  pub inodes_used : ℕ
  pub inodes_free : ℕ
  pub inodes_used_percent : F

pub record IoCounters : Type 0 where
  pub read_bytes : ℕ
  pub write_bytes : ℕ
  pub read_count : ℕ
  pub write_count : ℕ
  pub read_time : ℕ
  pub write_time : ℕ
  pub io_time : ℕ
  pub iops_in_progress : ℕ

pub record NetCounters : Type 0 where
  pub name : Bytes
  pub bytes_recv : ℕ
  pub bytes_sent : ℕ
  pub packets_recv : ℕ
  pub packets_sent : ℕ
  pub errin : ℕ
  pub errout : ℕ
  pub dropin : ℕ
  pub dropout : ℕ

-- gopsutil and the clock during one cycle; a map is the list of its entries in the order in which
-- the loop takes them. The sorts are `sort.Slice` by name, and `clean` is `path.Clean`.
pub record Probes (F : Type 0) : Type 0 where
  pub now : Time
  pub cpu_times : Outcome (List (Times F))
  pub cpu_counts : Outcome ℤ
  pub load_avg : Outcome (Load F)
  pub virtual_memory : Outcome (VirtualMemory F)
  pub swap_memory : Outcome (Swap F)
  pub partitions : Outcome (List Partition)
  pub usage : Bytes → Outcome (Usage F)
  pub io_counters : Outcome (List (Bytes × IoCounters))
  pub net_counters : Outcome (List NetCounters)
  pub host_info : Outcome Host
  pub sort_disks : List (Disk F) → List (Disk F)
  pub sort_disk_io : List DiskIo → List DiskIo
  pub sort_nets : List Net → List Net
  pub clean : Bytes → Bytes
