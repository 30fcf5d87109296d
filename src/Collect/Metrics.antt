-- ===== src/Collect/Metrics.antt =====
-- internal/collect/collect.go: the samples of a cycle.
use observant_agent.Base.{ℕ, List, Option}
use observant_agent.Base.Clock.{Time}
use observant_agent.Base.Decimal.{ℤ}
use observant_agent.Base.Text.{Bytes}

-- What `Encode` reads of `cpu.TimesStat`.
pub record Times (F : Type 0) : Type 0 where
  pub user : F
  pub system : F
  pub idle : F
  pub nice : F
  pub iowait : F
  pub irq : F
  pub softirq : F
  pub steal : F

pub record Cpu (F : Type 0) : Type 0 where
  pub cores : ℤ
  pub usage_percent : F
  pub user_percent : F
  pub system_percent : F
  pub iowait_percent : F
  pub steal_percent : F
  pub idle_percent : F
  pub times : Times F

pub record Load (F : Type 0) : Type 0 where
  pub load1 : F
  pub load5 : F
  pub load15 : F

pub record Mem (F : Type 0) : Type 0 where
  pub total : ℕ
  pub used : ℕ
  pub available : ℕ
  pub free : ℕ
  pub cached : ℕ
  pub buffers : ℕ
  pub used_percent : F
  pub swap_total : ℕ
  pub swap_used : ℕ
  pub swap_free : ℕ
  pub swap_used_percent : F

pub record Disk (F : Type 0) : Type 0 where
  pub mount : Bytes
  pub device : Bytes
  pub fstype : Bytes
  pub total : ℕ
  pub used : ℕ
  pub free : ℕ
  pub used_percent : F
  pub inodes_total : ℕ
  pub inodes_used : ℕ
  pub inodes_free : ℕ
  pub inodes_used_percent : F

pub record DiskIo : Type 0 where
  pub device : Bytes
  pub read_bytes : ℕ
  pub write_bytes : ℕ
  pub read_ops : ℕ
  pub write_ops : ℕ
  pub read_time : ℕ
  pub write_time : ℕ
  pub io_time : ℕ
  pub in_progress : ℕ

pub record Net : Type 0 where
  pub interface : Bytes
  pub rx_bytes : ℕ
  pub tx_bytes : ℕ
  pub rx_packets : ℕ
  pub tx_packets : ℕ
  pub rx_errs : ℕ
  pub tx_errs : ℕ
  pub rx_drops : ℕ
  pub tx_drops : ℕ

pub record Host : Type 0 where
  pub uptime : ℕ
  pub boot_time : ℕ
  pub procs : ℕ
  pub os : Bytes
  pub platform : Bytes
  pub platform_version : Bytes
  pub kernel : Bytes
  pub arch : Bytes
  pub virtualization : Bytes

-- A section that failed is `none`; `errs` holds the texts of the reasons.
pub record Snapshot (F : Type 0) : Type 0 where
  pub time : Time
  pub cpu : Option (Cpu F)
  pub load : Option (Load F)
  pub mem : Option (Mem F)
  pub disks : List (Disk F)
  pub disk_io : List DiskIo
  pub nets : List Net
  pub host : Option Host
  pub errs : List Bytes
