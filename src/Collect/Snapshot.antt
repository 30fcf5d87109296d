-- ===== src/Collect/Snapshot.antt =====
-- internal/collect/collect.go: `Snapshot` and its `Encode`.
use Prim.Native.String.{String}
use observant_agent.Base.{zero, suc, List, [], ◌∷◌, Option, none, some}
use observant_agent.Base.Clock.{Time}
use observant_agent.Base.Decimal.{ℤ, pos, negsuc, format_int}
use observant_agent.Base.Text.{Bytes, codes}
use observant_agent.Collect.Metrics.{Cpu, Load, Mem, Disk, DiskIo, Net, Host, Snapshot}
use observant_agent.Lineproto.Encoder.{Encoder, point}
use observant_agent.Lineproto.Point.{Floats, Tag, Field, unsigned, real}

abbrev pub label : String → Bytes → Tag
label key v = record { key = codes key; value = v }

-- The number of cores, where it is known.
unfoldable pub cpu_tags : ℤ → List Tag
cpu_tags (pos zero) = []
cpu_tags (pos (suc n)) = label "cores" (format_int (pos (suc n))) ∷ []
cpu_tags (negsuc n) = []

module _ (fl : Floats) where
  open fl use {Float}

  abbrev pub cpu_fields : Cpu Float → List (Field Float)
  cpu_fields v =
      real fl "usage_percent" v.usage_percent
      ∷ real fl "user_percent" v.user_percent
      ∷ real fl "system_percent" v.system_percent
      ∷ real fl "iowait_percent" v.iowait_percent
      ∷ real fl "steal_percent" v.steal_percent
      ∷ real fl "idle_percent" v.idle_percent
      ∷ real fl "user_seconds" v.times.user
      ∷ real fl "system_seconds" v.times.system
      ∷ real fl "idle_seconds" v.times.idle
      ∷ real fl "nice_seconds" v.times.nice
      ∷ real fl "iowait_seconds" v.times.iowait
      ∷ real fl "irq_seconds" v.times.irq
      ∷ real fl "softirq_seconds" v.times.softirq
      ∷ real fl "steal_seconds" v.times.steal
      ∷ []

  abbrev pub load_fields : Load Float → List (Field Float)
  load_fields v = real fl "load1" v.load1 ∷ real fl "load5" v.load5 ∷ real fl "load15" v.load15 ∷ []

  abbrev pub mem_fields : Mem Float → List (Field Float)
  mem_fields v =
      unsigned fl "total_bytes" v.total
      ∷ unsigned fl "used_bytes" v.used
      ∷ unsigned fl "available_bytes" v.available
      ∷ unsigned fl "free_bytes" v.free
      ∷ unsigned fl "cached_bytes" v.cached
      ∷ unsigned fl "buffers_bytes" v.buffers
      ∷ real fl "used_percent" v.used_percent
      ∷ unsigned fl "swap_total_bytes" v.swap_total
      ∷ unsigned fl "swap_used_bytes" v.swap_used
      ∷ unsigned fl "swap_free_bytes" v.swap_free
      ∷ real fl "swap_used_percent" v.swap_used_percent
      ∷ []

  abbrev pub disk_fields : Disk Float → List (Field Float)
  disk_fields d =
      unsigned fl "total_bytes" d.total
      ∷ unsigned fl "used_bytes" d.used
      ∷ unsigned fl "free_bytes" d.free
      ∷ real fl "used_percent" d.used_percent
      ∷ unsigned fl "inodes_total" d.inodes_total
      ∷ unsigned fl "inodes_used" d.inodes_used
      ∷ unsigned fl "inodes_free" d.inodes_free
      ∷ real fl "inodes_used_percent" d.inodes_used_percent
      ∷ []

  abbrev pub disk_io_fields : DiskIo → List (Field Float)
  disk_io_fields d =
      unsigned fl "read_bytes" d.read_bytes
      ∷ unsigned fl "write_bytes" d.write_bytes
      ∷ unsigned fl "read_ops" d.read_ops
      ∷ unsigned fl "write_ops" d.write_ops
      ∷ unsigned fl "read_time_ms" d.read_time
      ∷ unsigned fl "write_time_ms" d.write_time
      ∷ unsigned fl "io_time_ms" d.io_time
      ∷ unsigned fl "in_progress" d.in_progress
      ∷ []

  abbrev pub net_fields : Net → List (Field Float)
  net_fields n =
      unsigned fl "rx_bytes" n.rx_bytes
      ∷ unsigned fl "tx_bytes" n.tx_bytes
      ∷ unsigned fl "rx_packets" n.rx_packets
      ∷ unsigned fl "tx_packets" n.tx_packets
      ∷ unsigned fl "rx_errs" n.rx_errs
      ∷ unsigned fl "tx_errs" n.tx_errs
      ∷ unsigned fl "rx_drops" n.rx_drops
      ∷ unsigned fl "tx_drops" n.tx_drops
      ∷ []

  abbrev pub host_fields : Host → List (Field Float)
  host_fields v =
      unsigned fl "uptime_seconds" v.uptime
      ∷ unsigned fl "boot_time" v.boot_time
      ∷ unsigned fl "procs" v.procs
      ∷ []

  abbrev pub disk_tags : Disk Float → List Tag
  disk_tags d = label "mount" d.mount ∷ label "device" d.device ∷ label "fstype" d.fstype ∷ []

  abbrev pub disk_io_tags : DiskIo → List Tag
  disk_io_tags d = label "device" d.device ∷ []

  abbrev pub net_tags : Net → List Tag
  net_tags n = label "interface" n.interface ∷ []

  abbrev pub host_tags : Host → List Tag
  host_tags v =
      label "os" v.os
      ∷ label "platform" v.platform
      ∷ label "platform_version" v.platform_version
      ∷ label "kernel" v.kernel
      ∷ label "arch" v.arch
      ∷ label "virt" v.virtualization
      ∷ []

  unfoldable pub encode_cpu : Encoder → Time → Option (Cpu Float) → Encoder
  encode_cpu e ts none = e
  encode_cpu e ts (some v) = point fl e (codes "obs_cpu") (cpu_tags v.cores) (cpu_fields v) ts

  unfoldable pub encode_load : Encoder → Time → Option (Load Float) → Encoder
  encode_load e ts none = e
  encode_load e ts (some v) = point fl e (codes "obs_load") [] (load_fields v) ts

  unfoldable pub encode_mem : Encoder → Time → Option (Mem Float) → Encoder
  encode_mem e ts none = e
  encode_mem e ts (some v) = point fl e (codes "obs_mem") [] (mem_fields v) ts

  unfoldable pub encode_disks : Encoder → Time → List (Disk Float) → Encoder
  encode_disks e ts [] = e
  encode_disks e ts (v ∷ vs) =
      encode_disks (point fl e (codes "obs_disk") (disk_tags v) (disk_fields v) ts) ts vs

  unfoldable pub encode_disk_io : Encoder → Time → List DiskIo → Encoder
  encode_disk_io e ts [] = e
  encode_disk_io e ts (v ∷ vs) =
      encode_disk_io (point fl e (codes "obs_diskio") (disk_io_tags v) (disk_io_fields v) ts) ts vs

  unfoldable pub encode_nets : Encoder → Time → List Net → Encoder
  encode_nets e ts [] = e
  encode_nets e ts (v ∷ vs) =
      encode_nets (point fl e (codes "obs_net") (net_tags v) (net_fields v) ts) ts vs

  unfoldable pub encode_host : Encoder → Time → Option Host → Encoder
  encode_host e ts none = e
  encode_host e ts (some v) = point fl e (codes "obs_host") (host_tags v) (host_fields v) ts

  -- `Snapshot.Encode`.
  unfoldable pub encode : Encoder → Snapshot Float → Encoder
  unfolding encode_cpu encode_load encode_mem encode_disks encode_disk_io encode_nets encode_host
  encode e s =
      let ts = s.time in
      let e1 = encode_mem (encode_load (encode_cpu e ts s.cpu) ts s.load) ts s.mem in
      let e2 = encode_nets (encode_disk_io (encode_disks e1 ts s.disks) ts s.disk_io) ts s.nets in
      encode_host e2 ts s.host
