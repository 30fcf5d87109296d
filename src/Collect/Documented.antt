-- ===== src/Collect/Documented.antt =====
-- The lines of a snapshot, from the tables of METRICS.md.
use mathlib.Core.List.{append_assoc, append-nil}
use observant_agent.Base.{
  zero, suc, true, arith, sym, ltb, if◌then◌else◌, List, [], ◌∷◌, ◌++◌, map, Option, none, some,
  ◌≡◌, refl, ap, ◌∙◌,
}
use observant_agent.Base.Clock.{Time}
use observant_agent.Base.Decimal.{ℤ, pos, negsuc, format_uint, format_int}
use observant_agent.Base.Text.{codes}
use observant_agent.Collect.Items.{
  Item, each, cpu_item, load_item, mem_item, disk_item, disk_io_item, net_item, host_item, items,
  lines_of,
}
use observant_agent.Collect.Metrics.{Cpu, Load, Mem, Disk, DiskIo, Net, Host, Snapshot}
use observant_agent.Collect.Snapshot.{cpu_tags, cpu_fields}
use observant_agent.Lineproto.Point.{Floats, Tag, field_valid}
use observant_agent.Lineproto.Reader.{Line}
use observant_agent.Lineproto.RoundTrip.{written}
use observant_agent.Lineproto.Schema.{Entry, tag, gauge, count, documented, written-documented}

-- The core count as text, where it is known.
abbrev pub cores_tags : ℤ → List Tag
cores_tags (pos n) = if ltb 0 n then tag "cores" (format_uint n) ∷ [] else []
cores_tags (negsuc n) = []

cpu_tags-cores_tags : (n : ℤ) → cpu_tags n ≡ cores_tags n
unfolding cpu_tags format_int
cpu_tags-cores_tags (pos zero) = refl
cpu_tags-cores_tags (pos (suc n)) = let known : ltb 0 (suc n) ≡ true = ground arith in rw known refl
cpu_tags-cores_tags (negsuc n) = refl

-- The lines of a list, and of what may be missing.
abbrev pub each_line : {A : Type 0} → (A → List Line) → List A → List Line
each_line f [] = []
each_line f (x ∷ xs) = f x ++ each_line f xs

abbrev pub if_there : {A : Type 0} → (A → List Line) → Option A → List Line
if_there f none = []
if_there f (some x) = f x

module _ (fl : Floats) where
  open fl use {Float}

  abbrev pub cpu_entries : Cpu Float → List Entry
  cpu_entries v =
      gauge fl "usage_percent" v.usage_percent
      ∷ gauge fl "user_percent" v.user_percent
      ∷ gauge fl "system_percent" v.system_percent
      ∷ gauge fl "iowait_percent" v.iowait_percent
      ∷ gauge fl "steal_percent" v.steal_percent
      ∷ gauge fl "idle_percent" v.idle_percent
      ∷ gauge fl "user_seconds" v.times.user
      ∷ gauge fl "system_seconds" v.times.system
      ∷ gauge fl "idle_seconds" v.times.idle
      ∷ gauge fl "nice_seconds" v.times.nice
      ∷ gauge fl "iowait_seconds" v.times.iowait
      ∷ gauge fl "irq_seconds" v.times.irq
      ∷ gauge fl "softirq_seconds" v.times.softirq
      ∷ gauge fl "steal_seconds" v.times.steal
      ∷ []

  abbrev pub load_entries : Load Float → List Entry
  load_entries v =
      gauge fl "load1" v.load1 ∷ gauge fl "load5" v.load5 ∷ gauge fl "load15" v.load15 ∷ []

  abbrev pub mem_entries : Mem Float → List Entry
  mem_entries v =
      count fl "total_bytes" v.total
      ∷ count fl "used_bytes" v.used
      ∷ count fl "available_bytes" v.available
      ∷ count fl "free_bytes" v.free
      ∷ count fl "cached_bytes" v.cached
      ∷ count fl "buffers_bytes" v.buffers
      ∷ gauge fl "used_percent" v.used_percent
      ∷ count fl "swap_total_bytes" v.swap_total
      ∷ count fl "swap_used_bytes" v.swap_used
      ∷ count fl "swap_free_bytes" v.swap_free
      ∷ gauge fl "swap_used_percent" v.swap_used_percent
      ∷ []

  abbrev pub disk_entries : Disk Float → List Entry
  disk_entries d =
      count fl "total_bytes" d.total
      ∷ count fl "used_bytes" d.used
      ∷ count fl "free_bytes" d.free
      ∷ gauge fl "used_percent" d.used_percent
      ∷ count fl "inodes_total" d.inodes_total
      ∷ count fl "inodes_used" d.inodes_used
      ∷ count fl "inodes_free" d.inodes_free
      ∷ gauge fl "inodes_used_percent" d.inodes_used_percent
      ∷ []

  abbrev pub disk_io_entries : DiskIo → List Entry
  disk_io_entries d =
      count fl "read_bytes" d.read_bytes
      ∷ count fl "write_bytes" d.write_bytes
      ∷ count fl "read_ops" d.read_ops
      ∷ count fl "write_ops" d.write_ops
      ∷ count fl "read_time_ms" d.read_time
      ∷ count fl "write_time_ms" d.write_time
      ∷ count fl "io_time_ms" d.io_time
      ∷ count fl "in_progress" d.in_progress
      ∷ []

  abbrev pub net_entries : Net → List Entry
  net_entries n =
      count fl "rx_bytes" n.rx_bytes
      ∷ count fl "tx_bytes" n.tx_bytes
      ∷ count fl "rx_packets" n.rx_packets
      ∷ count fl "tx_packets" n.tx_packets
      ∷ count fl "rx_errs" n.rx_errs
      ∷ count fl "tx_errs" n.tx_errs
      ∷ count fl "rx_drops" n.rx_drops
      ∷ count fl "tx_drops" n.tx_drops
      ∷ []

  abbrev pub host_entries : Host → List Entry
  host_entries v =
      count fl "uptime_seconds" v.uptime
      ∷ count fl "boot_time" v.boot_time
      ∷ count fl "procs" v.procs
      ∷ []

  module _ (base : List Tag) (ts : Time) where
    abbrev pub cpu_lines : Cpu Float → List Line
    cpu_lines v = documented base "obs_cpu" (cores_tags v.cores) (cpu_entries v) ts

    abbrev pub load_lines : Load Float → List Line
    load_lines v = documented base "obs_load" [] (load_entries v) ts

    abbrev pub mem_lines : Mem Float → List Line
    mem_lines v = documented base "obs_mem" [] (mem_entries v) ts

    abbrev pub disk_lines : Disk Float → List Line
    disk_lines d =
        documented base "obs_disk"
          (tag "mount" d.mount ∷ tag "device" d.device ∷ tag "fstype" d.fstype ∷ [])
          (disk_entries d) ts

    abbrev pub disk_io_lines : DiskIo → List Line
    disk_io_lines d =
        documented base "obs_diskio" (tag "device" d.device ∷ []) (disk_io_entries d) ts

    abbrev pub net_lines : Net → List Line
    net_lines n = documented base "obs_net" (tag "interface" n.interface ∷ []) (net_entries n) ts

    abbrev pub host_lines : Host → List Line
    host_lines v =
        documented base "obs_host"
          (tag "os" v.os
            ∷ tag "platform" v.platform
            ∷ tag "platform_version" v.platform_version
            ∷ tag "kernel" v.kernel
            ∷ tag "arch" v.arch
            ∷ tag "virt" v.virtualization
            ∷ [])
          (host_entries v) ts

    abbrev item_lines : Item Float → List Line
    item_lines i = written fl base i.name i.tags i.fields ts

    cpu_item-lines : (v : Cpu Float) → item_lines (cpu_item fl v) ≡ cpu_lines v
    unfolding field_valid
    cpu_item-lines v =
        ap (λ own. written fl base (codes "obs_cpu") own (cpu_fields fl v) ts)
          (cpu_tags-cores_tags v.cores)
        ∙ written-documented fl base "obs_cpu" (cores_tags v.cores) _ (cpu_entries v) ts refl refl

    load_item-lines : (v : Load Float) → item_lines (load_item fl v) ≡ load_lines v
    unfolding field_valid
    load_item-lines v = written-documented fl base "obs_load" [] _ (load_entries v) ts refl refl

    mem_item-lines : (v : Mem Float) → item_lines (mem_item fl v) ≡ mem_lines v
    unfolding field_valid
    mem_item-lines v = written-documented fl base "obs_mem" [] _ (mem_entries v) ts refl refl

    disk_item-lines : (d : Disk Float) → item_lines (disk_item fl d) ≡ disk_lines d
    unfolding field_valid
    disk_item-lines d =
        written-documented fl base "obs_disk"
          (tag "mount" d.mount ∷ tag "device" d.device ∷ tag "fstype" d.fstype ∷ []) _
          (disk_entries d) ts refl refl

    disk_io_item-lines : (d : DiskIo) → item_lines (disk_io_item fl d) ≡ disk_io_lines d
    unfolding field_valid
    disk_io_item-lines d =
        written-documented fl base "obs_diskio" (tag "device" d.device ∷ []) _ (disk_io_entries d)
          ts refl refl

    net_item-lines : (n : Net) → item_lines (net_item fl n) ≡ net_lines n
    unfolding field_valid
    net_item-lines n =
        written-documented fl base "obs_net" (tag "interface" n.interface ∷ []) _ (net_entries n) ts
          refl refl

    host_item-lines : (v : Host) → item_lines (host_item fl v) ≡ host_lines v
    unfolding field_valid
    host_item-lines v =
        written-documented fl base "obs_host"
          (tag "os" v.os
            ∷ tag "platform" v.platform
            ∷ tag "platform_version" v.platform_version
            ∷ tag "kernel" v.kernel
            ∷ tag "arch" v.arch
            ∷ tag "virt" v.virtualization
            ∷ [])
          _ (host_entries v) ts refl refl

    lines_of-append :
        (is js : List (Item Float))
        → lines_of fl base ts (is ++ js) ≡ lines_of fl base ts is ++ lines_of fl base ts js
    lines_of-append [] js = refl
    lines_of-append (i ∷ is) js =
        ap (λ ls. item_lines i ++ ls) (lines_of-append is js)
        ∙ sym (append_assoc (item_lines i) _ _)

    lines_of-each :
        {A : Type 0} (f : A → Item Float) (g : A → List Line) (o : Option A)
        → ((a : A) → item_lines (f a) ≡ g a)
        → lines_of fl base ts (each f o) ≡ if_there g o
    lines_of-each f g none h = refl
    lines_of-each f g (some a) h = append-nil (item_lines (f a)) ∙ h a

    lines_of-map :
        {A : Type 0} (f : A → Item Float) (g : A → List Line) (xs : List A)
        → ((a : A) → item_lines (f a) ≡ g a)
        → lines_of fl base ts (map f xs) ≡ each_line g xs
    lines_of-map f g [] h = refl
    lines_of-map f g (x ∷ xs) h =
        ap (λ ls. item_lines (f x) ++ ls) (lines_of-map f g xs h)
        ∙ ap (λ ls. ls ++ each_line g xs) (h x)

  -- The lines of the sections that are there: processor, load, memory, each disk, each block device,
  -- each interface, and the host.
  abbrev pub snapshot_lines : List Tag → Snapshot Float → List Line
  snapshot_lines base s =
      if_there (cpu_lines base s.time) s.cpu
      ++ (if_there (load_lines base s.time) s.load
          ++ (if_there (mem_lines base s.time) s.mem
              ++ (each_line (disk_lines base s.time) s.disks
                  ++ (each_line (disk_io_lines base s.time) s.disk_io
                      ++ (each_line (net_lines base s.time) s.nets
                          ++ if_there (host_lines base s.time) s.host)))))

  pub items-snapshot_lines :
      (base : List Tag) (s : Snapshot Float)
      → lines_of fl base s.time (items fl s) ≡ snapshot_lines base s
  items-snapshot_lines base s =
      let ts = s.time in
      simp (
        lines_of-append base ts,
        lines_of-each base ts (cpu_item fl) _ s.cpu (cpu_item-lines base ts),
        lines_of-each base ts (load_item fl) _ s.load (load_item-lines base ts),
        lines_of-each base ts (mem_item fl) _ s.mem (mem_item-lines base ts),
        lines_of-map base ts (disk_item fl) _ s.disks (disk_item-lines base ts),
        lines_of-map base ts (disk_io_item fl) _ s.disk_io (disk_io_item-lines base ts),
        lines_of-map base ts (net_item fl) _ s.nets (net_item-lines base ts),
        lines_of-each base ts (host_item fl) _ s.host (host_item-lines base ts),
      )
