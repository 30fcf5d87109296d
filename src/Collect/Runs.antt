-- ===== src/Collect/Runs.antt =====
-- Runs of a cycle of the collector, and the theorems about it at a concrete machine.
use observant_agent.Base.{ℕ, true, [], ◌∷◌, none, ◌≡◌, refl, if◌then◌else◌}
use observant_agent.Base.Decimal.{pos, format_uint}
use observant_agent.Base.Dict.{lookup, insert, retain}
use observant_agent.Base.Results.{ok, err}
use observant_agent.Base.Text.{Bytes, codes, bytes_eq, has_prefix, to_lower}
use observant_agent.Base.Trim.{trim_space}
use observant_agent.Collect.Cycle.{value_of, items_of, collect}
use observant_agent.Collect.Deadline.{answered, late, stopping}
use observant_agent.Collect.Filters.{skip_fstype, skip_mount}
use observant_agent.Collect.Probes.{Partition, Usage, Probes}
use observant_agent.Collect.Readers.{
  Collector, collect_cpu, collect_load, collect_mem, collect_disk_io, collect_net, collect_host,
}
use observant_agent.Collect.Sections.{collect-sections}
use observant_agent.Docker.Tests.{whole_arith}
use observant_agent.Lineproto.Tests.{epoch_second}

abbrev pub mounted : Bytes → Bytes → Partition
mounted device mountpoint = record {
  device = device;
  mountpoint = mountpoint;
  fstype = codes "ext4";
}

abbrev pub half_full : Usage ℕ
half_full = record {
  total = 10;
  used = 5;
  free = 5;
  used_percent = 50;
  inodes_total = 4;
  inodes_used = 1;
  inodes_free = 3;
  inodes_used_percent = 25;
}

-- The load and "/nfs" do not answer, "/secret" may not be read, and "/data" shows the device of "/".
abbrev pub probes : Probes ℕ
probes = record {
  now = epoch_second;
  cpu_times = answered (ok []);
  cpu_counts = answered (ok (pos 2));
  load_avg = late;
  virtual_memory = answered (err (codes "no meminfo"));
  swap_memory = late;
  partitions = answered (
      ok (
        mounted (codes "/dev/sda1") (codes "/")
        ∷ mounted (codes "/dev/sda1") (codes "/data")
        ∷ mounted (codes "srv:/x") (codes "/nfs")
        ∷ mounted (codes "/dev/sdb1") (codes "/secret")
        ∷ mounted (codes "tmpfs") (codes "/dev/shm")
        ∷ []));
  usage = λ m.
      if bytes_eq m (codes "/nfs")
      then late
      else if bytes_eq m (codes "/secret")
      then answered (err (codes "permission denied"))
      else answered (ok half_full);
  io_counters = answered (ok []);
  net_counters = stopping (codes "context canceled");
  host_info = late;
  sort_disks = λ ds. ds;
  sort_disk_io = λ ds. ds;
  sort_nets = λ ns. ns;
  clean = λ p. p;
}

-- "/nfs" has timed out twice in a row, and "/gone" is not mounted any more.
abbrev pub collector : Collector ℕ
collector = record {
  prev_cpu = none;
  cores = pos 0;
  mount_err = (codes "/gone", true) ∷ [];
  mount_timeouts = (codes "/nfs", 2) ∷ [];
  timeout_at = [];
  inflight = (codes "host", true) ∷ [];
}

collect_errs_runs :
    (collect whole_arith probes collector).0.errs
    ≡ codes "cpu: no cpu times returned"
      ∷ codes "load: timed out after 5s (further reports are suppressed for 10m0s)"
      ∷ codes "mem: no meminfo"
      ∷ codes "disk: cannot read mounts: /secret"
      ∷ codes "disk: no answer from /nfs after 3 tries: the agent stops reading this mount"
      ∷ codes "net: context canceled"
      ∷ codes
          "host: timed out: the call of the previous cycle still runs (further reports are suppressed for 10m0s)"
      ∷ []
unfolding collect lookup bytes_eq retain insert skip_fstype to_lower trim_space skip_mount
    has_prefix format_uint
collect_errs_runs = refl

collect-sections_example :
    let s = (collect whole_arith probes collector).0 in
    (s.cpu ≡ value_of (collect_cpu whole_arith probes collector).0)
    × (s.load ≡ value_of (collect_load whole_arith probes collector).0)
    × (s.mem ≡ value_of (collect_mem whole_arith probes collector).0)
    × (s.disk_io ≡ items_of (collect_disk_io whole_arith probes collector).0)
    × (s.nets ≡ items_of (collect_net whole_arith probes collector).0)
    × (s.host ≡ value_of (collect_host whole_arith probes collector).0)
collect-sections_example = collect-sections whole_arith probes collector
