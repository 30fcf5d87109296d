-- ===== src/Collect/Disks.antt =====
-- internal/collect/collect.go: `collectDisks`.
use observant_agent.Base.{
  ℕ, ◌+◌, Bool, true, not, ◌&&◌, ◌||◌, List, [], ◌∷◌, ◌++◌, Option, none, some, leb, ◌==◌,
  if◌then◌else◌, any, is_empty,
}
use observant_agent.Base.Decimal.{format_uint}
use observant_agent.Base.Dict.{lookup, insert, retain}
use observant_agent.Base.Results.{Result, ok, err}
use observant_agent.Base.Text.{Bytes, codes, bytes_eq}
use observant_agent.Collect.Deadline.{Problem, fault, timeout, deadline}
use observant_agent.Collect.Filters.{skip_fstype, skip_mount, short_device}
use observant_agent.Collect.Inflight.{in_flight}
use observant_agent.Collect.Metrics.{Disk}
use observant_agent.Collect.Percent.{round2}
use observant_agent.Collect.Probes.{Partition, Usage, Probes}
use observant_agent.Collect.Readers.{Collector, collector_timeout, mount_timeout}
use observant_agent.Docker.Sample.{Arith}

-- `maxMountTimeouts`.
abbrev pub max_mount_timeouts : ℕ
max_mount_timeouts = 3

-- `c.mountTimeouts[mount]`, which is 0 for a missing key.
abbrev pub count_or_zero : Option ℕ → ℕ
count_or_zero none = 0
count_or_zero (some n) = n

abbrev pub timeouts_of : Bytes → List (Bytes × ℕ) → ℕ
timeouts_of mount m = count_or_zero (lookup mount m)

-- A key of a set of texts is there.
abbrev pub member : Bytes → List Bytes → Bool
member x = any (λ y. bytes_eq y x)

-- The variables of the loop over the partitions, with the maps of the collector.
pub record Sweep (F : Type 0) : Type 0 where
  pub mount_err : List (Bytes × Bool)
  pub mount_timeouts : List (Bytes × ℕ)
  pub inflight : List (Bytes × Bool)
  pub out : List (Disk F)
  pub failed : List Bytes
  pub stuck : List Bytes
  pub seen : List Bytes
  pub live : List Bytes

-- The key of a device and its size.
abbrev pub device_key : Bytes → ℕ → Bytes
device_key device total = device ++ (b'\0' ∷ format_uint total)

-- The first error of a mount is reported.
unfoldable pub note_failed : {F : Type 0} → Sweep F → Bytes → Sweep F
note_failed s mount =
    if in_flight mount s.mount_err
    then s
    else record s { mount_err = insert mount true s.mount_err; failed = s.failed ++ mount ∷ [] }

-- A timeout is counted; the last one that is allowed is reported.
unfoldable pub note_timeout : {F : Type 0} → Sweep F → Bytes → Sweep F
note_timeout s mount =
    let n = timeouts_of mount s.mount_timeouts + 1 in
    record s {
      mount_timeouts = insert mount n s.mount_timeouts;
      stuck = if n == max_mount_timeouts then s.stuck ++ mount ∷ [] else s.stuck;
    }

module _ (ar : Arith) where
  open ar use {floats}
  open floats use {Float}

  abbrev pub disk_of : Partition → Usage Float → Disk Float
  disk_of p u = record {
    mount = p.mountpoint;
    device = short_device p.device;
    fstype = p.fstype;
    total = u.total;
    used = u.used;
    free = u.free;
    used_percent = round2 ar u.used_percent;
    inodes_total = u.inodes_total;
    inodes_used = u.inodes_used;
    inodes_free = u.inodes_free;
    inodes_used_percent = round2 ar u.inodes_used_percent;
  }

  -- A mount that has answered: its count is deleted, and it is kept unless it has no size or its
  -- device has been seen with this size.
  unfoldable pub keep_disk : Sweep Float → Partition → Usage Float → Sweep Float
  keep_disk s0 p u =
      let s : Sweep Float = record s0 {
        mount_timeouts = retain (λ j. not (bytes_eq j p.mountpoint)) s0.mount_timeouts;
      } in
      let key = device_key p.device u.total in
      if u.total == 0
      then s
      else if not (is_empty p.device) && member key s.seen
      then s
      else record s { seen = key ∷ s.seen; out = s.out ++ disk_of p u ∷ [] }

  unfoldable pub mount_answer : Sweep Float → Partition → Result Problem (Usage Float) → Sweep Float
  unfolding note_failed note_timeout keep_disk
  mount_answer s p (err (timeout msg)) = note_timeout s p.mountpoint
  mount_answer s p (err (fault msg)) = note_failed s p.mountpoint
  mount_answer s p (ok u) = keep_disk s p u

  module _ (probes : Probes Float) where
    open probes use {partitions, usage, sort_disks, clean}

    -- One round of the loop.
    unfoldable pub read_mount : Sweep Float → Partition → Sweep Float
    unfolding mount_answer deadline
    read_mount s0 p =
        let s : Sweep Float = record s0 { live = p.mountpoint ∷ s0.live } in
        let (r, flags) =
          deadline s.inflight (codes "disk:" ++ p.mountpoint) mount_timeout (usage p.mountpoint) in
        if skip_fstype p.fstype || skip_mount clean p.mountpoint
        then s0
        else if leb max_mount_timeouts (timeouts_of p.mountpoint s.mount_timeouts)
        then s
        else mount_answer (record s { inflight = flags }) p r

    unfoldable pub sweep : Sweep Float → List Partition → Sweep Float
    unfolding read_mount
    sweep s [] = s
    sweep s (p ∷ ps) = sweep (read_mount s p) ps

    abbrev pub start_sweep : Collector Float → Sweep Float
    start_sweep c = record {
      mount_err = c.mount_err;
      mount_timeouts = c.mount_timeouts;
      inflight = c.inflight;
      out = [];
      failed = [];
      stuck = [];
      seen = [];
      live = [];
    }

    -- The entries of mounts that are not live are deleted.
    unfoldable pub end_sweep : Collector Float → Sweep Float → Collector Float
    end_sweep c s = record c {
      mount_err = retain (λ m. member m s.live) s.mount_err;
      mount_timeouts = retain (λ m. member m s.live) s.mount_timeouts;
      inflight = s.inflight;
    }

    -- What `collectDisks` returns: the disks, the mounts that failed, and the mounts that it gives up.
    pub record Found : Type 0 where
      pub disks : List (Disk Float)
      pub failed : List Bytes
      pub stuck : List Bytes

    unfoldable pub disks_from :
        Collector Float → Result Problem (List Partition) → Result Problem Found × Collector Float
    unfolding sweep end_sweep
    disks_from c (err p) = (err p, c)
    disks_from c (ok parts) =
        let s = sweep (start_sweep c) parts in
        (
          ok (record { disks = sort_disks s.out; failed = s.failed; stuck = s.stuck }),
          end_sweep c s,
        )

    unfoldable pub collect_disks : Collector Float → Result Problem Found × Collector Float
    unfolding disks_from deadline
    collect_disks c =
        let (r, flags) =
          deadline c.inflight (codes "disk.partitions") collector_timeout partitions in
        disks_from (record c { inflight = flags }) r
