-- ===== src/Collect/Reports.antt =====
-- What `collectDisks` reports of each mount, and what it remembers of it.
use observant_agent.Base.{
  ◌≤◌, Bool, true, false, not, ◌&&◌, ◌||◌, List, Option, none, some, ◌≡◌, ltb, leb, if◌then◌else◌,
  any,
}
use observant_agent.Base.Dict.{lookup}
use observant_agent.Base.Results.{Result, ok, err}
use observant_agent.Base.Text.{Bytes, bytes_eq}
use observant_agent.Collect.Deadline.{Problem}
use observant_agent.Collect.Disks.{max_mount_timeouts, timeouts_of, Found}
use observant_agent.Collect.Filters.{skip_fstype, skip_mount}
use observant_agent.Collect.Inflight.{in_flight}
use observant_agent.Collect.Mounts.{count}
use observant_agent.Collect.Probes.{Partition, Probes}
use observant_agent.Collect.Readers.{Collector}
use observant_agent.Collect.Visits.{kept, visits, listings, memory_in}
use observant_agent.Docker.Sample.{Arith}

-- The collector has an entry for the mount.
abbrev pub is_some : {A : Type 0} → Option A → Bool
is_some none = false
is_some (some a) = true

abbrev pub is_known : {F : Type 0} → Bytes → Collector F → Bool
is_known m c = is_some (lookup m c.mount_err) || is_some (lookup m c.mount_timeouts)

-- Of a mount, from the state before and after a cycle: it is named as failed exactly where it becomes
-- marked, and as given up exactly where its timeouts in a row reach the limit; they do not pass it.
pub record Reported {F : Type 0} (m : Bytes) (failed stuck : List Bytes)
    (before after : Collector F) : Type 0 where
  pub failed_new :
      count m failed
      ≡ (if not (in_flight m before.mount_err) && in_flight m after.mount_err then 1 else 0)
  pub stuck_new : count m stuck ≡ (
      if ltb (timeouts_of m before.mount_timeouts) max_mount_timeouts
        && leb max_mount_timeouts (timeouts_of m after.mount_timeouts)
      then 1
      else 0)
  pub limited : timeouts_of m after.mount_timeouts ≤ max_mount_timeouts

module _ (ar : Arith) (probes : Probes ar.floats.Float) where
  open ar use {floats}
  open floats use {Float}

  -- The loop does not pass the partition over.
  abbrev pub is_watched : Partition → Bool
  is_watched p = not (skip_fstype p.fstype || skip_mount probes.clean p.mountpoint)

  -- A partition that the loop reads is mounted there.
  abbrev pub is_listed : List Partition → Bytes → Bool
  is_listed ps m = any (λ p. is_watched p && bytes_eq p.mountpoint m) ps

  -- What a cycle comes to for a mount: an error leaves its marks, and otherwise the mounts that are
  -- listed and read are reported as above, and only they are remembered.
  abbrev pub Swept :
      Bytes
      → Collector Float
      → Result Problem (List Partition)
      → Result Problem (Found ar probes) × Collector Float
      → Type 0
  Swept m c parts (err p, after) =
      (parts ≡ err p) × (after.mount_err ≡ c.mount_err) × (after.mount_timeouts ≡ c.mount_timeouts)
  Swept m c parts (ok found, after) =
      (ps : List Partition) × (parts ≡ ok ps)
      × Reported m found.failed found.stuck c after
      × ((is_known m after && not (is_listed ps m)) ≡ false)
      × (memory_in m after
          ≡ (let n = listings ar probes m ps in kept n (visits n (probes.usage m) (memory_in m c))))
