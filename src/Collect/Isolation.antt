-- ===== src/Collect/Isolation.antt =====
-- A call that does not answer stays alone: it costs no other section of the snapshot.
use observant_agent.Base.{
  Bool, true, false, not, List, [], ◌∷◌, ◌++◌, ◌≡◌, refl, ap, ◌∙◌, arith, inl, inr, Bool-cases,
  ◌||◌, leb,
}
use observant_agent.Base.Dict.{insert, lookup-insert, lookup-retain}
use observant_agent.Base.Results.{Result, ok, err}
use observant_agent.Base.Text.{Bytes, codes, bytes_eq, bytes_eq_iff}
use observant_agent.Collect.Deadline.{
  Problem, fault, timeout, Outcome, answered, late, stopping, await, deadline,
}
use observant_agent.Collect.Disks.{
  max_mount_timeouts, timeouts_of, Sweep, note_failed, note_timeout, keep_disk, mount_answer,
  read_mount, sweep, start_sweep, end_sweep, disks_from, collect_disks,
}
use observant_agent.Collect.Filters.{skip_fstype, skip_mount}
use observant_agent.Collect.Inflight.{in_flight, begin, end}
use observant_agent.Collect.Metrics.{Times}
use observant_agent.Collect.Probes.{Partition, Usage, VirtualMemory, Probes}
use observant_agent.Collect.Readers.{
  Collector, mount_timeout, count_cores, cpu_from, collect_cpu, collect_load, mem_from, collect_mem,
}
use observant_agent.Docker.Sample.{Arith}

await-other :
    {A : Type 0} (flags : List (Bytes × Bool)) (name other d : Bytes) (o : Outcome A)
    → bytes_eq name other ≡ false
    → in_flight other (await flags name d o).1 ≡ in_flight other flags
unfolding await end
await-other flags name other d (answered (ok v)) h = ground (
  arith,
  lookup-retain (λ j. not (bytes_eq j name)) other flags,
  bytes_eq_iff name other,
  bytes_eq_iff other name,
)
await-other flags name other d (answered (err msg)) h = ground (
  arith,
  lookup-retain (λ j. not (bytes_eq j name)) other flags,
  bytes_eq_iff name other,
  bytes_eq_iff other name,
)
await-other flags name other d late h = refl
await-other flags name other d (stopping msg) h = refl

pub deadline-other :
    {A : Type 0} (flags : List (Bytes × Bool)) (name other d : Bytes) (o : Outcome A)
    → bytes_eq name other ≡ false
    → in_flight other (deadline flags name d o).1 ≡ in_flight other flags
unfolding deadline begin
deadline-other flags name other d o h = elim (Bool-cases (in_flight name flags)) [
  | inl busy ↦ rw (busy, deadline) refl
  | inr idle ↦
      let rest = await-other (insert name true flags) name other d o h in
      rw (idle, deadline) (rest ∙ ground (arith, lookup-insert name other true flags))
]

pub await-same :
    {A : Type 0} (f g : List (Bytes × Bool)) (name d : Bytes) (o : Outcome A)
    → (await f name d o).0 ≡ (await g name d o).0
unfolding await
await-same f g name d (answered (ok v)) = refl
await-same f g name d (answered (err msg)) = refl
await-same f g name d late = refl
await-same f g name d (stopping msg) = refl

-- What a call returns depends on its own flag only.
pub deadline-same :
    {A : Type 0} (f g : List (Bytes × Bool)) (name d : Bytes) (o : Outcome A)
    → in_flight name f ≡ in_flight name g
    → (deadline f name d o).0 ≡ (deadline g name d o).0
unfolding deadline begin
deadline-same f g name d o h = elim (Bool-cases (in_flight name g)) [
  | inl busy ↦ rw (h, busy, deadline) refl
  | inr idle ↦
      rw (h, idle, deadline) (await-same (insert name true f) (insert name true g) name d o)
]

module _ (ar : Arith) (probes : Probes ar.floats.Float) (other : Bytes) where
  open ar use {floats}
  open floats use {Float}

  count_cores-other :
      (c : Collector Float)
      → bytes_eq (codes "cpu.counts") other ≡ false
      → in_flight other (count_cores ar probes c).inflight ≡ in_flight other c.inflight
  unfolding count_cores
  count_cores-other c h =
      ground (
        arith,
        deadline-other c.inflight (codes "cpu.counts") other (codes "5s") probes.cpu_counts h,
      )

  cpu_from-other :
      (c : Collector Float) (r : Result Problem (List (Times Float)))
      → bytes_eq (codes "cpu.counts") other ≡ false
      → in_flight other (cpu_from ar probes c r).1.inflight ≡ in_flight other c.inflight
  unfolding cpu_from
  cpu_from-other c (err p) h = refl
  cpu_from-other c (ok []) h = refl
  cpu_from-other c (ok (now ∷ rest)) h = count_cores-other c h

  pub collect_cpu-other :
      (c : Collector Float)
      → bytes_eq (codes "cpu") other ≡ false
      → bytes_eq (codes "cpu.counts") other ≡ false
      → in_flight other (collect_cpu ar probes c).1.inflight ≡ in_flight other c.inflight
  unfolding collect_cpu
  collect_cpu-other c h k =
      let (r, flags) = deadline c.inflight (codes "cpu") (codes "5s") probes.cpu_times in
      cpu_from-other (record c { inflight = flags }) r k
      ∙ deadline-other c.inflight (codes "cpu") other (codes "5s") probes.cpu_times h

  mem_from-other :
      (c : Collector Float) (r : Result Problem (VirtualMemory Float))
      → bytes_eq (codes "mem.swap") other ≡ false
      → in_flight other (mem_from ar probes c r).1.inflight ≡ in_flight other c.inflight
  unfolding mem_from
  mem_from-other c (err p) h = refl
  mem_from-other c (ok v) h =
      deadline-other c.inflight (codes "mem.swap") other (codes "5s") probes.swap_memory h

  pub collect_mem-other :
      (c : Collector Float)
      → bytes_eq (codes "mem") other ≡ false
      → bytes_eq (codes "mem.swap") other ≡ false
      → in_flight other (collect_mem ar probes c).1.inflight ≡ in_flight other c.inflight
  unfolding collect_mem
  collect_mem-other c h k =
      let (r, flags) = deadline c.inflight (codes "mem") (codes "5s") probes.virtual_memory in
      mem_from-other (record c { inflight = flags }) r k
      ∙ deadline-other c.inflight (codes "mem") other (codes "5s") probes.virtual_memory h

  pub mount_answer-inflight :
      (s : Sweep Float) (p : Partition) (r : Result Problem (Usage Float))
      → (mount_answer ar s p r).inflight ≡ s.inflight
  unfolding mount_answer note_failed note_timeout keep_disk
  mount_answer-inflight s p (err (timeout msg)) = refl
  mount_answer-inflight s p (err (fault msg)) = ground arith
  mount_answer-inflight s p (ok u) = ground arith

  module _ (foreign : (mount : Bytes) → bytes_eq (codes "disk:" ++ mount) other ≡ false) where
    read_mount-other :
        (s : Sweep Float) (p : Partition)
        → in_flight other (read_mount ar probes s p).inflight ≡ in_flight other s.inflight
    unfolding read_mount
    read_mount-other s p =
        let name = codes "disk:" ++ p.mountpoint in
        let (r, flags) = deadline s.inflight name mount_timeout (probes.usage p.mountpoint) in
        let answered =
          mount_answer-inflight (record s { live = p.mountpoint ∷ s.live; inflight = flags }) p r in
        let same =
          deadline-other s.inflight name other mount_timeout (probes.usage p.mountpoint)
            (foreign p.mountpoint) in
        elim (Bool-cases (skip_fstype p.fstype || skip_mount probes.clean p.mountpoint)) [
          | inl skipped ↦ rw (skipped, read_mount) refl
          | inr watched ↦
              elim (Bool-cases
                (leb max_mount_timeouts (timeouts_of p.mountpoint s.mount_timeouts))) [
                  | inl dead ↦ rw (watched, dead, read_mount) refl
                  | inr alive ↦
                      rw (watched, alive, read_mount) (ap (in_flight other) answered ∙ same)
                ]
        ]

    sweep-other :
        (s : Sweep Float) (ps : List Partition)
        → in_flight other (sweep ar probes s ps).inflight ≡ in_flight other s.inflight
    unfolding sweep
    sweep-other s [] = refl
    sweep-other s (p ∷ ps) = sweep-other (read_mount ar probes s p) ps ∙ read_mount-other s p

    disks_from-other :
        (c : Collector Float) (r : Result Problem (List Partition))
        → in_flight other (disks_from ar probes c r).1.inflight ≡ in_flight other c.inflight
    unfolding disks_from end_sweep
    disks_from-other c (err p) = refl
    disks_from-other c (ok ps) = sweep-other (start_sweep ar probes c) ps

    collect_disks-other :
        (c : Collector Float)
        → bytes_eq (codes "disk.partitions") other ≡ false
        → in_flight other (collect_disks ar probes c).1.inflight ≡ in_flight other c.inflight
    unfolding collect_disks
    collect_disks-other c h =
        let (r, flags) =
          deadline c.inflight (codes "disk.partitions") (codes "5s") probes.partitions in
        disks_from-other (record c { inflight = flags }) r
        ∙ deadline-other c.inflight (codes "disk.partitions") other (codes "5s") probes.partitions h

  -- The sections in front of the block devices leave the flag of another call.
  pub four_sections-other :
      (c : Collector Float)
      → ((mount : Bytes) → bytes_eq (codes "disk:" ++ mount) other ≡ false)
      → bytes_eq (codes "cpu") other ≡ false
      → bytes_eq (codes "cpu.counts") other ≡ false
      → bytes_eq (codes "load") other ≡ false
      → bytes_eq (codes "mem") other ≡ false
      → bytes_eq (codes "mem.swap") other ≡ false
      → bytes_eq (codes "disk.partitions") other ≡ false
      → let c1 = (collect_cpu ar probes c).1 in
        let c2 = (collect_load ar probes c1).1 in
        let c3 = (collect_mem ar probes c2).1 in
        in_flight other (collect_disks ar probes c3).1.inflight ≡ in_flight other c.inflight
  unfolding collect_load
  four_sections-other c d h1 h2 h3 h4 h5 h6 =
      let c1 = (collect_cpu ar probes c).1 in
      let c2 = (collect_load ar probes c1).1 in
      let c3 = (collect_mem ar probes c2).1 in
      collect_disks-other d c3 h6
      ∙ collect_mem-other c2 h4 h5
      ∙ deadline-other c1.inflight (codes "load") other (codes "5s") probes.load_avg h3
      ∙ collect_cpu-other c h1 h2
