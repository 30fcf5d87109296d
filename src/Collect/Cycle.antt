-- ===== src/Collect/Cycle.antt =====
-- internal/collect/collect.go: `Collect`.
use observant_agent.Base.{List, [], ◌∷◌, ◌++◌, Option, none, some, is_empty, if◌then◌else◌}
use observant_agent.Base.Results.{Result, ok, err}
use observant_agent.Base.Text.{Bytes, codes}
use observant_agent.Collect.Deadline.{Problem}
use observant_agent.Collect.Disks.{Found, collect_disks}
use observant_agent.Collect.Metrics.{Disk, Snapshot}
use observant_agent.Collect.Note.{Notes, note}
use observant_agent.Collect.Probes.{Probes}
use observant_agent.Collect.Readers.{
  Collector, collect_cpu, collect_load, collect_mem, collect_disk_io, collect_net, collect_host,
}
use observant_agent.Docker.Sample.{Arith}

-- The error and the value of a reader; a section that is a list is empty where there is no value.
abbrev pub problem_of : {A : Type 0} → Result Problem A → Option Problem
problem_of (ok a) = none
problem_of (err p) = some p

abbrev pub value_of : {A : Type 0} → Result Problem A → Option A
value_of (ok a) = some a
value_of (err p) = none

abbrev pub items_of : {A : Type 0} → Result Problem (List A) → List A
items_of (ok xs) = xs
items_of (err p) = []

-- `strings.Join(names, ", ")`.
unfoldable pub join : List Bytes → Bytes
join [] = []
join (n ∷ []) = n
join (n ∷ m ∷ ns) = n ++ (codes ", " ++ join (m ∷ ns))

unfoldable pub plural : {A : Type 0} → List A → Bytes → Bytes → Bytes
plural [] one many = many
plural (x ∷ []) one many = one
plural (x ∷ y ∷ xs) one many = many

-- The two errors about mounts.
unfoldable pub failed_errors : List Bytes → List Bytes
failed_errors failed =
    if is_empty failed then [] else (codes "disk: cannot read mounts: " ++ join failed) ∷ []

unfoldable pub stuck_errors : List Bytes → List Bytes
unfolding join plural
stuck_errors stuck =
    if is_empty stuck
    then []
    else (codes "disk: no answer from "
        ++ (join stuck
            ++ (codes " after 3 tries: the agent stops reading "
                ++ plural stuck (codes "this mount") (codes "these mounts"))))
      ∷ []

module _ (ar : Arith) (probes : Probes ar.floats.Float) where
  open ar use {floats}
  open floats use {Float}

  abbrev pub disks_of : Result Problem (Found ar probes) → List (Disk Float)
  disks_of (ok f) = f.disks
  disks_of (err p) = []

  unfoldable pub mount_errors : Result Problem (Found ar probes) → List Bytes
  unfolding failed_errors stuck_errors
  mount_errors (ok f) = failed_errors f.failed ++ stuck_errors f.stuck
  mount_errors (err p) = []

  -- The sections in order. No reader looks at `timeoutAt`, which goes through the notes.
  unfoldable pub collect : Collector Float → Snapshot Float × Collector Float
  unfolding collect_cpu collect_load collect_mem collect_disks collect_disk_io collect_net
      collect_host note mount_errors
  collect c =
      let now = probes.now in
      let (cpu, c1) = collect_cpu ar probes c in
      let n1 =
        note (record { timeout_at = c.timeout_at; errs = [] }) now (codes "cpu") (problem_of cpu) in
      let (load, c2) = collect_load ar probes c1 in
      let n2 = note n1 now (codes "load") (problem_of load) in
      let (mem, c3) = collect_mem ar probes c2 in
      let n3 = note n2 now (codes "mem") (problem_of mem) in
      let (found, c4) = collect_disks ar probes c3 in
      let n4 = note n3 now (codes "disk") (problem_of found) in
      let n5 : Notes = record n4 { errs = n4.errs ++ mount_errors found } in
      let (io, c5) = collect_disk_io ar probes c4 in
      let n6 = note n5 now (codes "diskio") (problem_of io) in
      let (nets, c6) = collect_net ar probes c5 in
      let n7 = note n6 now (codes "net") (problem_of nets) in
      let (host, c7) = collect_host ar probes c6 in
      let n8 = note n7 now (codes "host") (problem_of host) in
      (
        record {
          time = now;
          cpu = value_of cpu;
          load = value_of load;
          mem = value_of mem;
          disks = disks_of found;
          disk_io = items_of io;
          nets = items_of nets;
          host = value_of host;
          errs = n8.errs;
        },
        record c7 { timeout_at = n8.timeout_at },
      )
