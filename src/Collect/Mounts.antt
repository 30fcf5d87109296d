-- ===== src/Collect/Mounts.antt =====
-- The mounts that a cycle gives up and reports.
use observant_agent.Base.{
  ℕ, ◌+◌, ◌≤◌, ◌<◌, Bool, true, false, not, ◌&&◌, ◌||◌, List, [], ◌∷◌, ◌++◌, ◌≡◌, arith, ltb, leb,
  if◌then◌else◌, inl, inr, Bool-cases,
}
use observant_agent.Base.Dict.{lookup-insert, lookup-retain}
use observant_agent.Base.Results.{Result, ok, err}
use observant_agent.Base.Text.{Bytes, codes, bytes_eq, bytes_eq_iff, bytes_eq_refl}
use observant_agent.Collect.Deadline.{Problem, fault, timeout, deadline}
use observant_agent.Collect.Disks.{
  max_mount_timeouts, timeouts_of, member, Sweep, note_failed, note_timeout, keep_disk,
  mount_answer, read_mount, sweep,
}
use observant_agent.Collect.Filters.{skip_fstype, skip_mount}
use observant_agent.Collect.Inflight.{in_flight}
use observant_agent.Collect.Probes.{Partition, Usage, Probes}
use observant_agent.Collect.Readers.{mount_timeout}
use observant_agent.Docker.Sample.{Arith}

-- How many times a text stands in a list.
abbrev pub count : Bytes → List Bytes → ℕ
count x [] = 0
count x (y ∷ ys) = (if bytes_eq y x then 1 else 0) + count x ys

count-append : (x : Bytes) (ys zs : List Bytes) → count x (ys ++ zs) ≡ count x ys + count x zs
count-append x [] zs = omega arith
count-append x (y ∷ ys) zs = omega (arith, count-append x ys zs)

-- What a mount has come to in the loop: it is reported as failed at most once, and then it is marked,
-- as is nothing else; it is given up at the third timeout in a row, is reported then, and stays so.
pub record Noted (m : Bytes) (marked : Bool) (timeouts : ℕ) {F : Type 0} (s : Sweep F)
    : Type 0 where
  pub failed_once : count m s.failed ≡ (if not marked && in_flight m s.mount_err then 1 else 0)
  pub marked_kept : (marked && not (in_flight m s.mount_err)) ≡ false
  pub stuck_once : count m s.stuck ≡ (
      if ltb timeouts max_mount_timeouts && leb max_mount_timeouts (timeouts_of m s.mount_timeouts)
      then 1
      else 0)
  pub given_up :
      (leb max_mount_timeouts timeouts && ltb (timeouts_of m s.mount_timeouts) max_mount_timeouts)
      ≡ false
  pub limited : timeouts_of m s.mount_timeouts ≤ max_mount_timeouts
  pub reached : (ltb 0 (count m s.failed + count m s.stuck) && not (member m s.live)) ≡ false

module _ (m : Bytes) (marked : Bool) (timeouts : ℕ) {F : Type 0} where
  note_failed-Noted :
      (s : Sweep F) (mount : Bytes)
      → member mount s.live ≡ true
      → Noted m marked timeouts s
      → Noted m marked timeouts (note_failed s mount)
  unfolding note_failed
  note_failed-Noted s mount there h = ground (
    arith,
    lookup-insert mount m true s.mount_err,
    bytes_eq_iff mount m,
    count-append m s.failed (mount ∷ []),
  )

  note_timeout-Noted :
      (s : Sweep F) (mount : Bytes)
      → member mount s.live ≡ true
      → timeouts_of mount s.mount_timeouts < max_mount_timeouts
      → Noted m marked timeouts s
      → Noted m marked timeouts (note_timeout s mount)
  unfolding note_timeout
  note_timeout-Noted s mount there below h = ground (
    arith,
    lookup-insert mount m (timeouts_of mount s.mount_timeouts + 1) s.mount_timeouts,
    bytes_eq_iff mount m,
    count-append m s.stuck (mount ∷ []),
  )

module _ (m : Bytes) (marked : Bool) (timeouts : ℕ) (ar : Arith) where
  open ar use {floats}
  open floats use {Float}

  keep_disk-Noted :
      (s : Sweep Float) (p : Partition) (u : Usage Float)
      → timeouts_of p.mountpoint s.mount_timeouts < max_mount_timeouts
      → Noted m marked timeouts s
      → Noted m marked timeouts (keep_disk ar s p u)
  unfolding keep_disk
  keep_disk-Noted s p u below h = ground (
    arith,
    lookup-retain (λ j. not (bytes_eq j p.mountpoint)) m s.mount_timeouts,
    bytes_eq_iff m p.mountpoint,
  )

  mount_answer-Noted :
      (s : Sweep Float) (p : Partition) (r : Result Problem (Usage Float))
      → member p.mountpoint s.live ≡ true
      → timeouts_of p.mountpoint s.mount_timeouts < max_mount_timeouts
      → Noted m marked timeouts s
      → Noted m marked timeouts (mount_answer ar s p r)
  unfolding mount_answer
  mount_answer-Noted s p (err (timeout msg)) there below h =
      note_timeout-Noted m marked timeouts s p.mountpoint there below h
  mount_answer-Noted s p (err (fault msg)) there below h =
      note_failed-Noted m marked timeouts s p.mountpoint there h
  mount_answer-Noted s p (ok u) there below h = keep_disk-Noted s p u below h

  module _ (probes : Probes Float) where
    open probes use {clean, usage}

    read_mount-Noted :
        (s : Sweep Float) (p : Partition)
        → Noted m marked timeouts s
        → Noted m marked timeouts (read_mount ar probes s p)
    unfolding read_mount
    read_mount-Noted s p h =
        let s1 : Sweep Float = record s { live = p.mountpoint ∷ s.live } in
        let grown : Noted m marked timeouts s1 = ground arith in
        let (r, flags) =
          deadline s.inflight (codes "disk:" ++ p.mountpoint) mount_timeout (usage p.mountpoint) in
        let same : member p.mountpoint s1.live ≡ true =
          ground (arith, bytes_eq_refl p.mountpoint) in
        let step : timeouts_of p.mountpoint s.mount_timeouts < max_mount_timeouts
            → Noted m marked timeouts (mount_answer ar (record s1 { inflight = flags }) p r) =
          λ below.
            mount_answer-Noted (record s1 { inflight = flags }) p r same below
              (record {
                failed_once = grown.failed_once;
                marked_kept = grown.marked_kept;
                stuck_once = grown.stuck_once;
                given_up = grown.given_up;
                limited = grown.limited;
                reached = grown.reached;
              }) in
        elim (Bool-cases (skip_fstype p.fstype || skip_mount clean p.mountpoint)) [
          | inl skipped ↦ rw (skipped, read_mount) h
          | inr watched ↦
              elim (Bool-cases
                (leb max_mount_timeouts (timeouts_of p.mountpoint s.mount_timeouts))) [
                  | inl dead ↦ rw (watched, dead, read_mount) grown
                  | inr alive ↦ rw (watched, alive, read_mount) (step (ground arith))
                ]
        ]

    pub sweep-Noted :
        (s : Sweep Float) (ps : List Partition)
        → Noted m marked timeouts s
        → Noted m marked timeouts (sweep ar probes s ps)
    unfolding sweep
    sweep-Noted s [] h = h
    sweep-Noted s (p ∷ ps) h = sweep-Noted (read_mount ar probes s p) ps (read_mount-Noted s p h)
