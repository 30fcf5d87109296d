-- ===== src/Collect/Visits.antt =====
-- What the collector remembers of one mount, from the answers to its reads.
use observant_agent.Base.{
  ℕ, zero, suc, ◌+◌, Bool, true, false, not, ◌&&◌, ◌||◌, List, [], ◌∷◌, ◌++◌, ◌≡◌, refl, subst, ap,
  ◌∙◌, arith, leb, if◌then◌else◌, inl, inr, Bool-cases,
}
use observant_agent.Base.Dict.{insert, lookup-insert, lookup-retain}
use observant_agent.Base.Results.{Result, ok, err}
use observant_agent.Base.Text.{Bytes, codes, bytes_eq, bytes_eq_iff, bytes_eq_refl}
use observant_agent.Collect.Deadline.{
  Problem, fault, timeout, Outcome, answered, late, stopping, await, deadline,
}
use observant_agent.Collect.Disks.{
  max_mount_timeouts, timeouts_of, Sweep, note_failed, note_timeout, keep_disk, mount_answer,
  read_mount, sweep,
}
use observant_agent.Collect.Filters.{skip_fstype, skip_mount}
use observant_agent.Collect.Inflight.{in_flight, begin, end}
use observant_agent.Collect.Isolation.{deadline-other, mount_answer-inflight}
use observant_agent.Collect.Probes.{Partition, Usage, Probes}
use observant_agent.Collect.Readers.{Collector, mount_timeout}
use observant_agent.Docker.Sample.{Arith}

-- Of a mount: its timeouts in a row, whether it has been reported as unreadable, and whether a read of
-- it still runs.
pub record Memory : Type 0 where
  pub timeouts : ℕ
  pub marked : Bool
  pub busy : Bool

-- An answer ends the row of timeouts; an error marks the mount and leaves the row; a read that is late
-- lengthens the row and still runs; a read that the end of the agent cuts short counts as an error and
-- still runs.
unfoldable pub answer : {A : Type 0} → Outcome A → Memory → Memory
answer (answered (ok v)) k = record k { timeouts = 0 }
answer (answered (err msg)) k = record k { marked = true }
answer late k = record k { timeouts = k.timeouts + 1; busy = true }
answer (stopping msg) k = record k { marked = true; busy = true }

-- A mount with three timeouts in a row is not read; one whose last read still runs times out.
unfoldable pub visit : {A : Type 0} → Outcome A → Memory → Memory
unfolding answer
visit o k =
    if leb 3 k.timeouts
    then k
    else if k.busy
    then record k { timeouts = k.timeouts + 1 }
    else answer o k

unfoldable pub visits : {A : Type 0} → ℕ → Outcome A → Memory → Memory
unfolding visit
visits zero o k = k
visits (suc n) o k = visits n o (visit o k)

-- A mount that is not listed is forgotten, but for a read that still runs.
abbrev pub kept : ℕ → Memory → Memory
kept zero k = record k { timeouts = 0; marked = false }
kept (suc n) k = k

abbrev pub memory_in : {F : Type 0} → Bytes → Collector F → Memory
memory_in m c = record {
  timeouts = timeouts_of m c.mount_timeouts;
  marked = in_flight m c.mount_err;
  busy = in_flight (codes "disk:" ++ m) c.inflight;
}

abbrev pub sweep_memory : {F : Type 0} → Bytes → Sweep F → Memory
sweep_memory m s = record {
  timeouts = timeouts_of m s.mount_timeouts;
  marked = in_flight m s.mount_err;
  busy = in_flight (codes "disk:" ++ m) s.inflight;
}

pub same_memory :
    (a b : Memory) → a.timeouts ≡ b.timeouts → a.marked ≡ b.marked → a.busy ≡ b.busy → a ≡ b
same_memory a b e f g = λ i. record { timeouts = e i; marked = f i; busy = g i }

module _ (ar : Arith) (probes : Probes ar.floats.Float) where
  open ar use {floats}
  open floats use {Float}
  open probes use {clean, usage}

  answered_other :
      (s : Sweep Float) (p : Partition) (r : Result Problem (Usage Float)) (m : Bytes)
      → bytes_eq p.mountpoint m ≡ false
      → (timeouts_of m (mount_answer ar s p r).mount_timeouts ≡ timeouts_of m s.mount_timeouts)
        × (in_flight m (mount_answer ar s p r).mount_err ≡ in_flight m s.mount_err)
  unfolding mount_answer note_failed note_timeout keep_disk
  answered_other s p (err (timeout msg)) m h = ground (
    arith,
    lookup-insert p.mountpoint m (timeouts_of p.mountpoint s.mount_timeouts + 1) s.mount_timeouts,
  )
  answered_other s p (err (fault msg)) m h =
      ground (arith, lookup-insert p.mountpoint m true s.mount_err)
  answered_other s p (ok u) m h = ground (
    arith,
    lookup-retain (λ j. not (bytes_eq j p.mountpoint)) m s.mount_timeouts,
    bytes_eq_iff m p.mountpoint,
    bytes_eq_iff p.mountpoint m,
  )

  read_mount-other :
      (s : Sweep Float) (p : Partition) (m : Bytes)
      → bytes_eq p.mountpoint m ≡ false
      → sweep_memory m (read_mount ar probes s p) ≡ sweep_memory m s
  unfolding read_mount bytes_eq
  read_mount-other s p m h =
      let name = codes "disk:" ++ p.mountpoint in
      let (r, flags) = deadline s.inflight name mount_timeout (usage p.mountpoint) in
      let s1 : Sweep Float = record s { live = p.mountpoint ∷ s.live; inflight = flags } in
      let (timeouts, marked) = answered_other s1 p r m h in
      let busy =
        ap (in_flight (codes "disk:" ++ m)) (mount_answer-inflight ar probes m s1 p r)
        ∙ deadline-other s.inflight name (codes "disk:" ++ m) mount_timeout (usage p.mountpoint)
            h in
      elim (Bool-cases (skip_fstype p.fstype || skip_mount clean p.mountpoint)) [
        | inl skipped ↦ rw (skipped, read_mount) refl
        | inr watched ↦
            elim (Bool-cases (leb max_mount_timeouts (timeouts_of p.mountpoint s.mount_timeouts))) [
              | inl dead ↦ rw (watched, dead, read_mount) refl
              | inr alive ↦ rw (watched, alive, read_mount) (same_memory _ _ timeouts marked busy)
            ]
      ]

  -- What an answer leaves of its own mount.
  abbrev noted : Result Problem (Usage Float) → Memory → Memory
  noted (err (timeout msg)) k = record k { timeouts = k.timeouts + 1 }
  noted (err (fault msg)) k = record k { marked = true }
  noted (ok u) k = record k { timeouts = 0 }

  mount_answer-noted :
      (s : Sweep Float) (p : Partition) (r : Result Problem (Usage Float))
      → sweep_memory p.mountpoint (mount_answer ar s p r) ≡ noted r (sweep_memory p.mountpoint s)
  unfolding mount_answer note_failed note_timeout keep_disk
  mount_answer-noted s p (err (timeout msg)) =
      let m = p.mountpoint in
      same_memory _ _
        (ground (
          arith,
          lookup-insert m m (timeouts_of m s.mount_timeouts + 1) s.mount_timeouts,
          bytes_eq_refl m,
        ))
        refl refl
  mount_answer-noted s p (err (fault msg)) =
      let m = p.mountpoint in
      same_memory _ _ (ground arith)
        (ground (arith, lookup-insert m m true s.mount_err, bytes_eq_refl m)) (ground arith)
  mount_answer-noted s p (ok u) =
      let m = p.mountpoint in
      same_memory _ _
        (ground
          (arith, lookup-retain (λ j. not (bytes_eq j m)) m s.mount_timeouts, bytes_eq_refl m))
        (ground arith) (ground arith)

  abbrev result_of : Outcome (Usage Float) → Result Problem (Usage Float)
  result_of (answered (ok v)) = ok v
  result_of (answered (err msg)) = err (fault msg)
  result_of late = err (timeout (codes "timed out after " ++ mount_timeout))
  result_of (stopping msg) = err (fault msg)

  abbrev runs_on : Outcome (Usage Float) → Bool
  runs_on (answered r) = false
  runs_on late = true
  runs_on (stopping msg) = true

  ended_flag :
      (flags : List (Bytes × Bool)) (name : Bytes) → in_flight name (end flags name) ≡ false
  unfolding end
  ended_flag flags name =
      ground (arith, lookup-retain (λ j. not (bytes_eq j name)) name flags, bytes_eq_refl name)

  begun_flag :
      (flags : List (Bytes × Bool)) (name : Bytes) → in_flight name (insert name true flags) ≡ true
  begun_flag flags name = ground (arith, lookup-insert name name true flags, bytes_eq_refl name)

  deadline_idle :
      (flags : List (Bytes × Bool)) (name : Bytes) (o : Outcome (Usage Float))
      → in_flight name flags ≡ false
      → ((deadline flags name mount_timeout o).0 ≡ result_of o)
        × (in_flight name (deadline flags name mount_timeout o).1 ≡ runs_on o)
  unfolding deadline begin await
  deadline_idle flags name (answered (ok v)) h =
      rw h (refl, ended_flag (insert name true flags) name)
  deadline_idle flags name (answered (err msg)) h =
      rw h (refl, ended_flag (insert name true flags) name)
  deadline_idle flags name late h = rw h (refl, begun_flag flags name)
  deadline_idle flags name (stopping msg) h = rw h (refl, begun_flag flags name)

  noted-answer :
      (o : Outcome (Usage Float)) (t : ℕ) (b : Bool)
      → noted (result_of o) (record { timeouts = t; marked = b; busy = runs_on o })
        ≡ answer o (record { timeouts = t; marked = b; busy = false })
  unfolding answer
  noted-answer (answered (ok v)) t b = refl
  noted-answer (answered (err msg)) t b = refl
  noted-answer late t b = refl
  noted-answer (stopping msg) t b = refl

  -- A read of a mount that is not given up.
  read-visit :
      (s : Sweep Float) (p : Partition)
      → leb 3 (timeouts_of p.mountpoint s.mount_timeouts) ≡ false
      → let (r, flags) =
          deadline s.inflight (codes "disk:" ++ p.mountpoint) mount_timeout (usage p.mountpoint) in
        sweep_memory p.mountpoint
          (mount_answer ar (record s { live = p.mountpoint ∷ s.live; inflight = flags }) p r)
        ≡ visit (usage p.mountpoint) (sweep_memory p.mountpoint s)
  unfolding visit deadline begin
  read-visit s p alive =
      let m = p.mountpoint in
      let name = codes "disk:" ++ m in
      elim (Bool-cases (in_flight name s.inflight)) [
        | inl busy ↦
            rw (alive, busy)
              (mount_answer-noted (record s { live = m ∷ s.live }) p _
                ∙ same_memory _ _ refl refl busy)
        | inr idle ↦
            let (r, flags) = deadline s.inflight name mount_timeout (usage m) in
            let s1 : Sweep Float = record s { live = m ∷ s.live; inflight = flags } in
            let (result, flag) = deadline_idle s.inflight name (usage m) idle in
            let noted_down : noted r (sweep_memory m s1)
                ≡ noted (result_of (usage m)) (record {
                  timeouts = timeouts_of m s.mount_timeouts;
                  marked = in_flight m s.mount_err;
                  busy = runs_on (usage m);
                }) =
              ap (λ x. noted x (sweep_memory m s1)) result
              ∙ ap (noted (result_of (usage m))) (same_memory _ _ refl refl flag) in
            mount_answer-noted s1 p r
            ∙ noted_down
            ∙ noted-answer (usage m) (timeouts_of m s.mount_timeouts) (in_flight m s.mount_err)
            ∙ rw (alive, idle) refl
      ]

  read_mount-alive :
      (s : Sweep Float) (p : Partition)
      → (skip_fstype p.fstype || skip_mount clean p.mountpoint) ≡ false
      → leb 3 (timeouts_of p.mountpoint s.mount_timeouts) ≡ false
      → let (r, flags) =
          deadline s.inflight (codes "disk:" ++ p.mountpoint) mount_timeout (usage p.mountpoint) in
        read_mount ar probes s p
        ≡ mount_answer ar (record s { live = p.mountpoint ∷ s.live; inflight = flags }) p r
  unfolding read_mount
  read_mount-alive s p watched alive = rw (watched, alive, read_mount) refl

  read_mount-own :
      (s : Sweep Float) (p : Partition)
      → (skip_fstype p.fstype || skip_mount clean p.mountpoint) ≡ false
      → sweep_memory p.mountpoint (read_mount ar probes s p)
        ≡ visit (usage p.mountpoint) (sweep_memory p.mountpoint s)
  unfolding read_mount visit
  read_mount-own s p watched =
      elim (Bool-cases (leb 3 (timeouts_of p.mountpoint s.mount_timeouts))) [
        | inl dead ↦ rw (watched, dead, read_mount) refl
        | inr alive ↦
            ap (sweep_memory p.mountpoint) (read_mount-alive s p watched alive)
            ∙ read-visit s p alive
      ]

  -- How often the loop comes to the mount.
  unfoldable pub listings : Bytes → List Partition → ℕ
  listings m [] = 0
  listings m (p ∷ ps) =
      if not (skip_fstype p.fstype || skip_mount clean p.mountpoint) && bytes_eq p.mountpoint m
      then suc (listings m ps)
      else listings m ps

  pub sweep-visits :
      (s : Sweep Float) (ps : List Partition) (m : Bytes)
      → sweep_memory m (sweep ar probes s ps) ≡ visits (listings m ps) (usage m) (sweep_memory m s)
  unfolding sweep visits read_mount listings
  sweep-visits s [] m = refl
  sweep-visits s (p ∷ ps) m =
      let rest = sweep-visits (read_mount ar probes s p) ps m in
      elim (Bool-cases (skip_fstype p.fstype || skip_mount clean p.mountpoint)) [
        | inl skipped ↦ rest ∙ rw skipped refl
        | inr watched ↦ elim (Bool-cases (bytes_eq p.mountpoint m)) [
          | inr other ↦
              rest
              ∙ ap (visits (listings m ps) (usage m)) (read_mount-other s p m other)
              ∙ rw (watched, other) refl
          | inl own ↦
              let same = (bytes_eq_iff p.mountpoint m).0 own in
              let one : sweep_memory m (read_mount ar probes s p)
                  ≡ visit (usage m) (sweep_memory m s) =
                subst
                  (λ x.
                    sweep_memory x (read_mount ar probes s p) ≡ visit (usage x) (sweep_memory x s))
                  same (read_mount-own s p watched) in
              rest ∙ ap (visits (listings m ps) (usage m)) one ∙ rw (watched, own) refl
        ]
      ]
