-- ===== src/Docker/Tasks.antt =====
-- internal/docker/docker.go: the concurrent tasks of `Collect`, as steps in any order.
use observant_agent.Base.{ℕ, zero, suc, Bool, List, [], ◌∷◌, if◌then◌else◌}
use observant_agent.Docker.Collect.{
  Answer, got, failed, Engine, Read, sample, broken, named_error, with_restart, inspect,
}
use observant_agent.Docker.Restart.{Client, Container, get_restart}
use observant_agent.Docker.Sample.{Arith, Stats, StatsJson, stats}

-- A running container, and whether it is to be inspected.
abbrev pub Task : Type 0
Task = Container × Bool

-- Where the goroutine of a container stands: before the stats call, behind `stats`, behind the
-- inspect call, or at its end.
pub data Stage (F : Type 0) : Type 0 where
  waiting : Stage F
  measured : Stats F → Stage F
  inspected : Stats F → Stage F
  done : Read F → Stage F

module _ (ar : Arith) (engine : Engine) (cycle : ℕ) where
  open ar use {floats}
  open floats use {Float}
  open engine use {stats_of, now}

  -- The stats call and the CPU sample of `stats`, which reads and writes `prev` in one go.
  unfoldable pub measure : Client → Container → Answer StatsJson → Client × Stage Float
  measure c ct (failed msg) = (c, done (broken (named_error ct msg)))
  measure c ct (got raw) = let (c1, s) = stats ar c ct raw (now ct.id) in (c1, measured s)

  -- A goroutine goes on by one access to the client, which holds the mutex: `stats`, `putRestart`
  -- where the container is to be inspected, or `getRestart`.
  unfoldable pub step_task : Client → Task → Stage Float → Client × Stage Float
  unfolding measure
  step_task c (ct, due) waiting = measure c ct (stats_of ct.id)
  step_task c (ct, due) (measured s) =
      (if due then inspect ar engine c ct.id cycle else c, inspected s)
  step_task c (ct, due) (inspected s) =
      (c, done (sample (with_restart ar engine (get_restart c ct.id) s)))
  step_task c (ct, due) (done r) = (c, done r)

  -- The goroutine with this number goes on.
  unfoldable pub step_at : ℕ → Client → List Task → List (Stage Float) → Client × List (Stage Float)
  unfolding step_task
  step_at i c [] ss = (c, ss)
  step_at i c (t ∷ ts) [] = (c, [])
  step_at zero c (t ∷ ts) (s ∷ ss) = let (c1, s1) = step_task c t s in (c1, s1 ∷ ss)
  step_at (suc i) c (t ∷ ts) (s ∷ ss) = let (c1, ss1) = step_at i c ts ss in (c1, s ∷ ss1)

  -- The goroutines go on in the order of the list, each once for each time that it is named.
  unfoldable pub interleave :
      List ℕ → Client → List Task → List (Stage Float) → Client × List (Stage Float)
  unfolding step_at
  interleave [] c ts ss = (c, ss)
  interleave (i ∷ is) c ts ss = let (c1, ss1) = step_at i c ts ss in interleave is c1 ts ss1

-- How often each goroutine has gone on.
abbrev pub bump : ℕ → List ℕ → List ℕ
bump i [] = []
bump zero (k ∷ ks) = suc k ∷ ks
bump (suc i) (k ∷ ks) = k ∷ bump i ks

abbrev pub turns : List ℕ → List ℕ → List ℕ
turns [] ks = ks
turns (i ∷ is) ks = turns is (bump i ks)
