-- ===== src/Collect/Deadline.antt =====
-- internal/collect/collect.go: `deadline`.
use observant_agent.Base.{Bool, List, ◌++◌, if◌then◌else◌}
use observant_agent.Base.Results.{Result, ok, err}
use observant_agent.Base.Text.{Bytes, codes}
use observant_agent.Collect.Inflight.{begin, end}

-- The error of a collector; `timeout` wraps `ErrTimeout`.
pub data Problem : Type 0 where
  fault : Bytes → Problem
  timeout : Bytes → Problem

-- How a call of the system goes: it answers before the deadline, with a value or an error's text;
-- it does not; or the agent stops first, with the text of `ctx.Err()`.
pub data Outcome (A : Type 0) : Type 0 where
  answered : Result Bytes A → Outcome A
  late : Outcome A
  stopping : Bytes → Outcome A

-- The `select`. A goroutine that has not answered goes on, and its flag stays until it returns.
unfoldable pub await :
    {A : Type 0}
    → List (Bytes × Bool)
    → Bytes
    → Bytes
    → Outcome A
    → Result Problem A × List (Bytes × Bool)
unfolding end
await flags name d (answered (ok v)) = (ok v, end flags name)
await flags name d (answered (err msg)) = (err (fault msg), end flags name)
await flags name d late = (err (timeout (codes "timed out after " ++ d)), flags)
await flags name d (stopping msg) = (err (fault msg), flags)

-- `d` is the text of the duration.
unfoldable pub deadline :
    {A : Type 0}
    → List (Bytes × Bool)
    → Bytes
    → Bytes
    → Outcome A
    → Result Problem A × List (Bytes × Bool)
unfolding begin await
deadline flags name d o =
    let (starts, m) = begin flags name in
    if starts
    then await m name d o
    else (err (timeout (codes "timed out: the call of the previous cycle still runs")), m)
