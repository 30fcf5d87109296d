-- ===== src/Agent/Quiet.antt =====
-- How often the agent logs that the container socket fails.
use observant_agent.Base.{ℕ, ◌+◌, ◌-◌, ◌*◌, ◌≤◌, List, [], ◌∷◌, arith, if◌then◌else◌}
use observant_agent.Agent.State.{Agent, log_docker_failure, docker_log_every}
use observant_agent.Base.Clock.{Time}
use observant_agent.Base.Text.{Bytes, bytes_eq, bytes_eq_iff}

-- The times stand in order, from `at` to `end`.
abbrev pub Ascends : Time → List (Bytes × Time) → Time → Type 0
Ascends at [] end = at ≤ end
Ascends at ((msg, now) ∷ cs) end = (at ≤ now) × Ascends now cs end

Ascends-earlier :
    (at now : Time) (cs : List (Bytes × Time)) (end : Time)
    → at ≤ now
    → Ascends now cs end
    → Ascends at cs end
Ascends-earlier at now [] end h k = omega arith
Ascends-earlier at now ((msg, t) ∷ cs) end h (k, l) = (omega arith, l)

Ascends-le : (at : Time) (cs : List (Bytes × Time)) (end : Time) → Ascends at cs end → at ≤ end
Ascends-le at [] end h = h
Ascends-le at ((msg, now) ∷ cs) end (h, k) = omega (arith, Ascends-le now cs end k)

-- How often a text differs from the one before it.
unfoldable pub changes : Bytes → List (Bytes × Time) → ℕ
changes last [] = 0
changes last ((msg, now) ∷ cs) = (if bytes_eq msg last then 0 else 1) + changes msg cs

module _ {F : Type 0} where
  -- How many of the failures are logged.
  unfoldable pub count_logged : Agent F → List (Bytes × Time) → ℕ
  count_logged a [] = 0
  count_logged a ((msg, now) ∷ cs) =
      let (logged, a1) = log_docker_failure a msg now in
      (if logged then 1 else 0) + count_logged a1 cs

  -- Of failures whose times stand in order each whose text differs from the one before is logged, and
  -- the number of those that are logged is at most the number of such changes and one for each ten
  -- minutes since the last report.
  pub count_logged_bounds :
      (cs : List (Bytes × Time)) (a : Agent F) (end : Time)
      → Ascends a.docker_logged_at cs end
      → (changes a.docker_last_msg cs ≤ count_logged a cs)
        × (count_logged a cs * docker_log_every
            ≤ changes a.docker_last_msg cs * docker_log_every + (end - a.docker_logged_at))
  unfolding changes count_logged log_docker_failure
  count_logged_bounds [] a end h = omega arith
  count_logged_bounds ((msg, now) ∷ cs) a end (h, k) =
      let loud : Agent F = record a { docker_last_msg = msg; docker_logged_at = now } in
      ground (
        arith,
        bytes_eq_iff msg a.docker_last_msg,
        Ascends-le now cs end k,
        count_logged_bounds cs loud end k,
        count_logged_bounds cs a end (Ascends-earlier a.docker_logged_at now cs end h k),
      )
