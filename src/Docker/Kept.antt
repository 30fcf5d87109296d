-- ===== src/Docker/Kept.antt =====
-- What a cycle of `Collect` leaves of the client.
use mathlib.Core.List.{zip}
use observant_agent.Base.{ℕ, Bool, true, false, List, [], ◌∷◌, ◌≡◌, refl, ◌∙◌, arith}
use observant_agent.Base.Text.{Bytes}
use observant_agent.Docker.Collect.{
  ContainerJson, InspectJson, Answer, got, failed, Engine, put_answer, run_answered,
  collect_answered, inspect, run_task, run_tasks, running_of, collect_listed, collect,
}
use observant_agent.Docker.Restart.{Client, Container, put_restart, plan, prune_dead}
use observant_agent.Docker.Sample.{Arith, StatsJson, stats}

-- Client `d` is set up as client `c` is.
pub record SetUpAs (c d : Client) : Type 0 where
  pub socket : d.socket ≡ c.socket
  pub runtime : d.runtime ≡ c.runtime
  pub batch : d.batch ≡ c.batch
  pub inspect_every : d.inspect_every ≡ c.inspect_every

SetUpAs-refl : (c : Client) → SetUpAs c c
SetUpAs-refl c = record { socket = refl; runtime = refl; batch = refl; inspect_every = refl }

SetUpAs-trans : {b c d : Client} → SetUpAs b c → SetUpAs c d → SetUpAs b d
SetUpAs-trans h k = record {
  socket = k.socket ∙ h.socket;
  runtime = k.runtime ∙ h.runtime;
  batch = k.batch ∙ h.batch;
  inspect_every = k.inspect_every ∙ h.inspect_every;
}

prune_dead-SetUpAs : (c : Client) (live : List Container) → SetUpAs c (prune_dead c live)
unfolding prune_dead
prune_dead-SetUpAs c live = ground arith

module _ (ar : Arith) (engine : Engine) where
  stats-SetUpAs :
      (c : Client) (ct : Container) (raw : StatsJson) (now : ℕ)
      → SetUpAs c (stats ar c ct raw now).0
  unfolding stats
  stats-SetUpAs c ct raw now = record {
    socket = refl;
    runtime = refl;
    batch = refl;
    inspect_every = refl;
  }

  put_answer-SetUpAs :
      (c : Client) (id : Bytes) (cycle : ℕ) (a : Answer InspectJson)
      → SetUpAs c (put_answer ar engine c id cycle a)
  unfolding put_answer put_restart
  put_answer-SetUpAs c id cycle (got raw) = record {
    socket = refl;
    runtime = refl;
    batch = refl;
    inspect_every = refl;
  }
  put_answer-SetUpAs c id cycle (failed msg) = record {
    socket = refl;
    runtime = refl;
    batch = refl;
    inspect_every = refl;
  }

  run_answered-SetUpAs :
      (c : Client) (cycle : ℕ) (ct : Container) (due : Bool) (a : Answer StatsJson)
      → SetUpAs c (run_answered ar engine c cycle ct due a).0
  unfolding run_answered inspect
  run_answered-SetUpAs c cycle ct due (failed msg) = SetUpAs-refl c
  run_answered-SetUpAs c cycle ct true (got raw) =
      SetUpAs-trans (stats-SetUpAs c ct raw (engine.now ct.id)) (
        put_answer-SetUpAs (stats ar c ct raw (engine.now ct.id)).0 ct.id cycle
          (engine.inspect_of ct.id))
  run_answered-SetUpAs c cycle ct false (got raw) = stats-SetUpAs c ct raw (engine.now ct.id)

  run_tasks-SetUpAs :
      (c : Client) (cycle : ℕ) (tasks : List (Container × Bool))
      → SetUpAs c (run_tasks ar engine c cycle tasks).0
  unfolding run_tasks run_task
  run_tasks-SetUpAs c cycle [] = SetUpAs-refl c
  run_tasks-SetUpAs c cycle ((ct, due) ∷ tasks) =
      SetUpAs-trans (run_answered-SetUpAs c cycle ct due (engine.stats_of ct.id)) (
        run_tasks-SetUpAs (run_answered ar engine c cycle ct due (engine.stats_of ct.id)).0 cycle
          tasks)

  collect_listed-SetUpAs :
      (c : Client) (cts : List Container) → SetUpAs c (collect_listed ar engine c cts).0
  unfolding collect_listed plan
  collect_listed-SetUpAs c [] = prune_dead-SetUpAs c []
  collect_listed-SetUpAs c (ct ∷ cts) =
      let c1 = prune_dead c (ct ∷ cts) in
      let (c2, cycle, flags) = plan c1 (running_of (ct ∷ cts)) in
      let tasks = zip (running_of (ct ∷ cts)) flags in
      let advanced : SetUpAs c1 c2 = record {
        socket = refl;
        runtime = refl;
        batch = refl;
        inspect_every = refl;
      } in
      SetUpAs-trans (SetUpAs-trans (prune_dead-SetUpAs c (ct ∷ cts)) advanced)
        (run_tasks-SetUpAs c2 cycle tasks)

  -- A cycle keeps the socket, the runtime, the size of a batch and the gap between inspect calls.
  pub collect-SetUpAs : (c : Client) → SetUpAs c (collect ar engine c).0
  unfolding collect
  collect-SetUpAs c = of_answer engine.listing
    where
      of_answer : (a : Answer (List ContainerJson)) → SetUpAs c (collect_answered ar engine c a).0
      of_answer (failed msg) = SetUpAs-refl c
      of_answer (got raw) = collect_listed-SetUpAs c _
