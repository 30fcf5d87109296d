-- ===== src/Docker/Cycle.antt =====
-- What a cycle of `Collect` returns and keeps.
use mathlib.Core.List.{zip}
use observant_agent.Base.{
  ℕ, Bool, true, false, List, [], ◌∷◌, map, none, ◌≡◌, refl, sym, subst, ◌∙◌, arith, any,
}
use observant_agent.Base.Dict.{lookup, lookup-insert}
use observant_agent.Base.Text.{Bytes, bytes_eq}
use observant_agent.Docker.Collect.{
  ContainerJson, InspectJson, Answer, got, failed, Engine, container_of, put_answer, run_answered,
  collect_answered, inspect, run_task, run_tasks, running_of, collect_listed, collect,
}
use observant_agent.Docker.Records.{prune_dead_lem}
use observant_agent.Docker.Restart.{Client, Container, put_restart, plan, runs, prune_dead}
use observant_agent.Docker.Sample.{Arith, StatsJson, stats}

-- A container has an entry in neither map.
abbrev pub Unknown : Client → Bytes → Type 0
Unknown c id = (lookup id c.prev ≡ none) × (lookup id c.restart ≡ none)

runs-running_of :
    (cts : List Container) (id : Bytes)
    → runs cts id ≡ any (λ ct. bytes_eq ct.id id) (running_of cts)
unfolding runs
runs-running_of [] id = refl
runs-running_of (ct ∷ cts) id = ground (arith, runs-running_of cts id)

prune_dead-Unknown :
    (c : Client) (cts : List Container) (id : Bytes)
    → runs cts id ≡ false
    → Unknown (prune_dead c cts) id
prune_dead-Unknown c cts id h =
    let (first, second) = prune_dead_lem c cts id in (first ∙ rw h refl, second ∙ rw h refl)

module _ (ar : Arith) (engine : Engine) where
  stats-Unknown :
      (c : Client) (ct : Container) (raw : StatsJson) (now : ℕ) (id : Bytes)
      → bytes_eq ct.id id ≡ false
      → Unknown c id
      → Unknown (stats ar c ct raw now).0 id
  unfolding stats
  stats-Unknown c ct raw now id other h = (rw (lookup-insert, other) h.0, h.1)

  put_answer-Unknown :
      (c : Client) (i : Bytes) (cycle : ℕ) (id : Bytes) (a : Answer InspectJson)
      → bytes_eq i id ≡ false
      → Unknown c id
      → Unknown (put_answer ar engine c i cycle a) id
  unfolding put_answer put_restart
  put_answer-Unknown c i cycle id (got raw) other h = (h.0, rw (lookup-insert, other) h.1)
  put_answer-Unknown c i cycle id (failed msg) other h = (h.0, rw (lookup-insert, other) h.1)

  run_answered-Unknown :
      (c : Client) (cycle : ℕ) (ct : Container) (due : Bool) (id : Bytes) (a : Answer StatsJson)
      → bytes_eq ct.id id ≡ false
      → Unknown c id
      → Unknown (run_answered ar engine c cycle ct due a).0 id
  unfolding run_answered inspect
  run_answered-Unknown c cycle ct due id (failed msg) other h = h
  run_answered-Unknown c cycle ct true id (got raw) other h =
      put_answer-Unknown _ ct.id cycle id (engine.inspect_of ct.id) other
        (stats-Unknown c ct raw (engine.now ct.id) id other h)
  run_answered-Unknown c cycle ct false id (got raw) other h =
      stats-Unknown c ct raw (engine.now ct.id) id other h

  run_tasks-Unknown :
      (c : Client) (cycle : ℕ) (cts : List Container) (flags : List Bool) (id : Bytes)
      → any (λ ct. bytes_eq ct.id id) cts ≡ false
      → Unknown c id
      → Unknown (run_tasks ar engine c cycle (zip cts flags)).0 id
  unfolding run_tasks run_task zip
  run_tasks-Unknown c cycle [] flags id other h = h
  run_tasks-Unknown c cycle (ct ∷ cts) [] id other h = h
  run_tasks-Unknown c cycle (ct ∷ cts) (due ∷ flags) id other h =
      run_tasks-Unknown (run_answered ar engine c cycle ct due (engine.stats_of ct.id)).0 cycle cts
        flags id (ground arith)
        (run_answered-Unknown c cycle ct due id (engine.stats_of ct.id) (ground arith) h)

  collect_listed-Unknown :
      (c : Client) (cts : List Container) (id : Bytes)
      → runs cts id ≡ false
      → Unknown (collect_listed ar engine c cts).0 id
  unfolding collect_listed plan
  collect_listed-Unknown c [] id dead = prune_dead-Unknown c [] id dead
  collect_listed-Unknown c (ct ∷ cts) id dead =
      run_tasks-Unknown _ _ (running_of (ct ∷ cts)) _ id
        (sym (runs-running_of (ct ∷ cts) id) ∙ dead) (prune_dead-Unknown c (ct ∷ cts) id dead)

  -- After a cycle the client knows nothing of a container that the engine did not list as running.
  pub collect-Unknown :
      (c : Client) (raw : List ContainerJson) (id : Bytes)
      → engine.listing ≡ got raw
      → runs (map container_of raw) id ≡ false
      → Unknown (collect ar engine c).0 id
  unfolding collect collect_answered
  collect-Unknown c raw id answer dead =
      subst (λ a. Unknown (collect_answered ar engine c a).0 id) (sym answer)
        (collect_listed-Unknown c (map container_of raw) id dead)
