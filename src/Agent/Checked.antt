-- ===== src/Agent/Checked.antt =====
-- When a self check of the agent fails.
use observant_agent.Base.{
  Bool, true, false, not, ◌&&◌, ◌||◌, List, [], ◌∷◌, Option, none, some, ◌≡◌, refl, ◌↔◌, subst,
  arith,
}
use observant_agent.Agent.Batch.{Turn, Build, prime_agent, primed_docker}
use observant_agent.Agent.Print.{Printer, print_cpu, print_load, print_mem, print_host}
use observant_agent.Agent.SelfCheck.{
  Platform, count_failed, failed_error, is_on, check_docker, self_check,
}
use observant_agent.Agent.State.{Agent, is_set}
use observant_agent.Base.Text.{Bytes}
use observant_agent.Collect.Cycle
use observant_agent.Collect.Metrics.{Snapshot, Cpu, Load, Mem, Host}
use observant_agent.Config.Settings.{DockerMode, docker_auto, docker_on, docker_off}
use observant_agent.Docker.Collect.{Engine}
use observant_agent.Docker.Restart.{Client}
use observant_agent.Docker.Sample.{Arith}

-- The four sections are there, and the containers are not wanted or a client is open.
abbrev pub all_seen : {F : Type 0} → Snapshot F → Agent F → Bool
all_seen snap a =
    is_set snap.cpu
    && is_set snap.load
    && is_set snap.mem
    && is_set snap.host
    && (not (is_on a.cfg.docker) || is_set a.docker)

module _ (ar : Arith) (build : Build) (platform : Platform)
    (printer : Printer ar.floats.Float) where
  open ar use {floats}
  open floats use {Float}

  -- No collector of a list failed.
  abbrev none_failed : List (Bool × List Bytes) → Bool
  none_failed [] = true
  none_failed ((failed, lines) ∷ rs) = not failed && none_failed rs

  failed_error-none :
      (rs : List (Bool × List Bytes))
      → (failed_error ar build platform printer (count_failed ar build platform printer rs) ≡ none)
        ↔ (none_failed rs ≡ true)
  failed_error-none [] = ((λ _. refl), λ _. refl)
  failed_error-none ((true, lines) ∷ rs) = ((λ h. ground arith), λ h. cc)
  failed_error-none ((false, lines) ∷ rs) = failed_error-none rs

  print_cpu-failed : (o : Option (Cpu Float)) → (print_cpu ar printer o).0 ≡ not (is_set o)
  unfolding print_cpu
  print_cpu-failed none = refl
  print_cpu-failed (some v) = refl

  print_load-failed : (o : Option (Load Float)) → (print_load ar printer o).0 ≡ not (is_set o)
  unfolding print_load
  print_load-failed none = refl
  print_load-failed (some v) = refl

  print_mem-failed : (o : Option (Mem Float)) → (print_mem ar printer o).0 ≡ not (is_set o)
  unfolding print_mem
  print_mem-failed none = refl
  print_mem-failed (some v) = refl

  print_host-failed : (o : Option Host) → (print_host ar printer o).0 ≡ not (is_set o)
  unfolding print_host
  print_host-failed none = refl
  print_host-failed (some v) = refl

  check_docker-failed :
      (engine : Engine) (a : Agent Float) (d : Option Client)
      → (check_docker ar build platform printer engine a d).0
        ≡ (is_on a.cfg.docker && not (is_set d))
  unfolding check_docker
  check_docker-failed engine a none = of_mode a.cfg.docker
    where
      of_mode :
          (m : DockerMode)
          → (check_docker ar build platform printer engine
              (record a { cfg = record (a.cfg) { docker = m } })
              none).0
            ≡ (is_on m && true)
      of_mode docker_auto = refl
      of_mode docker_on = refl
      of_mode docker_off = refl
  check_docker-failed engine a (some c) = of_mode a.cfg.docker
    where
      of_mode :
          (m : DockerMode)
          → (check_docker ar build platform printer engine
              (record a { cfg = record (a.cfg) { docker = m } })
              (some c)).0
            ≡ (is_on m && false)
      of_mode docker_auto = refl
      of_mode docker_on = refl
      of_mode docker_off = refl

  prime_agent-is_set :
      (first : Turn Float) (a : Agent Float)
      → (is_set (prime_agent ar build first a).docker ≡ is_set a.docker)
        × (is_on (prime_agent ar build first a).cfg.docker ≡ is_on a.cfg.docker)
  unfolding prime_agent
  prime_agent-is_set first a = (of_client a.docker, refl)
    where
      of_client : (d : Option Client) → is_set (primed_docker ar build first.engine d) ≡ is_set d
      of_client none = refl
      of_client (some c) = refl

  -- A self check that is not interrupted ends without an error exactly where the processor, the
  -- load, the memory and the host could be read and, if the containers are on, a socket is open.
  pub self_check_iff :
      (first turn : Turn Float) (a : Agent Float)
      → let snap = (Cycle.collect ar turn.probes (prime_agent ar build first a).sys).0 in
        ((self_check ar build platform printer true first turn a).failure ≡ none)
        ↔ (all_seen snap a ≡ true)
  unfolding self_check
  self_check_iff first turn a =
      let a1 = prime_agent ar build first a in
      let snap = (Cycle.collect ar turn.probes a1.sys).0 in
      let rs : List (Bool × List Bytes) =
        print_cpu ar printer snap.cpu
        ∷ print_load ar printer snap.load
        ∷ print_mem ar printer snap.mem
        ∷ print_host ar printer snap.host
        ∷ check_docker ar build platform printer turn.engine a1 a1.docker
        ∷ [] in
      let same : none_failed rs ≡ all_seen snap a = ground (
        arith,
        print_cpu-failed snap.cpu,
        print_load-failed snap.load,
        print_mem-failed snap.mem,
        print_host-failed snap.host,
        check_docker-failed turn.engine a1 a1.docker,
        prime_agent-is_set first a,
      ) in
      subst
        (λ b.
          ((self_check ar build platform printer true first turn a).failure ≡ none) ↔ (b ≡ true))
        same (failed_error-none rs)
