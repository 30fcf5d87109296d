-- ===== src/Agent/Start.antt =====
-- cmd/observant-agent/main.go: `run` with `once` and `main`.
use observant_agent.Base.{
  ℕ, Bool, ◌&&◌, List, [], ◌∷◌, ◌++◌, map, Option, none, some, if◌then◌else◌,
}
use observant_agent.Agent.Batch.{Turn, Build, join_errors, collect_batch, prime_agent}
use observant_agent.Agent.Print.{Printer, line}
use observant_agent.Agent.SelfCheck.{Platform, is_on, no_socket, Ended, fine, self_check}
use observant_agent.Agent.State.{Agent, new_agent, start_docker}
use observant_agent.Base.Decimal.{pos}
use observant_agent.Base.Results.{Result, ok, err}
use observant_agent.Base.Text.{Bytes, codes}
use observant_agent.Config.Parse.{parse}
use observant_agent.Config.Settings.{Config, Failure, help, message, System}
use observant_agent.Config.Validate.{validate}
use observant_agent.Docker.Detect.{Machine}
use observant_agent.Docker.Sample.{Arith}
use observant_agent.Lineproto.Encoder.{bytes}

abbrev pub status_of : Option Failure → ℕ
status_of none = 0
status_of (some help) = 2
status_of (some (message msg)) = 1

-- The exit status of `main`, where `run` has ended.
unfoldable pub exit_code : Ended → ℕ
exit_code e = status_of e.failure

module _ (ar : Arith) (build : Build) (platform : Platform)
    (printer : Printer ar.floats.Float) where
  open ar use {floats}
  open floats use {Float}
  open platform use {os, arch, go_version}

  -- `once`: the batch and the warnings. `slept` tells that the context has not ended during the sleep.
  unfoldable pub once : Bool → Turn Float → Turn Float → Agent Float → Ended
  once slept first turn a =
      let (a1, errs) = collect_batch ar build turn (pos 1) (prime_agent ar build first a) in
      if slept
      then record {
        out = bytes a1.enc ∷ [];
        warnings = map (λ e. codes "warning: " ++ e) errs;
        failure =
            if a1.docker_failed && is_on a1.cfg.docker
            then some (message (codes "docker: " ++ no_socket))
            else none;
      }
      else fine []

  -- `run` ends, or goes on with the loop of an agent.
  pub data Started : Type 0 where
    ends : Ended → Started
    loops : Agent Float → Started

  -- `cfg.Validate()` and then `loop`.
  abbrev pub enter_loop : List Bytes → Agent Float → Started
  enter_loop [] a = loops a
  enter_loop (e ∷ es) a =
      ends (record { out = []; warnings = []; failure = some (message (join_errors (e ∷ es))) })

  abbrev pub version_line : Bytes
  version_line = line (
      codes "observant-agent "
      ∷ build.version
      ∷ codes " "
      ∷ os
      ∷ codes "/"
      ∷ arch
      ∷ codes " "
      ∷ go_version
      ∷ [])

  -- `run` behind the arguments.
  unfoldable pub run_parsed :
      System → Machine → Bool → Turn Float → Turn Float → Result Failure Config → Started
  unfolding once self_check
  run_parsed sys machine slept first turn (err f) =
      ends (record { out = []; warnings = []; failure = some f })
  run_parsed sys machine slept first turn (ok cfg) =
      let a = start_docker machine (new_agent cfg) in
      if cfg.version
      then ends (fine (version_line ∷ []))
      else if cfg.self_check
      then ends (self_check ar build platform printer slept first turn a)
      else if cfg.once
      then ends (once slept first turn a)
      else enter_loop (validate sys cfg) a

  unfoldable pub run : System → Machine → Bool → Turn Float → Turn Float → List Bytes → Started
  unfolding run_parsed
  run sys machine slept first turn args = run_parsed sys machine slept first turn (parse sys args)
