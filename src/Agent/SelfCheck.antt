-- ===== src/Agent/SelfCheck.antt =====
-- cmd/observant-agent/main.go: `selfCheck`, and how a run ends.
use observant_agent.Base.{
  ℕ, suc, Bool, true, false, List, [], ◌∷◌, ◌++◌, Option, none, some, ltb, if◌then◌else◌, is_empty,
}
use observant_agent.Agent.Batch.{Turn, Build, join_errors, encode_agent, prime_agent}
use observant_agent.Agent.Containers.{print_containers}
use observant_agent.Agent.Print.{
  Printer, line, or_none, token_state, print_cpu, print_load, print_mem, print_host, print_lists,
}
use observant_agent.Agent.State.{Agent, is_off}
use observant_agent.Base.Clock.{to_int64}
use observant_agent.Base.Decimal.{pos, format_uint, format_int}
use observant_agent.Base.Text.{Bytes, codes}
use observant_agent.Collect.Cycle
use observant_agent.Collect.Metrics.{Snapshot}
use observant_agent.Collect.Snapshot
use observant_agent.Config.Settings.{
  Config, DockerMode, docker_auto, docker_on, docker_off, Failure, message,
}
use observant_agent.Docker.Collect
use observant_agent.Docker.Collect.{Engine}
use observant_agent.Docker.Restart.{Client}
use observant_agent.Docker.Sample.{Arith}
use observant_agent.Lineproto.Encoder.{Encoder, len, points, reset}

-- `runtime.GOOS`, `runtime.GOARCH` and `runtime.Version()`.
pub record Platform : Type 0 where
  pub os : Bytes
  pub arch : Bytes
  pub go_version : Bytes

abbrev pub is_on : DockerMode → Bool
is_on docker_on = true
is_on docker_auto = false
is_on docker_off = false

-- `ErrNoSocket`.
abbrev pub no_socket : Bytes
no_socket = codes "no container socket found"

-- What a run that ends prints, and the error that it ends with.
pub record Ended : Type 0 where
  pub out : List Bytes
  pub warnings : List Bytes
  pub failure : Option Failure

abbrev pub fine : List Bytes → Ended
fine out = record { out = out; warnings = []; failure = none }

-- Lines, section by section.
abbrev pub concat : List (List Bytes) → List Bytes
concat [] = []
concat (ls ∷ rest) = ls ++ concat rest

-- Each error, behind an empty line.
abbrev pub map_warnings : List Bytes → List Bytes
map_warnings [] = []
map_warnings (e ∷ es) = [] ∷ (codes "warning: " ++ e) ∷ map_warnings es

module _ (ar : Arith) (build : Build) (platform : Platform)
    (printer : Printer ar.floats.Float) where
  open ar use {floats}
  open floats use {Float}
  open platform use {os, arch}

  abbrev pub host_lines : Config → List Bytes
  host_lines cfg =
      line (codes "observant-agent " ∷ build.version ∷ codes " " ∷ os ∷ codes "/" ∷ arch ∷ [])
      ∷ line (codes "host tag:  " ∷ cfg.hostname ∷ [])
      ∷ ((if is_empty cfg.role then [] else line (codes "role tag:  " ∷ cfg.role ∷ []) ∷ [])
          ++ (line (codes "interval:  " ∷ printer.duration_text cfg.interval ∷ [])
              ∷ line (codes "ingest:    " ∷ or_none cfg.url ∷ [])
              ∷ line (codes "token:     " ∷ token_state cfg.token ∷ [])
              ∷ []
              ∷ []))

  -- The switch over the containers: the lines, and whether they count as a failed collector.
  unfoldable pub check_docker : Engine → Agent Float → Option Client → Bool × List Bytes
  check_docker engine a none =
      if is_off a.cfg.docker then (false, codes "containers disabled by -docker=off" ∷ []) else (
        is_on a.cfg.docker,
        line (
              codes "containers no socket found ("
              ∷ (if a.docker_failed then no_socket else codes "<nil>")
              ∷ codes ")"
              ∷ [])
            ∷ [],
      )
  check_docker engine a (some c) =
      if is_off a.cfg.docker
      then (false, codes "containers disabled by -docker=off" ∷ [])
      else let (c1, ss, errs) = Collect.collect ar engine c in
        (
          false,
          line (codes "containers " ∷ c.runtime ∷ codes " at " ∷ c.socket ∷ [])
              ∷ print_containers ar printer ss errs (join_errors errs),
        )

  -- `fail`: how many of the collectors failed.
  abbrev pub count_failed : List (Bool × List Bytes) → ℕ
  count_failed [] = 0
  count_failed ((failed, lines) ∷ rs) = if failed then suc (count_failed rs) else count_failed rs

  -- The error at the end.
  abbrev pub failed_error : ℕ → Option Failure
  failed_error n =
      if ltb 0 n then some (message (format_uint n ++ codes " collector(s) failed")) else none

  -- The batch of the check: the sections and the heartbeat.
  unfoldable pub check_batch : Encoder → Snapshot Float → Encoder
  check_batch e snap =
      encode_agent ar build (Snapshot.encode floats (reset e) snap) snap.time (pos 1)

  unfoldable pub self_check : Bool → Turn Float → Turn Float → Agent Float → Ended
  unfolding check_docker check_batch
  self_check slept first turn a =
      let a1 = prime_agent ar build first a in
      let snap = (Cycle.collect ar turn.probes a1.sys).0 in
      let cpu = print_cpu ar printer snap.cpu in
      let load = print_load ar printer snap.load in
      let mem = print_mem ar printer snap.mem in
      let host = print_host ar printer snap.host in
      let containers = check_docker turn.engine a1 a1.docker in
      let e = check_batch a1.enc snap in
      let batch = line (
        codes "batch      "
        ∷ format_int (to_int64 (points e))
        ∷ codes " points, "
        ∷ format_uint (len e)
        ∷ codes " bytes uncompressed"
        ∷ []) in
      if slept
      then record {
        out =
            host_lines a1.cfg
            ++ concat (
                cpu.1
                ∷ load.1
                ∷ mem.1
                ∷ print_lists ar printer snap
                ∷ host.1
                ∷ ([] ∷ containers.1)
                ∷ map_warnings snap.errs
                ∷ ([] ∷ batch ∷ [])
                ∷ []);
        warnings = [];
        failure = failed_error (count_failed (cpu ∷ load ∷ mem ∷ host ∷ containers ∷ []));
      }
      else fine (host_lines a.cfg)
