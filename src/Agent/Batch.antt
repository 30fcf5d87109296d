-- ===== src/Agent/Batch.antt =====
-- cmd/observant-agent/main.go: `collectBatch`, `encodeAgent`, `prime` and `oneLine`.
use observant_agent.Base.{List, [], ◌∷◌, ◌++◌, Option, none, some, ◌==◌, if◌then◌else◌, is_empty}
use observant_agent.Base.Clock.{Time}
use observant_agent.Base.Decimal.{ℤ}
use observant_agent.Base.Text.{Bytes, codes}
use observant_agent.Base.Trim.{trim_space}
use observant_agent.Agent.State.{Agent}
use observant_agent.Collect.Cycle
use observant_agent.Collect.Probes.{Probes}
use observant_agent.Collect.Readers.{prime}
use observant_agent.Collect.Snapshot
use observant_agent.Docker.Collect
use observant_agent.Docker.Collect.{Engine}
use observant_agent.Docker.Detect.{Machine}
use observant_agent.Docker.Encode
use observant_agent.Docker.Restart.{Client}
use observant_agent.Docker.Sample.{Arith}
use observant_agent.Lineproto.Encoder.{Encoder, point, reset}
use observant_agent.Lineproto.Point.{Field, str, signed}

-- What one cycle meets: gopsutil, the container engine, the sockets, and the time at which it logs.
pub record Turn (F : Type 0) : Type 0 where
  pub probes : Probes F
  pub engine : Engine
  pub machine : Machine
  pub now : Time

-- `version`, and `startTime.Unix()`.
pub record Build : Type 0 where
  pub version : Bytes
  pub start_time : ℤ

-- The text of `errors.Join`.
unfoldable pub join_errors : List Bytes → Bytes
join_errors [] = []
join_errors (e ∷ []) = e
join_errors (e ∷ f ∷ es) = e ++ (b'\n' ∷ join_errors (f ∷ es))

-- `strings.ReplaceAll(s, "\n", "; ")`.
abbrev pub flatten_lines : Bytes → Bytes
flatten_lines [] = []
flatten_lines (c ∷ s) = if c == b'\n' then b';' ∷ b' ' ∷ flatten_lines s else c ∷ flatten_lines s

unfoldable pub one_line : Bytes → Bytes
one_line text = flatten_lines (trim_space text)

-- The error of the container collector, under its prefix.
unfoldable pub docker_errors : List Bytes → List Bytes
unfolding join_errors
docker_errors errs = if is_empty errs then [] else (codes "docker: " ++ join_errors errs) ∷ []

module _ (ar : Arith) (build : Build) where
  open ar use {floats}
  open floats use {Float}

  abbrev pub agent_fields : ℤ → List (Field Float)
  agent_fields up =
      str floats "version" build.version
      ∷ signed floats "start_time" build.start_time
      ∷ signed floats "up" up
      ∷ []

  unfoldable pub encode_agent : Encoder → Time → ℤ → Encoder
  encode_agent e ts up = point floats e (codes "obs_agent") [] (agent_fields up) ts

  -- The containers of a batch: the client, the encoder, and the errors.
  unfoldable pub collect_docker :
      Engine → Time → Encoder → Option Client → Option Client × Encoder × List Bytes
  unfolding docker_errors
  collect_docker engine ts e none = (none, e, [])
  collect_docker engine ts e (some c) =
      let (c1, stats, errs) = Collect.collect ar engine c in
      (some c1, Encode.encode floats e stats ts, docker_errors errs)

  -- `collectBatch`; the errors are texts.
  unfoldable pub collect_batch : Turn Float → ℤ → Agent Float → Agent Float × List Bytes
  unfolding encode_agent collect_docker
  collect_batch turn up a =
      let (snap, sys) = Cycle.collect ar turn.probes a.sys in
      let e1 = Snapshot.encode floats (reset a.enc) snap in
      let e2 = encode_agent e1 snap.time up in
      let (client, e3, errs) = collect_docker turn.engine snap.time e2 a.docker in
      (record a { sys = sys; docker = client; enc = e3 }, snap.errs ++ errs)

  abbrev pub primed_docker : Engine → Option Client → Option Client
  primed_docker engine none = none
  primed_docker engine (some c) = some (Collect.collect ar engine c).0

  unfoldable pub prime_agent : Turn Float → Agent Float → Agent Float
  prime_agent turn a = record a {
    sys = prime ar turn.probes a.sys;
    docker = primed_docker turn.engine a.docker;
  }
