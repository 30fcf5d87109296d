-- ===== src/Agent/State.antt =====
-- cmd/observant-agent/main.go: the type `agent`, `newAgent`, the search for a socket, and
-- `logDockerFailure`.
use observant_agent.Base.{
  ℕ, ◌-◌, ◌*◌, Bool, true, false, not, ◌&&◌, ◌||◌, List, [], ◌∷◌, Option, none, some, ltb, ◌==◌,
  if◌then◌else◌, is_empty,
}
use observant_agent.Base.Clock.{Time}
use observant_agent.Base.Text.{Bytes, codes, bytes_eq}
use observant_agent.Collect.Readers.{Collector, new_collector}
use observant_agent.Config.Settings.{Config, DockerMode, docker_auto, docker_on, docker_off}
use observant_agent.Docker.Detect.{Machine, detect}
use observant_agent.Docker.Restart.{Client, set_inspect_every, is_multiple}
use observant_agent.Lineproto.Encoder.{Encoder, new as new_encoder}
use observant_agent.Lineproto.Point.{Tag}
use observant_agent.Push.Pusher
use observant_agent.Push.Pusher.{Pusher}

-- `redetectEvery`, and `dockerLogEvery` in nanoseconds.
abbrev pub redetect_every : ℕ
redetect_every = 20

abbrev pub docker_log_every : ℕ
docker_log_every = 10 * 60 * 1_000_000_000

-- `docker_failed` tells whether `dockerErr` is set, which is always `ErrNoSocket`; `cycles` is the
-- bit pattern of an `int`.
pub record Agent (F : Type 0) : Type 0 where
  pub cfg : Config
  pub sys : Collector F
  pub docker : Option Client
  pub enc : Encoder
  pub pusher : Pusher
  pub docker_failed : Bool
  pub cycles : ℕ
  pub docker_logged_at : Time
  pub docker_last_msg : Bytes

abbrev pub base_tags : Config → List Tag
base_tags cfg =
    record { key = codes "host"; value = cfg.hostname }
    ∷ (if is_empty cfg.role then [] else record { key = codes "role"; value = cfg.role } ∷ [])

unfoldable pub new_agent : {F : Type 0} → Config → Agent F
new_agent cfg = record {
  cfg = cfg;
  sys = new_collector;
  docker = none;
  enc = new_encoder (base_tags cfg);
  pusher = Pusher.new cfg.url cfg.token;
  docker_failed = false;
  cycles = 0;
  docker_logged_at = 0;
  docker_last_msg = [];
}

abbrev pub is_off : DockerMode → Bool
is_off docker_off = true
is_off docker_on = false
is_off docker_auto = false

abbrev pub is_set : {A : Type 0} → Option A → Bool
is_set none = false
is_set (some a) = true

-- The result of a detection at the start.
unfoldable pub opened : {F : Type 0} → Agent F → Option Client → Agent F
opened a none = record a { docker_failed = true }
opened a (some c) = record a { docker = some (set_inspect_every c a.cfg.inspect_every) }

unfoldable pub start_docker : {F : Type 0} → Machine → Agent F → Agent F
unfolding opened
start_docker machine a = if is_off a.cfg.docker then a else opened a (detect machine a.cfg.socket)

-- The result of a later detection.
unfoldable pub reopened : {F : Type 0} → Agent F → Option Client → Agent F
reopened a none = record a { docker_failed = true }
reopened a (some c) = record a {
  docker = some (set_inspect_every c a.cfg.inspect_every);
  docker_failed = false;
  docker_last_msg = [];
}

unfoldable pub redetect_docker : {F : Type 0} → Machine → Agent F → Agent F
unfolding reopened
redetect_docker machine a =
    if is_set a.docker || is_off a.cfg.docker || not a.docker_failed
    then a
    else if a.cycles == 0 || not (is_multiple a.cycles redetect_every)
    then a
    else reopened a (detect machine a.cfg.socket)

-- Whether the failure is to be logged. The difference of two times stops at 0 here, and at the bounds of
-- an `int64` in Go; both are on the same side of the ten minutes.
unfoldable pub log_docker_failure : {F : Type 0} → Agent F → Bytes → Time → Bool × Agent F
log_docker_failure a msg now =
    if bytes_eq msg a.docker_last_msg && ltb (now - a.docker_logged_at) docker_log_every
    then (false, a)
    else (true, record a { docker_last_msg = msg; docker_logged_at = now })
