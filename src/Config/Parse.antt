-- ===== src/Config/Parse.antt =====
-- internal/config/config.go: `Parse`.
use observant_agent.Base.{
  Bool, false, ◌||◌, List, [], ◌∷◌, ◌++◌, Option, none, some, leb, if◌then◌else◌, is_empty,
}
use observant_agent.Base.Decimal.{ℤ, pos, negsuc, format_int}
use observant_agent.Base.Results.{Result, ok, err, ◌>>=◌, ◌>>◌, require}
use observant_agent.Base.Text.{Bytes, codes, bytes_eq, to_lower}
use observant_agent.Base.Trim.{trim_space}
use observant_agent.Config.Settings.{
  DockerMode, docker_auto, docker_on, docker_off, Config, Failure, message, Given, System, chosen,
  text_or_empty, env, env_int,
}
use observant_agent.Docker.Restart.{default_inspect_every}

-- `d >= time.Second`.
abbrev pub second_or_more : ℤ → Bool
second_or_more (pos n) = leb 1_000_000_000 n
second_or_more (negsuc n) = false

-- `n >= 1`.
abbrev pub one_or_more : ℤ → Bool
one_or_more (pos n) = leb 1 n
one_or_more (negsuc n) = false

-- The switch over the mode.
unfoldable pub mode_of : Bytes → Option DockerMode
mode_of text =
    let m = to_lower (trim_space text) in
    if bytes_eq m (codes "auto") || is_empty m
    then some docker_auto
    else if bytes_eq m (codes "on")
        || bytes_eq m (codes "true")
        || bytes_eq m (codes "1")
        || bytes_eq m (codes "yes")
    then some docker_on
    else if bytes_eq m (codes "off")
        || bytes_eq m (codes "false")
        || bytes_eq m (codes "0")
        || bytes_eq m (codes "no")
    then some docker_off
    else none

-- `fs.NArg() > 0`.
abbrev pub no_arguments : System → List Bytes → Result Failure (Unit {0})
no_arguments sys [] = ok tt
no_arguments sys (arg ∷ args) = err (message (codes "unexpected argument " ++ sys.quote arg))

module _ (sys : System) where
  open sys use {parse_duration, parse_flags, os_hostname, quote, duration_text}

  -- The interval and its lower bound.
  unfoldable pub interval_of : Bytes → Result Failure ℤ
  interval_of text = elim (parse_duration (trim_space text)) [
    | err msg ↦ err (message (codes "bad interval " ++ (quote text ++ (codes ": " ++ msg))))
    | ok d ↦
        if second_or_more d
        then ok d
        else err
            (message (codes "interval " ++ (duration_text d ++ codes " is below the 1s minimum")))
  ]

  unfoldable pub docker_of : Bytes → Result Failure DockerMode
  unfolding mode_of
  docker_of text = elim (mode_of text) [
    | some m ↦ ok m
    | none ↦
        err (message (codes "bad docker mode " ++ (quote text ++ codes ": want on, off, or auto")))
  ]

  -- The host tag: the given name, the system's, or "unknown"; white space alone is no name.
  unfoldable pub host_tag : Bytes → Bytes
  host_tag given =
      let name = trim_space given in
      let own = trim_space (text_or_empty os_hostname) in
      if is_empty name then (if is_empty own then codes "unknown" else own) else name

  abbrev pub every_error : ℤ → Failure
  every_error n = message (codes "bad inspect-every " ++ (format_int n ++ codes ": want 1 or more"))

  -- The settings from the flags and the environment, once the checks have passed.
  unfoldable pub settings : Given → ℤ → ℤ → DockerMode → Config
  unfolding host_tag env
  settings given interval every docker = record {
    url = chosen given.url (env sys (codes "OBSERVANT_URL") []);
    token = chosen given.token (env sys (codes "OBSERVANT_TOKEN") []);
    interval = interval;
    hostname = host_tag (chosen given.hostname (env sys (codes "OBSERVANT_HOSTNAME") []));
    role = trim_space (chosen given.role (env sys (codes "OBSERVANT_ROLE") []));
    docker = docker;
    socket = chosen given.socket (env sys (codes "OBSERVANT_SOCKET") []);
    inspect_every = every;
    version = chosen given.version false;
    once = chosen given.once false;
    self_check = chosen given.self_check false;
  }

  abbrev pub interval_text : Given → Bytes
  interval_text given = chosen given.interval (env sys (codes "OBSERVANT_INTERVAL") (codes "15s"))

  abbrev pub docker_text : Given → Bytes
  docker_text given = chosen given.docker (env sys (codes "OBSERVANT_DOCKER") (codes "auto"))

  -- The checks behind the flags, in the order of the source.
  unfoldable pub settle : ℤ → Given → Result Failure Config
  unfolding interval_of docker_of settings
  settle inspect_default given = do
    interval ← interval_of (interval_text given)
    let every = chosen given.inspect_every inspect_default
    require (one_or_more every) (every_error every)
    docker ← docker_of (docker_text given)
    ok (settings given interval every docker)

  unfoldable pub parse : List Bytes → Result Failure Config
  unfolding settle env_int
  parse args = do
    inspect_default ← env_int sys (codes "OBSERVANT_INSPECT_EVERY") default_inspect_every
    parsed ← parse_flags args
    no_arguments sys parsed.1
    settle inspect_default parsed.0
