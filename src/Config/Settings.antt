-- ===== src/Config/Settings.antt =====
-- internal/config/config.go: `Config`, `env`, `envInt`, and what they take from the libraries.
use observant_agent.Base.{Bool, List, [], ◌++◌, Option, none, some, if◌then◌else◌, is_empty}
use observant_agent.Base.Decimal.{ℤ}
use observant_agent.Base.Results.{Result, ok, err}
use observant_agent.Base.Text.{Bytes, codes}
use observant_agent.Base.Trim.{trim_space}

pub data DockerMode : Type 0 where
  docker_auto docker_on docker_off : DockerMode

-- `interval` is in nanoseconds.
pub record Config : Type 0 where
  pub url : Bytes
  pub token : Bytes
  pub interval : ℤ
  pub hostname : Bytes
  pub role : Bytes
  pub docker : DockerMode
  pub socket : Bytes
  pub inspect_every : ℤ
  pub version : Bool
  pub once : Bool
  pub self_check : Bool

-- `flag.ErrHelp`, or the text of another error.
pub data Failure : Type 0 where
  help : Failure
  message : Bytes → Failure

-- The flags that the arguments set, each with its last value.
pub record Given : Type 0 where
  pub url : Option Bytes
  pub token : Option Bytes
  pub interval : Option Bytes
  pub hostname : Option Bytes
  pub role : Option Bytes
  pub docker : Option Bytes
  pub socket : Option Bytes
  pub inspect_every : Option ℤ
  pub version : Option Bool
  pub once : Option Bool
  pub self_check : Option Bool

-- The scheme and the host of a parsed URL.
pub record Url : Type 0 where
  pub scheme : Bytes
  pub host : Bytes

-- The environment and the parsers of the libraries: `os.LookupEnv`, `os.Hostname`, `strconv.Atoi`,
-- `time.ParseDuration` (in nanoseconds), `FlagSet.Parse` (the flags that are set and the arguments
-- behind them), `url.Parse`, `%q` of a text, and `%s` and `%d` of a number.
pub record System : Type 0 where
  pub lookup_env : Bytes → Option Bytes
  pub os_hostname : Option Bytes
  pub atoi : Bytes → Option ℤ
  pub parse_duration : Bytes → Result Bytes ℤ
  pub parse_flags : List Bytes → Result Failure (Given × List Bytes)
  pub parse_url : Bytes → Result Bytes Url
  pub quote : Bytes → Bytes
  pub duration_text : ℤ → Bytes

-- The value of a variable, which is the empty text where it is not set: `os.Getenv`.
abbrev pub text_or_empty : Option Bytes → Bytes
text_or_empty none = []
text_or_empty (some v) = v

-- The value of a flag, or its default.
abbrev pub chosen : {A : Type 0} → Option A → A → A
chosen none def = def
chosen (some a) def = a

module _ (sys : System) where
  open sys use {lookup_env, atoi, quote}

  unfoldable pub env : Bytes → Bytes → Bytes
  env key def = let v = text_or_empty (lookup_env key) in if is_empty v then def else v

  unfoldable pub env_int : Bytes → ℤ → Result Failure ℤ
  env_int key def =
      let v = trim_space (text_or_empty (lookup_env key)) in
      if is_empty v then ok def else elim (atoi v) [
        | some n ↦ ok n
        | none ↦ err (
            message
              (codes "bad " ++ (key ++ (codes " " ++ (quote v ++ codes ": want an integer")))))
      ]
