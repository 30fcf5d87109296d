-- ===== src/Config/Sources.antt =====
-- Where each setting that `Parse` returns comes from.
use observant_agent.Base.{
  true, false, List, [], ◌∷◌, Option, none, some, ◌≡◌, ◌⊎◌, is_empty, if◌then◌else◌,
}
use observant_agent.Base.Decimal.{ℤ, pos}
use observant_agent.Base.Results.{ok}
use observant_agent.Base.Text.{Bytes, codes, bytes_eq, to_lower}
use observant_agent.Base.Trim.{trim_space}
use observant_agent.Config.Parse.{second_or_more, one_or_more, interval_text, docker_text}
use observant_agent.Config.Settings.{
  DockerMode, docker_auto, docker_on, docker_off, Config, Given, System, text_or_empty,
}

-- A text setting: the flag where it is given, even if it is empty; otherwise the variable of the
-- environment, if it is set and not empty; otherwise the default.
pub data From (flag variable : Option Bytes) (default : Bytes) : Bytes → Type 0 where
  by_flag : {v : Bytes} → flag ≡ some v → From flag variable default v
  by_variable :
      {v : Bytes}
      → flag ≡ none
      → variable ≡ some v
      → is_empty v ≡ false
      → From flag variable default v
  by_default :
      flag ≡ none → is_empty (text_or_empty variable) ≡ true → From flag variable default default

-- A setting that only a flag gives.
abbrev pub FlagOr : {A : Type 0} → Option A → A → A → Type 0
FlagOr flag default v = (flag ≡ some v) ⊎ ((flag ≡ none) × (v ≡ default))

-- The words for the modes, in small letters and without white space at the ends.
abbrev pub mode_words : List (Bytes × DockerMode)
mode_words =
    (codes "auto", docker_auto)
    ∷ ([], docker_auto)
    ∷ (codes "on", docker_on)
    ∷ (codes "true", docker_on)
    ∷ (codes "1", docker_on)
    ∷ (codes "yes", docker_on)
    ∷ (codes "off", docker_off)
    ∷ (codes "false", docker_off)
    ∷ (codes "0", docker_off)
    ∷ (codes "no", docker_off)
    ∷ []

abbrev pub meaning : Bytes → List (Bytes × DockerMode) → Option DockerMode
meaning word [] = none
meaning word ((w, m) ∷ ws) = if bytes_eq word w then some m else meaning word ws

-- The host tag: the setting, the name of the system, or "unknown", the first that is not only white
-- space, and without white space at the ends.
pub data HostTag (setting own : Bytes) : Bytes → Type 0 where
  named : is_empty (trim_space setting) ≡ false → HostTag setting own (trim_space setting)
  owned :
      is_empty (trim_space setting) ≡ true
      → is_empty (trim_space own) ≡ false
      → HostTag setting own (trim_space own)
  unknown :
      is_empty (trim_space setting) ≡ true
      → is_empty (trim_space own) ≡ true
      → HostTag setting own (codes "unknown")

-- The number of a variable, or 10 where there is only white space.
abbrev pub Number : System → Bytes → ℤ → Type 0
Number sys variable n =
    ((is_empty (trim_space variable) ≡ true) × (n ≡ pos 10))
    ⊎ ((is_empty (trim_space variable) ≡ false) × (sys.atoi (trim_space variable) ≡ some n))

-- Where the settings `c` come from: the arguments, the environment and the defaults.
pub record Sourced (sys : System) (args : List Bytes) (c : Config) : Type 0 where
  pub given : Given
  pub flags_read : sys.parse_flags args ≡ ok (given, [])
  pub url : From given.url (sys.lookup_env (codes "OBSERVANT_URL")) [] c.url
  pub token : From given.token (sys.lookup_env (codes "OBSERVANT_TOKEN")) [] c.token
  pub socket : From given.socket (sys.lookup_env (codes "OBSERVANT_SOCKET")) [] c.socket
  pub interval_text : Bytes
  pub interval_from :
      From given.interval (sys.lookup_env (codes "OBSERVANT_INTERVAL")) (codes "15s") interval_text
  pub interval_read : sys.parse_duration (trim_space interval_text) ≡ ok c.interval
  pub interval_ok : second_or_more c.interval ≡ true
  pub hostname_text : Bytes
  pub hostname_from :
      From given.hostname (sys.lookup_env (codes "OBSERVANT_HOSTNAME")) [] hostname_text
  pub hostname : HostTag hostname_text (text_or_empty sys.os_hostname) c.hostname
  pub role_text : Bytes
  pub role_from : From given.role (sys.lookup_env (codes "OBSERVANT_ROLE")) [] role_text
  pub role : c.role ≡ trim_space role_text
  pub docker_text : Bytes
  pub docker_from :
      From given.docker (sys.lookup_env (codes "OBSERVANT_DOCKER")) (codes "auto") docker_text
  pub docker : meaning (to_lower (trim_space docker_text)) mode_words ≡ some c.docker
  pub number : ℤ
  pub number_read :
      Number sys (text_or_empty (sys.lookup_env (codes "OBSERVANT_INSPECT_EVERY"))) number
  pub inspect_every : FlagOr given.inspect_every number c.inspect_every
  pub inspect_ok : one_or_more c.inspect_every ≡ true
  pub version : FlagOr given.version false c.version
  pub once : FlagOr given.once false c.once
  pub self_check : FlagOr given.self_check false c.self_check
