-- ===== src/Config/Tests.antt =====
-- Runs of `Parse` and `Validate`, and the theorems about them at concrete arguments.
use observant_agent.Base.{true, false, [], none, some, ◌≡◌, refl, ◌↔◌, is_empty, if◌then◌else◌}
use observant_agent.Base.Decimal.{pos, format_int, parse_int, parse_digits}
use observant_agent.Base.Results.{ok}
use observant_agent.Base.Text.{codes, bytes_eq, to_lower}
use observant_agent.Base.Trim.{trim_space, strip_left, strip_right, strip_all}
use observant_agent.Config.Accepted.{IsUsable, parse-IsUsable}
use observant_agent.Config.Parse.{
  parse, interval_of, docker_of, mode_of, settle, settings, host_tag,
}
use observant_agent.Config.Settings.{Config, Given, System, docker_off, env, env_int}
use observant_agent.Config.Validate.{validate, IsWebUrl, validate_iff}

abbrev pub flags : Given
flags = record {
  url = some (codes "https://ingest");
  token = none;
  interval = none;
  hostname = some (codes "  ");
  role = some (codes " db\n");
  docker = some (codes "NO");
  socket = none;
  inspect_every = none;
  version = none;
  once = some true;
  self_check = none;
}

-- Every argument list gives `flags`; a duration is a number of seconds.
abbrev pub system : System
system = record {
  lookup_env = λ key.
      if bytes_eq key (codes "OBSERVANT_TOKEN")
      then some (codes "secret")
      else if bytes_eq key (codes "OBSERVANT_INSPECT_EVERY")
      then some (codes " 7 ")
      else none;
  os_hostname = some (codes "node-1");
  atoi = parse_int;
  parse_duration = λ s. ok (pos 15_000_000_000);
  parse_flags = λ args. ok (flags, []);
  parse_url = λ s. ok (record { scheme = codes "https"; host = codes "ingest" });
  quote = λ s. s;
  duration_text = format_int;
}

abbrev pub parsed : Config
parsed = record {
  url = codes "https://ingest";
  token = codes "secret";
  interval = pos 15_000_000_000;
  hostname = codes "node-1";
  role = codes "db";
  docker = docker_off;
  socket = [];
  inspect_every = pos 7;
  version = false;
  once = true;
  self_check = false;
}

pub parse_runs : parse system [] ≡ ok parsed
unfolding parse settle settings interval_of docker_of mode_of host_tag env env_int trim_space
    strip_left strip_right strip_all bytes_eq to_lower parse_int parse_digits
parse_runs = refl

parse-IsUsable_example : IsUsable parsed
parse-IsUsable_example = parse-IsUsable system [] parsed parse_runs

validate_accepts : (validate system parsed ≡ []) ↔ (
    (is_empty parsed.url ≡ false)
    × IsWebUrl system (system.parse_url parsed.url)
    × (is_empty parsed.token ≡ false))
validate_accepts = validate_iff system parsed
