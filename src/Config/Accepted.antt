-- ===== src/Config/Accepted.antt =====
-- Which arguments `Parse` accepts, and what it makes of them.
use observant_agent.Base.{
  true, false, List, [], ◌∷◌, some, ◌≡◌, refl, sym, subst, ap, ◌↔◌, arith, is_empty, if◌then◌else◌,
}
use observant_agent.Base.Decimal.{ℤ}
use observant_agent.Base.Results.{
  ok, require, >>=-split, require-eq-ok, ok_injective, >>=-ok, require-ok,
}
use observant_agent.Base.Text.{Bytes, codes}
use observant_agent.Base.Trim.{trim_space, strip_left, strip_right}
use observant_agent.Base.Trimmed.{Trimmed, trim_space-Trimmed}
use observant_agent.Config.Parse.{
  second_or_more, one_or_more, mode_of, no_arguments, interval_of, docker_of, host_tag, settings,
  interval_text, docker_text, every_error, settle, parse,
}
use observant_agent.Config.Settings.{DockerMode, Config, Given, System, chosen, env, env_int}
use observant_agent.Docker.Restart.{default_inspect_every}

-- What holds of all settings that `Parse` returns.
pub record IsUsable (c : Config) : Type 0 where
  pub interval_ok : second_or_more c.interval ≡ true
  pub inspect_ok : one_or_more c.inspect_every ≡ true
  pub hostname_given : is_empty c.hostname ≡ false
  pub hostname_trimmed : Trimmed c.hostname
  pub role_trimmed : Trimmed c.role

first_name_lem :
    (name own : Bytes)
    → Trimmed name
    → Trimmed own
    → let tag = if is_empty name then (if is_empty own then codes "unknown" else own) else name in
      (is_empty tag ≡ false) × Trimmed tag
unfolding strip_left strip_right
first_name_lem [] [] h k = (refl, (refl, refl))
first_name_lem [] (c ∷ own) h k = (refl, k)
first_name_lem (c ∷ name) own h k = (refl, h)

host_tag_lem :
    (sys : System) (given : Bytes)
    → (is_empty (host_tag sys given) ≡ false) × Trimmed (host_tag sys given)
unfolding host_tag
host_tag_lem sys given =
    first_name_lem (trim_space given) _ (trim_space-Trimmed given) (trim_space-Trimmed _)

-- The parts of a run of `Parse` that succeeds.
pub record Run (sys : System) (args : List Bytes) (c : Config) : Type 0 where
  pub inspect_default : ℤ
  pub given : Given
  pub variable_read :
      env_int sys (codes "OBSERVANT_INSPECT_EVERY") default_inspect_every ≡ ok inspect_default
  pub flags_read : sys.parse_flags args ≡ ok (given, [])
  pub interval_read : sys.parse_duration (trim_space (interval_text sys given)) ≡ ok c.interval
  pub interval_ok : second_or_more c.interval ≡ true
  pub inspect_ok : one_or_more (chosen given.inspect_every inspect_default) ≡ true
  pub docker_read : mode_of (docker_text sys given) ≡ some c.docker
  pub settled :
      c ≡ settings sys given c.interval (chosen given.inspect_every inspect_default) c.docker

interval_of-ok :
    (sys : System) (text : Bytes) (d : ℤ)
    → interval_of sys text ≡ ok d
    → (sys.parse_duration (trim_space text) ≡ ok d) × (second_or_more d ≡ true)
unfolding interval_of
interval_of-ok sys text d h = ground arith

ok-interval_of :
    (sys : System) (text : Bytes) (d : ℤ)
    → sys.parse_duration (trim_space text) ≡ ok d
    → second_or_more d ≡ true
    → interval_of sys text ≡ ok d
unfolding interval_of
ok-interval_of sys text d h k = ground arith

ok-docker_of :
    (sys : System) (text : Bytes) (m : DockerMode)
    → mode_of text ≡ some m
    → docker_of sys text ≡ ok m
unfolding docker_of
ok-docker_of sys text m h = ground arith

docker_of-ok :
    (sys : System) (text : Bytes) (m : DockerMode)
    → docker_of sys text ≡ ok m
    → mode_of text ≡ some m
unfolding docker_of
docker_of-ok sys text m h = ground arith

no_arguments-ok :
    (sys : System) (rest : List Bytes) {u : Unit {0}} → no_arguments sys rest ≡ ok u → rest ≡ []
no_arguments-ok sys [] h = refl
no_arguments-ok sys (arg ∷ rest) h = cc

abbrev Settles : System → ℤ → Given → Config → Type 0
Settles sys def given c =
    (sys.parse_duration (trim_space (interval_text sys given)) ≡ ok c.interval)
    × (second_or_more c.interval ≡ true)
    × (one_or_more (chosen given.inspect_every def) ≡ true)
    × (mode_of (docker_text sys given) ≡ some c.docker)
    × (c ≡ settings sys given c.interval (chosen given.inspect_every def) c.docker)

settle-ok :
    (sys : System) (def : ℤ) (given : Given) (c : Config)
    → settle sys def given ≡ ok c
    → Settles sys def given c
unfolding settle settings
settle-ok sys def given c h =
    let every = chosen given.inspect_every def in
    let (d, interval, h1) = >>=-split (interval_of sys (interval_text sys given)) _ h in
    let (_, positive, h2) = >>=-split (require (one_or_more every) (every_error sys every)) _ h1 in
    let (m, docker, h3) = >>=-split (docker_of sys (docker_text sys given)) _ h2 in
    let (read, long) = interval_of-ok sys (interval_text sys given) d interval in
    subst (Settles sys def given) (ok_injective h3)
      (read, long, require-eq-ok _ _ positive, docker_of-ok sys _ m docker, refl)

Settles-settle :
    (sys : System) (def : ℤ) (given : Given) (c : Config)
    → Settles sys def given c
    → settle sys def given ≡ ok c
unfolding settle
Settles-settle sys def given c (read, long, positive, docker, settled) =
    let every = chosen given.inspect_every def in
    >>=-ok (interval_of sys (interval_text sys given)) _ (ok-interval_of sys _ c.interval read long)
      (>>=-ok (require (one_or_more every) (every_error sys every)) _ (require-ok _ _ positive) (
        >>=-ok (docker_of sys (docker_text sys given)) _ (ok-docker_of sys _ c.docker docker)
          (ap ok (sym settled))))

-- `Parse` succeeds exactly where the variable of the inspect calls is a number or not set, the flags
-- are well-formed with no argument behind them, the interval is a duration of a second or more, the
-- cycles between inspect calls are 1 or more, and the mode is one of the known words; the settings
-- are then those of the flags, the environment and the defaults, in this order.
pub parse-Run :
    (sys : System) (args : List Bytes) (c : Config) → (parse sys args ≡ ok c) ↔ Run sys args c
unfolding parse
parse-Run sys args c = (
  (λ h.
      let (def, variable, h1) =
        >>=-split (env_int sys (codes "OBSERVANT_INSPECT_EVERY") default_inspect_every) _ h in
      let ((given, rest), flags, h2) = >>=-split (sys.parse_flags args) _ h1 in
      let (_, alone, h3) = >>=-split (no_arguments sys rest) _ h2 in
      let (read, long, positive, docker, settled) = settle-ok sys def given c h3 in
      record {
        inspect_default = def;
        given = given;
        variable_read = variable;
        flags_read = rw⁻¹ (no_arguments-ok sys rest alone) flags;
        interval_read = read;
        interval_ok = long;
        inspect_ok = positive;
        docker_read = docker;
        settled = settled;
      }),
  λ r.
      >>=-ok (env_int sys (codes "OBSERVANT_INSPECT_EVERY") default_inspect_every) _ r.variable_read
        (>>=-ok (sys.parse_flags args) _ r.flags_read (
          Settles-settle sys r.inspect_default r.given c
            (r.interval_read, r.interval_ok, r.inspect_ok, r.docker_read, r.settled))),
)

-- The settings that `Parse` returns: the interval is a second or more, the cycles between inspect
-- calls are 1 or more, the host tag is not empty, and neither it nor the role has white space at an
-- end.
pub parse-IsUsable :
    (sys : System) (args : List Bytes) (c : Config) → parse sys args ≡ ok c → IsUsable c
unfolding settings
parse-IsUsable sys args c h =
    let r = (parse-Run sys args c).0 h in
    let host =
      host_tag_lem sys (chosen r.given.hostname (env sys (codes "OBSERVANT_HOSTNAME") [])) in
    record {
      interval_ok = r.interval_ok;
      inspect_ok = subst (λ x. one_or_more x.inspect_every ≡ true) (sym r.settled) r.inspect_ok;
      hostname_given = subst (λ x. is_empty x.hostname ≡ false) (sym r.settled) host.0;
      hostname_trimmed = subst (λ x. Trimmed x.hostname) (sym r.settled) host.1;
      role_trimmed = subst (λ x. Trimmed x.role) (sym r.settled) (trim_space-Trimmed _);
    }
