-- ===== src/Agent/Runs.antt =====
-- Runs of the main program, and the theorems about it at concrete arguments.
use observant_agent.Base.{
  ℕ, ◌+◌, ◌*◌, ◌^◌, ◌≤◌, ◌<◌, true, false, [], ◌∷◌, ◌++◌, none, some, ◌≡◌, ◌↔◌, ◌⊎◌, refl, length,
}
use observant_agent.Agent.Batch.{join_errors, prime_agent}
use observant_agent.Agent.Checked.{all_seen, self_check_iff}
use observant_agent.Agent.Human.{human, scaled_text, human_lem}
use observant_agent.Agent.Launch.{IsReady, run-IsReady}
use observant_agent.Agent.Logs.{summary_line, summary_lines, started_line}
use observant_agent.Agent.Loop.{next_summary}
use observant_agent.Agent.Modes.{Looping, run_iff, run-exit_code}
use observant_agent.Agent.Containers.{print_containers}
use observant_agent.Agent.Print.{Printer}
use observant_agent.Agent.SelfCheck.{Platform, Ended, self_check}
use observant_agent.Agent.Start.{loops, run, exit_code}
use observant_agent.Agent.State.{new_agent, start_docker}
use observant_agent.Agent.Tests.{build, turn, wired}
use observant_agent.Base.Decimal.{pos, format_uint, format_int, parse_int, parse_digits}
use observant_agent.Base.Results.{ok, err}
use observant_agent.Base.Text.{codes, bytes_eq, to_lower, has_prefix}
use observant_agent.Collect.Cycle
use observant_agent.Config.Parse.{
  parse, interval_of, docker_of, mode_of, settle, settings, host_tag,
}
use observant_agent.Config.Settings.{Config, help, System, env, env_int}
use observant_agent.Base.Trim.{trim_space, strip_left, strip_right, strip_all}
use observant_agent.Config.Tests.{system, flags, parsed}
use observant_agent.Config.Validate.{validate}
use observant_agent.Docker.Collect.{container_of}
use observant_agent.Docker.Tests.{whole_arith, machine, sampled}
use observant_agent.Push.Tests.{waiting}
use observant_agent.Push.Pusher.{new, stats_of}

abbrev platform : Platform
platform = record { os = codes "linux"; arch = codes "arm64"; go_version = codes "go1.24" }

-- Numbers in decimal, and texts as they are.
abbrev printer : Printer ℕ
printer = record {
  fixed = λ digits n. format_uint n;
  pad_right = λ width s. s;
  duration_text = format_int;
  date_text = format_int;
  quote = λ s. s;
}

-- The float that stands for `n` is `n + 1` here.
human_runs : human whole_arith printer.fixed (6 * 1024 ^ 3) ≡ codes "5 GiB"
unfolding human format_uint
human_runs = refl

human_lem_example :
    let b : ℕ = 3_000_000 in
    ((b < 1024) × (human whole_arith printer.fixed b ≡ format_uint b ++ codes " B"))
    ⊎ ((exp : ℕ) × (exp ≤ 4)
        × (1024 ^ (exp + 1) ≤ b)
        × ((exp ≡ 4) ⊎ (b < 1024 ^ (exp + 2)))
        × (human whole_arith printer.fixed b
            ≡ scaled_text whole_arith printer.fixed b (1024 ^ (exp + 1)) exp))
human_lem_example = human_lem whole_arith printer.fixed 3_000_000

print_containers_runs :
    print_containers whole_arith printer
      (sampled true ∷ sampled false ∷ [])
      (codes "e" ∷ [])
      (join_errors (codes "e" ∷ []))
    ≡ codes "           partial read: e"
      ∷ codes "           1 running, 1 recently stopped"
      ∷ codes "           web cpu 0%, mem 7 B, 3 restarts, image img\n:1"
      ∷ codes "           web stopped, 3 restarts, image img\n:1"
      ∷ []
unfolding print_containers join_errors human format_uint format_int container_of has_prefix
print_containers_runs = refl

self_check_iff_example :
    let snap =
      (Cycle.collect whole_arith turn.probes (prime_agent whole_arith build turn wired).sys).0 in
    ((self_check whole_arith build platform printer true turn turn wired).failure ≡ none)
    ↔ (all_seen snap wired ≡ true)
self_check_iff_example = self_check_iff whole_arith build platform printer turn turn wired

-- Three batches delivered, one waiting.
summary_runs :
    summary_line printer (record (stats_of waiting) { batches = 3; last_error = codes "http 503" })
    ≡ codes
        "summary: batches=3 points=0 bytes=0 failures=0 dropped=0 rejected=0 buffered=2 last_error=http 503"
unfolding summary_line stats_of new format_int format_uint
summary_runs = refl

started_runs :
    started_line printer build wired (pos 9)
    ≡ codes
        "observant-agent 1.2 started: host=node-1 interval=15000000000 jitter=9 docker=docker via /var/run/docker.sock"
unfolding started_line new_agent format_int
started_runs = refl

-- The same settings without `-once`.
abbrev looping : System
looping = record system { parse_flags = λ args. ok (record flags { once = some false }, []) }

abbrev looping_cfg : Config
looping_cfg = record parsed { once = false }

looping_runs : parse looping [] ≡ ok looping_cfg
unfolding parse settle settings interval_of docker_of mode_of host_tag env env_int trim_space
    strip_left strip_right strip_all bytes_eq to_lower parse_int parse_digits
looping_runs = refl

run_iff_example :
    (run whole_arith build platform printer looping machine true turn turn []
      ≡ loops (start_docker machine (new_agent looping_cfg)))
    ↔ Looping {F = ℕ} looping machine [] (start_docker machine (new_agent looping_cfg))
run_iff_example =
    run_iff whole_arith build platform printer looping machine true turn turn []
      (start_docker machine (new_agent looping_cfg))

-- The loop is entered.
run_runs :
    run whole_arith build platform printer looping machine true turn turn []
    ≡ loops (start_docker machine (new_agent looping_cfg))
unfolding validate bytes_eq
run_runs =
    (run_iff whole_arith build platform printer looping machine true turn turn []
        (start_docker machine (new_agent looping_cfg))).1
      (record {
        cfg = looping_cfg;
        parsed = looping_runs;
        plain = refl;
        valid = refl;
        agent = refl;
      })

-- The smallest jitter.
abbrev no_delay : ℕ → ℕ
no_delay n = 0

run-IsReady_example :
    IsReady {F = ℕ} looping no_delay (start_docker machine (new_agent looping_cfg))
run-IsReady_example =
    run-IsReady whole_arith build platform printer looping machine true turn turn [] no_delay
      (start_docker machine (new_agent looping_cfg)) run_runs

-- The summaries of a loop that began at 5, in nanoseconds.
summary_lines_runs :
    (next_summary 5 60_000_000_004 60_000_000_006 ≡ 5)
    × (next_summary 5 60_000_000_005 60_000_000_006 ≡ 60_000_000_006)
    × (length (summary_lines printer (stats_of waiting) 5 60_000_000_005) ≡ 1)
    × (length (summary_lines printer (stats_of waiting) 5 60_000_000_004) ≡ 0)
unfolding next_summary summary_lines
summary_lines_runs = (refl, refl, refl, refl)

-- The arguments ask for help.
abbrev helping : System
helping = record system { parse_flags = λ args. err help }

abbrev helped : Ended
helped = record { out = []; warnings = []; failure = some help }

help_runs : (exit_code helped ≡ 2) ↔ (parse helping [] ≡ err help)
unfolding run parse env_int trim_space strip_left strip_right strip_all bytes_eq parse_int
    parse_digits
help_runs =
    run-exit_code whole_arith build platform printer helping machine true turn turn [] helped refl
