-- ===== src/Agent/Tests.antt =====
-- Runs of the agent, and the theorems about it at concrete turns.
use mathlib.Core.List.{zip}
use observant_agent.Base.{
  ℕ, zero, suc, ◌+◌, ◌-◌, ◌*◌, ◌≤◌, true, ◌||◌, List, [], ◌∷◌, some, ◌≡◌, refl, arith, All,
}
use observant_agent.Base.Decimal.{pos, format_uint, format_int}
use observant_agent.Base.Dict.{lookup, insert, retain}
use observant_agent.Base.Text.{Bytes, codes, bytes_eq, has_prefix, to_lower}
use observant_agent.Base.Trim.{trim_space}
use observant_agent.Agent.Wired.{IsWired}
use observant_agent.Agent.Wiring.{Steps-IsWired}
use observant_agent.Agent.Redetect.{IsSearching, ticked, finds, ticked-is_set, ticked-found}
use observant_agent.Agent.OneLine.{IsOneLine, cycle-IsOneLine}
use observant_agent.Agent.Posts.{shutdown-send_once, cycle-send}
use observant_agent.Push.Pusher.{flush_pending, send, send_once}
use observant_agent.Agent.Quiet.{changes, count_logged, count_logged_bounds}
use observant_agent.Base.Clock.{Time}
use observant_agent.Docker.Detect.{detect}
use observant_agent.Push.Transport.{Reply}
use observant_agent.Agent.Batch.{Turn, Build, collect_batch, prime_agent}
use observant_agent.Agent.Calls.{Steps-IsSound}
use observant_agent.Agent.Heartbeat.{lines_of_batch, collect_batch-reads}
use observant_agent.Agent.Loop.{
  State, agent_of, found_lines, begin_cycle, cycle, shutdown, stopped, primes, stops, here, step,
}
use observant_agent.Agent.State.{
  Agent, new_agent, start_docker, is_set, docker_log_every, redetect_docker,
}
use observant_agent.Collect.Cycle
use observant_agent.Collect.Filters.{skip_fstype, skip_mount, short_device}
use observant_agent.Collect.Runs.{probes}
use observant_agent.Config.Settings.{Config, docker_on}
use observant_agent.Config.Tests.{parsed}
use observant_agent.Docker.Collect
use observant_agent.Docker.Restart.{
  new_client, plan, get_restart, needs_inspect, prune_dead, runs, due,
}
use observant_agent.Docker.Sample.{stats}
use observant_agent.Docker.Tests.{whole_arith, engine, client, machine}
use observant_agent.Lineproto.Encoder.{new}
use observant_agent.Lineproto.Reader.{ReadsAs}
use observant_agent.Lineproto.Tests.{whole-FormatsNumbers, epoch_second}
use observant_agent.Push.Ledger.{IsSound}
use observant_agent.Push.Tests.{scripted, busy, fine}

abbrev pub build : Build
build = record { version = codes "1.2"; start_time = pos 5 }

abbrev pub turn : Turn ℕ
turn = record { probes = probes; engine = engine; machine = machine; now = epoch_second }

abbrev pub cfg : Config
cfg = record parsed { docker = docker_on }

-- The agent with a socket.
abbrev pub wired : Agent ℕ
wired = record (new_agent cfg) { docker = some client }

collect_batch-reads_example :
    ReadsAs
      (collect_batch whole_arith build turn (pos 1) wired).0.enc.buf
      (lines_of_batch whole_arith build turn (codes "1i") wired)
unfolding new_agent new Cycle.collect Collect.collect lookup insert retain bytes_eq has_prefix
    to_lower trim_space skip_fstype skip_mount format_int format_uint short_device
    Collect.container_of Collect.stopped_age zip plan get_restart needs_inspect prune_dead runs due
    stats
collect_batch-reads_example =
    collect_batch-reads whole_arith build turn (pos 1) wired whole-FormatsNumbers (ground arith)
      (ground arith) ((refl, (refl, (refl, tt))), ((refl, (refl, (refl, tt))), tt))

-- The end of the loop, and a cycle.
shutdown-send_once_example :
    let (flushed, w) = flush_pending scripted wired.pusher (fine ∷ fine ∷ []) in
    let b = (shutdown whole_arith build scripted turn wired (fine ∷ fine ∷ [])).0 in
    ReadsAs b.enc.buf (lines_of_batch whole_arith build turn (codes "0i") wired)
    × (b.pusher ≡ (send_once scripted flushed w b.enc.buf b.enc.points).1)
unfolding new_agent new Cycle.collect Collect.collect lookup insert retain bytes_eq has_prefix
    to_lower trim_space skip_fstype skip_mount format_int format_uint short_device
    Collect.container_of Collect.stopped_age zip plan get_restart needs_inspect prune_dead runs due
    stats
shutdown-send_once_example =
    shutdown-send_once whole_arith build scripted turn wired (fine ∷ fine ∷ []) whole-FormatsNumbers
      (ground arith) (ground arith) ((refl, (refl, (refl, tt))), ((refl, (refl, (refl, tt))), tt))

cycle-send_example :
    let b = (cycle whole_arith build scripted turn wired (busy ∷ fine ∷ [])).0 in
    ReadsAs b.enc.buf (
      lines_of_batch whole_arith build turn
        (codes "1i")
        (begin_cycle whole_arith build scripted turn wired))
    × (b.pusher ≡ (send scripted wired.pusher (busy ∷ fine ∷ []) b.enc.buf b.enc.points).1)
unfolding new_agent new Cycle.collect Collect.collect lookup insert retain bytes_eq has_prefix
    to_lower trim_space skip_fstype skip_mount format_int format_uint short_device
    Collect.container_of Collect.stopped_age zip plan get_restart needs_inspect prune_dead runs due
    stats begin_cycle redetect_docker
cycle-send_example =
    cycle-send whole_arith build scripted turn wired (busy ∷ fine ∷ []) whole-FormatsNumbers
      (ground arith) (ground arith) ((refl, (refl, (refl, tt))), ((refl, (refl, (refl, tt))), tt))

cycle-IsOneLine_example :
    All IsOneLine (cycle whole_arith build scripted turn wired (busy ∷ fine ∷ [])).2
unfolding found_lines begin_cycle redetect_docker
cycle-IsOneLine_example =
    cycle-IsOneLine whole_arith build scripted turn wired (busy ∷ fine ∷ []) tt

-- A start, two cycles and a stop, against an endpoint that fails once.
abbrev starts : Agent ℕ
starts = prime_agent whole_arith build turn (start_docker machine (new_agent cfg))

abbrev ended : State whole_arith build scripted
ended =
    stopped
      (shutdown whole_arith build scripted turn
        (cycle whole_arith build scripted turn starts (busy ∷ fine ∷ [])).0 (fine ∷ fine ∷ [])).0

Steps-IsSound_example : IsSound (2 + 2) (agent_of whole_arith build scripted ended).pusher
Steps-IsSound_example = Steps-IsSound whole_arith build scripted machine cfg 2 ended (omega arith) (
    step (step here (primes turn epoch_second))
      (stops turn turn (busy ∷ fine ∷ []) (fine ∷ fine ∷ [])))

Steps-IsWired_example : IsWired cfg (2 - 1) (agent_of whole_arith build scripted ended)
Steps-IsWired_example = Steps-IsWired whole_arith build scripted machine cfg 2 ended (
    step (step here (primes turn epoch_second))
      (stops turn turn (busy ∷ fine ∷ []) (fine ∷ fine ∷ [])))

-- An agent that found no socket at its start.
abbrev searching : Agent ℕ
searching = record (new_agent cfg) { docker_failed = true; cycles = 7 }

searching-IsSearching : IsSearching searching
unfolding new_agent
searching-IsSearching = record { enabled = refl; missed = refl }

abbrev again : ℕ → List (Turn ℕ × List Reply)
again zero = []
again (suc n) = (turn, fine ∷ []) ∷ again n

All-again :
    (n : ℕ) → All (λ (t : Turn ℕ × List Reply). is_set (detect t.0.machine []) ≡ true) (again n)
unfolding detect has_prefix bytes_eq new_client
All-again zero = tt
All-again (suc n) = (refl, All-again n)

ticked-is_set_example : is_set (ticked whole_arith build scripted (again 3) searching).docker ≡ (
    is_set searching.docker
    || finds whole_arith build scripted searching.cfg.socket searching.cycles (again 3))
unfolding new_agent
ticked-is_set_example =
    ticked-is_set whole_arith build scripted (again 3) searching searching-IsSearching (omega arith)

ticked-found_example : is_set (ticked whole_arith build scripted (again 21) searching).docker ≡ true
unfolding new_agent
ticked-found_example =
    ticked-found whole_arith build scripted (again 21) searching searching-IsSearching (omega arith)
      (omega arith) (All-again 21)

-- The failure of one socket three times, and then of another.
abbrev failures : List (Bytes × Time)
failures =
    (codes "docker: a", 5)
    ∷ (codes "docker: a", 6)
    ∷ (codes "docker: a", 700_000_000_000)
    ∷ (codes "docker: b", 700_000_000_001)
    ∷ []

count_logged_bounds_example :
    (changes starts.docker_last_msg failures ≤ count_logged starts failures)
    × (count_logged starts failures * docker_log_every
        ≤ changes starts.docker_last_msg failures * docker_log_every
          + (700_000_000_002 - starts.docker_logged_at))
unfolding prime_agent start_docker new_agent
count_logged_bounds_example = count_logged_bounds failures starts 700_000_000_002 (ground arith)
