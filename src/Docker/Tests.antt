-- ===== src/Docker/Tests.antt =====
-- Runs of the Docker client, and the theorems about it at concrete containers.
use observant_agent.Base.{
  ℕ, ◌+◌, ◌-◌, ◌*◌, ◌/◌, ◌%◌, ◌^◌, ◌≤◌, ◌<◌, Bool, true, false, List, [], ◌∷◌, ◌++◌, map, none,
  some, ◌≡◌, refl, arith, ltb, leb, ◌==◌, if◌then◌else◌, length, not, is_empty,
}
use observant_agent.Base.Decimal.{pos, parse_int}
use observant_agent.Base.Dict.{lookup}
use observant_agent.Base.Text.{Bytes, codes, bytes_eq, has_prefix, to_lower}
use observant_agent.Docker.Answers.{sample_ids, reported, failures, collect-reported}
use observant_agent.Docker.Collect.{
  ContainerJson, Engine, got, failed, container_of, stopped_age, collect,
}
use observant_agent.Docker.Cycle.{Unknown, collect-Unknown}
use observant_agent.Docker.Detect.{Machine, candidate_sockets, detect}
use observant_agent.Docker.Detected.{Chosen, detect-Chosen}
use observant_agent.Docker.Encode.{encode}
use observant_agent.Docker.Lines.{lines_of, encode-lines}
use observant_agent.Docker.Records.{get_restart-put_restart, prune_dead_lem}
use observant_agent.Docker.Restart.{
  Client, RestartSample, needs_inspect, due, every_of, get_restart, put_restart, prune_dead, runs,
  new_client,
}
use observant_agent.Docker.Sample.{Arith, Stats, StatsJson, memory_of, max_plausible_memory}
use observant_agent.Docker.Schedule.{next_due, needs_inspect-next_due}
use observant_agent.Docker.Usage.{memory_of_bounds}
use observant_agent.Lineproto.Encoder.{new}
use observant_agent.Lineproto.Reader.{ReadsAs, run}
use observant_agent.Lineproto.Tests.{whole, whole-FormatsNumbers, base_tags, epoch_second}

-- Whole numbers in place of floats, as in the tests of the encoder.
abbrev pub whole_arith : Arith
whole_arith = record {
  floats = whole;
  mul = λ a b. a * b;
  div = λ a b. if b == 0 then 0 else a / b;
  add = λ a b. a + b;
  sub = λ a b. a - b;
  less_eq = leb;
  less = ltb;
  round = λ a. a;
}

abbrev pub listed : Bytes → Bytes → ContainerJson
listed id state = record {
  id = id;
  names = (codes "/" ++ id) ∷ [];
  image = codes "img\n:1";
  state = state;
  status = [];
  created = pos 0;
}

abbrev pub listing : List ContainerJson
listing =
    listed (codes "web") (codes "running")
    ∷ listed (codes "old") (codes "exited")
    ∷ listed (codes "db") (codes "Running")
    ∷ listed (codes "job") (codes "exited")
    ∷ []

abbrev pub answer : StatsJson
answer = record {
  total_usage = 5;
  percpu_usage = 1 ∷ 2 ∷ [];
  system_cpu_usage = 10;
  online_cpus = 0;
  memory_usage = 2 ^ 41;
  memory_limit = 2 ^ 60;
  memory_stats = (codes "cache", 2 ^ 41 - 7) ∷ [];
  networks = (codes "eth0", (3, 4)) ∷ [];
  blkio = (codes "Read", 6) ∷ [];
  pids = 2;
}

-- "db" gives no stats; "old" stopped two hours ago and "job" a minute ago.
abbrev pub engine : Engine
engine = record {
  listing = got listing;
  stats_of = λ id. if bytes_eq id (codes "db") then failed (codes "timeout") else got answer;
  inspect_of = λ id. got (record { restart_count = pos 3; running = false; finished_at = id });
  now = λ _. epoch_second + 7200 * 1_000_000_000;
  parse_time = λ s.
      if bytes_eq s (codes "old")
      then some epoch_second
      else some (epoch_second + 7140 * 1_000_000_000);
  recent_first = λ cts. cts;
}

abbrev pub known : RestartSample
known = record { count = pos 2; cycle = 7; have = true }

abbrev pub client : Client
client = record {
  socket = codes "/var/run/docker.sock";
  runtime = codes "docker";
  batch = 5;
  inspect_every = pos 10;
  cycle = 12;
  prev = (codes "gone", record { total = 1; system = 2; seen = epoch_second }) ∷ [];
  restart = (codes "gone", known) ∷ (codes "web", known) ∷ [];
}

reported_runs :
    reported whole_arith engine (map container_of listing) ≡ codes "web" ∷ codes "job" ∷ []
unfolding container_of bytes_eq stopped_age has_prefix
reported_runs = refl

failures_runs : failures whole_arith engine (map container_of listing) ≡ codes "db: timeout" ∷ []
unfolding container_of bytes_eq stopped_age has_prefix
failures_runs = refl

collect-reported_example :
    let (_, ss, es) = collect whole_arith engine client in
    (sample_ids ss ≡ reported whole_arith engine (map container_of listing))
    × (es ≡ failures whole_arith engine (map container_of listing))
collect-reported_example = collect-reported whole_arith engine client listing (λ _. refl) refl

collect-Unknown_example : Unknown (collect whole_arith engine client).0 (codes "gone")
unfolding runs container_of bytes_eq
collect-Unknown_example = collect-Unknown whole_arith engine client listing (codes "gone") refl refl

needs_inspect-next_due_example :
    let every = every_of (pos 10) in
    let next = next_due (codes "web") every 7 in
    (needs_inspect client (codes "web") 21 ≡ (21 == next))
    × (7 + every ≤ next)
    × (next < 7 + 2 * every)
unfolding lookup bytes_eq
needs_inspect-next_due_example =
    needs_inspect-next_due client (codes "web") known 21 refl (omega arith) (omega arith)
      (omega arith)

put_restart_runs :
    (get_restart (put_restart client (codes "web") (pos 4) true 12) (codes "web") ≡ (
      if bytes_eq (codes "web") (codes "web")
      then (if true then some (pos 4) else get_restart client (codes "web"))
      else get_restart client (codes "web")))
    × ((k : ℕ)
        → needs_inspect (put_restart client (codes "web") (pos 4) true 12) (codes "web") k ≡ (
            if bytes_eq (codes "web") (codes "web")
            then due (codes "web") (every_of client.inspect_every) 12 k
            else needs_inspect client (codes "web") k))
put_restart_runs = get_restart-put_restart client (codes "web") (codes "web") (pos 4) true 12

prune_dead_lem_example :
    let live = map container_of listing in
    (lookup (codes "web") (prune_dead client live).prev
      ≡ (if runs live (codes "web") then lookup (codes "web") client.prev else none))
    × (lookup (codes "web") (prune_dead client live).restart
        ≡ (if runs live (codes "web") then lookup (codes "web") client.restart else none))
prune_dead_lem_example = prune_dead_lem client (map container_of listing) (codes "web")

memory_of_bounds_example :
    let m = memory_of answer in
    (m.used ≤ answer.memory_usage)
    × (m.used ≤ (if m.ok then (if ltb 0 m.limit then m.limit else max_plausible_memory) else 0))
    × (m.limit ≤ max_plausible_memory)
memory_of_bounds_example = memory_of_bounds answer

abbrev pub sampled : Bool → Stats ℕ
sampled up = record {
  container = record (container_of (listed (codes "web") [])) { running = up };
  cpu_percent = 0;
  mem_used = 7;
  mem_limit = 0;
  mem_percent = 1;
  net_rx_bytes = 3;
  net_tx_bytes = 4;
  blk_read_byte = 6;
  blk_write_byt = 0;
  pids = 2;
  cpu_total_nanos = 5;
  mem_used_ok = true;
  restart_count = pos 3;
  has_restart_count = true;
}

encode-lines_example :
    let samples = sampled true ∷ sampled false ∷ [] in
    let after = encode whole (new base_tags) samples epoch_second in
    ReadsAs after.buf ([] ++ lines_of whole base_tags samples epoch_second)
    × (after.points ≡ (0 + length samples) % 2 ^ 64)
    × (length (lines_of whole base_tags samples epoch_second) ≡ length samples)
unfolding new run container_of
encode-lines_example =
    encode-lines whole (new base_tags) (sampled true ∷ sampled false ∷ []) epoch_second []
      whole-FormatsNumbers refl (omega arith) (ground arith) (ground arith)

-- Only the second candidate is a socket that answers.
abbrev pub machine : Machine
machine = record {
  getenv = λ key. [];
  is_socket = λ p. not (bytes_eq p (codes "/var/run/podman/podman.sock"));
  version_at = λ p.
      if bytes_eq p (codes "/run/docker.sock")
      then got (record { version = codes "24.0.7"; components = codes "Engine" ∷ [] })
      else failed (codes "no answer");
  atoi = parse_int;
  join_path = λ parts. [];
}

detect-Chosen_example :
    Chosen machine
      (if is_empty (codes "/run/docker.sock")
        then candidate_sockets machine
        else codes "/run/docker.sock" ∷ [])
      (detect machine (codes "/run/docker.sock"))
detect-Chosen_example = detect-Chosen machine (codes "/run/docker.sock")

detect_runs :
    detect machine []
    ≡ some (record (new_client (codes "/run/docker.sock")) {
      runtime = codes "docker 24.0.7";
      batch = 1;
    })
unfolding detect has_prefix bytes_eq new_client to_lower parse_int
detect_runs = refl
