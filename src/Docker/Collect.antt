-- ===== src/Docker/Collect.antt =====
-- internal/docker/docker.go: `Containers`, `stopped` and `Collect`.
use mathlib.Core.List.{zip}
use observant_agent.Base.{
  ℕ, zero, suc, ◌+◌, ◌-◌, ◌*◌, Bool, true, false, not, ◌&&◌, List, [], ◌∷◌, ◌++◌, map, Option, none,
  some, ltb, leb, if◌then◌else◌, length, take, drop, select, is_empty,
}
use observant_agent.Base.Clock.{Time, unix_epoch}
use observant_agent.Base.Decimal.{ℤ, pos, negsuc}
use observant_agent.Base.Text.{Bytes, codes, bytes_eq, has_prefix}
use observant_agent.Docker.Restart.{Client, Container, plan, put_restart, get_restart, prune_dead}
use observant_agent.Docker.Sample.{Arith, Stats, StatsJson, stats}

pub record ContainerJson : Type 0 where
  pub id : Bytes
  pub names : List Bytes
  pub image : Bytes
  pub state : Bytes
  pub status : Bytes
  pub created : ℤ

-- `inspectJSON`, its nested struct flattened.
pub record InspectJson : Type 0 where
  pub restart_count : ℤ
  pub running : Bool
  pub finished_at : Bytes

-- What `getJSON` returns: the decoded answer or an error's text.
pub data Answer (A : Type 0) : Type 0 where
  got : A → Answer A
  failed : Bytes → Answer A

-- The container engine and the clock during one cycle: the answers to the calls of `getJSON`, the
-- time at which the answer for a container is handled, `time.Parse(time.RFC3339Nano, s)`, and
-- `sort.Slice` by `Created`, newest first, which may leave containers of one age in any order.
pub record Engine : Type 0 where
  pub listing : Answer (List ContainerJson)
  pub stats_of : Bytes → Answer StatsJson
  pub inspect_of : Bytes → Answer InspectJson
  pub now : Bytes → Time
  pub parse_time : Bytes → Option Time
  pub recent_first : List Container → List Container

unfoldable pub short_id : Bytes → Bytes
short_id id = if ltb 12 (length id) then take 12 id else id

-- `strings.TrimPrefix(s, "/")`.
abbrev pub without_slash : Bytes → Bytes
without_slash s = if has_prefix s (codes "/") then drop 1 s else s

abbrev pub first_name : List Bytes → Bytes
first_name [] = []
first_name (n ∷ ns) = without_slash n

-- `strings.EqualFold(s, "running")`: the letters of "running" fold with ASCII letters only.
abbrev pub is_running : Bytes → Bool
is_running s =
    bytes_eq (map (λ c. if leb b'A' c && leb c b'Z' then c + 32 else c) s) (codes "running")

unfoldable pub container_of : ContainerJson → Container
unfolding short_id
container_of r =
    let name = first_name r.names in
    record {
      id = r.id;
      name = if is_empty name then short_id r.id else name;
      image = r.image;
      state = r.state;
      status = r.status;
      created = r.created;
      running = is_running r.state;
    }

-- `maxStoppedAge`, in nanoseconds, and `maxStoppedInspect`.
abbrev pub max_stopped_age : ℕ
max_stopped_age = 3600 * 1_000_000_000

abbrev pub max_stopped_inspect : ℕ
max_stopped_inspect = 50

-- `time.Unix(n, 0)`.
abbrev pub at_unix : ℕ → Time
at_unix n = unix_epoch + n * 1_000_000_000

-- The age by the creation time.
abbrev pub created_age : ℤ → Time → Option ℕ
created_age (pos zero) now = none
created_age (pos (suc n)) now = some (now - at_unix (suc n))
created_age (negsuc n) now = none

-- How long ago the container stopped; an age below zero reads as 0.
unfoldable pub stopped_age : Option Time → ℤ → Time → Option ℕ
stopped_age none created now = created_age created now
stopped_age (some t) created now =
    if leb (at_unix 1) t then some (now - t) else created_age created now

-- A container's result: a sample, `errSkip`, or an error's text.
pub data Read (F : Type 0) : Type 0 where
  sample : Stats F → Read F
  skipped : Read F
  broken : Bytes → Read F

-- `ok && age > maxStoppedAge`.
abbrev pub too_old : Option ℕ → Bool
too_old none = false
too_old (some age) = ltb max_stopped_age age

-- `fmt.Errorf("%s: %w", ct.Name, err)`.
abbrev pub named_error : Container → Bytes → Bytes
named_error ct msg = ct.name ++ (codes ": " ++ msg)

abbrev pub running_of : List Container → List Container
running_of = select (λ ct. ct.running)

module _ (ar : Arith) (engine : Engine) where
  open ar use {floats}
  open floats use {Float, of_uint64}
  open engine use {listing, stats_of, inspect_of, now, parse_time, recent_first}

  -- A sample that holds the identity only.
  abbrev pub identity_sample : Container → InspectJson → Stats Float
  identity_sample ct raw = record {
    container = record ct { running = raw.running };
    cpu_percent = of_uint64 0;
    mem_used = 0;
    mem_limit = 0;
    mem_percent = of_uint64 0;
    net_rx_bytes = 0;
    net_tx_bytes = 0;
    blk_read_byte = 0;
    blk_write_byt = 0;
    pids = 0;
    cpu_total_nanos = 0;
    mem_used_ok = false;
    restart_count = raw.restart_count;
    has_restart_count = true;
  }

  -- The task of a stopped container, from the answer to the inspect call: `stopped` and its error.
  unfoldable pub stopped_answered : Container → Answer InspectJson → Read Float
  unfolding stopped_age
  stopped_answered ct (failed msg) = broken (named_error ct msg)
  stopped_answered ct (got raw) =
      if too_old (stopped_age (parse_time raw.finished_at) ct.created (now ct.id))
      then skipped
      else sample (identity_sample ct raw)

  unfoldable pub stopped : Container → Read Float
  unfolding stopped_answered
  stopped ct = stopped_answered ct (inspect_of ct.id)

  -- `restartCount` and `putRestart`.
  unfoldable pub put_answer : Client → Bytes → ℕ → Answer InspectJson → Client
  put_answer c id cycle (failed msg) = put_restart c id (pos 0) false cycle
  put_answer c id cycle (got raw) = put_restart c id raw.restart_count true cycle

  unfoldable pub inspect : Client → Bytes → ℕ → Client
  unfolding put_answer
  inspect c id cycle = put_answer c id cycle (inspect_of id)

  -- The restart count goes into the sample.
  abbrev pub with_restart : Option ℤ → Stats Float → Stats Float
  with_restart none s = s
  with_restart (some n) s = record s { restart_count = n; has_restart_count = true }

  -- The task of a running container, from the answer to the stats call.
  unfoldable pub run_answered :
      Client → ℕ → Container → Bool → Answer StatsJson → Client × Read Float
  unfolding inspect
  run_answered c cycle ct due (failed msg) = (c, broken (named_error ct msg))
  run_answered c cycle ct due (got raw) =
      let (c1, s) = stats ar c ct raw (now ct.id) in
      let c2 = if due then inspect c1 ct.id cycle else c1 in
      (c2, sample (with_restart (get_restart c2 ct.id) s))

  unfoldable pub run_task : Client → ℕ → Container → Bool → Client × Read Float
  unfolding run_answered
  run_task c cycle ct due = run_answered c cycle ct due (stats_of ct.id)

  -- The tasks of the running containers, one after the other. In the source they run concurrently:
  -- Tasks has them as steps in any order.
  unfoldable pub run_tasks : Client → ℕ → List (Container × Bool) → Client × List (Read Float)
  unfolding run_task
  run_tasks c cycle [] = (c, [])
  run_tasks c cycle ((ct, due) ∷ tasks) =
      let (c1, r) = run_task c cycle ct due in
      let (c2, rs) = run_tasks c1 cycle tasks in (c2, r ∷ rs)

  -- The loop over `errs`: the samples, and the errors to join.
  unfoldable pub samples : List (Read Float) → List (Stats Float)
  samples [] = []
  samples (sample s ∷ rs) = s ∷ samples rs
  samples (skipped ∷ rs) = samples rs
  samples (broken msg ∷ rs) = samples rs

  unfoldable pub errors : List (Read Float) → List Bytes
  errors [] = []
  errors (sample s ∷ rs) = errors rs
  errors (skipped ∷ rs) = errors rs
  errors (broken msg ∷ rs) = msg ∷ errors rs

  -- The stopped containers that are inspected: the newest, `maxStoppedInspect` at most.
  abbrev pub stopped_of : List Container → List Container
  stopped_of cts = take max_stopped_inspect (recent_first (select (λ ct. not ct.running) cts))

  -- The cycle over the containers that the engine listed.
  unfoldable pub collect_listed : Client → List Container → Client × List (Stats Float) × List Bytes
  unfolding run_tasks stopped samples errors
  collect_listed c cts =
      let c1 = prune_dead c cts in
      if is_empty cts
      then (c1, [], [])
      else let (c2, cycle, flags) = plan c1 (running_of cts) in
        let (c3, reads) = run_tasks c2 cycle (zip (running_of cts) flags) in
        let all = reads ++ map stopped (stopped_of cts) in (c3, samples all, errors all)

  -- `Collect`: the client, the samples, and the errors that are joined.
  unfoldable pub collect_answered :
      Client → Answer (List ContainerJson) → Client × List (Stats Float) × List Bytes
  unfolding collect_listed
  collect_answered c (failed msg) = (c, [], msg ∷ [])
  collect_answered c (got raw) = collect_listed c (map container_of raw)

  unfoldable pub collect : Client → Client × List (Stats Float) × List Bytes
  unfolding collect_answered
  collect c = collect_answered c listing
