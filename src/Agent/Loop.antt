-- ===== src/Agent/Loop.antt =====
-- cmd/observant-agent/main.go: `cycle`, `shutdown` and what they log, and `loop` as a step relation.
use observant_agent.Base.{
  ℕ, zero, suc, ◌+◌, ◌-◌, ◌*◌, ◌%◌, ◌^◌, Bool, List, [], ◌∷◌, ◌++◌, Option, none, some, leb, ◌==◌,
  if◌then◌else◌,
}
use observant_agent.Base.Clock.{Time, to_int64}
use observant_agent.Base.Decimal.{ℤ, pos, negsuc, format_uint, format_int}
use observant_agent.Base.Text.{Bytes, codes, has_prefix}
use observant_agent.Agent.Batch.{Turn, Build, one_line, collect_batch, prime_agent}
use observant_agent.Agent.State.{Agent, redetect_docker, log_docker_failure}
use observant_agent.Docker.Restart.{Client}
use observant_agent.Docker.Sample.{Arith}
use observant_agent.Lineproto.Encoder.{bytes, len, points}
use observant_agent.Push.Pusher.{
  Pusher, Stats, stats_of, pending_count, flush_pending, send, send_once,
}
use observant_agent.Push.Transport.{Err, error_text, Transport, request_timeout}

-- The line that `redetectDocker` logs where it opens a socket.
unfoldable pub found_lines : Option Client → Option Client → List Bytes
found_lines none (some c) =
    (codes "containers: socket found at " ++ (c.socket ++ (codes " (" ++ (c.runtime ++ codes ")"))))
    ∷ []
found_lines none none = []
found_lines (some d) after = []

abbrev pub collect_line : Bytes → Bytes
collect_line msg = codes "collect: " ++ msg

abbrev pub suppressed_line : Bytes → Bytes
suppressed_line msg =
    codes "collect: " ++ (msg ++ codes " (further reports are suppressed for 10m0s)")

module _ {F : Type 0} where
  -- One error of a cycle: the agent, and the lines that are logged.
  unfoldable pub report_one : Agent F → Time → Bytes → Agent F × List Bytes
  report_one a now msg =
      if has_prefix msg (codes "docker:")
      then (let (logged, a1) = log_docker_failure a msg now in
          (a1, if logged then suppressed_line msg ∷ [] else []))
      else (a, collect_line msg ∷ [])

  -- The loop over the errors.
  unfoldable pub report : Agent F → Time → List Bytes → Agent F × List Bytes
  unfolding report_one
  report a now [] = (a, [])
  report a now (e ∷ es) =
      let (a1, lines) = report_one a now (one_line e) in
      let (a2, rest) = report a1 now es in (a2, lines ++ rest)

-- The line behind `Send`, and the one behind `SendOnce`.
unfoldable pub push_lines : Option Err → Pusher → List Bytes
push_lines none p = []
push_lines (some e) p =
    (codes "push failed: "
      ++ (one_line (error_text e)
          ++ (codes " (batch dropped, " ++ (format_uint (pending_count p) ++ codes " buffered)"))))
    ∷ []

unfoldable pub final_lines : Option Err → List Bytes
final_lines none = []
final_lines (some e) = (codes "final push failed: " ++ one_line (error_text e)) ∷ []

unfoldable pub stopped_line : Stats → Bytes
stopped_line s =
    codes "stopped: batches="
    ++ (format_int (to_int64 s.batches)
        ++ (codes " points="
            ++ (format_int (to_int64 s.points)
                ++ (codes " dropped=" ++ format_int (to_int64 s.dropped)))))

-- `push.RequestTimeout + 2*time.Second`, in milliseconds.
abbrev pub shutdown_timeout : ℕ
shutdown_timeout = request_timeout + 2000

-- `rand.Int64N`, where `draw n` is the number below `n` that it gives; `none` is its panic. The ticker
-- panics for the same intervals.
unfoldable pub jitter : (ℕ → ℕ) → ℤ → Option ℕ
jitter draw (pos zero) = none
jitter draw (pos (suc n)) = some (draw (suc n))
jitter draw (negsuc n) = none

-- `summaryEvery`, in nanoseconds.
abbrev pub summary_every : ℕ
summary_every = 60 * 1_000_000_000

-- `time.Since(lastSummary) >= summaryEvery`.
unfoldable pub is_summary_due : Time → Time → Bool
is_summary_due last now = leb summary_every (now - last)

-- The time of the last summary behind a cycle that ends at `now`; the next one is read at `later`.
unfoldable pub next_summary : Time → Time → Time → Time
unfolding is_summary_due
next_summary last now later = if is_summary_due last now then later else last

module _ (ar : Arith) (build : Build) (t : Transport) where
  open ar use {floats}
  open floats use {Float}
  open t use {World, with_timeout, cancel}

  -- The end of `cycle`: the batch is sent.
  unfoldable pub push_batch : Agent Float → World → Agent Float × World × List Bytes
  unfolding push_lines
  push_batch a w =
      if len a.enc == 0
      then (a, w, [])
      else let (failed, p, w1) = send t a.pusher w (bytes a.enc) (points a.enc) in
        (record a { pusher = p }, w1, push_lines failed p)

  -- `a.redetectDocker(ctx)` and `a.cycles++`.
  unfoldable pub begin_cycle : Turn Float → Agent Float → Agent Float
  begin_cycle turn a =
      let a1 = redetect_docker turn.machine a in record a1 { cycles = (a1.cycles + 1) % 2 ^ 64 }

  unfoldable pub cycle : Turn Float → Agent Float → World → Agent Float × World × List Bytes
  unfolding begin_cycle push_batch report found_lines
  cycle turn a w =
      let a1 = begin_cycle turn a in
      let (a2, errs) = collect_batch ar build turn (pos 1) a1 in
      let (a3, logged) = report a2 turn.now errs in
      let (a4, w1, sent) = push_batch a3 w in
      (a4, w1, found_lines a.docker a1.docker ++ (logged ++ sent))

  -- The final push.
  unfoldable pub push_final : Agent Float → World → Agent Float × World × List Bytes
  unfolding final_lines
  push_final a w =
      if len a.enc == 0
      then (a, w, [])
      else let (failed, p, w1) = send_once t a.pusher w (bytes a.enc) (points a.enc) in
        (record a { pusher = p }, w1, final_lines failed)

  -- The errors of the last batch are not logged.
  unfoldable pub shutdown : Turn Float → Agent Float → World → Agent Float × World × List Bytes
  unfolding push_final stopped_line
  shutdown turn a w =
      let (p, w1) = flush_pending t a.pusher (with_timeout shutdown_timeout w) in
      let (a1, errs) = collect_batch ar build turn (pos 0) (record a { pusher = p }) in
      let (a2, w2, sent) = push_final a1 w1 in
      (a2, cancel w2, sent ++ stopped_line (stats_of a2.pusher) ∷ [])

  -- Where `loop` stands: before the counters are primed, before a cycle with the time of the last
  -- summary, or after `shutdown`.
  pub data State : Type 0 where
    starting : Agent Float → State
    running : Agent Float → Time → State
    stopped : Agent Float → State

  abbrev pub agent_of : State → Agent Float
  agent_of (starting a) = a
  agent_of (running a last) = a
  agent_of (stopped a) = a

  -- The steps of `loop`. The world of a step is the one that its requests find: time passes, and the
  -- context may end, between two steps.
  pub data Step : State → State → Type 0 where
    -- the jittered start has been slept through, until `began`
    primes :
        {a : Agent Float} (turn : Turn Float) (began : Time)
        → Step (starting a) (running (prime_agent ar build turn a) began)
    -- the context has ended during the jittered start
    gives_up :
        {a : Agent Float} (first turn : Turn Float) (w : World)
        → Step (starting a) (stopped (shutdown turn (prime_agent ar build first a) w).0)
    -- a cycle, a summary where one is due, and a tick
    ticks :
        {a : Agent Float} {summed : Time} (turn : Turn Float) (w : World) (now later : Time)
        → Step (running a summed) (running (cycle turn a w).0 (next_summary summed now later))
    -- a cycle, and the context has ended
    stops :
        {a : Agent Float} {summed : Time} (turn last : Turn Float) (w v : World)
        → Step (running a summed) (stopped (shutdown last (cycle turn a w).0 v).0)

  -- `n` steps.
  pub data Steps : ℕ → State → State → Type 0 where
    here : {s : State} → Steps 0 s s
    step : {n : ℕ} {r s u : State} → Steps n r s → Step s u → Steps (n + 1) r u
