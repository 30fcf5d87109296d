-- ===== src/Agent/Logs.antt =====
-- cmd/observant-agent/main.go: `logSummary` and when it is called, `dockerState`, and the line at the
-- start of `loop`.
use observant_agent.Base.{
  ◌&&◌, ◌||◌, Bool, not, false, List, [], ◌∷◌, Option, none, some, ltb, if◌then◌else◌, is_empty,
}
use observant_agent.Agent.Batch.{Build}
use observant_agent.Agent.Loop.{is_summary_due}
use observant_agent.Agent.Print.{Printer, line}
use observant_agent.Agent.State.{Agent, is_off}
use observant_agent.Base.Clock.{Time, to_int64}
use observant_agent.Base.Decimal.{ℤ, pos, negsuc, format_uint, format_int}
use observant_agent.Base.Text.{Bytes, codes}
use observant_agent.Docker.Restart.{Client}
use observant_agent.Push.Pusher.{Stats}

-- `n > 0` on `int64`.
abbrev is_positive : ℤ → Bool
is_positive (pos n) = ltb 0 n
is_positive (negsuc n) = false

-- The runtime and the socket, or "none".
abbrev client_state : Option Client → Bytes
client_state none = codes "none"
client_state (some c) = line (c.runtime ∷ codes " via " ∷ c.socket ∷ [])

module _ {F : Type 0} (printer : Printer F) where
  unfoldable pub summary_line : Stats → Bytes
  summary_line s = line (
      codes "summary: batches="
      ∷ format_int (to_int64 s.batches)
      ∷ codes " points="
      ∷ format_int (to_int64 s.points)
      ∷ codes " bytes="
      ∷ format_int (to_int64 s.bytes)
      ∷ codes " failures="
      ∷ format_int (to_int64 s.failures)
      ∷ codes " dropped="
      ∷ format_int (to_int64 s.dropped)
      ∷ codes " rejected="
      ∷ format_int (to_int64 s.rejected_dropped)
      ∷ codes " buffered="
      ∷ format_uint s.buffered
      ∷ (if not (is_empty s.last_error) && (is_positive (to_int64 s.failures) || ltb 0 s.buffered)
          then codes " last_error=" ∷ printer.quote s.last_error ∷ []
          else []))

  -- What is logged behind a cycle that ends at `now`.
  unfoldable pub summary_lines : Stats → Time → Time → List Bytes
  unfolding summary_line
  summary_lines s last now = if is_summary_due last now then summary_line s ∷ [] else []

  unfoldable pub docker_state : Agent F → Bytes
  docker_state a = if is_off a.cfg.docker then codes "off" else client_state a.docker

  -- `jitter` is the rounded delay of the first cycle, in nanoseconds.
  unfoldable pub started_line : Build → Agent F → ℤ → Bytes
  unfolding docker_state
  started_line build a jitter = line (
      codes "observant-agent "
      ∷ build.version
      ∷ codes " started: host="
      ∷ a.cfg.hostname
      ∷ codes " interval="
      ∷ printer.duration_text a.cfg.interval
      ∷ codes " jitter="
      ∷ printer.duration_text jitter
      ∷ codes " docker="
      ∷ docker_state a
      ∷ [])
