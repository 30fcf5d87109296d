-- ===== src/Push/Pusher.antt =====
-- internal/push/push.go: the state of a `Pusher` and its methods.
use observant_agent.Base.{
  ℕ, zero, suc, ◌+◌, ◌%◌, ◌^◌, Bool, true, false, not, ◌&&◌, List, [], ◌∷◌, ◌++◌, Option, none,
  some, ltb, if◌then◌else◌, is_empty, length,
}
use observant_agent.Base.Clock.{Time}
use observant_agent.Base.Text.{Bytes}
use observant_agent.Push.Transport.{
  Err, failure, joined, error_text, retryable, Transport, compress, exchange,
}

-- Counters are the bit patterns of an `int64`.
abbrev pub add64 : ℕ → ℕ → ℕ
add64 a b = (a + b) % 2 ^ 64

pub record Stats : Type 0 where
  pub batches : ℕ
  pub points : ℕ
  pub bytes : ℕ
  pub failures : ℕ
  pub dropped : ℕ
  pub retried : ℕ
  pub rejected_dropped : ℕ
  pub buffered : ℕ
  pub last_error : Bytes

pub record Batch : Type 0 where
  pub body : Bytes
  pub points : ℕ
  pub at : Time

-- `client`, `sleep` and `buf` are the transport's; `gz` tells whether the gzip writer exists.
pub record Pusher : Type 0 where
  pub url : Bytes
  pub token : Bytes
  pub pending : List Batch
  pub stats : Stats
  pub gz : Bool

abbrev pub no_stats : Stats
no_stats = record {
  batches = 0;
  points = 0;
  bytes = 0;
  failures = 0;
  dropped = 0;
  retried = 0;
  rejected_dropped = 0;
  buffered = 0;
  last_error = [];
}

unfoldable pub new : Bytes → Bytes → Pusher
new url token = record { url = url; token = token; pending = []; stats = no_stats; gz = false }

-- `MaxBuffered`, `SendDeadline`, `OnceRetries`, `OnceRetryDelay` and `backoff`, in milliseconds.
abbrev pub max_buffered : ℕ
max_buffered = 4

abbrev pub send_deadline : ℕ
send_deadline = 12000

abbrev pub once_retries : ℕ
once_retries = 2

abbrev pub once_retry_delay : ℕ
once_retry_delay = 500

abbrev pub backoff : List ℕ
backoff = 500 ∷ 1000 ∷ 2000 ∷ []

-- `p.Stats()`.
unfoldable pub stats_of : Pusher → Stats
stats_of p = record p.stats { buffered = length p.pending }

-- `p.Pending()`.
abbrev pub pending_count : Pusher → ℕ
pending_count p = length p.pending

-- The counters of a delivered batch.
abbrev pub count_batch : Stats → Bytes → ℕ → Stats
count_batch s body points = record s {
  batches = add64 s.batches 1;
  points = add64 s.points points;
  bytes = add64 s.bytes (length body);
}

-- `p.stats.Failures++` and `p.stats.LastError = err.Error()`.
abbrev pub count_failure : Pusher → Err → Pusher
count_failure p e = record p {
  stats = record p.stats { failures = add64 p.stats.failures 1; last_error = error_text e };
}

-- `for len(p.pending) > MaxBuffered { p.pending = p.pending[1:] }`.
unfoldable pub drop_oldest : List Batch → List Batch
drop_oldest [] = []
drop_oldest (b ∷ bs) =
    let rest = drop_oldest bs in if ltb max_buffered (length (b ∷ bs)) then rest else b ∷ bs

unfoldable pub buffer : Pusher → Batch → Pusher
unfolding drop_oldest
buffer p b = record p { pending = drop_oldest (p.pending ++ b ∷ []) }

-- The batch at the front has been delivered, or rejected for good; `bs` are the others.
abbrev pub delivered : Pusher → Batch → List Batch → Pusher
delivered p b bs =
    let s = count_batch p.stats b.body b.points in
    record p { pending = bs; stats = record s { retried = add64 s.retried 1 } }

abbrev pub rejected : Pusher → List Batch → Pusher
rejected p bs = record p {
  pending = bs;
  stats = record p.stats { rejected_dropped = add64 p.stats.rejected_dropped 1 };
}

module _ (t : Transport) where
  open t use {World, gzip_output, with_timeout, cancel, ctx_error, sleep, now}

  -- What a method returns: its error, the pusher and the world.
  abbrev pub Outcome : Type 0
  Outcome = Option Err × Pusher × World

  unfoldable pub post : Pusher → World → Bytes → Outcome
  post p w body =
      if is_empty body
      then (none, p, w)
      else let (failed, w1) = compress t (not p.gz) w body in
        let q = record p { gz = true } in
        elim failed [
          | some e ↦ (some e, q, w1)
          | none ↦ let (err, w2) = exchange t p.url p.token w1 (gzip_output w1) in (err, q, w2)
        ]

  -- The loop of `flushPending`; the list is `p.pending`, which `post` leaves alone.
  unfoldable pub flush_loop : Pusher → World → List Batch → Pusher × World
  flush_loop p w [] = (p, w)
  flush_loop p w (b ∷ bs) = elim (ctx_error w) [
    | some _ ↦ (p, w)
    | none ↦
        let (err, p1, w1) = post p w b.body in
        elim err [
          | none ↦ flush_loop (delivered p1 b bs) w1 bs
          | some e ↦
              let p2 = count_failure p1 e in
              elim (retryable e) [ true ↦ (p2, w1) | false ↦ flush_loop (rejected p2 bs) w1 bs ]
        ]
  ]

  -- `flushPending`, and `Flush`.
  unfoldable pub flush_pending : Pusher → World → Pusher × World
  unfolding flush_loop
  flush_pending p w = flush_loop p w p.pending

  -- One attempt: a failure is counted before `on_error` decides how to go on.
  abbrev pub attempt : Pusher → World → Bytes → (Err → Pusher → World → Outcome) → Outcome
  attempt p w body on_error =
      let (err, p1, w1) = post p w body in
      elim err [ none ↦ (none, p1, w1) | some e ↦ on_error e (count_failure p1 e) w1 ]

  -- After a retryable failure: sleep, then go on, unless the sleep is cut short.
  abbrev pub pause : ℕ → Err → Pusher → World → (Pusher → World → Outcome) → Outcome
  pause d e p w again =
      let (cut, w1) = sleep w d in
      elim cut [ none ↦ again p w1 | some msg ↦ (some (joined e (failure msg)), p, w1) ]

  -- The end of a round: give up on the last attempt, and go on behind a retryable failure otherwise.
  abbrev pub give_up : Err → Pusher → World → Outcome
  give_up e p w = (some e, p, w)

  abbrev pub if_retryable : ℕ → (Pusher → World → Outcome) → Err → Pusher → World → Outcome
  if_retryable d again e p w = elim (retryable e) [
    | false ↦ (some e, p, w)
    | true ↦ pause d e p w again
  ]

  -- The loop of `sendWithRetry`, on the delays that are left of `backoff`.
  unfoldable pub send_with_retry : Pusher → World → Bytes → List ℕ → Outcome
  send_with_retry p w body [] = attempt p w body give_up
  send_with_retry p w body (d ∷ ds) =
      attempt p w body (if_retryable d (λ p1 w1. send_with_retry p1 w1 body ds))

  -- The end of `Send`: count a delivered batch, or count a drop and buffer the batch.
  unfoldable pub settle : Bytes → ℕ → Outcome → Outcome
  settle body points (none, p, w) =
      (none, record p { stats = count_batch p.stats body points }, cancel w)
  settle body points (some e, p, w) =
      let s = record p.stats { dropped = add64 p.stats.dropped 1; last_error = error_text e } in
      let b : Batch = record { body = body; points = points; at = now w } in
      (some e, buffer (record p { stats = s }) b, cancel w)

  unfoldable pub send : Pusher → World → Bytes → ℕ → Outcome
  unfolding settle
  send p w body points =
      if is_empty body && is_empty p.pending
      then (none, p, w)
      else let (p1, w1) = flush_pending p (with_timeout send_deadline w) in
        if is_empty body
        then (none, p1, cancel w1)
        else settle body points (send_with_retry p1 w1 body backoff)

  -- The loop of `SendOnce`, on the attempts that are left behind this one.
  unfoldable pub send_once_loop : Pusher → World → Bytes → ℕ → Outcome
  send_once_loop p w body zero = attempt p w body give_up
  send_once_loop p w body (suc n) =
      attempt p w body (if_retryable once_retry_delay (λ p1 w1. send_once_loop p1 w1 body n))

  -- The end of `SendOnce`: count a delivered batch.
  unfoldable pub settle_once : Bytes → ℕ → Outcome → Outcome
  settle_once body points (none, p, w) =
      (none, record p { stats = count_batch p.stats body points }, w)
  settle_once body points (some e, p, w) = (some e, p, w)

  unfoldable pub send_once : Pusher → World → Bytes → ℕ → Outcome
  unfolding settle_once
  send_once p w body points = settle_once body points (send_once_loop p w body once_retries)
