-- ===== src/Push/Retry.antt =====
-- The attempts of `sendWithRetry` and `SendOnce`.
use observant_agent.Base.{
  ℕ, zero, suc, ◌+◌, ◌%◌, ◌^◌, ◌≤◌, List, [], ◌∷◌, Option, none, some, ◌≡◌, ap, inl, inr, arith,
  length, Option-cases, Bool-cases,
}
use observant_agent.Base.Text.{Bytes}
use observant_agent.Push.Frame.{post-frame}
use observant_agent.Push.Pusher.{
  Pusher, add64, Outcome, post, attempt, pause, give_up, if_retryable, count_failure,
  send_with_retry, send_once, send_once_loop, settle_once, once_retries, once_retry_delay,
}
use observant_agent.Push.Transport.{Err, Transport, retryable}

-- What the attempts to post one batch may change: `failures` grows by `n` (modulo 2^64), with the
-- text of an error, and the buffer and every other counter stay.
pub record Attempts (p q : Pusher) (n : ℕ) : Type 0 where
  pub pending : q.pending ≡ p.pending
  pub failures : q.stats.failures % 2 ^ 64 ≡ (p.stats.failures + n) % 2 ^ 64
  pub batches : q.stats.batches ≡ p.stats.batches
  pub points : q.stats.points ≡ p.stats.points
  pub bytes : q.stats.bytes ≡ p.stats.bytes
  pub dropped : q.stats.dropped ≡ p.stats.dropped
  pub retried : q.stats.retried ≡ p.stats.retried
  pub rejected_dropped : q.stats.rejected_dropped ≡ p.stats.rejected_dropped

-- The failures of a run of at most `limit` attempts: fewer than `limit` if it succeeds, and one at
-- least if it fails.
abbrev pub Within : ℕ → Option Err → ℕ → Type 0
Within limit none n = suc n ≤ limit
Within limit (some e) n = (1 ≤ n) × (n ≤ limit)

module _ (t : Transport) where
  open t use {World, sleep}

  abbrev pub Tried : Pusher → ℕ → Outcome t → Type 0
  Tried p limit r = (n : ℕ) × Attempts p r.1 n × Within limit r.0 n

  post-Attempts : (p : Pusher) (w : World) (body : Bytes) → Attempts p (post t p w body).1 0
  post-Attempts p w body = ground (arith, post-frame t p w body)

  failure-Attempts :
      (p : Pusher) (w : World) (body : Bytes) (e : Err)
      → Attempts p (count_failure (post t p w body).1 e) 1
  failure-Attempts p w body e = ground (arith, post-frame t p w body)

  Attempts-trans : {p q r : Pusher} {n : ℕ} → Attempts p q 1 → Attempts q r n → Attempts p r (suc n)
  Attempts-trans a b = ground arith

  -- One attempt, and what comes after its failure.
  attempt-Tried :
      (p : Pusher) (w : World) (body : Bytes) (limit : ℕ)
      (on_error : Err → Pusher → World → Outcome t)
      → 1 ≤ limit
      → ((e : Err) (w1 : World)
          → Tried p limit (on_error e (count_failure (post t p w body).1 e) w1))
      → Tried p limit (attempt t p w body on_error)
  attempt-Tried p w body limit on_error h k = elim (Option-cases (post t p w body).0) [
    | inl ok ↦ rw (ok, attempt) (0, post-Attempts p w body, h)
    | inr (e, bad) ↦ rw (bad, attempt) (k e (post t p w body).2)
  ]

  -- A failure that ends the run.
  gives_up-Tried :
      (p : Pusher) (w w1 : World) (body : Bytes) (limit : ℕ) (e x : Err)
      → 1 ≤ limit
      → Tried p limit (some x, count_failure (post t p w body).1 e, w1)
  gives_up-Tried p w w1 body limit e x h = (1, failure-Attempts p w body e, (omega arith, h))

  -- A failure with at most `limit` attempts to come.
  goes_on-Tried :
      (p q : Pusher) (limit : ℕ) (r : Outcome t)
      → Attempts p q 1
      → Tried q limit r
      → Tried p (suc limit) r
  goes_on-Tried p q limit (none, q1, w1) a (n, b, c) = (suc n, Attempts-trans a b, omega arith)
  goes_on-Tried p q limit (some e, q1, w1) a (n, b, c) = (suc n, Attempts-trans a b, omega arith)

  pause-Tried :
      (p q : Pusher) (w : World) (d limit : ℕ) (e : Err) (again : Pusher → World → Outcome t)
      → Attempts p q 1
      → ((w1 : World) → Tried q limit (again q w1))
      → Tried p (suc limit) (pause t d e q w again)
  pause-Tried p q w d limit e again a k = elim (Option-cases (sleep w d).0) [
    | inl slept ↦
        rw (slept, pause) (goes_on-Tried p q limit (again q (sleep w d).1) a (k (sleep w d).1))
    | inr (msg, cut) ↦ rw (cut, pause) (1, a, omega arith)
  ]

  -- One round: an attempt, and the rest of the rounds behind a retryable failure.
  round-Tried :
      (p : Pusher) (w : World) (body : Bytes) (d limit : ℕ) (again : Pusher → World → Outcome t)
      → ((q : Pusher) (w1 : World) → Tried q limit (again q w1))
      → Tried p (suc limit) (attempt t p w body (if_retryable t d again))
  round-Tried p w body d limit again k =
      attempt-Tried p w body (suc limit) (if_retryable t d again) (omega arith) λ e w1.
        elim (Bool-cases (retryable e)) [
          | inl more ↦
              rw (more, if_retryable)
                (pause-Tried p _ w1 d limit e again (failure-Attempts p w body e) (k _))
          | inr final ↦
              rw (final, if_retryable) (gives_up-Tried p w w1 body (suc limit) e e (omega arith))
        ]

  last-Tried : (p : Pusher) (w : World) (body : Bytes) → Tried p 1 (attempt t p w body (give_up t))
  last-Tried p w body =
      attempt-Tried p w body 1 (give_up t) (omega arith)
        λ e w1. gives_up-Tried p w w1 body 1 e e (omega arith)

  -- The attempts to post one batch are at most one more than the delays of the schedule: with `n`
  -- failures counted (modulo 2^64), `n` is at most the number of delays if the batch is delivered,
  -- and from 1 to one more if it is not. The buffer and every other counter stay.
  pub send_with_retry-Tried :
      (ds : List ℕ) (p : Pusher) (w : World) (body : Bytes)
      → Tried p (suc (length ds)) (send_with_retry t p w body ds)
  unfolding send_with_retry
  send_with_retry-Tried [] p w body = last-Tried p w body
  send_with_retry-Tried (d ∷ ds) p w body =
      round-Tried p w body d (suc (length ds)) (λ q w1. send_with_retry t q w1 body ds)
        λ q w1. send_with_retry-Tried ds q w1 body

  send_once_loop-Tried :
      (n : ℕ) (p : Pusher) (w : World) (body : Bytes)
      → Tried p (suc n) (send_once_loop t p w body n)
  unfolding send_once_loop
  send_once_loop-Tried zero p w body = last-Tried p w body
  send_once_loop-Tried (suc n) p w body =
      round-Tried p w body once_retry_delay (suc n) (λ q w1. send_once_loop t q w1 body n)
        λ q w1. send_once_loop-Tried n q w1 body

  -- What `SendOnce` may do, with `r` its result.
  abbrev pub SentOnce : Pusher → Outcome t → Type 0
  SentOnce p r =
      (n : ℕ) × (r.1.stats.failures % 2 ^ 64 ≡ (p.stats.failures + n) % 2 ^ 64)
      × Within 3 r.0 n
      × (r.1.pending ≡ p.pending)
      × (r.1.stats.dropped ≡ p.stats.dropped)
      × (r.1.stats.retried ≡ p.stats.retried)
      × (r.1.stats.rejected_dropped ≡ p.stats.rejected_dropped)
      × (r.1.stats.batches
          ≡ (elim r.0 [ none ↦ add64 p.stats.batches 1 | some _ ↦ p.stats.batches ]))

  settle_once-SentOnce :
      (p : Pusher) (body : Bytes) (points : ℕ) (r : Outcome t)
      → Tried p 3 r
      → SentOnce p (settle_once t body points r)
  unfolding settle_once
  settle_once-SentOnce p body points (none, q, w) (n, a, k) = (
    n,
    a.failures,
    k,
    a.pending,
    a.dropped,
    a.retried,
    a.rejected_dropped,
    ap (λ x. add64 x 1) a.batches,
  )
  settle_once-SentOnce p body points (some e, q, w) (n, a, k) =
      (n, a.failures, k, a.pending, a.dropped, a.retried, a.rejected_dropped, a.batches)

  -- `SendOnce` makes at most three attempts: with `n` failures counted (modulo 2^64), `n` is below 3
  -- if it succeeds and from 1 to 3 if it fails. The buffer and the counts of dropped, retried and
  -- rejected batches stay; a success counts one batch (modulo 2^64), and a failure none.
  pub send_once-SentOnce :
      (p : Pusher) (w : World) (body : Bytes) (points : ℕ)
      → SentOnce p (send_once t p w body points)
  unfolding send_once
  send_once-SentOnce p w body points =
      settle_once-SentOnce p body points (send_once_loop t p w body once_retries)
        (send_once_loop-Tried once_retries p w body)
