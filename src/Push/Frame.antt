-- ===== src/Push/Frame.antt =====
-- What `post` leaves alone, and when it gives up on a batch.
use observant_agent.Base.{
  ◌≤◌, ◌<◌, ◌≢◌, Bool, true, false, not, some, ◌≡◌, inl, inr, arith, Option-cases,
}
use observant_agent.Base.Text.{Bytes}
use observant_agent.Push.Pusher.{Pusher, post}
use observant_agent.Push.Transport.{
  Err, Reply, answer, refused, Transport, retryable, verdict, compress, exchange, request_of,
  request_timeout,
}

-- Only the gzip writer of the pusher changes.
pub post-frame :
    (t : Transport) (p : Pusher) (w : t.World) (body : Bytes)
    → ((post t p w body).1.pending ≡ p.pending)
      × ((post t p w body).1.stats ≡ p.stats)
      × ((post t p w body).1.url ≡ p.url)
      × ((post t p w body).1.token ≡ p.token)
unfolding post
post-frame t p w body = ground arith

-- A reply that makes another attempt pointless.
abbrev pub Refuses : Reply → Type 0
Refuses (answer status body) = (400 ≤ status) × (status < 500) × (status ≢ 408) × (status ≢ 429)
Refuses (refused msg) = ⊥

verdict-Refuses : (r : Reply) (e : Err) → verdict r ≡ some e → retryable e ≡ false → Refuses r
unfolding verdict retryable
verdict-Refuses (answer status body) e h k = ground arith
verdict-Refuses (refused msg) e h k = ground arith

module _ (t : Transport) where
  open t use {World, do_request, gzip_output, new_request, with_timeout}

  compress-retryable :
      (fresh : Bool) (w : World) (body : Bytes) (e : Err)
      → (compress t fresh w body).0 ≡ some e
      → retryable e ≡ true
  unfolding compress retryable
  compress-retryable fresh w body e h = ground arith

  exchange-Refuses :
      (url token : Bytes) (w : World) (payload : Bytes) (e : Err)
      → (exchange t url token w payload).0 ≡ some e
      → retryable e ≡ false
      → Refuses (do_request (with_timeout request_timeout w) (request_of url token payload)).0
  unfolding exchange retryable
  exchange-Refuses url token w payload e h k =
      elim (Option-cases (new_request (with_timeout request_timeout w) url)) [
        | inl sent ↦ verdict-Refuses _ e (rw (sent, exchange) at h) k
        | inr (msg, unsent) ↦ absurd (ground arith)
      ]

  -- A failed attempt is final only if the server answered this batch, compressed and under the
  -- pusher's URL and token, with a status from 400 to 499 other than 408 and 429.
  pub post-Refuses :
      (p : Pusher) (w : World) (body : Bytes) (e : Err)
      → (post t p w body).0 ≡ some e
      → retryable e ≡ false
      → let w1 = (compress t (not p.gz) w body).1 in
        Refuses
          (do_request
            (with_timeout request_timeout w1)
            (request_of p.url p.token (gzip_output w1))).0
  unfolding post
  post-Refuses p w body e h k = ground (
    arith,
    compress-retryable (not p.gz) w body e,
    exchange-Refuses p.url p.token (compress t (not p.gz) w body).1
        (gzip_output (compress t (not p.gz) w body).1) e,
  )
