-- ===== src/Push/Send.antt =====
-- `Send` on both of its outcomes.
use observant_agent.Base.{
  ℕ, true, false, List, [], ◌∷◌, ◌++◌, none, some, ◌≡◌, refl, subst, ap, ◌∙◌, ◌⊎◌, inl, inr,
  Bool-cases, arith, is_empty, length,
}
use observant_agent.Base.Text.{Bytes}
use observant_agent.Push.Buffer.{Keeps, buffer-Keeps, buffer-stats}
use observant_agent.Push.Flush.{Flushed, flush_pending-Flushed}
use observant_agent.Push.Pusher.{
  Pusher, Batch, Outcome, add64, backoff, send_deadline, flush_pending, send_with_retry, settle,
  send,
}
use observant_agent.Push.Retry.{Tried, send_with_retry-Tried}
use observant_agent.Push.Transport.{Transport, error_text}

module _ (t : Transport) where
  open t use {World, with_timeout}

  -- How `Send` of a new batch ends, from the pusher `f` behind the flush: delivered and counted, or
  -- dropped, counted and put at the end of the buffer, with up to three older batches in front.
  abbrev pub Settled : Pusher → Bytes → ℕ → Outcome t → Type 0
  Settled f body points (none, q, w) =
      (q.pending ≡ f.pending)
      × (q.stats.batches ≡ add64 f.stats.batches 1)
      × (q.stats.points ≡ add64 f.stats.points points)
      × (q.stats.bytes ≡ add64 f.stats.bytes (length body))
      × (q.stats.dropped ≡ f.stats.dropped)
      × (q.stats.retried ≡ f.stats.retried)
      × (q.stats.rejected_dropped ≡ f.stats.rejected_dropped)
  Settled f body points (some e, q, w) =
      (kept : List Batch) × (b : Batch) × Keeps f.pending kept
      × (q.pending ≡ kept ++ b ∷ [])
      × (b.body ≡ body)
      × (b.points ≡ points)
      × (q.stats.batches ≡ f.stats.batches)
      × (q.stats.dropped ≡ add64 f.stats.dropped 1)
      × (q.stats.retried ≡ f.stats.retried)
      × (q.stats.rejected_dropped ≡ f.stats.rejected_dropped)
      × (q.stats.last_error ≡ error_text e)

  settle-Settled :
      (f : Pusher) (body : Bytes) (points : ℕ) (r : Outcome t)
      → Tried t f 4 r
      → Settled f body points (settle t body points r)
  unfolding settle
  settle-Settled f body points (none, q, w) (n, a, k) = ground arith
  settle-Settled f body points (some e, q, w) (n, a, k) =
      let s = record q.stats { dropped = add64 q.stats.dropped 1; last_error = error_text e } in
      let b : Batch = record { body = body; points = points; at = t.now w } in
      let p = record q { stats = s } in
      let same = buffer-stats p b in
      let (kept, keeps, at_end) = buffer-Keeps p b in
      (
        kept,
        b,
        subst (λ l. Keeps l kept) a.pending keeps,
        at_end,
        refl,
        refl,
        ap (λ s. s.batches) same ∙ a.batches,
        ap (λ s. s.dropped) same ∙ ap (λ x. add64 x 1) a.dropped,
        ap (λ s. s.retried) same ∙ a.retried,
        ap (λ s. s.rejected_dropped) same ∙ a.rejected_dropped,
        ap (λ s. s.last_error) same,
      )

  -- `Send` of a batch that is not empty first flushes the buffer. Then either it returns no error,
  -- the batch is counted in `Batches`, `Points` and `Bytes` (modulo 2^64) and the buffer stays; or
  -- it returns an error whose text is `LastError`, the batch is counted in `Dropped` and stands at
  -- the end of the buffer, and the older batches in front of it are the newest three at most.
  pub send-Settled :
      (p : Pusher) (w : World) (body : Bytes) (points : ℕ)
      → is_empty body ≡ false
      → (f : Pusher) × (w1 : World) × Flushed t p (with_timeout send_deadline w) f w1
        × Settled f body points (send t p w body points)
  unfolding send
  send-Settled p w body points h =
      let f = flush_pending t p (with_timeout send_deadline w) in
      (
        f.0,
        f.1,
        flush_pending-Flushed t p _,
        rw (h, send)
            (settle-Settled f.0 body points (send_with_retry t f.0 f.1 body backoff)
              (send_with_retry-Tried t backoff f.0 f.1 body)),
      )

  -- An empty batch makes `Send` a flush, or nothing where nothing is buffered.
  pub send-empty :
      (p : Pusher) (w : World) (body : Bytes) (points : ℕ)
      → is_empty body ≡ true
      → ((send t p w body points).1 ≡ p)
        ⊎ ((w1 : World) × Flushed t p (with_timeout send_deadline w) (send t p w body points).1 w1)
  unfolding send
  send-empty p w body points h = elim (Bool-cases (is_empty p.pending)) [
    | inl none_left ↦ rw (h, none_left) (inl refl)
    | inr some_left ↦
        rw (h, some_left)
          (inr ((flush_pending t p (with_timeout send_deadline w)).1, flush_pending-Flushed t p _))
  ]
