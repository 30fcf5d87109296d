-- ===== src/Push/Ledger.antt =====
-- The counters of a pusher over any history of calls.
use observant_agent.Base.{
  ℕ, suc, ◌+◌, ◌^◌, ◌≤◌, ◌<◌, true, false, List, [], ◌∷◌, none, some, ◌≡◌, refl, ap, ◌∙◌, inl, inr,
  arith, is_empty, length, length-append, Bool-cases,
}
use observant_agent.Base.Text.{Bytes}
use observant_agent.Push.Flush.{
  Flushed, Gone, Grows, batches_of, over_delivered, count_rejected, flush_pending-Flushed,
}
use observant_agent.Push.Pusher.{
  Pusher, Batch, Outcome, max_buffered, send_deadline, flush_pending, send, send_once, new,
}
use observant_agent.Push.Retry.{SentOnce, send_once-SentOnce}
use observant_agent.Push.Send.{Settled, send-Settled, send-empty}
use observant_agent.Push.Transport.{Transport}

-- After `n` calls: the buffer is within its limit; every batch that was retried with success,
-- rejected for good or is still buffered was dropped once; every retried batch is counted as
-- delivered; and no more batches were delivered first-hand or dropped than there were calls.
pub record IsSound (n : ℕ) (p : Pusher) : Type 0 where
  pub bounded : length p.pending ≤ max_buffered
  pub covered : p.stats.retried + p.stats.rejected_dropped + length p.pending ≤ p.stats.dropped
  pub included : p.stats.retried ≤ p.stats.batches
  pub within : p.stats.batches + p.stats.dropped ≤ n + p.stats.retried

length-gone :
    (gs : List Gone) → length (batches_of gs) ≡ over_delivered (λ b. 1) gs + count_rejected gs
length-gone [] = refl
length-gone ((b, true) ∷ gs) = omega (arith, length-gone gs)
length-gone ((b, false) ∷ gs) = omega (arith, length-gone gs)

-- A counter that does not reach 2^64 does not wrap.
Grows-exact : (a n b : ℕ) → Grows a n b → a + n < 2 ^ 64 → b ≡ a + n
Grows-exact a n b g h = omega arith

module _ (t : Transport) where
  open t use {World}

  Flushed-IsSound :
      {n : ℕ} {p q : Pusher} {u w : World}
      → n < 2 ^ 64
      → IsSound n p
      → Flushed t p u q w
      → IsSound n q
  Flushed-IsSound {n} {p} {q} h s f =
      let split =
        ap (λ (l : List Batch). length l) f.front ∙ length-append (batches_of f.gone) q.pending in
      let parts = length-gone f.gone in
      let done = over_delivered (λ b. 1) f.gone in
      let lost = count_rejected f.gone in
      let retried : q.stats.retried ≡ p.stats.retried + done =
        Grows-exact _ _ _ f.retried (omega arith) in
      let rejected : q.stats.rejected_dropped ≡ p.stats.rejected_dropped + lost =
        Grows-exact _ _ _ f.rejected_dropped (omega arith) in
      let batches : q.stats.batches ≡ p.stats.batches + done =
        Grows-exact _ _ _ f.batches (omega arith) in
      let dropped = f.dropped in
      record {
        bounded = omega arith;
        covered = omega arith;
        included = omega arith;
        within = omega arith;
      }

  Settled-IsSound :
      {n : ℕ} {p : Pusher} (body : Bytes) (points : ℕ) (r : Outcome t)
      → suc n < 2 ^ 64
      → IsSound n p
      → Settled t p body points r
      → IsSound (suc n) r.1
  Settled-IsSound body points (none, q, w) h s (e, b, _, _, d, r, j) = record {
    bounded = omega (arith, s.bounded, ap (λ (l : List Batch). length l) e);
    covered = omega (arith, s.covered, ap (λ (l : List Batch). length l) e, d, r, j);
    included = omega (arith, s.included, s.within, s.covered, b, r);
    within = omega (arith, s.within, s.covered, b, d, r);
  }
  Settled-IsSound body points (some e, q, w) h s (kept, b, k, at_end, _, _, n, d, r, j, _) =
      let size : length q.pending ≡ length kept + 1 =
        ap (λ (l : List Batch). length l) at_end ∙ length-append kept (b ∷ []) in
      record {
        bounded = omega (arith, k.room, size);
        covered = omega (arith, s.covered, s.within, s.included, k.room, size, d, r, j);
        included = omega (arith, s.included, n, r);
        within = omega (arith, s.within, n, d, r, s.covered, s.included);
      }

  -- A call of a pusher, with the world as it finds it.
  pub data Call : Type 0 where
    sends : World → Bytes → ℕ → Call
    sends_once : World → Bytes → ℕ → Call
    flushes : World → Call

  unfoldable pub call : Pusher → Call → Pusher
  call p (sends w body points) = (send t p w body points).1
  call p (sends_once w body points) = (send_once t p w body points).1
  call p (flushes w) = (flush_pending t p w).0

  unfoldable pub calls : Pusher → List Call → Pusher
  unfolding call
  calls p [] = p
  calls p (c ∷ cs) = calls (call p c) cs

  pub IsSound-mono : {m n : ℕ} {p : Pusher} → m ≤ n → IsSound m p → IsSound n p
  IsSound-mono h s = omega arith

  send-IsSound :
      {n : ℕ} {p : Pusher} (w : World) (body : Bytes) (points : ℕ)
      → suc n < 2 ^ 64
      → IsSound n p
      → IsSound (suc n) (send t p w body points).1
  send-IsSound {n} {p} w body points h s = elim (Bool-cases (is_empty body)) [
    | inr full ↦
        let (f, w1, flushed, settled) = send-Settled t p w body points full in
        Settled-IsSound body points (send t p w body points) h
          (Flushed-IsSound {u = t.with_timeout send_deadline w} {w = w1} (omega arith) s flushed)
          settled
    | inl nothing ↦ elim (send-empty t p w body points nothing) [
      | inl same ↦ rw same (IsSound-mono (omega arith) s)
      | inr (w1, flushed) ↦
          IsSound-mono {m = n} (omega arith)
            (Flushed-IsSound {u = t.with_timeout send_deadline w} {w = w1} (omega arith) s flushed)
    ]
  ]

  send_once-IsSound :
      {n : ℕ} {p : Pusher} (w : World) (body : Bytes) (points : ℕ)
      → suc n < 2 ^ 64
      → IsSound n p
      → IsSound (suc n) (send_once t p w body points).1
  send_once-IsSound {n} {p} w body points h s =
      go (send_once t p w body points) (send_once-SentOnce t p w body points)
    where
      go : (r : Outcome t) → SentOnce t p r → IsSound (suc n) r.1
      go (none, q, w) (k, _, _, e, d, r, j, b) = ground (arith, ap (λ (l : List Batch). length l) e)
      go (some x, q, w) (k, _, _, e, d, r, j, b) =
          ground (arith, ap (λ (l : List Batch). length l) e)

  call-IsSound :
      {n : ℕ} {p : Pusher} (c : Call) → suc n < 2 ^ 64 → IsSound n p → IsSound (suc n) (call p c)
  unfolding call
  call-IsSound (sends w body points) h s = send-IsSound w body points h s
  call-IsSound (sends_once w body points) h s = send_once-IsSound w body points h s
  call-IsSound {n} {p} (flushes w) h s = IsSound-mono {m = n} (omega arith) (
      Flushed-IsSound {u = w} {w = (flush_pending t p w).1} (omega arith) s
        (flush_pending-Flushed t p w))

  calls-IsSound :
      (n : ℕ) (p : Pusher) (cs : List Call)
      → length cs + n < 2 ^ 64
      → IsSound n p
      → IsSound (length cs + n) (calls p cs)
  unfolding calls
  calls-IsSound n p [] h s = IsSound-mono {m = n} (omega arith) s
  calls-IsSound n p (c ∷ cs) h s =
      IsSound-mono {m = length cs + suc n} (omega arith)
        (calls-IsSound (suc n) (call p c) cs (omega arith) (call-IsSound c (omega arith) s))

  -- After any history of fewer than 2^64 calls of a new pusher: at most `MaxBuffered` batches are
  -- buffered; `Retried`, `RejectedDropped` and the buffered batches together are at most `Dropped`;
  -- `Retried` is at most `Batches`; and `Batches` and `Dropped` together are at most the number of
  -- calls and `Retried`.
  pub calls-new-IsSound :
      (url token : Bytes) (cs : List Call)
      → length cs < 2 ^ 64
      → IsSound (length cs) (calls (new url token) cs)
  unfolding new
  calls-new-IsSound url token cs h =
      IsSound-mono {m = length cs + 0} (omega arith)
        (calls-IsSound 0 (new url token) cs (omega arith) (omega arith))
