-- ===== src/Push/Flush.antt =====
-- What a flush does to the buffer and the counters, and why it stops.
use observant_agent.Base.{
  ℕ, ◌+◌, ◌<◌, ◌%◌, ◌^◌, Bool, true, false, List, [], ◌∷◌, ◌++◌, map, none, some, ◌≡◌, refl, sym,
  subst, ap, ◌∙◌, inl, inr, arith, if◌then◌else◌, length, Option-cases, Bool-cases,
}
use observant_agent.Base.Text.{Bytes}
use observant_agent.Push.Frame.{post-frame}
use observant_agent.Push.Pusher.{
  Pusher, Batch, Stats, post, delivered, rejected, count_failure, flush_loop, flush_pending,
}
use observant_agent.Push.Transport.{Err, Transport, retryable}

-- A 64-bit counter has grown by `n`, from `before` to `after`.
abbrev pub Grows : ℕ → ℕ → ℕ → Type 0
Grows before n after = (after % 2 ^ 64 ≡ (before + n) % 2 ^ 64) × (before < 2 ^ 64 → after < 2 ^ 64)

-- A batch that has left the buffer, and whether it was delivered; if not, it was rejected.
abbrev pub Gone : Type 0
Gone = Batch × Bool

-- The sum of a measure over the delivered batches, and over the rejected.
abbrev pub over_delivered : (Batch → ℕ) → List Gone → ℕ
over_delivered f [] = 0
over_delivered f ((b, ok) ∷ gs) = (if ok then f b else 0) + over_delivered f gs

abbrev pub count_rejected : List Gone → ℕ
count_rejected [] = 0
count_rejected ((b, ok) ∷ gs) = (if ok then 0 else 1) + count_rejected gs

abbrev pub batches_of : List Gone → List Batch
batches_of = map (λ g. g.0)

-- The requests of a flush, from world `w` to world `v`: before each the context is still there, a
-- batch is delivered where its post succeeds, and rejected where its post fails for good.
pub data Passed (t : Transport) : t.World → List Gone → t.World → Type 0 where
  start : {w : t.World} → Passed t w [] w
  delivers :
      {w v : t.World} {b : Batch} {gs : List Gone} (q : Pusher)
      → t.ctx_error w ≡ none
      → (post t q w b.body).0 ≡ none
      → Passed t (post t q w b.body).2 gs v
      → Passed t w ((b, true) ∷ gs) v
  rejects :
      {w v : t.World} {b : Batch} {gs : List Gone} (q : Pusher) (e : Err)
      → t.ctx_error w ≡ none
      → (post t q w b.body).0 ≡ some e
      → retryable e ≡ false
      → Passed t (post t q w b.body).2 gs v
      → Passed t w ((b, false) ∷ gs) v

-- Why a flush that has come to world `v` ends, in world `w`, with the batches `bs` left.
pub data Stopped (t : Transport) (v w : t.World) : List Batch → Type 0 where
  -- nothing is left
  emptied : v ≡ w → Stopped t v w []
  -- the context has ended
  ended : {bs : List Batch} (msg : Bytes) → v ≡ w → t.ctx_error v ≡ some msg → Stopped t v w bs
  -- the oldest batch left was posted, which failed for now
  failed :
      {b : Batch} {bs : List Batch} (q : Pusher) (e : Err)
      → t.ctx_error v ≡ none
      → (post t q v b.body).0 ≡ some e
      → (post t q v b.body).2 ≡ w
      → retryable e ≡ true
      → Stopped t v w (b ∷ bs)

-- From pusher `p` in world `u` to `q` in world `w`: the batches `gone` have left the front of the buffer, in order.
pub record Flushed (t : Transport) (p : Pusher) (u : t.World) (q : Pusher) (w : t.World)
    : Type 0 where
  pub gone : List Gone
  pub front : p.pending ≡ batches_of gone ++ q.pending
  pub batches : Grows p.stats.batches (over_delivered (λ b. 1) gone) q.stats.batches
  pub retried : Grows p.stats.retried (over_delivered (λ b. 1) gone) q.stats.retried
  pub points : Grows p.stats.points (over_delivered (λ b. b.points) gone) q.stats.points
  pub bytes : Grows p.stats.bytes (over_delivered (λ b. length b.body) gone) q.stats.bytes
  pub rejected_dropped :
      Grows p.stats.rejected_dropped (count_rejected gone) q.stats.rejected_dropped
  pub dropped : q.stats.dropped ≡ p.stats.dropped
  pub reached : t.World
  pub passed : Passed t u gone reached
  pub stopped : Stopped t reached w q.pending

module _ (t : Transport) where
  open t use {World, ctx_error}

  -- Nothing has left the buffer.
  Flushed-none :
      (p : Pusher) (u : World) (q : Pusher) (w : World)
      → q.pending ≡ p.pending
      → q.stats.batches ≡ p.stats.batches
      → q.stats.retried ≡ p.stats.retried
      → q.stats.points ≡ p.stats.points
      → q.stats.bytes ≡ p.stats.bytes
      → q.stats.rejected_dropped ≡ p.stats.rejected_dropped
      → q.stats.dropped ≡ p.stats.dropped
      → Stopped t u w q.pending
      → Flushed t p u q w
  Flushed-none p u q w e b r n y j d s = record {
    gone = [];
    front = sym e;
    batches = omega arith;
    retried = omega arith;
    points = omega arith;
    bytes = omega arith;
    rejected_dropped = omega arith;
    dropped = d;
    reached = u;
    passed = start;
    stopped = s;
  }

  -- The oldest batch was delivered, and then the flush went on.
  Flushed-delivered :
      (p : Pusher) (u : World) (q : Pusher) (w : World) (b : Batch) (bs : List Batch)
      → let (err, p1, u1) = post t p u b.body in
        p.pending ≡ b ∷ bs
        → ctx_error u ≡ none
        → err ≡ none
        → Flushed t (delivered p1 b bs) u1 q w
        → Flushed t p u q w
  Flushed-delivered p u q w b bs e c k f =
      let s = (post-frame t p u b.body).1 in
      record {
        gone = (b, true) ∷ f.gone;
        front = e ∙ ap (λ l. b ∷ l) f.front;
        batches = omega (arith, f.batches, ap (λ (s : Stats). s.batches) s);
        retried = omega (arith, f.retried, ap (λ (s : Stats). s.retried) s);
        points = omega (arith, f.points, ap (λ (s : Stats). s.points) s);
        bytes = omega (arith, f.bytes, ap (λ (s : Stats). s.bytes) s);
        rejected_dropped =
            omega (arith, f.rejected_dropped, ap (λ (s : Stats). s.rejected_dropped) s);
        dropped = f.dropped ∙ ap (λ (s : Stats). s.dropped) s;
        reached = f.reached;
        passed = delivers p c k f.passed;
        stopped = f.stopped;
      }

  -- The oldest batch was rejected, and then the flush went on.
  Flushed-rejected :
      (p : Pusher) (u : World) (q : Pusher) (w : World) (b : Batch) (bs : List Batch) (x : Err)
      → let (err, p1, u1) = post t p u b.body in
        p.pending ≡ b ∷ bs
        → ctx_error u ≡ none
        → err ≡ some x
        → retryable x ≡ false
        → Flushed t (rejected (count_failure p1 x) bs) u1 q w
        → Flushed t p u q w
  Flushed-rejected p u q w b bs x e c k final f =
      let s = (post-frame t p u b.body).1 in
      record {
        gone = (b, false) ∷ f.gone;
        front = e ∙ ap (λ l. b ∷ l) f.front;
        batches = omega (arith, f.batches, ap (λ (s : Stats). s.batches) s);
        retried = omega (arith, f.retried, ap (λ (s : Stats). s.retried) s);
        points = omega (arith, f.points, ap (λ (s : Stats). s.points) s);
        bytes = omega (arith, f.bytes, ap (λ (s : Stats). s.bytes) s);
        rejected_dropped =
            omega (arith, f.rejected_dropped, ap (λ (s : Stats). s.rejected_dropped) s);
        dropped = f.dropped ∙ ap (λ (s : Stats). s.dropped) s;
        reached = f.reached;
        passed = rejects p x c k final f.passed;
        stopped = f.stopped;
      }

  flush_loop-Flushed :
      (p : Pusher) (w : World) (bs : List Batch)
      → p.pending ≡ bs
      → Flushed t p w (flush_loop t p w bs).0 (flush_loop t p w bs).1
  unfolding flush_loop
  flush_loop-Flushed p w [] e =
      Flushed-none p w p w refl refl refl refl refl refl refl (rw e (emptied refl))
  flush_loop-Flushed p w (b ∷ bs) e = elim (Option-cases (ctx_error w)) [
    | inr (msg, h) ↦
        rw (h, flush_loop)
          (Flushed-none p w p w refl refl refl refl refl refl refl (ended msg refl h))
    | inl h ↦
        rw (h, flush_loop)
          (elim (Option-cases (post t p w b.body).0) [
            | inl k ↦ rw k (
                Flushed-delivered p w _ _ b bs e h k (
                  flush_loop-Flushed (delivered (post t p w b.body).1 b bs) (post t p w b.body).2 bs
                    refl))
            | inr (x, k) ↦ rw k (elim (Bool-cases (retryable x)) [
              | inl again ↦ rw again (
                  let s = (post-frame t p w b.body).1 in
                  Flushed-none p w _ _ (post-frame t p w b.body).0 (ap (λ s. s.batches) s)
                    (ap (λ s. s.retried) s) (ap (λ s. s.points) s) (ap (λ s. s.bytes) s)
                    (ap (λ s. s.rejected_dropped) s) (ap (λ s. s.dropped) s)
                    (subst (Stopped t w _) (sym ((post-frame t p w b.body).0 ∙ e))
                      (failed p x h k refl again)))
              | inr final ↦ rw final (
                  Flushed-rejected p w _ _ b bs x e h k final (
                    flush_loop-Flushed (rejected (count_failure (post t p w b.body).1 x) bs)
                      (post t p w b.body).2 bs refl))
            ])
          ])
  ]

  -- A flush takes batches off the front of the buffer, in order, and never adds, reorders or skips
  -- one. Each that has left was posted while the context was still there, in this order and with no
  -- other request between: one whose post succeeded is counted in `Batches`, `Points`, `Bytes` and
  -- `Retried`, and one whose post failed with an error that is not retryable in `RejectedDropped`
  -- (counters modulo 2^64; `Dropped` stays). The flush then ends with the buffer empty, or with the
  -- context ended, or with a post of the oldest batch left that failed with a retryable error.
  pub flush_pending-Flushed :
      (p : Pusher) (w : World) → Flushed t p w (flush_pending t p w).0 (flush_pending t p w).1
  unfolding flush_pending
  flush_pending-Flushed p w = flush_loop-Flushed p w p.pending refl
