-- ===== src/Agent/Posts.antt =====
-- cmd/observant-agent/main.go: the batch that a cycle hands to `Send`, and the one that the end of the
-- loop hands to `SendOnce`.
use observant_agent.Base.{
  false, List, [], ◌∷◌, ◌++◌, ◌≡◌, refl, sym, ap, subst, ◌∙◌, arith, length, length-append, All,
  ◌==◌,
}
use observant_agent.Agent.Batch.{Turn, Build, collect_batch}
use observant_agent.Agent.Calls.{redetect_docker-pusher}
use observant_agent.Agent.Frame.{report-frame}
use observant_agent.Agent.Heartbeat.{samples_of, lines_of_batch, collect_batch-reads}
use observant_agent.Agent.Loop.{
  report, push_batch, begin_cycle, cycle, push_final, shutdown, shutdown_timeout,
}
use observant_agent.Agent.State.{Agent}
use observant_agent.Base.Decimal.{pos, format_int, format_uint}
use observant_agent.Base.Text.{Bytes, codes}
use observant_agent.Collect.Cycle
use observant_agent.Collect.Items.{items}
use observant_agent.Docker.Sample.{Arith}
use observant_agent.Lineproto.Encoder.{Encoder, bytes, len, points}
use observant_agent.Lineproto.Reader.{Line, ReadsAs, run}
use observant_agent.Lineproto.Reading.{NoBreaks}
use observant_agent.Lineproto.RoundTrip.{FormatsNumbers, TagUnbroken}
use observant_agent.Push.Pusher.{flush_pending, send, send_once}
use observant_agent.Push.Transport.{Transport}

-- A batch in which the reader finds a line is not empty.
len-ReadsAs :
    (e : Encoder) (b : Bytes) (before after : List Line) (l : Line)
    → e.buf ≡ b
    → ReadsAs b (before ++ l ∷ after)
    → (len e == 0) ≡ false
unfolding len run
len-ReadsAs e (c ∷ b) before after l same h = rw same (ground arith)
len-ReadsAs e [] before after l same h =
    let lines : ◌≡◌ {A = List Line} [] (before ++ l ∷ after) = cc in
    absurd
      (omega (arith, ap (λ (ls : List Line). length ls) lines, length-append before (l ∷ after)))

module _ (ar : Arith) (build : Build) (t : Transport) where
  open ar use {floats}
  open floats use {Float}
  open t use {World}

  push_final-send_once :
      (a : Agent Float) (w : World)
      → (len a.enc == 0) ≡ false
      → (push_final ar build t a w).0
        ≡ record a { pusher = (send_once t a.pusher w (bytes a.enc) (points a.enc)).1 }
  unfolding push_final
  push_final-send_once a w h = rw h refl

  push_batch-send :
      (a : Agent Float) (w : World)
      → (len a.enc == 0) ≡ false
      → (push_batch ar build t a w).0
        ≡ record a { pusher = (send t a.pusher w (bytes a.enc) (points a.enc)).1 }
  unfolding push_batch
  push_batch-send a w h = rw h refl

  -- The end of the loop flushes the buffer and then hands a batch to `SendOnce`. The reader finds in it
  -- the lines that METRICS.md describes: those of the host's sections, one heartbeat whose field `up`
  -- is 0, and a line for each container sample. Conditions: FormatFloat prints a finite float without delimiters, and no base
  -- tag, no tag of the host's sections and no name of a container sample holds a line break.
  pub shutdown-send_once :
      (turn : Turn Float) (a : Agent Float) (w : World)
      → FormatsNumbers floats
      → All TagUnbroken a.enc.base
      → All (λ i. All TagUnbroken i.tags) (items floats (Cycle.collect ar turn.probes a.sys).0)
      → All (λ s. NoBreaks s.container.name) (samples_of ar build turn.engine a.docker)
      → let (flushed, w1) = flush_pending t a.pusher (t.with_timeout shutdown_timeout w) in
        let b = (shutdown ar build t turn a w).0 in
        ReadsAs (bytes b.enc) (lines_of_batch ar build turn (codes "0i") a)
        × (b.pusher ≡ (send_once t flushed w1 (bytes b.enc) (points b.enc)).1)
  unfolding shutdown collect_batch format_int format_uint
  shutdown-send_once turn a w laws b tagged named =
      let (flushed, w1) = flush_pending t a.pusher (t.with_timeout shutdown_timeout w) in
      let a1 = (collect_batch ar build turn (pos 0) (record a { pusher = flushed })).0 in
      let reads = collect_batch-reads ar build turn (pos 0) a laws b tagged named in
      let posted = push_final-send_once a1 w1 (len-ReadsAs a1.enc a1.enc.buf _ _ _ refl reads) in
      rw posted (reads, refl)

  -- A cycle hands a batch to `Send`. The reader finds in it the lines that METRICS.md describes: those of
  -- the host's sections, one heartbeat whose field `up` is 1, and a line for each container sample.
  -- Conditions: FormatFloat prints
  -- a finite float without delimiters, and no base tag, no tag of the host's sections and no name of a
  -- container sample, of a socket that this cycle may have opened, holds a line break.
  pub cycle-send :
      (turn : Turn Float) (a : Agent Float) (w : World)
      → let a1 = begin_cycle ar build t turn a in
        FormatsNumbers floats
        → All TagUnbroken a1.enc.base
        → All (λ i. All TagUnbroken i.tags) (items floats (Cycle.collect ar turn.probes a1.sys).0)
        → All (λ s. NoBreaks s.container.name) (samples_of ar build turn.engine a1.docker)
        → let b = (cycle ar build t turn a w).0 in
          ReadsAs (bytes b.enc) (lines_of_batch ar build turn (codes "1i") a1)
          × (b.pusher ≡ (send t a.pusher w (bytes b.enc) (points b.enc)).1)
  unfolding cycle begin_cycle collect_batch format_int format_uint
  cycle-send turn a w laws b tagged named =
      let a1 = begin_cycle ar build t turn a in
      let (a2, errs) = collect_batch ar build turn (pos 1) a1 in
      let (last, at, same) = report-frame a2 turn.now errs in
      let reads = collect_batch-reads ar build turn (pos 1) a1 laws b tagged named in
      let a3 = (report a2 turn.now errs).0 in
      let still =
        subst
          (λ (c : Agent Float). ReadsAs c.enc.buf (lines_of_batch ar build turn (codes "1i") a1))
          (sym same) reads in
      let owner : a3.pusher ≡ a.pusher =
        ap (λ (c : Agent Float). c.pusher) same ∙ redetect_docker-pusher turn.machine a in
      let posted = push_batch-send a3 w (len-ReadsAs a3.enc a3.enc.buf _ _ _ refl still) in
      rw posted (still, ap (λ p. (send t p w (bytes a3.enc) (points a3.enc)).1) owner)
