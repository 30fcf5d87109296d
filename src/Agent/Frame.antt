-- ===== src/Agent/Frame.antt =====
-- What the cycles and the end of the agent's loop leave as it is.
use observant_agent.Base.{
  ◌-◌, ◌&&◌, List, [], ◌∷◌, ◌≡◌, refl, ap, ◌∙◌, inl, inr, Bool-cases, ltb, ◌==◌,
}
use observant_agent.Agent.Batch.{Turn, Build, one_line, collect_batch}
use observant_agent.Agent.Loop.{
  report_one, report, push_batch, begin_cycle, cycle, push_final, shutdown, shutdown_timeout,
}
use observant_agent.Agent.State.{Agent, log_docker_failure, docker_log_every}
use observant_agent.Base.Clock.{Time}
use observant_agent.Base.Decimal.{pos}
use observant_agent.Base.Text.{Bytes, codes, bytes_eq, has_prefix}
use observant_agent.Docker.Sample.{Arith}
use observant_agent.Lineproto.Encoder.{bytes, len, points}
use observant_agent.Push.Pusher.{Pusher, flush_pending, send, send_once}
use observant_agent.Push.Transport.{Transport}

module _ {F : Type 0} where
  -- The report of a cycle's errors changes what was last logged, and when, only.
  report_one-frame :
      (a : Agent F) (now : Time) (msg : Bytes)
      → (last : Bytes) × (at : Time) × ((report_one a now msg).0
          ≡ record a { docker_last_msg = last; docker_logged_at = at })
  unfolding report_one log_docker_failure
  report_one-frame a now msg = elim (Bool-cases (has_prefix msg (codes "docker:"))) [
    | inr other ↦ rw other (a.docker_last_msg, a.docker_logged_at, refl)
    | inl docker ↦
        rw docker
          (elim (Bool-cases
            (bytes_eq msg a.docker_last_msg && ltb (now - a.docker_logged_at) docker_log_every)) [
              | inl quiet ↦ rw quiet (a.docker_last_msg, a.docker_logged_at, refl)
              | inr loud ↦ rw loud (msg, now, refl)
            ])
  ]

  pub report-frame :
      (a : Agent F) (now : Time) (es : List Bytes)
      → (last : Bytes) × (at : Time) × ((report a now es).0
          ≡ record a { docker_last_msg = last; docker_logged_at = at })
  unfolding report
  report-frame a now [] = (a.docker_last_msg, a.docker_logged_at, refl)
  report-frame a now (e ∷ es) =
      let b = (report_one a now (one_line e)).0 in
      let (m, k, first) = report_one-frame a now (one_line e) in
      let (n, l, rest) = report-frame (report_one a now (one_line e)).0 now es in
      (
        n,
        l,
        rest ∙ ap (λ (c : Agent F). record c { docker_last_msg = n; docker_logged_at = l }) first,
      )

module _ (ar : Arith) (build : Build) (t : Transport) where
  open ar use {floats}
  open floats use {Float}
  open t use {World}

  push_batch-frame :
      (a : Agent Float) (w : World)
      → (p : Pusher) × ((push_batch ar build t a w).0 ≡ record a { pusher = p })
  unfolding push_batch
  push_batch-frame a w = elim (Bool-cases (len a.enc == 0)) [
    | inl nothing ↦ rw nothing (a.pusher, refl)
    | inr batch ↦ rw batch ((send t a.pusher w (bytes a.enc) (points a.enc)).1, refl)
  ]

  push_final-frame :
      (a : Agent Float) (w : World)
      → (p : Pusher) × ((push_final ar build t a w).0 ≡ record a { pusher = p })
  unfolding push_final
  push_final-frame a w = elim (Bool-cases (len a.enc == 0)) [
    | inl nothing ↦ rw nothing (a.pusher, refl)
    | inr batch ↦ rw batch ((send_once t a.pusher w (bytes a.enc) (points a.enc)).1, refl)
  ]

  -- Behind its batch a cycle changes the pusher and what was last logged, and when, only.
  pub cycle-frame :
      (turn : Turn Float) (a : Agent Float) (w : World)
      → (last : Bytes) × (at : Time) × (p : Pusher) × ((cycle ar build t turn a w).0
          ≡ record (collect_batch ar build turn (pos 1) (begin_cycle ar build t turn a)).0 {
            docker_last_msg = last;
            docker_logged_at = at;
            pusher = p;
          })
  unfolding cycle
  cycle-frame turn a w =
      let (a2, errs) = collect_batch ar build turn (pos 1) (begin_cycle ar build t turn a) in
      let (last, at, reported) = report-frame a2 turn.now errs in
      let (p, pushed) = push_batch-frame (report a2 turn.now errs).0 w in
      (last, at, p, pushed ∙ ap (λ (b : Agent Float). record b { pusher = p }) reported)

  -- Behind its batch the end of the loop changes the pusher only.
  pub shutdown-frame :
      (turn : Turn Float) (a : Agent Float) (w : World)
      → (flushed : Pusher) × (p : Pusher) × ((shutdown ar build t turn a w).0
          ≡ record (collect_batch ar build turn (pos 0) (record a { pusher = flushed })).0 {
            pusher = p;
          })
  unfolding shutdown
  shutdown-frame turn a w =
      let (flushed, w1) = flush_pending t a.pusher (t.with_timeout shutdown_timeout w) in
      let a1 = (collect_batch ar build turn (pos 0) (record a { pusher = flushed })).0 in
      let (p, pushed) = push_final-frame a1 w1 in (flushed, p, pushed)
