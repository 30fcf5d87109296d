-- ===== src/Agent/OneLine.antt =====
-- cmd/observant-agent/main.go: that what `cycle` logs stands on one line each.
use observant_agent.Base.{
  false, List, [], ◌∷◌, ◌++◌, Option, none, some, ◌≡◌, refl, arith, All, All-append, inl, inr,
  Bool-cases, ◌==◌,
}
use observant_agent.Agent.Batch.{Turn, Build, flatten_lines, one_line, collect_batch}
use observant_agent.Agent.Loop.{
  report_one, report, push_lines, push_batch, found_lines, begin_cycle, cycle,
}
use observant_agent.Agent.State.{Agent, log_docker_failure}
use observant_agent.Base.Clock.{Time}
use observant_agent.Base.Decimal.{pos, format_uint, AllDigits, format_uint-AllDigits}
use observant_agent.Base.Text.{Bytes, codes, has_prefix}
use observant_agent.Base.Trim.{trim_space}
use observant_agent.Docker.Sample.{Arith}
use observant_agent.Lineproto.Encoder.{len}
use observant_agent.Push.Pusher.{Pusher, pending_count}
use observant_agent.Push.Transport.{Err, error_text, Transport}

-- No newline stands in the text.
abbrev pub IsOneLine : Bytes → Type 0
IsOneLine = All (λ c. (c == b'\n') ≡ false)

join : (s r : Bytes) → IsOneLine s → IsOneLine r → IsOneLine (s ++ r)
join = All-append (λ c. (c == b'\n') ≡ false)

flatten_lines-IsOneLine : (s : Bytes) → IsOneLine (flatten_lines s)
flatten_lines-IsOneLine [] = tt
flatten_lines-IsOneLine (c ∷ s) =
    let rest = flatten_lines-IsOneLine s in
    elim (Bool-cases (c == b'\n')) [
      | inl newline ↦ rw newline (refl, (refl, rest))
      | inr other ↦ rw other (other, rest)
    ]

one_line-IsOneLine : (s : Bytes) → IsOneLine (one_line s)
unfolding one_line
one_line-IsOneLine s = flatten_lines-IsOneLine (trim_space s)

module _ {F : Type 0} where
  report_one-IsOneLine :
      (a : Agent F) (now : Time) (msg : Bytes)
      → IsOneLine msg
      → All IsOneLine (report_one a now msg).1
  unfolding report_one
  report_one-IsOneLine a now msg h = elim (Bool-cases (has_prefix msg (codes "docker:"))) [
    | inl docker ↦ rw docker (elim (Bool-cases (log_docker_failure a msg now).0) [
      | inl loud ↦
          rw loud (join (codes "collect: ") _ (ground arith) (join msg _ h (ground arith)), tt)
      | inr quiet ↦ rw quiet tt
    ])
    | inr other ↦ rw other (join (codes "collect: ") msg (ground arith) h, tt)
  ]

  report-IsOneLine :
      (a : Agent F) (now : Time) (es : List Bytes) → All IsOneLine (report a now es).1
  unfolding report
  report-IsOneLine a now [] = tt
  report-IsOneLine a now (e ∷ es) =
      All-append IsOneLine (report_one a now (one_line e)).1 _
        (report_one-IsOneLine a now (one_line e) (one_line-IsOneLine e))
        (report-IsOneLine (report_one a now (one_line e)).0 now es)

digits-IsOneLine : (s : Bytes) → AllDigits s → IsOneLine s
digits-IsOneLine [] h = tt
digits-IsOneLine (c ∷ s) (digit, h) = (ground arith, digits-IsOneLine s h)

push_lines-IsOneLine : (failed : Option Err) (p : Pusher) → All IsOneLine (push_lines failed p)
unfolding push_lines
push_lines-IsOneLine none p = tt
push_lines-IsOneLine (some e) p = (
  join (codes "push failed: ") _ (ground arith) (
      join (one_line (error_text e)) _ (one_line-IsOneLine (error_text e)) (
        join (codes " (batch dropped, ") _ (ground arith) (
          join (format_uint (pending_count p)) _
            (digits-IsOneLine _ (format_uint-AllDigits (pending_count p))) (ground arith)))),
  tt,
)

module _ (ar : Arith) (build : Build) (t : Transport) where
  open ar use {floats}
  open floats use {Float}
  open t use {World}

  push_batch-IsOneLine : (a : Agent Float) (w : World) → All IsOneLine (push_batch ar build t a w).2
  unfolding push_batch
  push_batch-IsOneLine a w = elim (Bool-cases (len a.enc == 0)) [
    | inl nothing ↦ rw nothing tt
    | inr batch ↦ rw batch (push_lines-IsOneLine _ _)
  ]

  -- Whatever texts the errors of the collectors and of the push have, joined or not, no line that a
  -- cycle logs holds a newline. Condition: where the cycle opens a socket, the line about it holds none.
  pub cycle-IsOneLine :
      (turn : Turn Float) (a : Agent Float) (w : World)
      → All IsOneLine (found_lines a.docker (begin_cycle ar build t turn a).docker)
      → All IsOneLine (cycle ar build t turn a w).2
  unfolding cycle
  cycle-IsOneLine turn a w h =
      let a1 = begin_cycle ar build t turn a in
      let (a2, errs) = collect_batch ar build turn (pos 1) a1 in
      let (a3, logged) = report a2 turn.now errs in
      All-append IsOneLine (found_lines a.docker a1.docker) _ h (
        All-append IsOneLine logged _ (report-IsOneLine a2 turn.now errs)
          (push_batch-IsOneLine a3 w))
