-- ===== src/Agent/Calls.antt =====
-- The calls of the pusher that the loop of the agent makes.
use observant_agent.Base.{
  ℕ, ◌+◌, subst, ◌^◌, ◌≤◌, ◌<◌, List, [], ◌∷◌, ◌++◌, ◌≡◌, refl, sym, ap, ◌∙◌, inl, inr, arith,
  length, length-append, ◌==◌, Bool-cases,
}
use observant_agent.Agent.Batch.{Turn, Build, collect_batch, prime_agent}
use observant_agent.Agent.Frame.{report-frame}
use observant_agent.Agent.Loop.{
  report, push_batch, begin_cycle, cycle, push_final, shutdown, shutdown_timeout, State, agent_of,
  starting, running, stopped, Step, primes, gives_up, ticks, stops, Steps, here, step,
}
use observant_agent.Agent.State.{Agent, new_agent, start_docker, opened, redetect_docker, reopened}
use observant_agent.Base.Decimal.{pos}
use observant_agent.Docker.Detect.{Machine}
use observant_agent.Docker.Sample.{Arith}
use observant_agent.Config.Settings.{Config}
use observant_agent.Lineproto.Encoder.{bytes, len, points}
use observant_agent.Push.Ledger.{
  IsSound, IsSound-mono, Call, sends, sends_once, flushes, call, calls, calls-new-IsSound,
}
use observant_agent.Push.Pusher.{Pusher, new}
use observant_agent.Push.Transport.{Transport}

calls-append :
    (t : Transport) (p : Pusher) (cs : List (Call t)) (c : Call t)
    → calls t p (cs ++ c ∷ []) ≡ call t (calls t p cs) c
unfolding calls
calls-append t p [] c = refl
calls-append t p (d ∷ cs) c = calls-append t (call t p d) cs c

-- At most `n` calls lead from pusher `p` to pusher `q`.
pub record Within (t : Transport) (p : Pusher) (n : ℕ) (q : Pusher) : Type 0 where
  pub made : List (Call t)
  pub few : length made ≤ n
  pub result : q ≡ calls t p made

module _ (t : Transport) (p : Pusher) where
  Within-more : {m n : ℕ} {q : Pusher} → m ≤ n → Within t p m q → Within t p n q
  Within-more h w = record { made = w.made; few = omega (arith, h, w.few); result = w.result }

  Within-call : {n : ℕ} {q : Pusher} (c : Call t) → Within t p n q → Within t p (n + 1) (call t q c)
  Within-call {n} c w = record {
    made = w.made ++ c ∷ [];
    few = omega (arith, w.few, length-append w.made (c ∷ []));
    result = ap (λ q. call t q c) w.result ∙ sym (calls-append t p w.made c);
  }

module _ {F : Type 0} where
  pub redetect_docker-pusher :
      (machine : Machine) (a : Agent F) → (redetect_docker machine a).pusher ≡ a.pusher
  unfolding redetect_docker reopened
  redetect_docker-pusher machine a = ground arith

  start_docker-pusher :
      (machine : Machine) (a : Agent F) → (start_docker machine a).pusher ≡ a.pusher
  unfolding start_docker opened
  start_docker-pusher machine a = ground arith

module _ (ar : Arith) (build : Build) (t : Transport) (p : Pusher) where
  open ar use {floats}
  open floats use {Float}
  open t use {World}

  push_batch-Within :
      {n : ℕ} (a : Agent Float) (w : World)
      → Within t p n a.pusher
      → Within t p (n + 1) (push_batch ar build t a w).0.pusher
  unfolding push_batch call
  push_batch-Within a w h = elim (Bool-cases (len a.enc == 0)) [
    | inl nothing ↦ rw nothing (Within-more t p (omega arith) h)
    | inr batch ↦ rw batch (Within-call t p (sends w (bytes a.enc) (points a.enc)) h)
  ]

  push_final-Within :
      {n : ℕ} (a : Agent Float) (w : World)
      → Within t p n a.pusher
      → Within t p (n + 1) (push_final ar build t a w).0.pusher
  unfolding push_final call
  push_final-Within a w h = elim (Bool-cases (len a.enc == 0)) [
    | inl nothing ↦ rw nothing (Within-more t p (omega arith) h)
    | inr batch ↦ rw batch (Within-call t p (sends_once w (bytes a.enc) (points a.enc)) h)
  ]

  cycle-Within :
      {n : ℕ} (turn : Turn Float) (a : Agent Float) (w : World)
      → Within t p n a.pusher
      → Within t p (n + 1) (cycle ar build t turn a w).0.pusher
  unfolding cycle begin_cycle collect_batch
  cycle-Within {n} turn a w h =
      let a1 = begin_cycle ar build t turn a in
      let (a2, errs) = collect_batch ar build turn (pos 1) a1 in
      let (last, at, same) = report-frame a2 turn.now errs in
      push_batch-Within (report a2 turn.now errs).0 w (
        subst (λ q. Within t p n q)
          (sym (ap (λ (b : Agent Float). b.pusher) same ∙ redetect_docker-pusher turn.machine a)) h)

  shutdown-Within :
      {n : ℕ} (turn : Turn Float) (a : Agent Float) (w : World)
      → Within t p n a.pusher
      → Within t p (n + 2) (shutdown ar build t turn a w).0.pusher
  unfolding shutdown collect_batch call
  shutdown-Within {n} turn a w h =
      let flushed = Within-call t p (flushes (t.with_timeout shutdown_timeout w)) h in
      Within-more t p {m = n + 1 + 1} (omega arith) (push_final-Within _ _ flushed)

  -- At most a call for each step, and two more behind the end.
  abbrev Counted : ℕ → State ar build t → Type 0
  Counted n (starting a) = Within t p n a.pusher
  Counted n (running a at) = Within t p n a.pusher
  Counted n (stopped a) = Within t p (n + 2) a.pusher

  Step-Counted :
      (n : ℕ) {r s : State ar build t} → Step ar build t r s → Counted n r → Counted (n + 1) s
  unfolding prime_agent
  Step-Counted n (primes turn at) h = Within-more t p (omega arith) h
  Step-Counted n (gives_up first turn w) h =
      Within-more t p {m = n + 2} (omega arith) (shutdown-Within turn _ w h)
  Step-Counted n (ticks turn w now later) h = cycle-Within turn _ w h
  Step-Counted n (stops turn last w v) h = shutdown-Within last _ v (cycle-Within turn _ w h)

  Steps-Counted :
      {n : ℕ} {r s : State ar build t} → Steps ar build t n r s → Counted 0 r → Counted n s
  Steps-Counted here h = h
  Steps-Counted (step {n} before last) h = Step-Counted n last (Steps-Counted before h)

  Counted-Within :
      (n : ℕ) (s : State ar build t)
      → Counted n s
      → Within t p (n + 2) (agent_of ar build t s).pusher
  Counted-Within n (starting a) h = Within-more t p {m = n} (omega arith) h
  Counted-Within n (running a at) h = Within-more t p {m = n} (omega arith) h
  Counted-Within n (stopped a) h = h

-- In every state that the loop reaches from the start in fewer than 2^64 - 2 steps, whatever the
-- host, the engine and the endpoint answer: at most `MaxBuffered` batches are buffered; `Retried`,
-- `RejectedDropped` and the buffered batches together are at most `Dropped`; `Retried` is at most
-- `Batches`; and `Batches` and `Dropped` together are at most the number of steps plus two and
-- `Retried`.
pub Steps-IsSound :
    (ar : Arith) (build : Build) (t : Transport) (machine : Machine) (cfg : Config) (n : ℕ)
    (s : State ar build t)
    → n + 2 < 2 ^ 64
    → Steps ar build t n (starting (start_docker machine (new_agent cfg))) s
    → IsSound (n + 2) (agent_of ar build t s).pusher
unfolding new_agent calls
Steps-IsSound ar build t machine cfg n s h steps =
    let p = new cfg.url cfg.token in
    let made = Counted-Within ar build t p n s (
      Steps-Counted ar build t p steps (record {
        made = [];
        few = omega arith;
        result = start_docker-pusher machine (new_agent cfg);
      })) in
    subst (λ q. IsSound (n + 2) q) (sym made.result)
      (IsSound-mono t made.few
        (calls-new-IsSound t cfg.url cfg.token made.made (omega (arith, made.few))))
