-- ===== src/Agent/Wiring.antt =====
-- What holds of the agent in every state of its loop: its settings, its tags and its container client.
use observant_agent.Base.{
  ℕ, ◌+◌, ◌-◌, false, not, ◌&&◌, ◌||◌, Option, none, some, ◌≡◌, refl, sym, subst, ◌∙◌, arith,
}
use observant_agent.Agent.Batch.{Turn, Build, collect_batch, prime_agent}
use observant_agent.Agent.Frame.{cycle-frame, shutdown-frame}
use observant_agent.Agent.Loop.{
  begin_cycle, cycle, shutdown, State, agent_of, starting, running, stopped, Step, primes, gives_up,
  ticks, stops, Steps, here, step,
}
use observant_agent.Agent.State.{Agent, new_agent, is_off, is_set, start_docker}
use observant_agent.Base.Clock.{Time}
use observant_agent.Base.Decimal.{pos}
use observant_agent.Base.Text.{Bytes}
use observant_agent.Config.Settings.{Config}
use observant_agent.Docker.Detect.{Machine}
use observant_agent.Docker.Kept.{collect-SetUpAs}
use observant_agent.Docker.Restart.{Client}
use observant_agent.Docker.Sample.{Arith}
use observant_agent.Push.Pusher.{Pusher}
use observant_agent.Push.Transport.{Transport}
use observant_agent.Agent.Wired.{
  Spaced, IsWired, start_docker-IsWired, redetect_docker-IsWired, collect_batch-IsWired,
}

module _ (ar : Arith) (build : Build) (t : Transport) (cfg : Config) where
  open ar use {floats}
  open floats use {Float}
  open t use {World}

  begin_cycle-IsWired :
      (k : ℕ) (turn : Turn Float) (a : Agent Float)
      → IsWired cfg k a
      → IsWired cfg (k + 1) (begin_cycle ar build t turn a)
  unfolding begin_cycle
  begin_cycle-IsWired k turn a h =
      let found = redetect_docker-IsWired cfg k turn.machine a h in
      record {
        settings = found.settings;
        tagged = found.tagged;
        disabled = found.disabled;
        missed = found.missed;
        spaced = found.spaced;
        numbered = omega (arith, found.numbered);
      }

  -- What the invariant says stays where only the pusher and the last report change.
  logged-IsWired :
      (k : ℕ) (a : Agent Float) (last : Bytes) (at : Time) (p : Pusher)
      → IsWired cfg k a
      → IsWired cfg k (record a { docker_last_msg = last; docker_logged_at = at; pusher = p })
  logged-IsWired k a last at p h = record {
    settings = h.settings;
    tagged = h.tagged;
    disabled = h.disabled;
    missed = h.missed;
    spaced = h.spaced;
    numbered = h.numbered;
  }

  cycle-IsWired :
      (k : ℕ) (turn : Turn Float) (a : Agent Float) (w : World)
      → IsWired cfg k a
      → IsWired cfg (k + 1) (cycle ar build t turn a w).0
  cycle-IsWired k turn a w h =
      let a1 = begin_cycle ar build t turn a in
      let batch =
        collect_batch-IsWired ar build cfg (k + 1) turn (pos 1) a1
          (begin_cycle-IsWired k turn a h) in
      let (last, at, p, same) = cycle-frame ar build t turn a w in
      subst (λ b. IsWired cfg (k + 1) b) (sym same) (logged-IsWired (k + 1) _ last at p batch)

  shutdown-IsWired :
      (k : ℕ) (turn : Turn Float) (a : Agent Float) (w : World)
      → IsWired cfg k a
      → IsWired cfg k (shutdown ar build t turn a w).0
  shutdown-IsWired k turn a w h =
      let (flushed, p, same) = shutdown-frame ar build t turn a w in
      let a1 : Agent Float = record a { pusher = flushed } in
      let batch =
        collect_batch-IsWired ar build cfg k turn (pos 0) a1
          (logged-IsWired k a a.docker_last_msg a.docker_logged_at flushed h) in
      let b = (collect_batch ar build turn (pos 0) a1).0 in
      subst (λ c. IsWired cfg k c) (sym same)
        (logged-IsWired k b b.docker_last_msg b.docker_logged_at p batch)

  prime_agent-IsWired :
      (k : ℕ) (turn : Turn Float) (a : Agent Float)
      → IsWired cfg k a
      → IsWired cfg k (prime_agent ar build turn a)
  unfolding prime_agent
  prime_agent-IsWired k turn a h = of_client a.docker h.disabled h.missed h.spaced
    where
      of_client :
          (d : Option Client)
          → (is_off cfg.docker && is_set d) ≡ false
          → a.docker_failed ≡ not (is_off cfg.docker || is_set d)
          → Spaced cfg.inspect_every d
          → IsWired cfg k (prime_agent ar build turn (record a { docker = d }))
      of_client none x y z = record {
        settings = h.settings;
        tagged = h.tagged;
        disabled = x;
        missed = y;
        spaced = z;
        numbered = h.numbered;
      }
      of_client (some c) x y z = record {
        settings = h.settings;
        tagged = h.tagged;
        disabled = x;
        missed = y;
        spaced = (collect-SetUpAs ar turn.engine c).inspect_every ∙ z;
        numbered = h.numbered;
      }

  -- What holds after `n` steps: `loop` starts once.
  abbrev After : ℕ → State ar build t → Type 0
  After n (starting a) = (n ≡ 0) × IsWired cfg 0 a
  After n (running a at) = (m : ℕ) × (n ≡ m + 1) × IsWired cfg m a
  After n (stopped a) = (m : ℕ) × (n ≡ m + 1) × IsWired cfg m a

  Step-After : (n : ℕ) {r s : State ar build t} → Step ar build t r s → After n r → After (n + 1) s
  Step-After n (primes turn at) (z, h) = (0, omega arith, prime_agent-IsWired 0 turn _ h)
  Step-After n (gives_up first turn w) (z, h) =
      (0, omega arith, shutdown-IsWired 0 turn _ w (prime_agent-IsWired 0 first _ h))
  Step-After n (ticks turn w now later) (m, e, h) = (m + 1, omega arith, cycle-IsWired m turn _ w h)
  Step-After n (stops turn last w v) (m, e, h) =
      (m + 1, omega arith, shutdown-IsWired (m + 1) last _ v (cycle-IsWired m turn _ w h))

  Steps-After : {n : ℕ} {r s : State ar build t} → Steps ar build t n r s → After 0 r → After n s
  Steps-After here h = h
  Steps-After (step {n} before last) h = Step-After n last (Steps-After before h)

  After-IsWired :
      (n : ℕ) (s : State ar build t) → After n s → IsWired cfg (n - 1) (agent_of ar build t s)
  After-IsWired n (starting a) (z, h) = rw z h
  After-IsWired n (running a at) (m, e, h) = let same : n - 1 ≡ m = omega arith in rw same h
  After-IsWired n (stopped a) (m, e, h) = let same : n - 1 ≡ m = omega arith in rw same h

-- In every state that the loop reaches from the start in `n` steps, whatever the host, the engine and
-- the endpoint answer: the settings are those of the start; the encoder's base tags are those of the
-- settings; with the containers off no client is open and none is missed, otherwise one is missed
-- exactly while none is open; an open client inspects at the gap of the settings; and `cycles` is one
-- less than the number of steps, as an `int`, and 0 at the start.
pub Steps-IsWired :
    (ar : Arith) (build : Build) (t : Transport) (machine : Machine) (cfg : Config) (n : ℕ)
    (s : State ar build t)
    → Steps ar build t n (starting (start_docker machine (new_agent cfg))) s
    → IsWired cfg (n - 1) (agent_of ar build t s)
Steps-IsWired ar build t machine cfg n s steps =
    After-IsWired ar build t cfg n s
      (Steps-After ar build t cfg steps (refl, start_docker-IsWired cfg machine))
