-- ===== src/Agent/Wired.antt =====
-- What holds of the agent's settings, tags and container client, and that a batch keeps it.
use observant_agent.Base.{
  ℕ, ◌%◌, ◌^◌, false, not, ◌&&◌, ◌||◌, Option, none, some, ◌≡◌, refl, sym, subst, ap, ◌∙◌, arith,
}
use observant_agent.Agent.Batch.{Turn, Build, collect_docker, collect_batch, primed_docker}
use observant_agent.Agent.Heartbeat.{samples_of, collect_docker-enc, encode_agent-base}
use observant_agent.Agent.State.{
  Agent, base_tags, new_agent, is_off, is_set, opened, start_docker, reopened, redetect_docker,
}
use observant_agent.Base.Clock.{Time}
use observant_agent.Base.Decimal.{ℤ}
use observant_agent.Collect.Cycle
use observant_agent.Collect.Lines.{encode-base}
use observant_agent.Collect.Snapshot
use observant_agent.Config.Settings.{Config}
use observant_agent.Docker.Collect.{Engine}
use observant_agent.Docker.Detect.{Machine}
use observant_agent.Docker.Kept.{collect-SetUpAs}
use observant_agent.Docker.Lines.{encode-base_tags}
use observant_agent.Docker.Restart.{Client, set_inspect_every, at_least_one}
use observant_agent.Docker.Sample.{Arith}
use observant_agent.Lineproto.Encoder.{Encoder, reset, new as new_encoder}

-- A client that is open inspects at the gap of the settings.
abbrev pub Spaced : ℤ → Option Client → Type 0
Spaced n none = Unit
Spaced n (some c) = c.inspect_every ≡ at_least_one n

-- The settings never change; every batch carries the tags of the settings; with the containers off
-- no client is open and none is missed, otherwise one is missed exactly while none is open; an open
-- client inspects at the gap of the settings; and `cycles` is `k` as an `int`.
pub record IsWired {F : Type 0} (cfg : Config) (k : ℕ) (a : Agent F) : Type 0 where
  pub settings : a.cfg ≡ cfg
  pub tagged : a.enc.base ≡ base_tags cfg
  pub disabled : (is_off cfg.docker && is_set a.docker) ≡ false
  pub missed : a.docker_failed ≡ not (is_off cfg.docker || is_set a.docker)
  pub spaced : Spaced cfg.inspect_every a.docker
  pub numbered : a.cycles ≡ k % 2 ^ 64

module _ {F : Type 0} (cfg : Config) where
  pub start_docker-IsWired :
      (machine : Machine) → IsWired cfg 0 (start_docker {F = F} machine (new_agent cfg))
  unfolding start_docker opened new_agent set_inspect_every new_encoder
  start_docker-IsWired machine = ground arith

  pub redetect_docker-IsWired :
      (k : ℕ) (machine : Machine) (a : Agent F)
      → IsWired cfg k a
      → IsWired cfg k (redetect_docker machine a)
  unfolding redetect_docker reopened set_inspect_every
  redetect_docker-IsWired k machine a h = ground arith

module _ (ar : Arith) (build : Build) where
  open ar use {floats}
  open floats use {Float}

  collect_batch-base :
      (turn : Turn Float) (up : ℤ) (a : Agent Float)
      → (collect_batch ar build turn up a).0.enc.base ≡ a.enc.base
  unfolding collect_batch reset
  collect_batch-base turn up a =
      let snap = (Cycle.collect ar turn.probes a.sys).0 in
      let e1 = Snapshot.encode floats (reset a.enc) snap in
      ap (λ (e : Encoder). e.base) (collect_docker-enc ar build turn.engine snap.time _ a.docker)
      ∙ encode-base_tags floats _ (samples_of ar build turn.engine a.docker) snap.time
      ∙ encode_agent-base ar build e1 snap.time up
      ∙ encode-base floats (reset a.enc) snap

  collect_docker-client :
      (engine : Engine) (ts : Time) (e : Encoder) (d : Option Client)
      → (collect_docker ar build engine ts e d).0 ≡ primed_docker ar build engine d
  unfolding collect_docker
  collect_docker-client engine ts e none = refl
  collect_docker-client engine ts e (some c) = refl

  primed_docker-is_set :
      (engine : Engine) (d : Option Client) → is_set (primed_docker ar build engine d) ≡ is_set d
  primed_docker-is_set engine none = refl
  primed_docker-is_set engine (some c) = refl

  primed_docker-Spaced :
      (engine : Engine) (n : ℤ) (d : Option Client)
      → Spaced n d
      → Spaced n (primed_docker ar build engine d)
  primed_docker-Spaced engine n none h = tt
  primed_docker-Spaced engine n (some c) h = (collect-SetUpAs ar engine c).inspect_every ∙ h

  pub collect_batch-is_set :
      (turn : Turn Float) (up : ℤ) (a : Agent Float)
      → is_set (collect_batch ar build turn up a).0.docker ≡ is_set a.docker
  unfolding collect_batch
  collect_batch-is_set turn up a =
      ap is_set (collect_docker-client turn.engine _ _ a.docker)
      ∙ primed_docker-is_set turn.engine a.docker

  pub collect_batch-IsWired :
      (cfg : Config) (k : ℕ) (turn : Turn Float) (up : ℤ) (a : Agent Float)
      → IsWired cfg k a
      → IsWired cfg k (collect_batch ar build turn up a).0
  unfolding collect_batch
  collect_batch-IsWired cfg k turn up a h =
      let client : (collect_batch ar build turn up a).0.docker
          ≡ primed_docker ar build turn.engine a.docker =
        collect_docker-client turn.engine _ _ a.docker in
      let still = collect_batch-is_set turn up a in
      record {
        settings = h.settings;
        tagged = collect_batch-base turn up a ∙ h.tagged;
        disabled = rw still h.disabled;
        missed = rw still h.missed;
        spaced =
            subst (λ d. Spaced cfg.inspect_every d) (sym client)
              (primed_docker-Spaced turn.engine cfg.inspect_every a.docker h.spaced);
        numbered = h.numbered;
      }
