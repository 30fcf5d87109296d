-- ===== src/Agent/Launch.antt =====
-- What `run` has made sure of where it enters the loop of cmd/observant-agent/main.go.
use observant_agent.Base.{
  ℕ, zero, suc, ◌≤◌, Bool, if◌then◌else◌, false, List, [], ◌∷◌, some, ◌≡◌, true, refl, sym, subst,
  arith, is_empty,
}
use observant_agent.Agent.Batch.{Turn, Build}
use observant_agent.Agent.Loop.{jitter}
use observant_agent.Agent.Modes.{run_iff}
use observant_agent.Agent.Print.{Printer}
use observant_agent.Agent.SelfCheck.{Platform}
use observant_agent.Agent.Start.{loops, run}
use observant_agent.Agent.State.{Agent, base_tags, opened, new_agent, start_docker}
use observant_agent.Base.Decimal.{ℤ, pos, negsuc}
use observant_agent.Base.Text.{Bytes, codes}
use observant_agent.Config.Accepted.{IsUsable, parse-IsUsable}
use observant_agent.Config.Parse.{second_or_more}
use observant_agent.Config.Settings.{Config, System}
use observant_agent.Config.Validate.{IsWebUrl, validate_iff}
use observant_agent.Docker.Detect.{Machine}
use observant_agent.Docker.Sample.{Arith}
use observant_agent.Lineproto.Encoder.{new as new_encoder}
use observant_agent.Lineproto.Point.{Tag}
use observant_agent.Push.Pusher
use observant_agent.Push.Pusher.{Pusher}

-- The jitter is drawn and the ticker starts.
pub record Paced (draw : ℕ → ℕ) (interval : ℤ) : Type 0 where
  pub nanoseconds : ℕ
  pub same : interval ≡ pos nanoseconds
  pub slow : 1_000_000_000 ≤ nanoseconds
  pub drawn : jitter draw interval ≡ some (draw nanoseconds)

-- The loop can start, the pusher has an endpoint and a token, and the encoder names the host.
pub record IsReady {F : Type 0} (sys : System) (draw : ℕ → ℕ) (a : Agent F) : Type 0 where
  pub paced : Paced draw a.cfg.interval
  pub endpoint : IsWebUrl sys (sys.parse_url a.pusher.url)
  pub token_given : is_empty a.pusher.token ≡ false
  pub rest : List Tag
  pub tagged : a.enc.base ≡ record { key = codes "host"; value = a.cfg.hostname } ∷ rest
  pub hostname_given : is_empty a.cfg.hostname ≡ false

jitter-Paced : (draw : ℕ → ℕ) (n : ℤ) → second_or_more n ≡ true → Paced draw n
unfolding jitter
jitter-Paced draw (pos zero) h = absurd (ground arith)
jitter-Paced draw (pos (suc n)) h = record {
  nanoseconds = suc n;
  same = refl;
  slow = ground arith;
  drawn = refl;
}
jitter-Paced draw (negsuc n) h = absurd (ground arith)

module _ (F : Type 0) (machine : Machine) (cfg : Config) where
  start_docker-new_agent :
      let a : Agent F = start_docker machine (new_agent cfg) in
      (a.cfg ≡ cfg) × (a.enc.base ≡ base_tags cfg) × (a.pusher ≡ Pusher.new cfg.url cfg.token)
  unfolding start_docker opened new_agent new_encoder
  start_docker-new_agent = ground arith

  start_docker-IsReady :
      (sys : System) (draw : ℕ → ℕ)
      → IsUsable cfg
      → IsWebUrl sys (sys.parse_url cfg.url)
      → is_empty cfg.token ≡ false
      → IsReady {F = F} sys draw (start_docker machine (new_agent cfg))
  unfolding Pusher.new
  start_docker-IsReady sys draw usable web given =
      let (settings, tags, pusher) = start_docker-new_agent in
      record {
        paced =
            subst (λ (c : Config). Paced draw c.interval) (sym settings)
              (jitter-Paced draw cfg.interval usable.interval_ok);
        endpoint = subst (λ (p : Pusher). IsWebUrl sys (sys.parse_url p.url)) (sym pusher) web;
        token_given = subst (λ (p : Pusher). is_empty p.token ≡ false) (sym pusher) given;
        rest =
            if is_empty cfg.role then [] else record { key = codes "role"; value = cfg.role } ∷ [];
        tagged = rw settings tags;
        hostname_given =
            subst (λ (c : Config). is_empty c.hostname ≡ false) (sym settings)
              usable.hostname_given;
      }

module _ (ar : Arith) (build : Build) (platform : Platform)
    (printer : Printer ar.floats.Float) where
  open ar use {floats}
  open floats use {Float}

  -- Where `run` enters the loop, the interval is a second or more, so that the jitter is drawn below it
  -- and neither this nor the ticker panics; the pusher has an http or https URL with a host and a
  -- token; and the encoder's first base tag is the host tag, which is not empty.
  pub run-IsReady :
      (sys : System) (machine : Machine) (slept : Bool) (first turn : Turn Float)
      (args : List Bytes) (draw : ℕ → ℕ) (a : Agent Float)
      → run ar build platform printer sys machine slept first turn args ≡ loops a
      → IsReady sys draw a
  run-IsReady sys machine slept first turn args draw a h =
      let l = (run_iff ar build platform printer sys machine slept first turn args a).0 h in
      let (url, web, given) = (validate_iff sys l.cfg).0 l.valid in
      subst (λ b. IsReady sys draw b) (sym l.agent)
        (start_docker-IsReady Float machine l.cfg sys draw (parse-IsUsable sys args l.cfg l.parsed)
          web given)
