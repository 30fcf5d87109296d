-- ===== src/Agent/Modes.antt =====
-- Which way a run of the agent takes, and how it ends.
use observant_agent.Base.{
  ℕ, ◌≤◌, Bool, true, false, ◌||◌, List, [], ◌∷◌, none, some, ◌≡◌, refl, ◌↔◌, ap, sym, subst, ◌∙◌,
  arith, inl, inr, Bool-cases, if◌then◌else◌,
}
use observant_agent.Agent.Batch.{Turn, Build}
use observant_agent.Agent.Print.{Printer}
use observant_agent.Agent.SelfCheck.{Platform, Ended, self_check}
use observant_agent.Agent.Start.{
  once, Started, ends, loops, status_of, enter_loop, run_parsed, run, exit_code,
}
use observant_agent.Agent.State.{Agent, new_agent, start_docker}
use observant_agent.Base.Results.{Result, ok, err}
use observant_agent.Base.Text.{Bytes}
use observant_agent.Config.Parse.{parse}
use observant_agent.Config.Settings.{Config, Failure, help, message, System}
use observant_agent.Config.Validate.{validate}
use observant_agent.Docker.Detect.{Machine}
use observant_agent.Docker.Sample.{Arith}

none_chosen :
    {A : Type 0} (v c o : Bool) (x y z r : A)
    → v ≡ false
    → c ≡ false
    → o ≡ false
    → (if v then x else if c then y else if o then z else r) ≡ r
none_chosen v c o x y z r h k l = rw (h, k, l) refl

-- What the loop starts from.
pub record Looping {F : Type 0} (sys : System) (machine : Machine) (args : List Bytes) (a : Agent F)
    : Type 0 where
  pub cfg : Config
  pub parsed : parse sys args ≡ ok cfg
  pub plain : (cfg.version || cfg.self_check || cfg.once) ≡ false
  pub valid : validate sys cfg ≡ []
  pub agent : a ≡ start_docker machine (new_agent cfg)

module _ (ar : Arith) (build : Build) (platform : Platform)
    (printer : Printer ar.floats.Float) where
  open ar use {floats}
  open floats use {Float}

  loops-injective :
      {a b : Agent Float} → ◌≡◌ {A = Started ar build platform printer} (loops b) (loops a) → a ≡ b
  loops-injective h = cc

  enter_loop-loops :
      (es : List Bytes) (a b : Agent Float)
      → enter_loop ar build platform printer es b ≡ loops a
      → (es ≡ []) × (a ≡ b)
  enter_loop-loops [] a b h = (refl, loops-injective h)
  enter_loop-loops (e ∷ es) a b h = cc

  module _ (sys : System) (machine : Machine) (slept : Bool) (first turn : Turn Float) where
    abbrev started : Result Failure Config → Started ar build platform printer
    started r = run_parsed ar build platform printer sys machine slept first turn r

    run_parsed-loops :
        (cfg : Config) (a : Agent Float)
        → started (ok cfg) ≡ loops a
        → ((cfg.version || cfg.self_check || cfg.once) ≡ false)
          × (validate sys cfg ≡ [])
          × (a ≡ start_docker machine (new_agent cfg))
    unfolding run_parsed
    run_parsed-loops cfg a h = elim (Bool-cases cfg.version) [
      | inl v ↦ absurd (ground arith)
      | inr v ↦ elim (Bool-cases cfg.self_check) [
        | inl c ↦ absurd (ground arith)
        | inr c ↦ elim (Bool-cases cfg.once) [
          | inl o ↦ absurd (ground arith)
          | inr o ↦
              let b = start_docker machine (new_agent cfg) in
              let entered : enter_loop ar build platform printer (validate sys cfg) b ≡ loops a =
                sym (none_chosen cfg.version cfg.self_check cfg.once _ _ _ _ v c o) ∙ h in
              let (valid, same) = enter_loop-loops (validate sys cfg) a b entered in
              (ground arith, valid, same)
        ]
      ]
    ]

    looping :
        (args : List Bytes) (a : Agent Float) (r : Result Failure Config)
        → parse sys args ≡ r
        → started r ≡ loops a
        → Looping sys machine args a
    unfolding run_parsed
    looping args a (err f) e h = cc
    looping args a (ok cfg) e h =
        let (plain, valid, same) = run_parsed-loops cfg a h in
        record { cfg = cfg; parsed = e; plain = plain; valid = valid; agent = same }

    loops_of_plain :
        (cfg : Config)
        → (cfg.version || cfg.self_check || cfg.once) ≡ false
        → validate sys cfg ≡ []
        → started (ok cfg) ≡ loops (start_docker machine (new_agent cfg))
    unfolding run_parsed
    loops_of_plain cfg plain valid =
        let v : cfg.version ≡ false = ground arith in
        let c : cfg.self_check ≡ false = ground arith in
        let o : cfg.once ≡ false = ground arith in
        none_chosen cfg.version cfg.self_check cfg.once _ _ _ _ v c o
        ∙ ap (λ es. enter_loop ar build platform printer es (start_docker machine (new_agent cfg)))
            valid

    -- `run` goes on to the loop exactly where the arguments give settings that ask for neither the
    -- version nor a self check nor a single cycle and that `Validate` accepts, and the loop then
    -- starts with the new agent of these settings, which has looked for a socket.
    pub run_iff :
        (args : List Bytes) (a : Agent Float)
        → (run ar build platform printer sys machine slept first turn args ≡ loops a)
          ↔ Looping sys machine args a
    unfolding run
    run_iff args a = (
      looping args a (parse sys args) refl,
      λ l. rw l.parsed (loops_of_plain l.cfg l.plain l.valid ∙ ap loops (sym l.agent)),
    )

    -- A run that has read its settings ends with status 0 or 1, if it ends.
    abbrev Small : Started ar build platform printer → Type 0
    Small (ends e) = exit_code e ≤ 1
    Small (loops a) = Unit

    abbrev code_of : Started ar build platform printer → ℕ
    code_of (ends e) = exit_code e
    code_of (loops a) = 0

    Small-if :
        (b : Bool) (x y : Started ar build platform printer)
        → Small x
        → Small y
        → Small (if b then x else y)
    Small-if true x y h k = h
    Small-if false x y h k = k

    status_of_if : (b : Bool) (msg : Bytes) → status_of (if b then some (message msg) else none) ≤ 1
    status_of_if true msg = omega arith
    status_of_if false msg = omega arith

    once-Small :
        (a : Agent Float) → Small (ends (once ar build platform printer slept first turn a))
    unfolding once exit_code
    once-Small a = of_sleep slept
      where
        of_sleep : (b : Bool) → Small (ends (once ar build platform printer b first turn a))
        of_sleep true = status_of_if _ _
        of_sleep false = omega arith

    self_check-Small :
        (a : Agent Float) → Small (ends (self_check ar build platform printer slept first turn a))
    unfolding self_check exit_code
    self_check-Small a = of_sleep slept
      where
        of_sleep : (b : Bool) → Small (ends (self_check ar build platform printer b first turn a))
        of_sleep true = status_of_if _ _
        of_sleep false = omega arith

    enter_loop-Small :
        (es : List Bytes) (a : Agent Float) → Small (enter_loop ar build platform printer es a)
    unfolding exit_code
    enter_loop-Small [] a = tt
    enter_loop-Small (e ∷ es) a = omega arith

    started-Small : (cfg : Config) → Small (started (ok cfg))
    unfolding run_parsed exit_code
    started-Small cfg =
        let a = start_docker machine (new_agent cfg) in
        Small-if cfg.version _ _ (omega arith) (
          Small-if cfg.self_check _ _ (self_check-Small a)
            (Small-if cfg.once _ _ (once-Small a) (enter_loop-Small (validate sys cfg) a)))

    exit_code_lem :
        (r : Result Failure Config) (e : Ended)
        → started r ≡ ends e
        → (exit_code e ≡ 2) ↔ (r ≡ err help)
    unfolding run_parsed exit_code
    exit_code_lem (err help) e h = ((λ _. refl), λ _. sym (ap code_of h))
    exit_code_lem (err (message msg)) e h =
        let one : 1 ≡ exit_code e = ap code_of h in ((λ k. absurd (omega arith)), λ k. cc)
    exit_code_lem (ok cfg) e h =
        let small : exit_code e ≤ 1 = subst (λ s. Small s) h (started-Small cfg) in
        ((λ k. absurd (omega arith)), λ k. cc)

    -- A run that ends has exit status 2 exactly where the arguments ask for help.
    pub run-exit_code :
        (args : List Bytes) (e : Ended)
        → run ar build platform printer sys machine slept first turn args ≡ ends e
        → (exit_code e ≡ 2) ↔ (parse sys args ≡ err help)
    unfolding run
    run-exit_code args e h = exit_code_lem (parse sys args) e h
