-- ===== src/Docker/Answers.antt =====
-- The samples and the errors of a cycle.
use mathlib.Core.List.{zip, append_assoc}
use observant_agent.Base.{
  ℕ, Bool, true, false, not, List, [], ◌∷◌, ◌++◌, map, Option, none, some, ◌≡◌, refl, sym, subst,
  ◌∙◌, ap, arith, if◌then◌else◌, select, length,
}
use observant_agent.Base.Decimal.{ℤ}
use observant_agent.Base.Text.{Bytes}
use observant_agent.Docker.Collect.{
  ContainerJson, InspectJson, Answer, got, failed, Engine, Read, container_of, stopped_age, too_old,
  named_error, stopped_answered, stopped, with_restart, run_answered, run_task, run_tasks, samples,
  errors, running_of, stopped_of, collect_listed, collect_answered, collect,
}
use observant_agent.Docker.Restart.{Client, Container, plan}
use observant_agent.Docker.Sample.{Arith, Stats, StatsJson, stats}

abbrev pub is_got : {A : Type 0} → Answer A → Bool
is_got (got x) = true
is_got (failed msg) = false

abbrev pub error_of : {A : Type 0} → Container → Answer A → List Bytes
error_of ct (got x) = []
error_of ct (failed msg) = named_error ct msg ∷ []

-- The texts that the elements give, in order.
abbrev pub gather : (Container → List Bytes) → List Container → List Bytes
gather f [] = []
gather f (ct ∷ cts) = f ct ++ gather f cts

abbrev pub ids_of : List Container → List Bytes
ids_of = map (λ ct. ct.id)

abbrev pub sample_ids : {F : Type 0} → List (Stats F) → List Bytes
sample_ids = map (λ s. s.container.id)

with_restart-id :
    (ar : Arith) (engine : Engine) (n : Option ℤ) (s : Stats ar.floats.Float)
    → (with_restart ar engine n s).container.id ≡ s.container.id
with_restart-id ar engine none s = refl
with_restart-id ar engine (some n) s = refl

module _ (ar : Arith) (engine : Engine) where
  open ar use {floats}
  open floats use {Float}

  -- The engine answers, and the container did not stop too long ago.
  abbrev pub recent : Container → Answer InspectJson → Bool
  recent ct (failed msg) = false
  recent ct (got raw) =
      not (too_old (stopped_age (engine.parse_time raw.finished_at) ct.created (engine.now ct.id)))

  run_answered-samples :
      (c : Client) (cycle : ℕ) (ct : Container) (due : Bool) (a : Answer StatsJson)
      (rs : List (Read Float))
      → sample_ids (samples ar engine ((run_answered ar engine c cycle ct due a).1 ∷ rs)) ≡ (
          if is_got a
          then ct.id ∷ sample_ids (samples ar engine rs)
          else sample_ids (samples ar engine rs))
  unfolding run_answered samples stats
  run_answered-samples c cycle ct due (failed msg) rs = refl
  run_answered-samples c cycle ct due (got raw) rs =
      ap (λ i. i ∷ sample_ids (samples ar engine rs)) (with_restart-id ar engine _ _)

  run_answered-errors :
      (c : Client) (cycle : ℕ) (ct : Container) (due : Bool) (a : Answer StatsJson)
      (rs : List (Read Float))
      → errors ar engine ((run_answered ar engine c cycle ct due a).1 ∷ rs)
        ≡ error_of ct a ++ errors ar engine rs
  unfolding run_answered errors
  run_answered-errors c cycle ct due (failed msg) rs = refl
  run_answered-errors c cycle ct due (got raw) rs = refl

  run_tasks-samples :
      (c : Client) (cycle : ℕ) (cts : List Container) (f : Container → Bool)
      (rest : List (Read Float))
      → sample_ids
          (samples ar engine ((run_tasks ar engine c cycle (zip cts (map f cts))).1 ++ rest))
        ≡ ids_of (select (λ ct. is_got (engine.stats_of ct.id)) cts)
          ++ sample_ids (samples ar engine rest)
  unfolding run_tasks run_task zip
  run_tasks-samples c cycle [] f rest = refl
  run_tasks-samples c cycle (ct ∷ cts) f rest =
      let a = engine.stats_of ct.id in
      let c1 = (run_answered ar engine c cycle ct (f ct) a).0 in
      ground (
        arith,
        run_answered-samples c cycle ct (f ct) a
            ((run_tasks ar engine c1 cycle (zip cts (map f cts))).1 ++ rest),
        run_tasks-samples c1 cycle cts f rest,
      )

  run_tasks-errors :
      (c : Client) (cycle : ℕ) (cts : List Container) (f : Container → Bool)
      (rest : List (Read Float))
      → errors ar engine ((run_tasks ar engine c cycle (zip cts (map f cts))).1 ++ rest)
        ≡ gather (λ ct. error_of ct (engine.stats_of ct.id)) cts ++ errors ar engine rest
  unfolding run_tasks run_task zip
  run_tasks-errors c cycle [] f rest = refl
  run_tasks-errors c cycle (ct ∷ cts) f rest =
      let a = engine.stats_of ct.id in
      let c1 = (run_answered ar engine c cycle ct (f ct) a).0 in
      run_answered-errors c cycle ct (f ct) a _
      ∙ ap (λ s. error_of ct a ++ s) (run_tasks-errors c1 cycle cts f rest)
      ∙ sym (append_assoc (error_of ct a) _ _)

  stopped_answered-read :
      (ct : Container) (a : Answer InspectJson) (rs : List (Read Float))
      → (sample_ids (samples ar engine (stopped_answered ar engine ct a ∷ rs)) ≡ (
          if recent ct a
          then ct.id ∷ sample_ids (samples ar engine rs)
          else sample_ids (samples ar engine rs)))
        × (errors ar engine (stopped_answered ar engine ct a ∷ rs)
            ≡ error_of ct a ++ errors ar engine rs)
  unfolding stopped_answered samples errors
  stopped_answered-read ct (failed msg) rs = (refl, refl)
  stopped_answered-read ct (got raw) rs = ground arith

  stopped-read :
      (cts : List Container)
      → (sample_ids (samples ar engine (map (stopped ar engine) cts))
          ≡ ids_of (select (λ ct. recent ct (engine.inspect_of ct.id)) cts))
        × (errors ar engine (map (stopped ar engine) cts)
            ≡ gather (λ ct. error_of ct (engine.inspect_of ct.id)) cts)
  unfolding stopped samples errors
  stopped-read [] = (refl, refl)
  stopped-read (ct ∷ cts) =
      let a = engine.inspect_of ct.id in
      let head = stopped_answered-read ct a (map (stopped ar engine) cts) in
      let (ids, texts) = stopped-read cts in
      (ground (arith, head.0, ids), head.1 ∙ ap (λ s. error_of ct a ++ s) texts)

  -- The IDs that a cycle reports, and the texts of its errors.
  abbrev pub reported : List Container → List Bytes
  reported cts =
      ids_of (select (λ ct. is_got (engine.stats_of ct.id)) (running_of cts))
      ++ ids_of (select (λ ct. recent ct (engine.inspect_of ct.id)) (stopped_of ar engine cts))

  abbrev pub failures : List Container → List Bytes
  failures cts =
      gather (λ ct. error_of ct (engine.stats_of ct.id)) (running_of cts)
      ++ gather (λ ct. error_of ct (engine.inspect_of ct.id)) (stopped_of ar engine cts)

  collect_listed-reported :
      (c : Client) (ct : Container) (cts : List Container)
      → let (_, ss, es) = collect_listed ar engine c (ct ∷ cts) in
        (sample_ids ss ≡ reported (ct ∷ cts)) × (es ≡ failures (ct ∷ cts))
  unfolding collect_listed plan
  collect_listed-reported c ct cts =
      let all = running_of (ct ∷ cts) in
      let (ids, texts) = stopped-read (stopped_of ar engine (ct ∷ cts)) in
      (
        run_tasks-samples _ _ all _ _
            ∙ ap (λ s. ids_of (select (λ ct. is_got (engine.stats_of ct.id)) all) ++ s) ids,
        run_tasks-errors _ _ all _ _
            ∙ ap (λ s. gather (λ ct. error_of ct (engine.stats_of ct.id)) all ++ s) texts,
      )

  no_length : (cts : List Container) → length cts ≡ 0 → cts ≡ []
  no_length [] h = refl
  no_length (ct ∷ cts) h = cc

  collect_answered-reported :
      (c : Client) (raw : List ContainerJson)
      → ((cts : List Container) → length (engine.recent_first cts) ≡ length cts)
      → let cts = map container_of raw in
        let (_, ss, es) = collect_answered ar engine c (got raw) in
        (sample_ids ss ≡ reported cts) × (es ≡ failures cts)
  unfolding collect_answered collect_listed
  collect_answered-reported c [] sorts =
      rw (no_length (engine.recent_first []) (sorts [])) (refl, refl)
  collect_answered-reported c (r ∷ raw) sorts =
      collect_listed-reported c (container_of r) (map container_of raw)

  -- A cycle in which the engine lists the containers reports, in this order, each running container
  -- whose stats the engine gives and each of the newest stopped containers whose inspect call it
  -- answers and that did not stop too long ago. It joins one error for each of these stats calls
  -- and inspect calls that failed, and none for the inspect calls of running containers. Condition:
  -- the sort by creation time keeps the number of containers.
  pub collect-reported :
      (c : Client) (raw : List ContainerJson)
      → ((cts : List Container) → length (engine.recent_first cts) ≡ length cts)
      → engine.listing ≡ got raw
      → let (_, ss, es) = collect ar engine c in
        (sample_ids ss ≡ reported (map container_of raw)) × (es ≡ failures (map container_of raw))
  unfolding collect
  collect-reported c raw sorts answer =
      subst
        (λ a.
          let (_, ss, es) = collect_answered ar engine c a in
          (sample_ids ss ≡ reported (map container_of raw))
          × (es ≡ failures (map container_of raw)))
        (sym answer) (collect_answered-reported c raw sorts)
