-- ===== src/Docker/Local.antt =====
-- What one task of a Docker cycle reads and writes of the client.
use observant_agent.Base.{
  ℕ, zero, suc, ◌+◌, ◌-◌, ◌≤◌, true, false, ◌≡◌, refl, sym, subst, ap, ◌∙◌, arith,
}
use observant_agent.Base.Dict.{lookup, lookup-insert}
use observant_agent.Base.Text.{Bytes, bytes_eq, bytes_eq_iff, bytes_eq_refl}
use observant_agent.Docker.Collect.{
  InspectJson, Answer, got, failed, Engine, Read, put_answer, inspect, run_answered, run_task,
}
use observant_agent.Docker.Restart.{Client, Container, put_restart, get_restart}
use observant_agent.Docker.Sample.{Arith, StatsJson, stats}
use observant_agent.Docker.Tasks.{
  Task, Stage, waiting, measured, inspected, done, measure, step_task,
}

-- Two clients hold the same of a container.
abbrev pub SameAt : Bytes → Client → Client → Type 0
SameAt id c d = (lookup id c.prev ≡ lookup id d.prev) × (lookup id c.restart ≡ lookup id d.restart)

pub SameAt-trans : (id : Bytes) (b c d : Client) → SameAt id b c → SameAt id c d → SameAt id b d
SameAt-trans id b c d h k = (h.0 ∙ k.0, h.1 ∙ k.1)

pub bytes_eq_comm : (a b : Bytes) → bytes_eq a b ≡ false → bytes_eq b a ≡ false
bytes_eq_comm a b h = ground (arith, bytes_eq_iff a b, bytes_eq_iff b a)

module _ (ar : Arith) (engine : Engine) (cycle : ℕ) where
  open ar use {floats}
  open floats use {Float}

  -- What a step does to the entries of its own container, and to its stage, depends on them only.
  stats-own :
      (c d : Client) (ct : Container) (raw : StatsJson) (now : ℕ)
      → SameAt ct.id c d
      → ((stats ar c ct raw now).1 ≡ (stats ar d ct raw now).1)
        × SameAt ct.id (stats ar c ct raw now).0 (stats ar d ct raw now).0
  unfolding stats
  stats-own c d ct raw now h = (rw h.0 refl, (simp (lookup-insert, bytes_eq_refl), h.1))

  put_answer-own :
      (c d : Client) (id : Bytes) (a : Answer InspectJson)
      → SameAt id c d
      → SameAt id (put_answer ar engine c id cycle a) (put_answer ar engine d id cycle a)
  unfolding put_answer put_restart
  put_answer-own c d id (got raw) h = (h.0, simp (lookup-insert, bytes_eq_refl, h.1))
  put_answer-own c d id (failed msg) h = (h.0, simp (lookup-insert, bytes_eq_refl, h.1))

  get_restart-own :
      (c d : Client) (id : Bytes) → SameAt id c d → get_restart c id ≡ get_restart d id
  unfolding get_restart
  get_restart-own c d id h = ground arith

  pub step_task-own :
      (c d : Client) (t : Task) (s : Stage Float)
      → SameAt t.0.id c d
      → ((step_task ar engine cycle c t s).1 ≡ (step_task ar engine cycle d t s).1)
        × SameAt t.0.id (step_task ar engine cycle c t s).0 (step_task ar engine cycle d t s).0
  unfolding step_task inspect
  step_task-own c d (ct, due) waiting h = of_answer (engine.stats_of ct.id)
    where
      of_answer :
          (a : Answer StatsJson)
          → ((measure ar engine cycle c ct a).1 ≡ (measure ar engine cycle d ct a).1)
            × SameAt ct.id (measure ar engine cycle c ct a).0 (measure ar engine cycle d ct a).0
      of_answer (failed msg) = (refl, h)
      of_answer (got raw) =
          let (same, kept) = stats-own c d ct raw (engine.now ct.id) h in (ap measured same, kept)
  step_task-own c d (ct, true) (measured s) h =
      (refl, put_answer-own c d ct.id (engine.inspect_of ct.id) h)
  step_task-own c d (ct, false) (measured s) h = (refl, h)
  step_task-own c d (ct, due) (inspected s) h = (rw (get_restart-own c d ct.id h) refl, h)
  step_task-own c d (ct, due) (done r) h = (refl, h)

  -- A step leaves the entries of every other container.
  put_answer-other :
      (c : Client) (id other : Bytes) (a : Answer InspectJson)
      → bytes_eq id other ≡ false
      → SameAt other c (put_answer ar engine c id cycle a)
  unfolding put_answer put_restart
  put_answer-other c id other (got raw) h = (refl, rw (lookup-insert, h) refl)
  put_answer-other c id other (failed msg) h = (refl, rw (lookup-insert, h) refl)

  pub step_task-other :
      (c : Client) (t : Task) (s : Stage Float) (other : Bytes)
      → bytes_eq t.0.id other ≡ false
      → SameAt other c (step_task ar engine cycle c t s).0
  unfolding step_task inspect stats
  step_task-other c (ct, due) waiting other h = of_answer (engine.stats_of ct.id)
    where
      of_answer : (a : Answer StatsJson) → SameAt other c (measure ar engine cycle c ct a).0
      of_answer (failed msg) = (refl, refl)
      of_answer (got raw) = (rw (lookup-insert, h) refl, refl)
  step_task-other c (ct, true) (measured s) other h =
      put_answer-other c ct.id other (engine.inspect_of ct.id) h
  step_task-other c (ct, false) (measured s) other h = (refl, refl)
  step_task-other c (ct, due) (inspected s) other h = (refl, refl)
  step_task-other c (ct, due) (done r) other h = (refl, refl)

  -- `k` steps of one task, with no other task in between.
  unfoldable pub alone : ℕ → Client → Task → Stage Float → Client × Stage Float
  alone zero c t s = (c, s)
  alone (suc k) c t s = let (c1, s1) = alone k c t s in step_task ar engine cycle c1 t s1

  pub alone-own :
      (k : ℕ) (c d : Client) (t : Task) (s : Stage Float)
      → SameAt t.0.id c d
      → ((alone k c t s).1 ≡ (alone k d t s).1) × SameAt t.0.id (alone k c t s).0 (alone k d t s).0
  unfolding alone
  alone-own zero c d t s h = (refl, h)
  alone-own (suc k) c d t s h =
      let (same, kept) = alone-own k c d t s h in
      let (c1, s1) = alone k c t s in
      let (d1, s2) = alone k d t s in
      let (stage, entries) = step_task-own c1 d1 t s1 kept in
      let moved : SameAt t.0.id (step_task ar engine cycle c1 t s1).0
          (step_task ar engine cycle d1 t s2).0 =
        subst
          (λ u.
            SameAt t.0.id (step_task ar engine cycle c1 t s1).0
              (step_task ar engine cycle d1 t u).0)
          same entries in
      (stage ∙ ap (λ u. (step_task ar engine cycle d1 t u).1) same, moved)

  step_task-done :
      (c : Client) (t : Task) (s : Stage Float) (r : Read Float)
      → s ≡ done r
      → step_task ar engine cycle c t s ≡ (c, s)
  unfolding step_task
  step_task-done c t s r h = subst (λ u. step_task ar engine cycle c t u ≡ (c, u)) (sym h) refl

  -- A task that is done goes no further.
  alone-done :
      (m k : ℕ) (c : Client) (t : Task) (s : Stage Float) (r : Read Float)
      → (alone k c t s).1 ≡ done r
      → alone (m + k) c t s ≡ alone k c t s
  unfolding alone step_task
  alone-done zero k c t s r h = let same : 0 + k ≡ k = omega arith in ap (λ n. alone n c t s) same
  alone-done (suc m) k c t s r h =
      let next : suc m + k ≡ suc (m + k) = omega arith in
      let before = alone-done m k c t s r h in
      ap (λ n. alone n c t s) next
      ∙ ap (λ (p : Client × Stage Float). step_task ar engine cycle p.0 t p.1) before
      ∙ step_task-done (alone k c t s).0 t (alone k c t s).1 r h

  -- Three steps of a task are the whole task.
  alone-three :
      (c : Client) (t : Task)
      → alone 3 c t waiting
        ≡ ((run_task ar engine c cycle t.0 t.1).0, done (run_task ar engine c cycle t.0 t.1).1)
  unfolding alone step_task run_task run_answered
  alone-three c (ct, due) = of_answer (engine.stats_of ct.id)
    where
      of_answer :
          (a : Answer StatsJson)
          → (let (c1, s1) = measure ar engine cycle c ct a in
              let (c2, s2) = step_task ar engine cycle c1 (ct, due) s1 in
              step_task ar engine cycle c2 (ct, due) s2)
            ≡ (
              (run_answered ar engine c cycle ct due a).0,
              done (run_answered ar engine c cycle ct due a).1,
            )
      of_answer (failed msg) = refl
      of_answer (got raw) = refl

  done-injective : {r q : Read Float} → ◌≡◌ {A = Stage Float} (done r) (done q) → r ≡ q
  done-injective h = cc

  -- So are three or more.
  pub alone-all :
      (k : ℕ) (c : Client) (t : Task)
      → 3 ≤ k
      → alone k c t waiting
        ≡ ((run_task ar engine c cycle t.0 t.1).0, done (run_task ar engine c cycle t.0 t.1).1)
  alone-all k c t h =
      let three = alone-three c t in
      let split : k - 3 + 3 ≡ k = omega arith in
      ap (λ n. alone n c t waiting) (sym split)
      ∙ alone-done (k - 3) 3 c t waiting _ (ap (λ (p : Client × Stage Float). p.1) three)
      ∙ three

  pub run_task-own :
      (c d : Client) (t : Task)
      → SameAt t.0.id c d
      → ((run_task ar engine c cycle t.0 t.1).1 ≡ (run_task ar engine d cycle t.0 t.1).1)
        × SameAt t.0.id
            (run_task ar engine c cycle t.0 t.1).0
            (run_task ar engine d cycle t.0 t.1).0
  run_task-own c d t h =
      let (same, kept) = alone-own 3 c d t waiting h in
      let x = alone-three c t in
      let y = alone-three d t in
      let half =
        subst (λ (p : Client × Stage Float). SameAt t.0.id p.0 (alone 3 d t waiting).0) x kept in
      (
        done-injective (
            ap (λ (p : Client × Stage Float). p.1) (sym x)
            ∙ same
            ∙ ap (λ (p : Client × Stage Float). p.1) y),
        subst
            (λ (p : Client × Stage Float). SameAt t.0.id (run_task ar engine c cycle t.0 t.1).0 p.0)
            y half,
      )

  alone-other :
      (k : ℕ) (c : Client) (t : Task) (s : Stage Float) (id : Bytes)
      → bytes_eq t.0.id id ≡ false
      → SameAt id c (alone k c t s).0
  unfolding alone
  alone-other zero c t s id h = (refl, refl)
  alone-other (suc k) c t s id h =
      let (c1, s1) = alone k c t s in
      SameAt-trans id c c1 (step_task ar engine cycle c1 t s1).0 (alone-other k c t s id h)
        (step_task-other c1 t s1 id h)

  pub run_task-other :
      (c : Client) (t : Task) (id : Bytes)
      → bytes_eq t.0.id id ≡ false
      → SameAt id c (run_task ar engine c cycle t.0 t.1).0
  run_task-other c t id h =
      subst (λ (p : Client × Stage Float). SameAt id c p.0) (alone-three c t)
        (alone-other 3 c t waiting id h)
