-- ===== src/Docker/InTurn.antt =====
-- What the tasks of a Docker cycle do one after the other.
use observant_agent.Base.{
  ℕ, false, List, [], ◌∷◌, map, ◌≡◌, refl, sym, subst, ap, ◌∙◌, inl, inr, Bool-cases, All,
}
use observant_agent.Base.Text.{Bytes, bytes_eq, bytes_eq_iff}
use observant_agent.Docker.Collect.{Engine, Read, run_task, run_tasks}
use observant_agent.Docker.Local.{SameAt, SameAt-trans, bytes_eq_comm, run_task-own, run_task-other}
use observant_agent.Docker.Restart.{Client}
use observant_agent.Docker.Sample.{Arith}
use observant_agent.Docker.Tasks.{Task}

-- No two of the containers have the same ID.
abbrev pub Distinct : List Task → Type 0
Distinct [] = Unit
Distinct (t ∷ ts) = All (λ (u : Task). bytes_eq t.0.id u.0.id ≡ false) ts × Distinct ts

module _ (ar : Arith) (engine : Engine) (cycle : ℕ) where
  open ar use {floats}
  open floats use {Float}

  abbrev pub Differs : Bytes → List Task → Type 0
  Differs id ts = All (λ (t : Task). bytes_eq t.0.id id ≡ false) ts

  pub Differs-Distinct :
      (t : Task) (ts : List Task)
      → All (λ (u : Task). bytes_eq t.0.id u.0.id ≡ false) ts
      → Differs t.0.id ts
  Differs-Distinct t [] h = tt
  Differs-Distinct t (u ∷ ts) (other, h) =
      (bytes_eq_comm t.0.id u.0.id other, Differs-Distinct t ts h)

  -- The reads and the entries of the tasks are those of each task alone.
  abbrev pub Settled : Client → Client → List Task → Type 0
  Settled c0 c ts = All (λ (t : Task). SameAt t.0.id (run_task ar engine c0 cycle t.0 t.1).0 c) ts

  abbrev pub reads_of : Client → List Task → List (Read Float)
  reads_of c0 ts = map (λ (t : Task). (run_task ar engine c0 cycle t.0 t.1).1) ts

  pub run_tasks-other :
      (c : Client) (ts : List Task) (id : Bytes)
      → Differs id ts
      → SameAt id c (run_tasks ar engine c cycle ts).0
  unfolding run_tasks
  run_tasks-other c [] id h = (refl, refl)
  run_tasks-other c (t ∷ ts) id (first, h) =
      let c1 = (run_task ar engine c cycle t.0 t.1).0 in
      SameAt-trans id c c1 (run_tasks ar engine c1 cycle ts).0
        (run_task-other ar engine cycle c t id first) (run_tasks-other c1 ts id h)

  still :
      (c0 c : Client) (t : Task) (ts : List Task)
      → All (λ (u : Task). bytes_eq t.0.id u.0.id ≡ false) ts
      → All (λ (u : Task). SameAt u.0.id c0 c) ts
      → All (λ (u : Task). SameAt u.0.id c0 (run_task ar engine c cycle t.0 t.1).0) ts
  still c0 c t [] d h = tt
  still c0 c t (u ∷ ts) (other, d) (same, h) = (
    SameAt-trans u.0.id c0 c (run_task ar engine c cycle t.0 t.1).0 same
        (run_task-other ar engine cycle c t u.0.id other),
    still c0 c t ts d h,
  )

  -- The tasks one after the other, from a client that agrees with `c0` on their containers.
  pub run_tasks-Settled :
      (c0 c : Client) (ts : List Task)
      → Distinct ts
      → All (λ (t : Task). SameAt t.0.id c0 c) ts
      → ((run_tasks ar engine c cycle ts).1 ≡ reads_of c0 ts)
        × Settled c0 (run_tasks ar engine c cycle ts).0 ts
  unfolding run_tasks
  run_tasks-Settled c0 c [] d h = (refl, tt)
  run_tasks-Settled c0 c (t ∷ ts) (d, ds) (same, h) =
      let c1 = (run_task ar engine c cycle t.0 t.1).0 in
      let (read, entries) = run_task-own ar engine cycle c0 c t same in
      let (reads, settled) = run_tasks-Settled c0 c1 ts ds (still c0 c t ts d h) in
      (
        ap (λ r. r ∷ (run_tasks ar engine c1 cycle ts).1) (sym read)
            ∙ ap (λ rs. (run_task ar engine c0 cycle t.0 t.1).1 ∷ rs) reads,
        (
          SameAt-trans t.0.id (run_task ar engine c0 cycle t.0 t.1).0 c1
              (run_tasks ar engine c1 cycle ts).0 entries
              (run_tasks-other c1 ts t.0.id (Differs-Distinct t ts d)),
          settled,
        ),
      )

  pub SameAt-sym : (id : Bytes) (c d : Client) → SameAt id c d → SameAt id d c
  SameAt-sym id c d h = (sym h.0, sym h.1)

  -- Two clients that hold of each task what the task alone leaves agree.
  pub Settled-SameAt :
      (c0 c d : Client) (ts : List Task) (id : Bytes)
      → Settled c0 c ts
      → Settled c0 d ts
      → (Differs id ts → SameAt id c d)
      → SameAt id c d
  Settled-SameAt c0 c d [] id h k outside = outside tt
  Settled-SameAt c0 c d (t ∷ ts) id (h, hs) (k, ks) outside =
      elim (Bool-cases (bytes_eq t.0.id id)) [
        | inl own ↦
            let e = (run_task ar engine c0 cycle t.0 t.1).0 in
            subst (λ i. SameAt i c d) ((bytes_eq_iff t.0.id id).0 own)
              (SameAt-trans t.0.id c e d (SameAt-sym t.0.id e c h) k)
        | inr other ↦ Settled-SameAt c0 c d ts id hs ks (λ rest. outside (other, rest))
      ]
