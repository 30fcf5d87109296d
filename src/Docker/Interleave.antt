-- ===== src/Docker/Interleave.antt =====
-- The concurrent tasks of a Docker cycle do what the same tasks do one after the other.
use observant_agent.Base.{
  ℕ, zero, suc, ◌≤◌, false, List, [], ◌∷◌, map, ◌≡◌, refl, sym, subst, ap, ◌∙◌, All,
}
use observant_agent.Base.Text.{Bytes, bytes_eq}
use observant_agent.Docker.Collect.{Engine, Read, run_task, run_tasks}
use observant_agent.Docker.InTurn.{
  Distinct, Differs, Differs-Distinct, Settled, reads_of, run_tasks-other, run_tasks-Settled,
  SameAt-sym, Settled-SameAt,
}
use observant_agent.Docker.Local.{
  SameAt, SameAt-trans, step_task-own, step_task-other, alone, alone-all,
}
use observant_agent.Docker.Restart.{Client}
use observant_agent.Docker.Sample.{Arith}
use observant_agent.Docker.Tasks.{
  Task, Stage, waiting, done, step_task, step_at, interleave, bump, turns,
}

module _ (ar : Arith) (engine : Engine) (cycle : ℕ) where
  open ar use {floats}
  open floats use {Float}

  step_at-other :
      (i : ℕ) (c : Client) (ts : List Task) (ss : List (Stage Float)) (id : Bytes)
      → Differs ar engine cycle id ts
      → SameAt id c (step_at ar engine cycle i c ts ss).0
  unfolding step_at
  step_at-other i c [] ss id h = (refl, refl)
  step_at-other i c (t ∷ ts) [] id h = (refl, refl)
  step_at-other zero c (t ∷ ts) (s ∷ ss) id h = step_task-other ar engine cycle c t s id h.0
  step_at-other (suc i) c (t ∷ ts) (s ∷ ss) id h = step_at-other i c ts ss id h.1

  interleave-other :
      (is : List ℕ) (c : Client) (ts : List Task) (ss : List (Stage Float)) (id : Bytes)
      → Differs ar engine cycle id ts
      → SameAt id c (interleave ar engine cycle is c ts ss).0
  unfolding interleave
  interleave-other [] c ts ss id h = (refl, refl)
  interleave-other (i ∷ is) c ts ss id h =
      let (c1, ss1) = step_at ar engine cycle i c ts ss in
      SameAt-trans id c c1 (interleave ar engine cycle is c1 ts ss1).0
        (step_at-other i c ts ss id h) (interleave-other is c1 ts ss1 id h)

  -- Each task stands where its own steps alone lead from the first client, and so do its entries.
  abbrev Alone : Client → Client → List Task → List ℕ → List (Stage Float) → Type 0
  Alone c0 c [] [] [] = Unit
  Alone c0 c (t ∷ ts) (k ∷ ks) (s ∷ ss) =
      (s ≡ (alone ar engine cycle k c0 t waiting).1)
      × SameAt t.0.id (alone ar engine cycle k c0 t waiting).0 c
      × Alone c0 c ts ks ss
  Alone c0 c _ _ _ = ⊥

  Alone-other :
      (c0 c d : Client) (ts : List Task) (ks : List ℕ) (ss : List (Stage Float))
      → All (λ (t : Task). SameAt t.0.id c d) ts
      → Alone c0 c ts ks ss
      → Alone c0 d ts ks ss
  Alone-other c0 c d [] [] [] h a = tt
  Alone-other c0 c d [] [] (s ∷ ss) h a = elim a [ ]
  Alone-other c0 c d [] (k ∷ ks) ss h a = elim a [ ]
  Alone-other c0 c d (t ∷ ts) [] ss h a = elim a [ ]
  Alone-other c0 c d (t ∷ ts) (k ∷ ks) [] h a = elim a [ ]
  Alone-other c0 c d (t ∷ ts) (k ∷ ks) (s ∷ ss) (same, h) (stage, entries, a) = (
    stage,
    SameAt-trans t.0.id (alone ar engine cycle k c0 t waiting).0 c d entries same,
    Alone-other c0 c d ts ks ss h a,
  )

  -- A step of a task leaves the entries of all others.
  others_stay :
      (c : Client) (t : Task) (s : Stage Float) (ts : List Task)
      → All (λ (u : Task). bytes_eq t.0.id u.0.id ≡ false) ts
      → All (λ (u : Task). SameAt u.0.id c (step_task ar engine cycle c t s).0) ts
  others_stay c t s [] h = tt
  others_stay c t s (u ∷ ts) (other, h) =
      (step_task-other ar engine cycle c t s u.0.id other, others_stay c t s ts h)

  step_at-Alone :
      (i : ℕ) (c0 c : Client) (ts : List Task) (ks : List ℕ) (ss : List (Stage Float))
      → Distinct ts
      → Alone c0 c ts ks ss
      → Alone c0
          (step_at ar engine cycle i c ts ss).0
          ts
          (bump i ks)
          (step_at ar engine cycle i c ts ss).1
  unfolding step_at alone
  step_at-Alone i c0 c [] [] [] d a = tt
  step_at-Alone i c0 c [] [] (s ∷ ss) d a = elim a [ ]
  step_at-Alone i c0 c [] (k ∷ ks) ss d a = elim a [ ]
  step_at-Alone zero c0 c (t ∷ ts) [] ss d a = elim a [ ]
  step_at-Alone zero c0 c (t ∷ ts) (k ∷ ks) [] d a = elim a [ ]
  step_at-Alone (suc i) c0 c (t ∷ ts) [] ss d a = elim a [ ]
  step_at-Alone (suc i) c0 c (t ∷ ts) (k ∷ ks) [] d a = elim a [ ]
  step_at-Alone zero c0 c (t ∷ ts) (k ∷ ks) (s ∷ ss) (d, ds) (stage, entries, a) =
      let (c1, s1) = alone ar engine cycle k c0 t waiting in
      let (moved, kept) = step_task-own ar engine cycle c1 c t s1 entries in
      let at_s : (step_task ar engine cycle c t s).1 ≡ (step_task ar engine cycle c1 t s1).1 =
        ap (λ u. (step_task ar engine cycle c t u).1) stage ∙ sym moved in
      (
        at_s,
        subst
            (λ u.
              SameAt t.0.id (step_task ar engine cycle c1 t s1).0
                (step_task ar engine cycle c t u).0)
            (sym stage) kept,
        Alone-other c0 c (step_task ar engine cycle c t s).0 ts ks ss (others_stay c t s ts d) a,
      )
  step_at-Alone (suc i) c0 c (t ∷ ts) (k ∷ ks) (s ∷ ss) (d, ds) (stage, entries, a) = (
    stage,
    SameAt-trans t.0.id (alone ar engine cycle k c0 t waiting).0 c
        (step_at ar engine cycle i c ts ss).0 entries
        (step_at-other i c ts ss t.0.id (Differs-Distinct ar engine cycle t ts d)),
    step_at-Alone i c0 c ts ks ss ds a,
  )

  interleave-Alone :
      (is : List ℕ) (c0 c : Client) (ts : List Task) (ks : List ℕ) (ss : List (Stage Float))
      → Distinct ts
      → Alone c0 c ts ks ss
      → Alone c0
          (interleave ar engine cycle is c ts ss).0
          ts
          (turns is ks)
          (interleave ar engine cycle is c ts ss).1
  unfolding interleave
  interleave-Alone [] c0 c ts ks ss d a = a
  interleave-Alone (i ∷ is) c0 c ts ks ss d a =
      let (c1, ss1) = step_at ar engine cycle i c ts ss in
      interleave-Alone is c0 c1 ts (bump i ks) ss1 d (step_at-Alone i c0 c ts ks ss d a)

  Alone-Settled :
      (c0 c : Client) (ts : List Task) (ks : List ℕ) (ss : List (Stage Float))
      → All (λ k. 3 ≤ k) ks
      → Alone c0 c ts ks ss
      → (ss ≡ map done (reads_of ar engine cycle c0 ts)) × Settled ar engine cycle c0 c ts
  Alone-Settled c0 c [] [] [] h a = (refl, tt)
  Alone-Settled c0 c [] [] (s ∷ ss) h a = elim a [ ]
  Alone-Settled c0 c [] (k ∷ ks) ss h a = elim a [ ]
  Alone-Settled c0 c (t ∷ ts) [] ss h a = elim a [ ]
  Alone-Settled c0 c (t ∷ ts) (k ∷ ks) [] h a = elim a [ ]
  Alone-Settled c0 c (t ∷ ts) (k ∷ ks) (s ∷ ss) (enough, h) (stage, entries, a) =
      let all = alone-all ar engine cycle k c0 t enough in
      let (rest, settled) = Alone-Settled c0 c ts ks ss h a in
      let at_s : s ≡ done (run_task ar engine c0 cycle t.0 t.1).1 =
        stage ∙ ap (λ (p : Client × Stage Float). p.1) all in
      (
        ap (λ u. u ∷ ss) at_s ∙ ap (λ us. done (run_task ar engine c0 cycle t.0 t.1).1 ∷ us) rest,
        (subst (λ (p : Client × Stage Float). SameAt t.0.id p.0 c) all entries, settled),
      )

  Alone-start :
      (c : Client) (ts : List Task) → Alone c c ts (map (λ t. 0) ts) (map (λ t. waiting) ts)
  unfolding alone
  Alone-start c [] = tt
  Alone-start c (t ∷ ts) = (refl, (refl, refl), Alone-start c ts)

  -- The goroutines of a cycle, whatever the order in which they go on: once each has gone on three
  -- times or more, every one is done, with the read that the same task has where the tasks run one
  -- after the other, and the client holds the same CPU sample and the same restart count of every
  -- container. Condition: no two of the running containers have the same ID.
  pub interleaved :
      (c : Client) (ts : List Task) (is : List ℕ) (id : Bytes)
      → Distinct ts
      → All (λ k. 3 ≤ k) (turns is (map (λ t. 0) ts))
      → let (d, ss) = interleave ar engine cycle is c ts (map (λ t. waiting) ts) in
        let (e, rs) = run_tasks ar engine c cycle ts in (ss ≡ map done rs) × SameAt id e d
  interleaved c ts is id distinct enough =
      let (d, ss) = interleave ar engine cycle is c ts (map (λ t. waiting) ts) in
      let (e, rs) = run_tasks ar engine c cycle ts in
      let together = interleave-Alone is c c ts _ _ distinct (Alone-start c ts) in
      let (stages, settled) = Alone-Settled c d ts _ ss enough together in
      let (reads, in_turn) = run_tasks-Settled ar engine cycle c c ts distinct (agree ts) in
      (
        stages ∙ ap (λ (l : List (Read Float)). map done l) (sym reads),
        Settled-SameAt ar engine cycle c e d ts id in_turn settled (λ out.
            SameAt-trans id e c d
              (SameAt-sym ar engine cycle id c e (run_tasks-other ar engine cycle c ts id out))
              (interleave-other is c ts _ id out)),
      )
    where
      agree : (us : List Task) → All (λ (t : Task). SameAt t.0.id c c) us
      agree [] = tt
      agree (u ∷ us) = ((refl, refl), agree us)
