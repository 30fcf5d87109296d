-- ===== src/Docker/Records.antt =====
-- The restart counts and CPU samples that a client keeps.
use observant_agent.Base.{
  ℕ, Bool, true, List, [], ◌∷◌, none, some, ◌≡◌, refl, ap, ◌∙◌, arith, if◌then◌else◌, is_empty,
}
use observant_agent.Base.Decimal.{ℤ}
use observant_agent.Base.Dict.{lookup, retain, lookup-insert, lookup-retain}
use observant_agent.Base.Text.{Bytes, bytes_eq, bytes_eq_iff}
use observant_agent.Docker.Restart.{
  Client, Container, restart_or_zero, restamp, put_restart, get_restart, needs_inspect, due,
  every_of, runs, prune_dead,
}

-- After an inspect call of container `id` in cycle `cycle`: a call that succeeded gives the count, a
-- call that failed leaves what was known, the next cycles count from this one on either way, and
-- every other container is as it was.
pub get_restart-put_restart :
    (c : Client) (id other : Bytes) (count : ℤ) (ok : Bool) (cycle : ℕ)
    → (get_restart (put_restart c id count ok cycle) other ≡ (
        if bytes_eq id other
        then (if ok then some count else get_restart c other)
        else get_restart c other))
      × ((k : ℕ)
          → needs_inspect (put_restart c id count ok cycle) other k ≡ (
              if bytes_eq id other
              then due other (every_of c.inspect_every) cycle k
              else needs_inspect c other k))
unfolding get_restart put_restart needs_inspect restamp
get_restart-put_restart c id other count ok cycle =
    let found =
      lookup-insert id other (restamp (restart_or_zero (lookup id c.restart)) count ok cycle)
        c.restart in
    let same = bytes_eq_iff id other in
    (ground (arith, found, same), λ k. ground (arith, found, same))

retain-empty :
    {V : Type 0} (p : Bytes → Bool) (m : List (Bytes × V)) → is_empty m ≡ true → m ≡ retain p m
unfolding retain
retain-empty p [] h = refl
retain-empty p (x ∷ m) h = cc

-- Returning early is the same as deleting nothing from two empty maps.
prune_dead-retain :
    (c : Client) (live : List Container)
    → ((prune_dead c live).prev ≡ retain (runs live) c.prev)
      × ((prune_dead c live).restart ≡ retain (runs live) c.restart)
unfolding prune_dead
prune_dead-retain c live =
    ground (arith, retain-empty (runs live) c.prev, retain-empty (runs live) c.restart)

-- After `pruneDead` the samples and the restart counts are those of the listed containers that run,
-- unchanged, and no others.
pub prune_dead_lem :
    (c : Client) (live : List Container) (id : Bytes)
    → (lookup id (prune_dead c live).prev ≡ (if runs live id then lookup id c.prev else none))
      × (lookup id (prune_dead c live).restart
          ≡ (if runs live id then lookup id c.restart else none))
prune_dead_lem c live id = (
  ap (lookup id) (prune_dead-retain c live).0 ∙ lookup-retain (runs live) id c.prev,
  ap (lookup id) (prune_dead-retain c live).1 ∙ lookup-retain (runs live) id c.restart,
)
