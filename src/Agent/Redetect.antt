-- ===== src/Agent/Redetect.antt =====
-- When the agent opens a container socket that appears after its start.
use observant_agent.Base.{
  ℕ, zero, suc, ◌+◌, ◌-◌, ◌%◌, ◌^◌, ◌≤◌, ◌<◌, Bool, true, false, not, ◌&&◌, ◌||◌, List, [], ◌∷◌,
  ◌≡◌, refl, sym, ap, subst, ◌∙◌, arith, length, All, ◌==◌,
}
use observant_agent.Agent.Batch.{Turn, Build, collect_batch}
use observant_agent.Agent.Frame.{cycle-frame}
use observant_agent.Agent.Loop.{begin_cycle, cycle}
use observant_agent.Agent.State.{Agent, is_off, is_set, reopened, redetect_docker, redetect_every}
use observant_agent.Agent.Wired.{collect_batch-is_set}
use observant_agent.Base.Decimal.{pos}
use observant_agent.Base.Text.{Bytes}
use observant_agent.Config.Settings.{Config}
use observant_agent.Docker.Detect.{Machine, detect}
use observant_agent.Docker.Sample.{Arith}
use observant_agent.Push.Transport.{Transport}

-- The containers are not off, and a client is missed exactly while none is open.
pub record IsSearching {F : Type 0} (a : Agent F) : Type 0 where
  pub enabled : is_off a.cfg.docker ≡ false
  pub missed : a.docker_failed ≡ not (is_set a.docker)

-- A detection is due in the cycle with this number.
abbrev pub is_turn : ℕ → Bool
is_turn k = not (k == 0) && k % redetect_every == 0

next_is_turn : (k : ℕ) → is_turn (k + (20 - k % 20)) ≡ true
next_is_turn k = ground arith

module _ {F : Type 0} where
  redetect_docker-IsSearching :
      (machine : Machine) (a : Agent F)
      → IsSearching a
      → IsSearching (redetect_docker machine a)
        × ((redetect_docker machine a).cfg ≡ a.cfg)
        × ((redetect_docker machine a).cycles ≡ a.cycles)
  unfolding redetect_docker reopened
  redetect_docker-IsSearching machine a h = ground arith

  redetect_docker-is_set :
      (machine : Machine) (a : Agent F)
      → IsSearching a
      → a.cycles < 2 ^ 63
      → is_set (redetect_docker machine a).docker
        ≡ (is_set a.docker || (is_turn a.cycles && is_set (detect machine a.cfg.socket)))
  unfolding redetect_docker reopened
  redetect_docker-is_set machine a h small = ground arith

module _ (ar : Arith) (build : Build) (t : Transport) where
  open ar use {floats}
  open floats use {Float}
  open t use {World}

  -- The cycles of the loop, one after the other.
  unfoldable pub ticked : List (Turn Float × World) → Agent Float → Agent Float
  ticked [] a = a
  ticked ((turn, w) ∷ ts) a = ticked ts (cycle ar build t turn a w).0

  -- One of the cycles, the first of which has number `k`, is due and finds a socket.
  abbrev pub finds : Bytes → ℕ → List (Turn Float × World) → Bool
  finds socket k [] = false
  finds socket k ((turn, w) ∷ ts) =
      (is_turn k && is_set (detect turn.machine socket)) || finds socket (k + 1) ts

  cycle-IsSearching :
      (turn : Turn Float) (a : Agent Float) (w : World)
      → IsSearching a
      → a.cycles < 2 ^ 63
      → let b = (cycle ar build t turn a w).0 in
        IsSearching b
        × (b.cfg.socket ≡ a.cfg.socket)
        × (b.cycles ≡ a.cycles + 1)
        × (is_set b.docker
            ≡ (is_set a.docker || (is_turn a.cycles && is_set (detect turn.machine a.cfg.socket))))
  unfolding begin_cycle collect_batch
  cycle-IsSearching turn a w h small =
      let a1 = begin_cycle ar build t turn a in
      let (last, at, p, same) = cycle-frame ar build t turn a w in
      let (kept, settings, number) = redetect_docker-IsSearching turn.machine a h in
      let open_now : is_set (cycle ar build t turn a w).0.docker
          ≡ is_set (redetect_docker turn.machine a).docker =
        ap (λ (b : Agent Float). is_set b.docker) same
        ∙ collect_batch-is_set ar build turn (pos 1) a1 in
      (
        record {
          enabled = ap (λ (b : Agent Float). is_off b.cfg.docker) same ∙ kept.enabled;
          missed =
              ap (λ (b : Agent Float). b.docker_failed) same ∙ kept.missed ∙ ap not (sym open_now);
        },
        ap (λ (b : Agent Float). b.cfg.socket) same ∙ ap (λ (c : Config). c.socket) settings,
        ap (λ (b : Agent Float). b.cycles) same ∙ omega (arith, number),
        open_now ∙ redetect_docker-is_set turn.machine a h small,
      )

  ||_assoc : (a b c : Bool) → (a || (b || c)) ≡ ((a || b) || c)
  ||_assoc a b c = ground arith

  -- An agent that searches for a socket has one after any number of cycles exactly where it had one
  -- before, or one of the cycles has a number that is a positive multiple of 20 and its detection found
  -- one. Conditions: the containers are not off, a client is missed exactly while none is open, and
  -- the numbers of the cycles stay below 2^63.
  pub ticked-is_set :
      (ts : List (Turn Float × World)) (a : Agent Float)
      → IsSearching a
      → a.cycles + length ts < 2 ^ 63
      → is_set (ticked ts a).docker ≡ (is_set a.docker || finds a.cfg.socket a.cycles ts)
  unfolding ticked
  ticked-is_set [] a h small = ground arith
  ticked-is_set ((turn, w) ∷ ts) a h small =
      let b = (cycle ar build t turn a w).0 in
      let (kept, socket, number, set) = cycle-IsSearching turn a w h (omega arith) in
      let later = ticked-is_set ts b kept (omega (arith, number)) in
      let same : finds b.cfg.socket b.cycles ts ≡ finds a.cfg.socket (a.cycles + 1) ts =
        rw (socket, number) refl in
      later ∙ rw (set, same) (sym (||_assoc (is_set a.docker) _ _))

  finds-due :
      (socket : Bytes) (ts : List (Turn Float × World)) (k j : ℕ)
      → is_turn (k + j) ≡ true
      → j < length ts
      → All (λ t. is_set (detect t.0.machine socket) ≡ true) ts
      → finds socket k ts ≡ true
  finds-due socket [] k j due short all = absurd (omega arith)
  finds-due socket (t ∷ ts) k zero due short all =
      let same : k + 0 ≡ k = omega arith in
      let now = subst (λ n. is_turn n ≡ true) same due in ground arith
  finds-due socket (t ∷ ts) k (suc j) due short all =
      let same : k + suc j ≡ k + 1 + j = omega arith in
      let later =
        finds-due socket ts (k + 1) j (subst (λ n. is_turn n ≡ true) same due) (omega arith)
          all.1 in
      ground arith

  -- An agent that searches for a socket has one after any 21 or more cycles in each of which a
  -- detection finds one. Conditions: the containers are not off, a client is missed exactly while none
  -- is open, and the numbers of the cycles stay below 2^63.
  pub ticked-found :
      (ts : List (Turn Float × World)) (a : Agent Float)
      → IsSearching a
      → a.cycles + length ts < 2 ^ 63
      → 21 ≤ length ts
      → All (λ t. is_set (detect t.0.machine a.cfg.socket) ≡ true) ts
      → is_set (ticked ts a).docker ≡ true
  ticked-found ts a h small long all =
      let found =
        finds-due a.cfg.socket ts a.cycles (20 - a.cycles % 20) (next_is_turn a.cycles)
          (omega arith) all in
      ticked-is_set ts a h small ∙ ground arith
