-- ===== src/Docker/Restart.antt =====
-- internal/docker/docker.go: the plan of the inspect calls, the restart counts that the client
-- keeps, and `pruneDead`.
use Prim.Native.Nat.{bit_xor, max}
use observant_agent.Base.{
  ℕ, zero, suc, ◌+◌, ◌-◌, ◌*◌, ◌%◌, ◌^◌, Bool, true, false, ◌&&◌, List, [], ◌∷◌, Option, none, some,
  ltb, leb, ◌==◌, if◌then◌else◌, is_empty, map, any,
}
use observant_agent.Base.Clock.{Time}
use observant_agent.Base.Decimal.{ℤ, pos, negsuc}
use observant_agent.Base.Dict.{lookup, insert, retain}
use observant_agent.Base.Text.{Bytes, bytes_eq}

pub record Container : Type 0 where
  pub id : Bytes
  pub name : Bytes
  pub image : Bytes
  pub state : Bytes
  pub status : Bytes
  pub created : ℤ
  pub running : Bool

pub record CpuSample : Type 0 where
  pub total : ℕ
  pub system : ℕ
  pub seen : Time

pub record RestartSample : Type 0 where
  pub count : ℤ
  pub cycle : ℕ
  pub have : Bool

-- The state of a client. `http` and `mu` have no part here; `cycle` is the bit pattern of an `int64`.
pub record Client : Type 0 where
  pub socket : Bytes
  pub runtime : Bytes
  pub batch : ℕ
  pub inspect_every : ℤ
  pub cycle : ℕ
  pub prev : List (Bytes × CpuSample)
  pub restart : List (Bytes × RestartSample)

-- `DefaultInspectEvery`.
abbrev pub default_inspect_every : ℤ
default_inspect_every = pos 10

unfoldable pub new_client : Bytes → Client
new_client socket = record {
  socket = socket;
  runtime = [];
  batch = 5;
  inspect_every = default_inspect_every;
  cycle = 0;
  prev = [];
  restart = [];
}

-- `n < 1` becomes 1.
abbrev pub at_least_one : ℤ → ℤ
at_least_one (pos zero) = pos 1
at_least_one (pos (suc n)) = pos (suc n)
at_least_one (negsuc n) = pos 1

unfoldable pub set_inspect_every : Client → ℤ → Client
set_inspect_every c n = record c { inspect_every = at_least_one n }

-- `every` in `needsInspect`, which is 1 at least.
abbrev pub every_of : ℤ → ℕ
every_of (pos n) = max 1 n
every_of (negsuc n) = 1

-- `fnv.New64a()` over the bytes of a text.
fnv_step : ℕ → ℕ → ℕ
fnv_step h b = bit_xor h b * 1099511628211 % 2 ^ 64

unfoldable pub fnv64a : ℕ → Bytes → ℕ
unfolding fnv_step
fnv64a h [] = h
fnv64a h (b ∷ s) = fnv64a (fnv_step h b) s

unfoldable pub slot : Bytes → ℕ → ℕ
unfolding fnv64a
slot id every = fnv64a 14695981039346656037 id % every

-- `a - b >= n` on `int64`, for a positive `n`.
abbrev pub ahead : ℕ → ℕ → ℕ → Bool
ahead a b n = let d : ℕ = (a + 2 ^ 64 - b) % 2 ^ 64 in ltb d (2 ^ 63) && leb n d

-- `x % n == 0` on `int64`: the sign of `x` does not matter.
abbrev pub is_multiple : ℕ → ℕ → Bool
is_multiple x n = (if ltb x (2 ^ 63) then x else 2 ^ 64 - x) % n == 0

-- The test of a container that was inspected in cycle `seen`.
unfoldable pub due : Bytes → ℕ → ℕ → ℕ → Bool
due id every seen cycle =
    ahead cycle seen every && is_multiple ((cycle + slot id every) % 2 ^ 64) every

unfoldable pub needs_inspect : Client → Bytes → ℕ → Bool
needs_inspect c id cycle = elim (lookup id c.restart) [
  | none ↦ true
  | some r ↦ due id (every_of c.inspect_every) r.cycle cycle
]

-- The new state and the plan: the number of the cycle and one flag for each running container.
unfoldable pub plan : Client → List Container → Client × ℕ × List Bool
plan c running =
    let cycle : ℕ = (c.cycle + 1) % 2 ^ 64 in
    (record c { cycle = cycle }, cycle, map (λ ct. needs_inspect c ct.id cycle) running)

abbrev pub no_restart : RestartSample
no_restart = record { count = pos 0; cycle = 0; have = false }

-- `c.restart[id]`, which is the zero sample for a missing key.
abbrev pub restart_or_zero : Option RestartSample → RestartSample
restart_or_zero none = no_restart
restart_or_zero (some r) = r

-- The sample after an inspect call: a failed call moves the stamp only.
unfoldable pub restamp : RestartSample → ℤ → Bool → ℕ → RestartSample
restamp r count ok cycle =
    if ok
    then record r { cycle = cycle; count = count; have = true }
    else record r { cycle = cycle }

unfoldable pub put_restart : Client → Bytes → ℤ → Bool → ℕ → Client
put_restart c id count ok cycle = record c {
  restart = insert id (restamp (restart_or_zero (lookup id c.restart)) count ok cycle) c.restart;
}

-- The count, or `none` where the source returns `false`.
unfoldable pub get_restart : Client → Bytes → Option ℤ
get_restart c id = elim (lookup id c.restart) [
  | none ↦ none
  | some r ↦ if r.have then some r.count else none
]

-- `keep[id]`: a running container has this ID.
unfoldable pub runs : List Container → Bytes → Bool
runs live id = any (λ ct. ct.running && bytes_eq ct.id id) live

unfoldable pub prune_dead : Client → List Container → Client
prune_dead c live =
    if is_empty c.prev && is_empty c.restart
    then c
    else record c { prev = retain (runs live) c.prev; restart = retain (runs live) c.restart }
