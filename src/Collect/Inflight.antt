-- ===== src/Collect/Inflight.antt =====
-- internal/collect/collect.go: `begin` and `end`, which `deadline` puts around the goroutine of a
-- call, and the goroutines that they allow.
use observant_agent.Base.{
  ℕ, ◌+◌, ◌≤◌, Bool, true, false, not, List, [], ◌∷◌, Option, none, some, ◌≡◌, refl, arith,
  if◌then◌else◌, any, ◌==◌,
}
use observant_agent.Base.Dict.{lookup, insert, retain, lookup-insert, lookup-retain}
use observant_agent.Base.Text.{Bytes, bytes_eq, bytes_eq_iff}

-- `c.inflight[name]`, which is false for a missing key.
abbrev pub flag_or_false : Option Bool → Bool
flag_or_false none = false
flag_or_false (some b) = b

abbrev pub in_flight : Bytes → List (Bytes × Bool) → Bool
in_flight name m = flag_or_false (lookup name m)

-- Whether the call may start, and the flags.
unfoldable pub begin : List (Bytes × Bool) → Bytes → Bool × List (Bytes × Bool)
begin m name = if in_flight name m then (false, m) else (true, insert name true m)

-- `delete(c.inflight, name)`.
unfoldable pub end : List (Bytes × Bool) → Bytes → List (Bytes × Bool)
end m name = retain (λ j. not (bytes_eq j name)) m

-- The flags of a collector, and the names of the goroutines that run.
pub record Calls : Type 0 where
  pub inflight : List (Bytes × Bool)
  pub running : List Bytes

-- `deadline` is called for a name, or the goroutine of a name is through with its call.
pub data Event : Type 0 where
  called : Bytes → Event
  returned : Bytes → Event

abbrev pub remove_one : Bytes → List Bytes → List Bytes
remove_one name [] = []
remove_one name (n ∷ ns) = if bytes_eq n name then ns else n ∷ remove_one name ns

abbrev pub is_running : Bytes → List Bytes → Bool
is_running name = any (λ n. bytes_eq n name)

-- A goroutine starts only if `begin` lets it, and calls `end` when it is through.
unfoldable pub step : Calls → Event → Calls
unfolding begin end
step s (called name) =
    let (starts, m) = begin s.inflight name in
    record { inflight = m; running = if starts then name ∷ s.running else s.running }
step s (returned name) =
    if is_running name s.running
    then record { inflight = end s.inflight name; running = remove_one name s.running }
    else s

unfoldable pub run : Calls → List Event → Calls
unfolding step
run s [] = s
run s (e ∷ es) = run (step s e) es

abbrev pub no_calls : Calls
no_calls = record { inflight = []; running = [] }

-- The goroutines of a name.
abbrev pub count : Bytes → List Bytes → ℕ
count name [] = 0
count name (n ∷ ns) = (if bytes_eq n name then 1 else 0) + count name ns

-- The flag of the name tells how many goroutines of it run.
abbrev pub Flagged : Calls → Bytes → Type 0
Flagged s name = count name s.running ≡ (if in_flight name s.inflight then 1 else 0)

count-remove_one :
    (name other : Bytes) (ns : List Bytes)
    → is_running other ns ≡ true
    → count name ns ≡ (if bytes_eq other name then 1 else 0) + count name (remove_one other ns)
count-remove_one name other [] h = cc
count-remove_one name other (n ∷ ns) h = ground (
  arith,
  bytes_eq_iff n other,
  bytes_eq_iff n name,
  bytes_eq_iff other name,
  count-remove_one name other ns,
)

step-Flagged : (s : Calls) (e : Event) (name : Bytes) → Flagged s name → Flagged (step s e) name
unfolding step begin end
step-Flagged s (called other) name h =
    ground (arith, lookup-insert other name true s.inflight, bytes_eq_iff other name)
step-Flagged s (returned other) name h = ground (
  arith,
  lookup-retain (λ j. not (bytes_eq j other)) name s.inflight,
  bytes_eq_iff name other,
  bytes_eq_iff other name,
  count-remove_one name other s.running,
)

run-Flagged :
    (s : Calls) (es : List Event) (name : Bytes) → Flagged s name → Flagged (run s es) name
unfolding run
run-Flagged s [] name h = h
run-Flagged s (e ∷ es) name h = run-Flagged (step s e) es name (step-Flagged s e name h)

-- However calls and returns follow each other, of each name at most one goroutine runs, and `begin`
-- lets the next call of a name start exactly while none runs.
pub run-one_call :
    (es : List Event) (name : Bytes)
    → let s = run no_calls es in
      (count name s.running ≤ 1) × ((begin s.inflight name).0 ≡ (count name s.running == 0))
unfolding begin lookup
run-one_call es name = let flagged = run-Flagged no_calls es name refl in ground arith
