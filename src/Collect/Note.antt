-- ===== src/Collect/Note.antt =====
-- internal/collect/collect.go: `note` and its quiet period.
use observant_agent.Base.{
  ℕ, ◌+◌, ◌-◌, ◌*◌, ◌<◌, Bool, true, false, List, [], ◌∷◌, ◌++◌, Option, none, some, ltb, ◌≡◌, refl,
  ap, ◌∙◌, arith, if◌then◌else◌, not, All,
}
use observant_agent.Base.Clock.{Time}
use observant_agent.Base.Dict.{lookup, insert, retain, lookup-insert, lookup-retain}
use observant_agent.Collect.Deadline.{Problem, fault, timeout}
use observant_agent.Base.Text.{Bytes, codes, bytes_eq, bytes_eq_refl}

-- `timeoutLogEvery`, in nanoseconds.
abbrev pub timeout_log_every : ℕ
timeout_log_every = 10 * 60 * 1_000_000_000

-- `c.timeoutAt` and `s.Errs`.
pub record Notes : Type 0 where
  pub timeout_at : List (Bytes × Time)
  pub errs : List Bytes

-- The time of the last report is known and less than the quiet period ago.
abbrev pub is_quiet : Option Time → Time → Bool
is_quiet none now = false
is_quiet (some last) now = ltb (now - last) timeout_log_every

abbrev pub fault_text : Bytes → Bytes → Bytes
fault_text name msg = name ++ (codes ": " ++ msg)

abbrev pub timeout_text : Bytes → Bytes → Bytes
timeout_text name msg = fault_text name msg ++ codes " (further reports are suppressed for 10m0s)"

-- `note` in a snapshot of time `now`, for the error that a collector returned.
unfoldable pub note : Notes → Time → Bytes → Option Problem → Notes
note s now name none = record s { timeout_at = retain (λ j. not (bytes_eq j name)) s.timeout_at }
note s now name (some (fault msg)) = record s { errs = s.errs ++ fault_text name msg ∷ [] }
note s now name (some (timeout msg)) =
    if is_quiet (lookup name s.timeout_at) now then s else record {
      timeout_at = insert name now s.timeout_at;
      errs = s.errs ++ timeout_text name msg ∷ [];
    }

-- The timeouts of one collector, one for each cycle.
abbrev pub note_timeouts : Notes → Bytes → List (Time × Bytes) → Notes
note_timeouts s name [] = s
note_timeouts s name ((now, msg) ∷ rest) =
    note_timeouts (note s now name (some (timeout msg))) name rest

quiet_timeouts :
    (s : Notes) (name : Bytes) (last : Time) (rest : List (Time × Bytes))
    → lookup name s.timeout_at ≡ some last
    → All (λ t. t.0 < last + timeout_log_every) rest
    → note_timeouts s name rest ≡ s
unfolding note
quiet_timeouts s name last [] found soon = refl
quiet_timeouts s name last ((now, msg) ∷ rest) found (near, soon) =
    let quiet : is_quiet (lookup name s.timeout_at) now ≡ true = rw found (ground arith) in
    rw quiet (quiet_timeouts s name last rest found soon)

answer-ends_quiet :
    (s : Notes) (name msg : Bytes) (now : Time)
    → (note (note s now name none) now name (some (timeout msg))).errs
      ≡ s.errs ++ timeout_text name msg ∷ []
unfolding note
answer-ends_quiet s name msg now =
    let gone : lookup name (retain (λ j. not (bytes_eq j name)) s.timeout_at) ≡ none =
      lookup-retain (λ j. not (bytes_eq j name)) name s.timeout_at ∙ rw (bytes_eq_refl name) refl in
    rw gone refl

-- A collector that times out in every cycle: if it is not quiet at time `now`, the report of that
-- cycle is the only one as long as the cycles come less than ten minutes later; and a cycle in
-- which it answers ends the quiet period, so that its next timeout is reported whenever it comes.
pub note_timeouts_lem :
    (s : Notes) (name msg : Bytes) (now : Time) (rest : List (Time × Bytes))
    → is_quiet (lookup name s.timeout_at) now ≡ false
    → All (λ t. t.0 < now + timeout_log_every) rest
    → let after = note_timeouts s name ((now, msg) ∷ rest) in
      (after.errs ≡ s.errs ++ timeout_text name msg ∷ [])
      × ((later : Time) (again : Bytes)
          → (note (note after later name none) later name (some (timeout again))).errs
            ≡ after.errs ++ timeout_text name again ∷ [])
unfolding note
note_timeouts_lem s name msg now rest loud soon =
    let reported : Notes = record {
      timeout_at = insert name now s.timeout_at;
      errs = s.errs ++ timeout_text name msg ∷ [];
    } in
    let found : lookup name reported.timeout_at ≡ some now =
      lookup-insert name name now s.timeout_at ∙ rw (bytes_eq_refl name) refl in
    let same : note_timeouts s name ((now, msg) ∷ rest) ≡ reported =
      rw loud (quiet_timeouts reported name now rest found soon) in
    (ap (λ n. n.errs) same, λ later again. answer-ends_quiet _ name again later)
