-- ===== src/Lineproto/Sections/Time.antt =====
-- The reader over the timestamp of a line.
use observant_agent.Base.{
  false, List, [], ◌∷◌, ◌++◌, suc, ◌≡◌, refl, ap, ◌∙◌, arith, Option, some, none, inl, inr,
  if◌then◌else◌, Bool-cases, is_empty,
}
use observant_agent.Base.Clock.{Time, is_zero, unix_nano}
use observant_agent.Base.Decimal.{
  ℤ, pos, negsuc, format_uint, format_int, format_uint-AllDigits, format_uint-ne_nil,
}
use observant_agent.Base.Text.{Bytes}
use observant_agent.Lineproto.Reader.{in_time, Reader, Line, idle, run}
use observant_agent.Lineproto.Reading.{reader, run-digits}
use observant_agent.Lineproto.Render.{time_text}
use observant_agent.Lineproto.Sections.Values.{Ends}

run-end :
    (s : Bytes) (line : Line) (lines : List Line)
    → is_empty s ≡ false
    → run (reader in_time s [] line lines) (b'\n' ∷ [])
      ≡ some (idle (lines ++ record line { time = some s } ∷ []))
unfolding run
run-end s line lines h = ground arith

run-int :
    (v : ℤ) (line : Line) (lines : List Line)
    → run (reader in_time [] [] line lines) (format_int v ++ b'\n' ∷ [])
      ≡ some (idle (lines ++ record line { time = some (format_int v) } ∷ []))
unfolding format_int
run-int (pos n) line lines =
    run-digits [] line lines (format_uint n) [] _ (format_uint-AllDigits n)
    ∙ run-end (format_uint n) line lines (format_uint-ne_nil n)
run-int (negsuc n) line lines =
    unfold run in
    run-digits [] line lines (format_uint (suc n)) (b'-' ∷ []) _ (format_uint-AllDigits (suc n))
    ∙ run-end (b'-' ∷ format_uint (suc n)) line lines refl

-- The timestamp as the reader returns it.
abbrev pub stored_time : Time → Option Bytes
stored_time ts = if is_zero ts then none else some (format_int (unix_nano ts))

pub run-time :
    (ts : Time) (r : Reader) (line : Line) (lines : List Line)
    → Ends r line lines
    → line.time ≡ none
    → run r (time_text ts (b'\n' ∷ []))
      ≡ some (idle (lines ++ record line { time = stored_time ts } ∷ []))
run-time ts r line lines e h = elim (Bool-cases (is_zero ts)) [
  | inl z ↦ rw z (e.newline ∙ ap (λ t. some (idle (lines ++ record line { time = t } ∷ []))) h)
  | inr t ↦ rw t (e.space _ ∙ run-int (unix_nano ts) line lines)
]
