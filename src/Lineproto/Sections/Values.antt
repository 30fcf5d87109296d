-- ===== src/Lineproto/Sections/Values.antt =====
-- The reader over a field value.
use mathlib.Core.List.{append_assoc}
use observant_agent.Base.{
  ℕ, true, false, List, [], ◌∷◌, ◌++◌, suc, ◌≡◌, refl, sym, ap, ◌∙◌, arith, some, inl, inr, leb,
  if◌then◌else◌, Bool-cases, All, is_empty,
}
use observant_agent.Base.Decimal.{
  ℤ, pos, negsuc, AllDigits, format_uint, format_int, format_uint-AllDigits, format_uint-ne_nil,
}
use observant_agent.Base.Text.{Bytes}
use observant_agent.Lineproto.Point.{
  Floats, Value, float, int, uint, bool, string, nil, other, max_int64,
}
use observant_agent.Lineproto.Reader.{
  in_field_key, in_value, in_bare, after_text, in_time, Reader, Line, FieldText, bare, quoted, idle,
  run,
}
use observant_agent.Lineproto.Reading.{reader, flatten, is_bare, run-text, run-bare}
use observant_agent.Lineproto.Render.{value_text}

-- A reader behind a field value: a comma opens a field, a space the time, a newline ends the line.
pub record Ends (r : Reader) (line : Line) (lines : List Line) : Type 0 where
  pub comma : (rest : Bytes) → run r (b',' ∷ rest) ≡ run (reader in_field_key [] [] line lines) rest
  pub space : (rest : Bytes) → run r (b' ' ∷ rest) ≡ run (reader in_time [] [] line lines) rest
  pub newline : run r (b'\n' ∷ []) ≡ some (idle (lines ++ line ∷ []))

-- A text that a line may hold without quotes.
pub record IsBare (s : Bytes) : Type 0 where
  pub ne_nil : is_empty s ≡ false
  pub unquoted : All (λ c. is_bare c ≡ true) s

pub digit-bare : (s : Bytes) → AllDigits s → All (λ c. is_bare c ≡ true) s
digit-bare [] h = tt
digit-bare (c ∷ s) h = (ground arith, digit-bare s h.1)

All-concat :
    (s : Bytes) (c : ℕ)
    → All (λ c. is_bare c ≡ true) s
    → is_bare c ≡ true
    → All (λ c. is_bare c ≡ true) (s ++ c ∷ [])
All-concat [] c h k = (k, tt)
All-concat (x ∷ s) c h k = (h.0, All-concat s c h.1 k)

-- A decimal number with the suffix `i`.
number-IsBare : (s : Bytes) → is_empty s ≡ false → AllDigits s → IsBare (s ++ b'i' ∷ [])
number-IsBare [] h d = cc
number-IsBare (c ∷ s) h d = record {
  ne_nil = refl;
  unquoted = All-concat (c ∷ s) b'i' (digit-bare (c ∷ s) d) refl;
}

int-IsBare : (v : ℤ) → IsBare (format_int v ++ b'i' ∷ [])
unfolding format_int
int-IsBare (pos n) = number-IsBare _ (format_uint-ne_nil n) (format_uint-AllDigits n)
int-IsBare (negsuc n) = record {
  ne_nil = refl;
  unquoted = (
    refl,
    (number-IsBare _ (format_uint-ne_nil (suc n)) (format_uint-AllDigits (suc n))).unquoted,
  );
}

bare-Ends :
    (s k : Bytes) (line : Line) (lines : List Line)
    → Ends
        (reader in_bare s k line lines)
        (record line { fields = line.fields ++ (k, bare s) ∷ [] })
        lines
unfolding run
bare-Ends s k line lines = record { comma = λ rest. refl; space = λ rest. refl; newline = refl }

text-Ends :
    (s k : Bytes) (line : Line) (lines : List Line)
    → Ends
        (reader after_text s k line lines)
        (record line { fields = line.fields ++ (k, quoted s) ∷ [] })
        lines
unfolding run
text-Ends s k line lines = record { comma = λ rest. refl; space = λ rest. refl; newline = refl }

-- What the reader is left with behind a text that starts in `start`.
abbrev pub Reads : Reader → (Bytes → Bytes) → Line → List Line → Type 0
Reads start text line lines =
    (r : Reader) × Ends r line lines × ((rest : Bytes) → run start (text rest) ≡ run r rest)

module _ (fl : Floats) where
  open fl use {Float, format_float, of_uint64}

  -- A value as the reader returns it.
  abbrev pub stored : Value Float → FieldText
  stored (float v) = bare (format_float v)
  stored (int v) = bare (format_int v ++ b'i' ∷ [])
  stored (uint v) =
      bare (if leb v max_int64 then format_uint v ++ b'i' ∷ [] else format_float (of_uint64 v))
  stored (bool v) = bare ((if v then b'T' else b'F') ∷ [])
  stored (string v) = quoted (flatten v)
  stored nil = bare []
  stored other = bare []

  -- A value of one of the five types of a field, whose float is printed as a bare text.
  abbrev pub ValueReads : Value Float → Type 0
  ValueReads (float v) = IsBare (format_float v)
  ValueReads (int v) = Unit
  ValueReads (uint v) = leb v max_int64 ≡ false → IsBare (format_float (of_uint64 v))
  ValueReads (bool v) = Unit
  ValueReads (string v) = Unit
  ValueReads nil = ⊥
  ValueReads other = ⊥

  module _ (k : Bytes) (line : Line) (lines : List Line) where
    unfoldable pub after : FieldText → Line
    after v = record line { fields = line.fields ++ (k, v) ∷ [] }

    bare-Reads :
        (s : Bytes)
        → IsBare s
        → Reads (reader in_value [] k line lines) (λ rest. s ++ rest) (after (bare s)) lines
    unfolding after
    bare-Reads s b = (
      reader in_bare s k line lines,
      bare-Ends s k line lines,
      λ rest. run-bare k line lines s rest b.ne_nil b.unquoted,
    )

    number-Reads :
        (s : Bytes)
        → IsBare (s ++ b'i' ∷ [])
        → Reads
            (reader in_value [] k line lines)
            (λ rest. s ++ (b'i' ∷ rest))
            (after (bare (s ++ b'i' ∷ [])))
            lines
    number-Reads s b =
        let (r, ends, reads) = bare-Reads (s ++ b'i' ∷ []) b in
        (
          r,
          ends,
          λ rest.
              ap (run (reader in_value [] k line lines)) (sym (append_assoc s (b'i' ∷ []) rest))
              ∙ reads rest,
        )

    text-Reads :
        (s : Bytes)
        → Reads
            (reader in_value [] k line lines)
            (value_text fl (string s))
            (after (quoted (flatten s)))
            lines
    unfolding after run
    text-Reads s = (
      reader after_text (flatten s) k line lines,
      text-Ends (flatten s) k line lines,
      λ rest. run-text k line lines s [] (b'"' ∷ rest),
    )

    pub value-Reads :
        (v : Value Float)
        → ValueReads v
        → Reads (reader in_value [] k line lines) (value_text fl v) (after (stored v)) lines
    value-Reads (float v) h = bare-Reads (format_float v) h
    value-Reads (int v) h = number-Reads (format_int v) (int-IsBare v)
    value-Reads (uint v) h = elim (Bool-cases (leb v max_int64)) [
      | inl small ↦ rw small (
          number-Reads (format_uint v)
            (number-IsBare (format_uint v) (format_uint-ne_nil v) (format_uint-AllDigits v)))
      | inr large ↦ rw large (bare-Reads (format_float (of_uint64 v)) (h large))
    ]
    value-Reads (bool true) h =
        bare-Reads (b'T' ∷ []) (record { ne_nil = refl; unquoted = (refl, tt) })
    value-Reads (bool false) h =
        bare-Reads (b'F' ∷ []) (record { ne_nil = refl; unquoted = (refl, tt) })
    value-Reads (string v) h = text-Reads v
    value-Reads nil h = absurd h
    value-Reads other h = absurd h
