-- ===== src/Lineproto/Batch.antt =====
-- The number of lines in a batch.
use observant_agent.Base.{
  ℕ, suc, ◌+◌, ◌%◌, ◌^◌, Bool, true, false, List, [], ◌∷◌, ◌++◌, ◌≡◌, refl, ◌∙◌, arith, inl, inr,
  ◌==◌, if◌then◌else◌, Bool-cases, All, select,
}
use observant_agent.Base.Clock.{Time, unix_nano}
use observant_agent.Base.Decimal.{
  ℤ, pos, negsuc, AllDigits, format_uint, format_int, format_uint-AllDigits,
}
use observant_agent.Base.Text.{Bytes}
use observant_agent.Lineproto.Encoder.{Encoder, point, new, reset}
use observant_agent.Lineproto.Escape.{EscapeClass, esc_tag, esc_string, escaped}
use observant_agent.Lineproto.Point.{
  Floats, Tag, Field, Value, float, int, uint, bool, string, nil, other, field_valid,
}
use observant_agent.Lineproto.Render.{
  tags_text, time_text, value_text, field_text, fields_text, line_text, drops, point-buf,
  point-points,
}
use observant_agent.Lineproto.Reading.{is_bare}
use observant_agent.Lineproto.RoundTrip.{FormatsNumbers}

abbrev pub count : ℕ → Bytes → ℕ
count b [] = 0
count b (c ∷ cs) = (if c == b then 1 else 0) + count b cs

-- The newlines of a text.
abbrev pub newlines : Bytes → ℕ
newlines = count b'\n'

newlines-append : (a b : Bytes) → newlines (a ++ b) ≡ newlines a + newlines b
newlines-append [] b = omega arith
newlines-append (c ∷ a) b = omega (arith, newlines-append a b)

newlines-escaped :
    (class : EscapeClass) (s rest : Bytes) → newlines (escaped class s rest) ≡ newlines rest
newlines-escaped class [] rest = refl
newlines-escaped class (c ∷ s) rest = ground (arith, newlines-escaped class s rest)

newlines-bare : (s : Bytes) → All (λ c. is_bare c ≡ true) s → newlines s ≡ 0
newlines-bare [] h = refl
newlines-bare (c ∷ s) h = ground (arith, newlines-bare s h.1)

newlines-digits : (s : Bytes) → AllDigits s → newlines s ≡ 0
newlines-digits [] h = refl
newlines-digits (c ∷ s) h = ground (arith, newlines-digits s h.1)

newlines-format_int : (v : ℤ) → newlines (format_int v) ≡ 0
unfolding format_int
newlines-format_int (pos n) = newlines-digits _ (format_uint-AllDigits n)
newlines-format_int (negsuc n) =
    omega (arith, newlines-digits (format_uint (suc n)) (format_uint-AllDigits (suc n)))

newlines-tags_text : (ts : List Tag) (rest : Bytes) → newlines (tags_text ts rest) ≡ newlines rest
newlines-tags_text [] rest = refl
newlines-tags_text (t ∷ ts) rest = simp (newlines-escaped, newlines-tags_text ts) (omega arith)

newlines-time_text : (ts : Time) (rest : Bytes) → newlines (time_text ts rest) ≡ newlines rest
newlines-time_text ts rest =
    ground
      (arith, newlines-append (format_int (unix_nano ts)) rest, newlines-format_int (unix_nano ts))

module _ (fl : Floats) (laws : FormatsNumbers fl) where
  newlines-value_text :
      (f : Field fl.Float) (v : Value fl.Float) (rest : Bytes)
      → f.value ≡ v
      → field_valid fl f ≡ true
      → newlines (value_text fl v rest) ≡ newlines rest
  unfolding field_valid
  newlines-value_text f (float x) rest e h = omega (
    arith,
    newlines-append (fl.format_float x) rest,
    newlines-bare (fl.format_float x) (laws.format_bare x (ground arith) (ground arith)).unquoted,
  )
  newlines-value_text f (int v) rest e h =
      omega (arith, newlines-append (format_int v) (b'i' ∷ rest), newlines-format_int v)
  newlines-value_text f (uint n) rest e h = ground (
    arith,
    newlines-append (format_uint n) (b'i' ∷ rest),
    newlines-digits (format_uint n) (format_uint-AllDigits n),
    newlines-append (fl.format_float (fl.of_uint64 n)) rest,
    newlines-bare (fl.format_float (fl.of_uint64 n))
        (laws.format_bare _ (laws.uint_number n).0 (laws.uint_number n).1).unquoted,
  )
  newlines-value_text f (bool true) rest e h = omega arith
  newlines-value_text f (bool false) rest e h = omega arith
  newlines-value_text f (string v) rest e h =
      omega (arith, newlines-escaped esc_string v (b'"' ∷ rest))
  newlines-value_text f nil rest e h = refl
  newlines-value_text f other rest e h = refl

  newlines-field_text :
      (f : Field fl.Float) (rest : Bytes)
      → field_valid fl f ≡ true
      → newlines (field_text fl f rest) ≡ newlines rest
  newlines-field_text f rest h =
      newlines-escaped esc_tag f.key (b'=' ∷ value_text fl f.value rest)
      ∙ omega (arith, newlines-value_text f f.value rest refl h)

  newlines-fields_text :
      (first : Bool) (fs : List (Field fl.Float)) (rest : Bytes)
      → newlines (fields_text fl first (select (field_valid fl) fs) rest) ≡ newlines rest
  newlines-fields_text first [] rest = refl
  newlines-fields_text first (f ∷ fs) rest = elim (Bool-cases (field_valid fl f)) [
    | inl h ↦ rw h (
        ground (
          arith,
          newlines-field_text f (fields_text fl false (select (field_valid fl) fs) rest) h,
          newlines-fields_text false fs rest,
        ))
    | inr h ↦ rw h (newlines-fields_text first fs rest)
  ]

  newlines-line_text :
      (base : List Tag) (name : Bytes) (tags : List Tag) (fields : List (Field fl.Float))
      (ts : Time)
      → newlines (line_text fl base name tags fields ts) ≡ 1
  newlines-line_text base name tags fields ts =
      simp (newlines-escaped, newlines-tags_text)
        (omega (
          arith,
          newlines-fields_text true fields (time_text ts (b'\n' ∷ [])),
          newlines-time_text ts (b'\n' ∷ []),
        ))

  -- The counter of lines, as the bit pattern of an `int`, counts the newlines of the batch.
  abbrev pub IsCounted : Encoder → Type 0
  IsCounted e = e.points ≡ newlines e.buf % 2 ^ 64

  point-IsCounted :
      (e : Encoder) (name : Bytes) (tags : List Tag) (fields : List (Field fl.Float)) (ts : Time)
      → IsCounted e
      → IsCounted (point fl e name tags fields ts)
  point-IsCounted e name tags fields ts h = elim (Bool-cases (drops fl name fields)) [
    | inl d ↦
        ground (arith, point-points fl e name tags fields ts, point-buf fl e name tags fields ts)
    | inr k ↦ ground (
      arith,
      point-points fl e name tags fields ts,
      point-buf fl e name tags fields ts,
      newlines-append e.buf (line_text fl e.base name tags fields ts),
      newlines-line_text e.base name tags fields ts,
    )
  ]

-- The calls that change an encoder.
pub data Call (F : Type 0) : Type 0 where
  adds : Bytes → List Tag → List (Field F) → Time → Call F
  resets : Call F

module _ (fl : Floats) where
  unfoldable pub call : Encoder → Call fl.Float → Encoder
  call e (adds name tags fields ts) = point fl e name tags fields ts
  call e resets = reset e

  unfoldable pub calls : Encoder → List (Call fl.Float) → Encoder
  unfolding call
  calls e [] = e
  calls e (c ∷ cs) = calls (call e c) cs

calls-IsCounted :
    (fl : Floats)
    → FormatsNumbers fl
    → (e : Encoder) (cs : List (Call fl.Float)) → e.points ≡ newlines e.buf % 2 ^ 64
    → (calls fl e cs).points ≡ newlines (calls fl e cs).buf % 2 ^ 64
unfolding calls reset
calls-IsCounted fl laws e [] h = h
calls-IsCounted fl laws e (adds name tags fields ts ∷ cs) h =
    calls-IsCounted fl laws _ cs (point-IsCounted fl laws e name tags fields ts h)
calls-IsCounted fl laws e (resets ∷ cs) h =
    calls-IsCounted fl laws (record e { buf = []; points = 0 }) cs (omega arith)

-- Whatever points are added to a new encoder and however often it is reset, `Points` is the number
-- of newlines in `Bytes`, as a 64-bit `int`: every point that is written is one line, whatever
-- bytes its names, tags and texts hold.
pub calls-new-points :
    (fl : Floats)
    → FormatsNumbers fl
    → (base : List Tag) (cs : List (Call fl.Float))
    → (calls fl (new base) cs).points ≡ newlines (calls fl (new base) cs).buf % 2 ^ 64
unfolding new
calls-new-points fl laws base cs =
    calls-IsCounted fl laws (record { buf = []; base = base; points = 0; scratch = [] }) cs
      (omega arith)
