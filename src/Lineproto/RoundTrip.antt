-- ===== src/Lineproto/RoundTrip.antt =====
-- What the reader makes of a batch that the encoder has written.
use mathlib.Core.List.{append-nil}
use observant_agent.Base.{
  ℕ, true, false, List, [], ◌∷◌, ◌++◌, ◌≡◌, ◌≢◌, refl, ◌∙◌, arith, Option, some, none, inl, inr,
  ◌==◌, if◌then◌else◌, Bool-cases, All, All-append, All-select, All-map, is_empty, select, length,
  map,
}
use observant_agent.Base.Clock.{Time}
use observant_agent.Base.Text.{Bytes}
use observant_agent.Lineproto.Encoder.{
  Encoder, tag_valid, insert_tag, sort_tags, repeats, count_valid, point,
}
use observant_agent.Lineproto.Point.{
  Floats, Tag, Field, Value, float, uint, nil, other, field_valid,
}
use observant_agent.Lineproto.Reader.{
  in_measurement, Reader, Line, blank_line, idle, bind_reader, read, run, ReadsAs,
}
use observant_agent.Lineproto.Reading.{reader, NoBreaks, measurement, run-name}
use observant_agent.Lineproto.Render.{
  last_of_runs, merge_tags, line_text, drops, point-buf, time_text,
}
use observant_agent.Lineproto.Sections.Tags.{Closes, TagReads, tag_pair, run-tags}
use observant_agent.Lineproto.Sections.Values.{IsBare, ValueReads}
use observant_agent.Lineproto.Sections.Fields.{FieldReads, field_pair, fields-Reads}
use observant_agent.Lineproto.Sections.Time.{stored_time, run-time}

-- Neither part of the tag holds a line break.
pub record TagUnbroken (t : Tag) : Type 0 where
  pub key_unbroken : NoBreaks t.key
  pub value_unbroken : NoBreaks t.value

-- `FormatFloat` prints a number that is neither NaN nor infinite as digits with a sign, a point and
-- an exponent at most, and a converted integer is such a number.
pub record FormatsNumbers (fl : Floats) : Type 0 where
  pub format_bare :
      (f : fl.Float) → fl.is_nan f ≡ false → fl.is_inf f ≡ false → IsBare (fl.format_float f)
  pub uint_number :
      (n : ℕ) → (fl.is_nan (fl.of_uint64 n) ≡ false) × (fl.is_inf (fl.of_uint64 n) ≡ false)

-- The key has no line break, and the value is of one of the five types that `Field` names.
pub record FieldUnbroken {F : Type 0} (f : Field F) : Type 0 where
  pub key_unbroken : NoBreaks f.key
  pub value_known : f.value ≢ other

All-insert_tag :
    (P : Tag → Type 0) (t : Tag) (ts : List Tag) → P t → All P ts → All P (insert_tag t ts)
unfolding insert_tag
All-insert_tag P t [] p h = (p, tt)
All-insert_tag P t (u ∷ us) p h = ground (arith, All-insert_tag P t us p h.1)

All-sort_tags : (P : Tag → Type 0) (ts : List Tag) → All P ts → All P (sort_tags ts)
unfolding sort_tags
All-sort_tags P [] h = tt
All-sort_tags P (t ∷ ts) h = All-insert_tag P t (sort_tags ts) h.0 (All-sort_tags P ts h.1)

All-last_of_runs : (P : Tag → Type 0) (ts : List Tag) → All P ts → All P (last_of_runs ts)
All-last_of_runs P [] h = tt
All-last_of_runs P (t ∷ ts) h = elim (Bool-cases (repeats t ts)) [
  | inl e ↦ rw e (All-last_of_runs P ts h.1)
  | inr e ↦ rw e (h.0, All-last_of_runs P ts h.1)
]

valid-TagReads : (t : Tag) → TagUnbroken t × (tag_valid t ≡ true) → TagReads t
valid-TagReads t h = ground arith

merge_tags-TagReads :
    (base tags : List Tag)
    → All TagUnbroken base
    → All TagUnbroken tags
    → All TagReads (merge_tags base tags)
merge_tags-TagReads base tags b h = All-last_of_runs TagReads (sort_tags _) (
    All-sort_tags TagReads (select tag_valid base ++ select tag_valid tags) (
      All-append TagReads (select tag_valid base) (select tag_valid tags)
        (All-map valid-TagReads _ (All-select TagUnbroken tag_valid base b))
        (All-map valid-TagReads _ (All-select TagUnbroken tag_valid tags h))))

bind_reader-append :
    (a b : Bytes) (m : Option Reader)
    → ((r : Reader) → run r (a ++ b) ≡ bind_reader (run r a) (λ q. run q b))
    → bind_reader m (λ q. run q (a ++ b))
      ≡ bind_reader (bind_reader m (λ q. run q a)) (λ q. run q b)
bind_reader-append a b none h = refl
bind_reader-append a b (some r) h = h r

run-append : (a b : Bytes) (r : Reader) → run r (a ++ b) ≡ bind_reader (run r a) (λ q. run q b)
unfolding run
run-append [] b r = refl
run-append (c ∷ a) b r = bind_reader-append a b (read r c) (run-append a b)

module _ (fl : Floats) where
  -- The line of a point that is not dropped.
  abbrev pub line_of : List Tag → Bytes → List Tag → List (Field fl.Float) → Time → Line
  line_of base name tags fields ts = record {
    measurement = name;
    tags = map tag_pair (merge_tags base tags);
    fields = map (field_pair fl) (select (field_valid fl) fields);
    time = stored_time ts;
  }

  -- What a call of `Point` adds to the lines of a batch: nothing, or one line.
  abbrev pub written : List Tag → Bytes → List Tag → List (Field fl.Float) → Time → List Line
  written base name tags fields ts =
      if drops fl name fields then [] else line_of base name tags fields ts ∷ []

module _ (fl : Floats) (laws : FormatsNumbers fl) where
  valid-ValueReads :
      (f : Field fl.Float) (v : Value fl.Float)
      → f.value ≡ v
      → v ≢ other
      → field_valid fl f ≡ true
      → ValueReads fl v
  unfolding field_valid
  valid-ValueReads f (float x) e k h = laws.format_bare x (ground arith) (ground arith)
  valid-ValueReads f (uint n) e k h =
      λ _. laws.format_bare _ (laws.uint_number n).0 (laws.uint_number n).1
  valid-ValueReads f nil e k h = ground arith
  valid-ValueReads f other e k h = absurd (k refl)
  valid-ValueReads f _ e k h = tt

  valid-FieldReads :
      (f : Field fl.Float) → FieldUnbroken f × (field_valid fl f ≡ true) → FieldReads fl f
  unfolding field_valid
  valid-FieldReads f (u, v) = record {
    key_ne_nil = ground arith;
    key_unbroken = u.key_unbroken;
    value_reads = valid-ValueReads f f.value refl u.value_known v;
  }

  measurement-Closes :
      (name : Bytes) (lines : List Line)
      → is_empty name ≡ false
      → Closes
          (reader in_measurement name [] blank_line lines)
          (record blank_line { measurement = name })
          lines
  unfolding run
  measurement-Closes name lines h = record {
    comma = λ rest. ground arith;
    space = λ rest. ground arith;
  }

  run-line_text :
      (base : List Tag) (name : Bytes) (tags : List Tag) (fields : List (Field fl.Float))
      (ts : Time) (lines : List Line)
      → is_empty name ≡ false
      → is_empty (select (field_valid fl) fields) ≡ false
      → NoBreaks name
      → All TagUnbroken base
      → All TagUnbroken tags
      → All FieldUnbroken fields
      → run (idle lines) (line_text fl base name tags fields ts)
        ≡ some (idle (lines ++ line_of fl base name tags fields ts ∷ []))
  run-line_text base name tags fields ts lines named some_field n b t f =
      let line = record blank_line {
        measurement = name;
        tags = map tag_pair (merge_tags base tags);
      } in
      let reads =
        All-map valid-FieldReads (select (field_valid fl) fields)
          (All-select FieldUnbroken (field_valid fl) fields f) in
      let (r, ends, text) =
        fields-Reads fl (select (field_valid fl) fields) line lines some_field reads in
      run-name [] blank_line lines measurement name [] _ n
      ∙ run-tags (merge_tags base tags) _ _ lines _ (measurement-Closes name lines named)
          (merge_tags-TagReads base tags b t)
      ∙ text (time_text ts (b'\n' ∷ []))
      ∙ run-time ts r _ lines ends refl

  length-ne_nil : (fs : List (Field fl.Float)) → (length fs == 0) ≡ false → is_empty fs ≡ false
  length-ne_nil [] h = cc
  length-ne_nil (f ∷ fs) h = refl

  -- A batch that the reader accepts stays one under `Point`: the call adds its line, with the
  -- measurement, one tag for each key, the valid fields in order and the timestamp, or nothing where
  -- it drops the point. No name or tag may hold a line break; a text field may.
  pub ReadsAs-point :
      (e : Encoder) (lines : List Line) (name : Bytes) (tags : List Tag)
      (fields : List (Field fl.Float)) (ts : Time)
      → ReadsAs e.buf lines
      → NoBreaks name
      → All TagUnbroken e.base
      → All TagUnbroken tags
      → All FieldUnbroken fields
      → ReadsAs
          (point fl e name tags fields ts).buf
          (lines ++ written fl e.base name tags fields ts)
  unfolding count_valid
  ReadsAs-point e lines name tags fields ts r n b t f =
      rw (point-buf fl e name tags fields ts) (elim (Bool-cases (drops fl name fields)) [
        | inl h ↦ rw (h, append-nil) r
        | inr h ↦
            rw (h, run-append e.buf _ (idle []), r)
              (run-line_text e.base name tags fields ts lines (ground arith)
                (length-ne_nil _ (ground arith)) n b t f)
      ])
