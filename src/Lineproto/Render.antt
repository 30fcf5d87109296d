-- ===== src/Lineproto/Render.antt =====
-- The bytes of a point with no buffer: each piece stands in front of what follows it.
use mathlib.Core.List.{append_assoc}
use observant_agent.Base.{
  ◌+◌, ◌%◌, ◌^◌, Bool, true, false, ◌||◌, List, [], ◌∷◌, ◌++◌, ◌≡◌, refl, ◌∙◌, arith, inl, inr, leb,
  ◌==◌, if◌then◌else◌, Bool-cases, select, is_empty,
}
use observant_agent.Base.Clock.{Time, is_zero, unix_nano}
use observant_agent.Base.Decimal.{format_uint, format_int}
use observant_agent.Base.Text.{Bytes}
use observant_agent.Lineproto.Encoder.{
  Encoder, tag_valid, sort_tags, repeats, write_tag, write_tags, write_field, write_fields,
  write_time, count_valid, point,
}
use observant_agent.Lineproto.Escape.{
  esc_measurement, esc_tag, esc_string, escaped, write_escaped, write_escaped-escaped,
  escaped-append,
}
use observant_agent.Lineproto.Point.{
  Floats, Tag, Value, float, int, uint, bool, string, nil, other, Field, field_valid, write_value,
  max_int64,
}

ruleset pieces = (append_assoc, write_escaped-escaped, escaped-append)

-- Of equal keys in a row the last entry.
abbrev pub last_of_runs : List Tag → List Tag
last_of_runs [] = []
last_of_runs (t ∷ ts) = if repeats t ts then last_of_runs ts else t ∷ last_of_runs ts

-- The tags of a point: the valid base tags, then the valid tags of the call, one for each key.
abbrev pub merge_tags : List Tag → List Tag → List Tag
merge_tags base tags = last_of_runs (sort_tags (select tag_valid base ++ select tag_valid tags))

abbrev pub tag_text : Tag → Bytes → Bytes
tag_text t rest = b',' ∷ escaped esc_tag t.key (b'=' ∷ escaped esc_tag t.value rest)

abbrev pub tags_text : List Tag → Bytes → Bytes
tags_text [] rest = rest
tags_text (t ∷ ts) rest = tag_text t (tags_text ts rest)

write_tag-tag_text :
    (buf : Bytes) (t : Tag) (rest : Bytes) → write_tag buf t ++ rest ≡ buf ++ tag_text t rest
unfolding write_tag
write_tag-tag_text buf t rest = simp pieces

write_tags-tags_text :
    (buf : Bytes) (ts : List Tag) (rest : Bytes)
    → write_tags buf ts ++ rest ≡ buf ++ tags_text (last_of_runs ts) rest
unfolding write_tags
write_tags-tags_text buf [] rest = refl
write_tags-tags_text buf (t ∷ ts) rest = elim (Bool-cases (repeats t ts)) [
  | inl again ↦ rw again (write_tags-tags_text buf ts rest)
  | inr fresh ↦ rw fresh (
      write_tags-tags_text (write_tag buf t) ts rest
      ∙ write_tag-tag_text buf t (tags_text (last_of_runs ts) rest))
]

abbrev pub time_text : Time → Bytes → Bytes
time_text ts rest = if is_zero ts then rest else b' ' ∷ (format_int (unix_nano ts) ++ rest)

write_time-time_text :
    (fl : Floats) (buf : Bytes) (ts : Time) (rest : Bytes)
    → write_time fl buf ts ++ rest ≡ buf ++ time_text ts rest
unfolding write_time
write_time-time_text fl buf ts rest = elim (Bool-cases (is_zero ts)) [
  | inl h ↦ rw h refl
  | inr h ↦ rw h (simp append_assoc)
]

module _ (fl : Floats) where
  open fl use {Float, format_float, of_uint64}

  abbrev pub value_text : Value Float → Bytes → Bytes
  value_text (float v) rest = format_float v ++ rest
  value_text (int v) rest = format_int v ++ (b'i' ∷ rest)
  value_text (uint v) rest =
      if leb v max_int64 then format_uint v ++ (b'i' ∷ rest) else format_float (of_uint64 v) ++ rest
  value_text (bool v) rest = (if v then b'T' else b'F') ∷ rest
  value_text (string v) rest = b'"' ∷ escaped esc_string v (b'"' ∷ rest)
  value_text nil rest = rest
  value_text other rest = rest

  write_value-value_text :
      (buf : Bytes) (v : Value Float) (rest : Bytes)
      → write_value fl buf v ++ rest ≡ buf ++ value_text v rest
  unfolding write_value
  write_value-value_text buf (float v) rest = simp append_assoc
  write_value-value_text buf (int v) rest = simp append_assoc
  write_value-value_text buf (uint v) rest = elim (Bool-cases (leb v max_int64)) [
    | inl h ↦ rw h (simp append_assoc)
    | inr h ↦ rw h (simp append_assoc)
  ]
  write_value-value_text buf (bool true) rest = simp append_assoc
  write_value-value_text buf (bool false) rest = simp append_assoc
  write_value-value_text buf (string v) rest = simp pieces
  write_value-value_text buf nil rest = refl
  write_value-value_text buf other rest = refl

  abbrev pub field_text : Field Float → Bytes → Bytes
  field_text f rest = escaped esc_tag f.key (b'=' ∷ value_text f.value rest)

  abbrev pub fields_text : Bool → List (Field Float) → Bytes → Bytes
  fields_text first [] rest = rest
  fields_text first (f ∷ fs) rest =
      let t = field_text f (fields_text false fs rest) in if first then t else b',' ∷ t

  write_field-field_text :
      (buf : Bytes) (first : Bool) (f : Field Float) (rest : Bytes)
      → write_field fl buf first f ++ rest
        ≡ buf ++ (if first then field_text f rest else b',' ∷ field_text f rest)
  unfolding write_field
  write_field-field_text buf true f rest = simp (write_value-value_text, pieces)
  write_field-field_text buf false f rest = simp (write_value-value_text, pieces)

  write_fields-fields_text :
      (buf : Bytes) (first : Bool) (fs : List (Field Float)) (rest : Bytes)
      → write_fields fl buf first fs ++ rest
        ≡ buf ++ fields_text first (select (field_valid fl) fs) rest
  unfolding write_fields
  write_fields-fields_text buf first [] rest = refl
  write_fields-fields_text buf first (f ∷ fs) rest = ground (
    arith,
    write_fields-fields_text buf first fs rest,
    write_fields-fields_text (write_field fl buf first f) false fs rest,
    write_field-field_text buf first f (fields_text false (select (field_valid fl) fs) rest),
  )

  abbrev pub line_text : List Tag → Bytes → List Tag → List (Field Float) → Time → Bytes
  line_text base measurement tags fields ts = escaped esc_measurement measurement (
      tags_text (merge_tags base tags)
        (b' ' ∷ fields_text true (select (field_valid fl) fields) (time_text ts (b'\n' ∷ []))))

  -- `Point` drops the line.
  abbrev pub drops : Bytes → List (Field Float) → Bool
  drops measurement fields = is_empty measurement || count_valid fl fields == 0

  -- The pieces of a line, in the order in which `Point` writes them.
  line_text-pieces :
      (buf measurement : Bytes) (sorted : List Tag) (fields : List (Field Float)) (ts : Time)
      → write_time fl
            (write_fields fl
              (write_tags (write_escaped buf measurement esc_measurement) sorted ++ b' ' ∷ [])
              true
              fields)
            ts
          ++ b'\n' ∷ []
        ≡ buf
          ++ escaped esc_measurement measurement (
              tags_text (last_of_runs sorted) (
                b' '
                ∷ fields_text true (select (field_valid fl) fields) (time_text ts (b'\n' ∷ []))))
  line_text-pieces buf measurement sorted fields ts =
      write_time-time_text fl _ ts _
      ∙ write_fields-fields_text _ true fields _
      ∙ append_assoc _ (b' ' ∷ []) _
      ∙ write_tags-tags_text _ sorted _
      ∙ write_escaped-escaped esc_measurement buf measurement _

  -- What `Point` appends, on both of its paths.
  pub point-buf :
      (e : Encoder) (measurement : Bytes) (tags : List Tag) (fields : List (Field Float))
      (ts : Time)
      → (point fl e measurement tags fields ts).buf ≡ (
          if drops measurement fields
          then e.buf
          else e.buf ++ line_text e.base measurement tags fields ts)
  unfolding point
  point-buf e measurement tags fields ts = elim (Bool-cases (is_empty measurement)) [
    | inl h ↦ rw h refl
    | inr h ↦ rw h (elim (Bool-cases (count_valid fl fields == 0)) [
      | inl k ↦ rw k refl
      | inr k ↦ rw k (line_text-pieces e.buf measurement _ fields ts)
    ])
  ]

  -- The counter of lines, on both paths.
  pub point-points :
      (e : Encoder) (measurement : Bytes) (tags : List Tag) (fields : List (Field Float))
      (ts : Time)
      → (point fl e measurement tags fields ts).points
        ≡ (if drops measurement fields then e.points else (e.points + 1) % 2 ^ 64)
  unfolding point
  point-points e measurement tags fields ts = ground arith

  -- The base tags stay.
  pub point-base :
      (e : Encoder) (measurement : Bytes) (tags : List Tag) (fields : List (Field Float))
      (ts : Time)
      → (point fl e measurement tags fields ts).base ≡ e.base
  unfolding point
  point-base e measurement tags fields ts = ground arith
