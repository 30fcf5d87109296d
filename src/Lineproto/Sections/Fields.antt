-- ===== src/Lineproto/Sections/Fields.antt =====
-- The reader over the fields of a line.
use mathlib.Core.List.{append-nil, append_assoc}
use observant_agent.Base.{
  true, false, List, [], ◌∷◌, ◌++◌, ◌≡◌, refl, ◌∙◌, arith, All, is_empty, map,
}
use observant_agent.Base.Text.{Bytes}
use observant_agent.Lineproto.Point.{Floats, Field}
use observant_agent.Lineproto.Reader.{in_field_key, in_value, Reader, Line, FieldText, run}
use observant_agent.Lineproto.Reading.{reader, NoBreaks, field_key, run-name}
use observant_agent.Lineproto.Render.{field_text, fields_text}
use observant_agent.Lineproto.Sections.Values.{Ends, Reads, after, stored, ValueReads, value-Reads}

module _ (fl : Floats) where
  open fl use {Float}

  -- A field whose key is not empty and whose parts do not break the line.
  pub record FieldReads (f : Field Float) : Type 0 where
    pub key_ne_nil : is_empty f.key ≡ false
    pub key_unbroken : NoBreaks f.key
    pub value_reads : ValueReads fl f.value

  abbrev pub field_pair : Field Float → Bytes × FieldText
  field_pair f = (f.key, stored fl f.value)

  run-field_key :
      (k : Bytes) (line : Line) (lines : List Line) (rest : Bytes)
      → is_empty k ≡ false
      → run (reader in_field_key k [] line lines) (b'=' ∷ rest)
        ≡ run (reader in_value [] k line lines) rest
  unfolding run
  run-field_key k line lines rest h = ground arith

  field-Reads :
      (f : Field Float) (line : Line) (lines : List Line)
      → FieldReads f
      → Reads
          (reader in_field_key [] [] line lines)
          (field_text fl f)
          (record line { fields = line.fields ++ field_pair f ∷ [] })
          lines
  unfolding after
  field-Reads f line lines h =
      let (r, ends, reads) = value-Reads fl f.key line lines f.value h.value_reads in
      (
        r,
        ends,
        λ rest.
            run-name [] line lines field_key f.key [] _ h.key_unbroken
            ∙ run-field_key f.key line lines _ h.key_ne_nil
            ∙ reads rest,
      )

  more_fields-Reads :
      (fs : List (Field Float)) (r : Reader) (line : Line) (lines : List Line)
      → Ends r line lines
      → All FieldReads fs
      → Reads r
          (fields_text fl false fs)
          (record line { fields = line.fields ++ map field_pair fs })
          lines
  more_fields-Reads [] r line lines e h = rw append-nil (r, e, λ rest. refl)
  more_fields-Reads (f ∷ fs) r line lines e h =
      let (q, ends, reads) = field-Reads f line lines h.0 in
      let (last, ends', reads') = more_fields-Reads fs q _ lines ends h.1 in
      (
        last,
        rw append_assoc at ends',
        λ rest. e.comma _ ∙ reads (fields_text fl false fs rest) ∙ reads' rest,
      )

  -- At least one field, as `Point` makes sure of.
  pub fields-Reads :
      (fs : List (Field Float)) (line : Line) (lines : List Line)
      → is_empty fs ≡ false
      → All FieldReads fs
      → Reads
          (reader in_field_key [] [] line lines)
          (fields_text fl true fs)
          (record line { fields = line.fields ++ map field_pair fs })
          lines
  fields-Reads [] line lines e h = cc
  fields-Reads (f ∷ fs) line lines e h =
      let (q, ends, reads) = field-Reads f line lines h.0 in
      let (last, ends', reads') = more_fields-Reads fs q _ lines ends h.1 in
      (last, rw append_assoc at ends', λ rest. reads (fields_text fl false fs rest) ∙ reads' rest)
