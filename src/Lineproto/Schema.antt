-- ===== src/Lineproto/Schema.antt =====
-- The lines that METRICS.md describes: a measurement, its tags, and for each of its fields the key and
-- what stands in the line for a value of its type. Nothing here is taken from the encoder but the order
-- in which it merges the tags.
use Prim.Native.String.{String}
use observant_agent.Base.{
  ℕ, ◌-◌, ◌^◌, not, ◌&&◌, List, [], ◌∷◌, ◌++◌, map, Option, none, some, ◌≡◌, refl, sym, ap, ◌∙◌,
  arith, inl, inr, leb, ◌==◌, if◌then◌else◌, is_empty, length, select, false, Bool-cases,
}
use observant_agent.Base.Clock.{Time, is_zero, unix_nano}
use observant_agent.Base.Decimal.{ℤ, format_uint, format_int}
use observant_agent.Base.Text.{Bytes, codes}
use observant_agent.Lineproto.Encoder.{count_valid}
use observant_agent.Lineproto.Point.{Floats, Tag, Field, field_valid}
use observant_agent.Lineproto.Reader.{FieldText, bare, quoted, Line}
use observant_agent.Lineproto.Reading.{flatten}
use observant_agent.Lineproto.Render.{merge_tags, drops}
use observant_agent.Lineproto.RoundTrip.{written}
use observant_agent.Lineproto.Sections.Fields.{field_pair}

-- A key, and its value in the line where it has one.
abbrev pub Entry : Type 0
Entry = Bytes × Option FieldText

-- An integer, and a text on one line.
abbrev pub whole : String → ℤ → Entry
whole key z = (codes key, some (bare (format_int z ++ codes "i")))

abbrev pub text : String → Bytes → Entry
text key s = (codes key, some (quoted (flatten s)))

-- The fields that are there.
abbrev pub present : List Entry → List (Bytes × FieldText)
present [] = []
present ((key, none) ∷ es) = present es
present ((key, some v) ∷ es) = (key, v) ∷ present es

abbrev pub tag : String → Bytes → Tag
tag key v = record { key = codes key; value = v }

-- The lines of one point: none where no field is there.
abbrev pub documented : List Tag → String → List Tag → List Entry → Time → List Line
documented base name own entries ts =
    if is_empty (present entries)
    then []
    else record {
      measurement = codes name;
      tags = map (λ (t : Tag). (t.key, t.value)) (merge_tags base own);
      fields = present entries;
      time = if is_zero ts then none else some (format_int (unix_nano ts));
    }
      ∷ []

is_empty-map : {A B : Type 0} (f : A → B) (xs : List A) → is_empty (map f xs) ≡ is_empty xs
is_empty-map f [] = refl
is_empty-map f (x ∷ xs) = refl

length-is_empty : {A : Type 0} (xs : List A) → (length xs == 0) ≡ is_empty xs
length-is_empty [] = refl
length-is_empty (x ∷ xs) = ground arith

module _ (fl : Floats) where
  open fl use {Float, is_nan, is_inf, of_uint64, format_float}

  -- A float that is a number.
  abbrev pub gauge : String → Float → Entry
  gauge key v =
      (codes key, if not (is_nan v) && not (is_inf v) then some (bare (format_float v)) else none)

  -- A `uint64`, which is an integer of the line up to the largest `int64`.
  abbrev pub count : String → ℕ → Entry
  count key n = (
    codes key,
    some (
        bare
          (if leb n (2 ^ 63 - 1) then format_uint n ++ codes "i" else format_float (of_uint64 n))),
  )

  -- The entry of a field.
  abbrev pub entry_of : Field Float → Entry
  entry_of f = (f.key, if field_valid fl f then some (field_pair fl f).1 else none)

  present-entry_of :
      (fs : List (Field Float))
      → present (map entry_of fs) ≡ map (field_pair fl) (select (field_valid fl) fs)
  present-entry_of [] = refl
  present-entry_of (f ∷ fs) = elim (Bool-cases (field_valid fl f)) [
    | inl there ↦ rw there (ap (λ ps. field_pair fl f ∷ ps) (present-entry_of fs))
    | inr lost ↦ rw lost (present-entry_of fs)
  ]

  -- The lines of a point are the documented ones where its fields have the documented entries.
  pub written-documented :
      (base : List Tag) (name : String) (own : List Tag) (fs : List (Field Float))
      (entries : List Entry) (ts : Time)
      → is_empty (codes name) ≡ false
      → map entry_of fs ≡ entries
      → written fl base (codes name) own fs ts ≡ documented base name own entries ts
  unfolding count_valid
  written-documented base name own fs entries ts named same =
      let found : present entries ≡ map (field_pair fl) (select (field_valid fl) fs) =
        rw⁻¹ same (present-entry_of fs) in
      let empty : drops fl (codes name) fs
          ≡ is_empty (map (field_pair fl) (select (field_valid fl) fs)) =
        rw named (length-is_empty (select (field_valid fl) fs) ∙ sym (is_empty-map _ _)) in
      rw (found, empty) refl
