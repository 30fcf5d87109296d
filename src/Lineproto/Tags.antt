-- ===== src/Lineproto/Tags.antt =====
-- Which tags a point carries: the order of `scratch` and the entry that is kept for each key.
use observant_agent.Base.{
  true, false, ◌==◌, map, All, subst, sym, is_empty, List, [], ◌∷◌, ◌++◌, ◌≡◌, refl, ap, ◌∙◌, arith,
  Option, some, none, inl, inr, if◌then◌else◌, Bool-cases, select,
}
use observant_agent.Base.Text.{
  Bytes, bytes_eq, bytes_lt, bytes_eq_iff, bytes_lt_irrefl, bytes_lt_trans, bytes_lt-total,
}
use observant_agent.Lineproto.Encoder.{
  Encoder, point, count_valid, tag_valid, insert_tag, sort_tags, repeats,
}
use observant_agent.Lineproto.Point.{Floats, Field, Tag}
use observant_agent.Lineproto.Render.{last_of_runs, merge_tags, drops}
use observant_agent.Lineproto.Reader.{Line, ReadsAs}
use observant_agent.Lineproto.Reading.{NoBreaks}
use observant_agent.Lineproto.RoundTrip.{
  FormatsNumbers, TagUnbroken, FieldUnbroken, line_of, ReadsAs-point,
}
use observant_agent.Lineproto.Sections.Tags.{tag_pair}
use observant_agent.Base.Clock.{Time}

-- Every key comes after the key in front of it, so no key stands twice.
abbrev pub Above : Bytes → List Tag → Type 0
Above k [] = Unit
Above k (u ∷ us) = bytes_lt k u.key ≡ true

abbrev pub Ascending : List Tag → Type 0
Ascending [] = Unit
Ascending (t ∷ ts) = Above t.key ts × Ascending ts

-- The value of the last entry with key `k`.
abbrev pub or_else : Option Bytes → Option Bytes → Option Bytes
or_else none o = o
or_else (some v) o = some v

abbrev pub last_value : Bytes → List Tag → Option Bytes
last_value k [] = none
last_value k (t ∷ ts) = or_else (last_value k ts) (if bytes_eq t.key k then some t.value else none)

-- No key comes before the key in front of it.
abbrev NotBelow : Bytes → List Tag → Type 0
NotBelow k [] = Unit
NotBelow k (u ∷ us) = bytes_lt u.key k ≡ false

abbrev Sorted : List Tag → Type 0
Sorted [] = Unit
Sorted (t ∷ ts) = NotBelow t.key ts × Sorted ts

bytes_lt-asymm : (a b : Bytes) → bytes_lt a b ≡ true → bytes_lt b a ≡ false
bytes_lt-asymm a b h = ground (arith, bytes_lt_trans a b a, bytes_lt_irrefl a)

insert_tag-NotBelow :
    (k : Bytes) (t : Tag) (ts : List Tag)
    → bytes_lt t.key k ≡ false
    → NotBelow k ts
    → NotBelow k (insert_tag t ts)
unfolding insert_tag
insert_tag-NotBelow k t [] h b = h
insert_tag-NotBelow k t (u ∷ us) h b = ground arith

insert_tag-Sorted : (t : Tag) (ts : List Tag) → Sorted ts → Sorted (insert_tag t ts)
unfolding insert_tag
insert_tag-Sorted t [] s = (tt, tt)
insert_tag-Sorted t (u ∷ us) s = elim (Bool-cases (bytes_lt u.key t.key)) [
  | inl h ↦ rw h (
    insert_tag-NotBelow u.key t us (bytes_lt-asymm u.key t.key h) s.0,
    insert_tag-Sorted t us s.1,
  )
  | inr h ↦ rw h (h, s)
]

sort_tags-Sorted : (ts : List Tag) → Sorted (sort_tags ts)
unfolding sort_tags
sort_tags-Sorted [] = tt
sort_tags-Sorted (t ∷ ts) = insert_tag-Sorted t (sort_tags ts) (sort_tags-Sorted ts)

last_of_runs-Above : (k : Bytes) (ts : List Tag) → Above k ts → Above k (last_of_runs ts)
unfolding repeats
last_of_runs-Above k [] h = tt
last_of_runs-Above k (t ∷ []) h = h
last_of_runs-Above k (t ∷ u ∷ us) h =
    ground (arith, bytes_eq_iff u.key t.key, last_of_runs-Above k (u ∷ us))

last_of_runs-Ascending : (ts : List Tag) → Sorted ts → Ascending (last_of_runs ts)
unfolding repeats
last_of_runs-Ascending [] s = tt
last_of_runs-Ascending (t ∷ []) s = (tt, tt)
last_of_runs-Ascending (t ∷ u ∷ us) s = elim (Bool-cases (bytes_eq u.key t.key)) [
  | inl h ↦ rw h (last_of_runs-Ascending (u ∷ us) s.1)
  | inr h ↦ rw h (
    last_of_runs-Above t.key (u ∷ us)
        (ground (arith, bytes_lt-total t.key u.key, bytes_eq_iff u.key t.key)),
    last_of_runs-Ascending (u ∷ us) s.1,
  )
]

insert_tag-last_value :
    (k : Bytes) (t : Tag) (ts : List Tag) → last_value k (insert_tag t ts) ≡ last_value k (t ∷ ts)
unfolding insert_tag
insert_tag-last_value k t [] = refl
insert_tag-last_value k t (u ∷ us) = ground (
  arith,
  insert_tag-last_value k t us,
  bytes_eq_iff u.key k,
  bytes_eq_iff t.key k,
  bytes_lt_irrefl k,
)

sort_tags-last_value : (k : Bytes) (ts : List Tag) → last_value k (sort_tags ts) ≡ last_value k ts
unfolding sort_tags
sort_tags-last_value k [] = refl
sort_tags-last_value k (t ∷ ts) =
    insert_tag-last_value k t (sort_tags ts)
    ∙ ap (λ o. or_else o (if bytes_eq t.key k then some t.value else none))
        (sort_tags-last_value k ts)

last_of_runs-last_value :
    (k : Bytes) (ts : List Tag) → last_value k (last_of_runs ts) ≡ last_value k ts
unfolding repeats
last_of_runs-last_value k [] = refl
last_of_runs-last_value k (t ∷ []) = refl
last_of_runs-last_value k (t ∷ u ∷ us) = ground (
  arith,
  last_of_runs-last_value k (u ∷ us),
  bytes_eq_iff u.key t.key,
  bytes_eq_iff u.key k,
  bytes_eq_iff t.key k,
)

last_value-append :
    (k : Bytes) (xs ys : List Tag)
    → last_value k (xs ++ ys) ≡ or_else (last_value k ys) (last_value k xs)
last_value-append k [] ys = ground arith
last_value-append k (x ∷ xs) ys = ground (arith, last_value-append k xs ys)

-- The tags of a point stand in strictly ascending order of their keys, so each key stands once. The
-- value of a key is that of the last valid tag of the call with it, and otherwise that of the last
-- valid base tag with it; a key of neither is absent.
pub merge_tags_lem :
    (base tags : List Tag)
    → Ascending (merge_tags base tags)
      × ((k : Bytes)
          → last_value k (merge_tags base tags)
            ≡ or_else (last_value k (select tag_valid tags)) (last_value k (select tag_valid base)))
merge_tags_lem base tags = (
  last_of_runs-Ascending (sort_tags _) (sort_tags-Sorted _),
  λ k.
      last_of_runs-last_value k (sort_tags _)
      ∙ sort_tags-last_value k (select tag_valid base ++ select tag_valid tags)
      ∙ last_value-append k (select tag_valid base) (select tag_valid tags),
)

-- The tags of a line that has been read.
abbrev pub read_tags : Line → List Tag
read_tags l = map (λ (kv : Bytes × Bytes). record { key = kv.0; value = kv.1 }) l.tags

pair-tag :
    (ts : List Tag)
    → map (λ (kv : Bytes × Bytes). record { key = kv.0; value = kv.1 }) (map tag_pair ts) ≡ ts
pair-tag [] = refl
pair-tag (t ∷ ts) = ap (λ us. t ∷ us) (pair-tag ts)

-- A call of `Point` that writes a line: in the line that the reader finds, the tags stand in strictly
-- ascending order of their keys, so each key stands once; the value of a key is that of the last tag
-- of the call that has it and is valid, and otherwise that of the last such base tag; a key of neither
-- is absent. Conditions: there is a measurement and a valid field, no line break in the measurement, a
-- tag or a field key, every field value of one of the five types that Field names, FormatFloat prints
-- a finite float without delimiters, and the reader accepts what the buffer holds.
pub point-tags :
    (fl : Floats) (e : Encoder) (lines : List Line) (name : Bytes) (tags : List Tag)
    (fields : List (Field fl.Float)) (ts : Time)
    → FormatsNumbers fl
    → ReadsAs e.buf lines
    → is_empty name ≡ false
    → (count_valid fl fields == 0) ≡ false
    → NoBreaks name
    → All TagUnbroken e.base
    → All TagUnbroken tags
    → All FieldUnbroken fields
    → (l : Line) × ReadsAs (point fl e name tags fields ts).buf (lines ++ l ∷ [])
      × Ascending (read_tags l)
      × ((k : Bytes)
          → last_value k (read_tags l)
            ≡ or_else
                (last_value k (select tag_valid tags))
                (last_value k (select tag_valid e.base)))
point-tags fl e lines name tags fields ts laws r named some_field n b t f =
    let (ascending, values) = merge_tags_lem e.base tags in
    let same = pair-tag (merge_tags e.base tags) in
    let kept : drops fl name fields ≡ false = ground arith in
    (
      line_of fl e.base name tags fields ts,
      rw kept at (ReadsAs-point fl laws e lines name tags fields ts r n b t f),
      subst Ascending (sym same) ascending,
      λ k. ap (last_value k) same ∙ values k,
    )
