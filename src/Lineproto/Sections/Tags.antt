-- ===== src/Lineproto/Sections/Tags.antt =====
-- The reader over the tags of a line.
use mathlib.Core.List.{append-nil, append_assoc}
use observant_agent.Base.{false, List, [], ◌∷◌, ◌++◌, ◌≡◌, ◌∙◌, arith, All, is_empty, map}
use observant_agent.Base.Text.{Bytes}
use observant_agent.Lineproto.Point.{Tag}
use observant_agent.Lineproto.Reader.{in_tag_key, in_tag_value, in_field_key, Reader, Line, run}
use observant_agent.Lineproto.Reading.{reader, NoBreaks, tag_key, tag_value, run-name}
use observant_agent.Lineproto.Render.{tags_text}

-- A reader behind the measurement or a tag: a comma opens a tag, a space the fields.
pub record Closes (r : Reader) (line : Line) (lines : List Line) : Type 0 where
  pub comma : (rest : Bytes) → run r (b',' ∷ rest) ≡ run (reader in_tag_key [] [] line lines) rest
  pub space : (rest : Bytes) → run r (b' ' ∷ rest) ≡ run (reader in_field_key [] [] line lines) rest

-- A tag whose parts are not empty and do not break the line.
pub record TagReads (t : Tag) : Type 0 where
  pub key_ne_nil : is_empty t.key ≡ false
  pub value_ne_nil : is_empty t.value ≡ false
  pub key_unbroken : NoBreaks t.key
  pub value_unbroken : NoBreaks t.value

abbrev pub tag_pair : Tag → Bytes × Bytes
tag_pair t = (t.key, t.value)

run-key :
    (k : Bytes) (line : Line) (lines : List Line) (rest : Bytes)
    → is_empty k ≡ false
    → run (reader in_tag_key k [] line lines) (b'=' ∷ rest)
      ≡ run (reader in_tag_value [] k line lines) rest
unfolding run
run-key k line lines rest h = ground arith

tag-Closes :
    (v k : Bytes) (line : Line) (lines : List Line)
    → is_empty v ≡ false
    → Closes
        (reader in_tag_value v k line lines)
        (record line { tags = line.tags ++ (k, v) ∷ [] })
        lines
unfolding run
tag-Closes v k line lines h = record { comma = λ rest. ground arith; space = λ rest. ground arith }

pub run-tags :
    (ts : List Tag) (r : Reader) (line : Line) (lines : List Line) (rest : Bytes)
    → Closes r line lines
    → All TagReads ts
    → run r (tags_text ts (b' ' ∷ rest))
      ≡ run
          (reader in_field_key [] [] (record line { tags = line.tags ++ map tag_pair ts }) lines)
          rest
run-tags [] r line lines rest c h = rw append-nil (c.space rest)
run-tags (t ∷ ts) r line lines rest c h =
    c.comma _
    ∙ run-name [] line lines tag_key t.key [] _ h.0.key_unbroken
    ∙ run-key t.key line lines _ h.0.key_ne_nil
    ∙ run-name t.key line lines tag_value t.value [] _ h.0.value_unbroken
    ∙ run-tags ts _ _ lines rest (tag-Closes t.value t.key line lines h.0.value_ne_nil) h.1
    ∙ rw append_assoc
