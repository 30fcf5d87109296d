-- ===== src/Lineproto/Reader.antt =====
-- A reader of line protocol, written from the format and not from the encoder: one state machine
-- over the bytes of a batch. It refuses empty names and values, a byte that cannot stand where it
-- stands, and an unfinished line.
use observant_agent.Base.{
  ℕ, ◌≡◌, Bool, true, false, ◌&&◌, ◌||◌, List, [], ◌∷◌, ◌++◌, Option, none, some, ◌==◌,
  if◌then◌else◌, is_empty,
}
use observant_agent.Base.Decimal.{is_digit}
use observant_agent.Base.Text.{Bytes}

-- A field value as it stands in the line: a text between quotes, its escapes undone, or bare.
pub data FieldText : Type 0 where
  bare : Bytes → FieldText
  quoted : Bytes → FieldText

pub record Line : Type 0 where
  pub measurement : Bytes
  pub tags : List (Bytes × Bytes)
  pub fields : List (Bytes × FieldText)
  pub time : Option Bytes

pub data Mode : Type 0 where
  in_measurement in_tag_key in_tag_value in_field_key : Mode
  in_value in_bare in_text after_text in_time : Mode

pub record Reader : Type 0 where
  pub mode : Mode
  -- The last byte was a backslash that opens an escape.
  pub escape : Bool
  -- What has been read of the current name or value, and the key that waits for its value.
  pub token : Bytes
  pub name : Bytes
  pub line : Line
  pub lines : List Line

abbrev pub blank_line : Line
blank_line = record { measurement = []; tags = []; fields = []; time = none }

-- At the start of a line, behind `lines`.
abbrev pub idle : List Line → Reader
idle lines = record {
  mode = in_measurement;
  escape = false;
  token = [];
  name = [];
  line = blank_line;
  lines = lines;
}

-- The current token is complete and not empty; go on in mode `m`.
abbrev finish_token : Reader → Reader → Option Reader
finish_token r next = if is_empty r.token then none else some (record next { token = [] })

abbrev pub named : Reader → Reader
named r = record r { line = record r.line { measurement = r.token } }

abbrev pub with_tag : Reader → Reader
with_tag r = record r {
  line = record r.line { tags = r.line.tags ++ (r.name, r.token) ∷ [] };
  name = [];
}

abbrev pub with_field : Reader → FieldText → Reader
with_field r v = record r {
  line = record r.line { fields = r.line.fields ++ (r.name, v) ∷ [] };
  name = [];
}

abbrev pub end_line : Reader → Reader
end_line r = idle (r.lines ++ r.line ∷ [])

abbrev append : Reader → ℕ → Option Reader
append r c = some (record r { token = r.token ++ c ∷ [] })

-- Inside a name: delimiters that may not stand there are refused, a backslash opens an escape.
abbrev in_name : Reader → ℕ → Option Reader
in_name r c =
    if c == b'\\'
    then some (record r { escape = true })
    else if c == b'\n' || c == b' ' || c == b',' || c == b'='
    then none
    else append r c

-- Behind a complete field value.
abbrev after_value : Reader → ℕ → Option Reader
after_value r c =
    if c == b','
    then some (record r { mode = in_field_key; token = [] })
    else if c == b' '
    then some (record r { mode = in_time; token = [] })
    else if c == b'\n'
    then some (end_line r)
    else none

unfoldable pub read_in : Mode → Reader → ℕ → Option Reader
read_in in_measurement r c =
    if c == b','
    then finish_token r (record (named r) { mode = in_tag_key })
    else if c == b' '
    then finish_token r (record (named r) { mode = in_field_key })
    else if c == b'='
    then append r c
    else in_name r c
read_in in_tag_key r c =
    if c == b'='
    then finish_token r (record r { name = r.token; mode = in_tag_value })
    else in_name r c
read_in in_tag_value r c =
    if c == b','
    then finish_token r (record (with_tag r) { mode = in_tag_key })
    else if c == b' '
    then finish_token r (record (with_tag r) { mode = in_field_key })
    else in_name r c
read_in in_field_key r c =
    if c == b'=' then finish_token r (record r { name = r.token; mode = in_value }) else in_name r c
read_in in_value r c =
    if c == b'"'
    then some (record r { mode = in_text })
    else if c == b'\\'
    then none
    else in_name (record r { mode = in_bare }) c
read_in in_bare r c =
    if c == b',' || c == b' ' || c == b'\n'
    then after_value (with_field r (bare r.token)) c
    else if c == b'"' || c == b'\\' || c == b'='
    then none
    else append r c
read_in in_text r c =
    if c == b'\\'
    then some (record r { escape = true })
    else if c == b'"'
    then some (record r { mode = after_text })
    else if c == b'\n'
    then none
    else append r c
read_in after_text r c = after_value (with_field r (quoted r.token)) c
read_in in_time r c =
    if c == b'\n'
    then (if is_empty r.token
        then none
        else some (end_line (record r { line = record r.line { time = some r.token } })))
    else if is_digit c || (is_empty r.token && c == b'-')
    then append r c
    else none

-- An escaped byte stands for itself.
unfoldable pub read : Reader → ℕ → Option Reader
unfolding read_in
read r c =
    if r.escape
    then (if c == b'\n' then none else append (record r { escape = false }) c)
    else read_in r.mode r c

abbrev pub bind_reader : Option Reader → (Reader → Option Reader) → Option Reader
bind_reader none f = none
bind_reader (some r) f = f r

unfoldable pub run : Reader → Bytes → Option Reader
unfolding read
run r [] = some r
run r (c ∷ cs) = bind_reader (read r c) (λ q. run q cs)

-- The reader accepts the batch, and these are its lines.
abbrev pub ReadsAs : Bytes → List Line → Type 0
ReadsAs b lines = run (idle []) b ≡ some (idle lines)
