-- ===== src/Lineproto/Reading.antt =====
-- The reader over one piece of a line, with any bytes behind it.
use mathlib.Core.List.{append-nil, append_assoc}
use observant_agent.Base.{
  ℕ, Bool, true, false, ◌||◌, not, List, [], ◌∷◌, ◌++◌, ◌≡◌, ◌∙◌, arith, ◌==◌, if◌then◌else◌, All,
  is_empty, map,
}
use observant_agent.Base.Decimal.{AllDigits}
use observant_agent.Base.Text.{Bytes}
use observant_agent.Lineproto.Escape.{
  EscapeClass, esc_measurement, esc_tag, esc_string, needs_backslash, is_line_break, escaped,
  escaped_byte,
}
use observant_agent.Lineproto.Reader.{
  Mode, in_measurement, in_tag_key, in_tag_value, in_field_key, in_value, in_bare, in_text, in_time,
  Reader, Line, run,
}

-- A reader between two bytes, with no escape open.
abbrev pub reader : Mode → Bytes → Bytes → Line → List Line → Reader
reader mode token name line lines = record {
  mode = mode;
  escape = false;
  token = token;
  name = name;
  line = line;
  lines = lines;
}

-- No byte of the text ends a line.
abbrev pub NoBreaks : Bytes → Type 0
NoBreaks = All (λ c. is_line_break c ≡ false)

-- A line break becomes a space, and nothing else changes.
abbrev pub flatten : Bytes → Bytes
flatten = map (λ c. if is_line_break c then b' ' else c)

-- The names of a line and the class in which the encoder escapes them.
pub data NameIn : Mode → EscapeClass → Type 0 where
  measurement : NameIn in_measurement esc_measurement
  tag_key : NameIn in_tag_key esc_tag
  tag_value : NameIn in_tag_value esc_tag
  field_key : NameIn in_field_key esc_tag

-- A byte that stands for itself in a value without quotes.
abbrev pub is_bare : ℕ → Bool
is_bare c = not (c == b',' || c == b' ' || c == b'\n' || c == b'"' || c == b'\\' || c == b'=')

module _ (name : Bytes) (line : Line) (lines : List Line) where
  run-name_byte :
      {m : Mode} {class : EscapeClass}
      → NameIn m class
      → (c : ℕ) (token rest : Bytes) → is_line_break c ≡ false
      → run (reader m token name line lines) (escaped_byte class c rest)
        ≡ run (reader m (token ++ c ∷ []) name line lines) rest
  unfolding run needs_backslash
  run-name_byte measurement c token rest h = ground arith
  run-name_byte tag_key c token rest h = ground arith
  run-name_byte tag_value c token rest h = ground arith
  run-name_byte field_key c token rest h = ground arith

  -- An escaped name is read back, as far as it goes.
  pub run-name :
      {m : Mode} {class : EscapeClass}
      → NameIn m class
      → (s token rest : Bytes) → NoBreaks s
      → run (reader m token name line lines) (escaped class s rest)
        ≡ run (reader m (token ++ s) name line lines) rest
  run-name n [] token rest h = rw append-nil
  run-name {class = class} n (c ∷ s) token rest h =
      run-name_byte n c token (escaped class s rest) h.0
      ∙ run-name n s (token ++ c ∷ []) rest h.1
      ∙ rw append_assoc

  run-text_byte :
      (c : ℕ) (token rest : Bytes)
      → run (reader in_text token name line lines) (escaped_byte esc_string c rest)
        ≡ run (reader in_text (token ++ flatten (c ∷ [])) name line lines) rest
  unfolding run needs_backslash
  run-text_byte c token rest = ground arith

  -- An escaped text is read back with its line breaks flattened.
  pub run-text :
      (s token rest : Bytes)
      → run (reader in_text token name line lines) (escaped esc_string s rest)
        ≡ run (reader in_text (token ++ flatten s) name line lines) rest
  run-text [] token rest = rw append-nil
  run-text (c ∷ s) token rest =
      run-text_byte c token (escaped esc_string s rest)
      ∙ run-text s (token ++ flatten (c ∷ [])) rest
      ∙ rw append_assoc

  run-bare_tail :
      (s token rest : Bytes)
      → All (λ c. is_bare c ≡ true) s
      → run (reader in_bare token name line lines) (s ++ rest)
        ≡ run (reader in_bare (token ++ s) name line lines) rest
  unfolding run
  run-bare_tail [] token rest h = rw append-nil
  run-bare_tail (c ∷ s) token rest h =
      ground (arith, run-bare_tail s (token ++ c ∷ []) rest, append_assoc token (c ∷ []) s)

  pub run-bare :
      (s rest : Bytes)
      → is_empty s ≡ false
      → All (λ c. is_bare c ≡ true) s
      → run (reader in_value [] name line lines) (s ++ rest)
        ≡ run (reader in_bare s name line lines) rest
  unfolding run
  run-bare [] rest e h = cc
  run-bare (c ∷ s) rest e h = ground (arith, run-bare_tail s (c ∷ []) rest)

  pub run-digits :
      (s token rest : Bytes)
      → AllDigits s
      → run (reader in_time token name line lines) (s ++ rest)
        ≡ run (reader in_time (token ++ s) name line lines) rest
  unfolding run
  run-digits [] token rest h = rw append-nil
  run-digits (c ∷ s) token rest h =
      ground (arith, run-digits s (token ++ c ∷ []) rest, append_assoc token (c ∷ []) s)
