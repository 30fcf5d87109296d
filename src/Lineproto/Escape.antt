-- ===== src/Lineproto/Escape.antt =====
-- internal/lineproto/lineproto.go: `escapeClass` and `writeEscaped`.
use mathlib.Core.List.{append_assoc}
use observant_agent.Base.{ℕ, Bool, ◌||◌, [], ◌∷◌, ◌++◌, ◌≡◌, refl, ◌∙◌, arith, ◌==◌, if◌then◌else◌}
use observant_agent.Base.Text.{Bytes}

pub data EscapeClass : Type 0 where
  esc_measurement esc_tag esc_string : EscapeClass

-- The inner switch: the bytes that get a backslash in each class.
unfoldable pub needs_backslash : EscapeClass → ℕ → Bool
needs_backslash esc_measurement c = c == b',' || c == b' ' || c == b'\\'
needs_backslash esc_tag c = c == b',' || c == b' ' || c == b'=' || c == b'\\'
needs_backslash esc_string c = c == b'"' || c == b'\\'

-- `c == '\n' || c == '\r'`.
abbrev pub is_line_break : ℕ → Bool
is_line_break c = c == b'\n' || c == b'\r'

-- One round of the loop: the buffer after byte `c`.
unfoldable pub escape_byte : Bytes → ℕ → EscapeClass → Bytes
unfolding needs_backslash
escape_byte buf c class =
    if is_line_break c
    then buf ++ b' ' ∷ []
    else (if needs_backslash class c then buf ++ b'\\' ∷ [] else buf) ++ c ∷ []

unfoldable pub write_escaped : Bytes → Bytes → EscapeClass → Bytes
unfolding escape_byte
write_escaped buf [] class = buf
write_escaped buf (c ∷ s) class = write_escaped (escape_byte buf c class) s class

-- What one byte puts in front of the rest of the output.
abbrev pub escaped_byte : EscapeClass → ℕ → Bytes → Bytes
escaped_byte class c rest =
    if is_line_break c
    then b' ' ∷ rest
    else if needs_backslash class c
    then b'\\' ∷ c ∷ rest
    else c ∷ rest

-- The escaped text in front of `rest`.
abbrev pub escaped : EscapeClass → Bytes → Bytes → Bytes
escaped class [] rest = rest
escaped class (c ∷ s) rest = escaped_byte class c (escaped class s rest)

escape_byte-escaped_byte :
    (class : EscapeClass) (buf : Bytes) (c : ℕ) (rest : Bytes)
    → escape_byte buf c class ++ rest ≡ buf ++ escaped_byte class c rest
unfolding escape_byte
escape_byte-escaped_byte class buf c rest = ground (
  arith,
  append_assoc buf (b' ' ∷ []) rest,
  append_assoc buf (c ∷ []) rest,
  append_assoc (buf ++ b'\\' ∷ []) (c ∷ []) rest,
  append_assoc buf (b'\\' ∷ []) (c ∷ rest),
)

pub write_escaped-escaped :
    (class : EscapeClass) (buf s rest : Bytes)
    → write_escaped buf s class ++ rest ≡ buf ++ escaped class s rest
unfolding write_escaped
write_escaped-escaped class buf [] rest = refl
write_escaped-escaped class buf (c ∷ s) rest =
    write_escaped-escaped class (escape_byte buf c class) s rest
    ∙ escape_byte-escaped_byte class buf c (escaped class s rest)

pub escaped-append :
    (class : EscapeClass) (s rest more : Bytes)
    → escaped class s rest ++ more ≡ escaped class s (rest ++ more)
escaped-append class [] rest more = refl
escaped-append class (c ∷ s) rest more = ground (arith, escaped-append class s rest more)
