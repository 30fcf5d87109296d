-- ===== src/Lineproto/Broken.antt =====
-- A line break in a tag value. `writeEscaped` replaces it by a space and, unlike a space of the
-- text, leaves that space without a backslash, so it ends the tags of the line.
use observant_agent.Base.{
  ℕ, true, false, ◌||◌, List, [], ◌∷◌, ◌++◌, ◌≡◌, ◌∙◌, arith, ◌==◌, is_empty,
}
use observant_agent.Base.Text.{Bytes}
use observant_agent.Lineproto.Escape.{esc_tag, escaped, write_escaped, write_escaped-escaped}
use observant_agent.Lineproto.Reader.{in_tag_value, in_field_key, Line, run}
use observant_agent.Lineproto.Reading.{reader, NoBreaks, tag_value, run-name}

escaped-break :
    (a b rest : Bytes) (c : ℕ)
    → (c == b'\n' || c == b'\r') ≡ true
    → escaped esc_tag (a ++ c ∷ b) rest ≡ escaped esc_tag a (b' ' ∷ escaped esc_tag b rest)
escaped-break [] b rest c h = ground arith
escaped-break (x ∷ a) b rest c h = ground (arith, escaped-break a b rest c h)

run-space :
    (a k : Bytes) (line : Line) (lines : List Line) (rest : Bytes)
    → is_empty a ≡ false
    → run (reader in_tag_value a k line lines) (b' ' ∷ rest)
      ≡ run (reader in_field_key [] [] (record line { tags = line.tags ++ (k, a) ∷ [] }) lines) rest
unfolding run
run-space a k line lines rest h = ground arith

-- A tag value with a line break is cut there: after the value that `writeEscaped` puts down for
-- it, the reader has only the part in front of the break (which is not empty and has no break), and
-- reads the rest of the value as the key of the first field.
pub run-broken_value :
    (a b k rest : Bytes) (c : ℕ) (line : Line) (lines : List Line)
    → is_empty a ≡ false
    → NoBreaks a
    → (c == b'\n' || c == b'\r') ≡ true
    → run (reader in_tag_value [] k line lines) (write_escaped [] (a ++ c ∷ b) esc_tag ++ rest)
      ≡ run
          (reader in_field_key [] [] (record line { tags = line.tags ++ (k, a) ∷ [] }) lines)
          (write_escaped [] b esc_tag ++ rest)
run-broken_value a b k rest c line lines e n h =
    rw
      (
        write_escaped-escaped esc_tag [] (a ++ c ∷ b) rest,
        write_escaped-escaped esc_tag [] b rest,
        escaped-break a b rest c h,
      )
      (run-name k line lines tag_value a [] _ n ∙ run-space a k line lines _ e)
