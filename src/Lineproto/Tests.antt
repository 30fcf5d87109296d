-- ===== src/Lineproto/Tests.antt =====
-- Runs of the encoder, and the theorems about it at concrete points.
use observant_agent.Base.{
  ℕ, ◌+◌, ◌%◌, ◌^◌, true, false, List, [], ◌∷◌, ◌++◌, ◌≡◌, refl, arith, ◌==◌, select,
}
use observant_agent.Base.Clock.{unix_nano}
use observant_agent.Base.Decimal.{
  negsuc, format_uint, format_int, format_uint-AllDigits, format_uint-ne_nil,
}
use observant_agent.Base.Text.{Bytes, codes, bytes_eq, bytes_lt}
use observant_agent.Lineproto.Batch.{Call, adds, resets, calls, newlines, calls-new-points}
use observant_agent.Lineproto.Broken.{run-broken_value}
use observant_agent.Lineproto.Encoder.{new, point, tag_valid, sort_tags, count_valid}
use observant_agent.Lineproto.Escape.{esc_tag, write_escaped}
use observant_agent.Lineproto.Point.{
  Floats, Tag, Field, Value, float, int, bool, string, field_valid, write_value,
}
use observant_agent.Lineproto.Reader.{Line, blank_line, in_tag_value, in_field_key, run, ReadsAs}
use observant_agent.Lineproto.Reading.{reader}
use observant_agent.Lineproto.RoundTrip.{FormatsNumbers, written, ReadsAs-point}
use observant_agent.Lineproto.Sections.Values.{digit-bare}
use observant_agent.Lineproto.Tags.{Ascending, last_value, or_else, read_tags, point-tags}

-- Whole numbers in place of floats; 0 stands for NaN.
abbrev pub whole : Floats
whole = record {
  Float = ℕ;
  is_nan = λ n. n == 0;
  is_inf = λ _. false;
  of_uint64 = λ n. n + 1;
  format_float = format_uint;
}

pub whole-FormatsNumbers : FormatsNumbers whole
whole-FormatsNumbers = record {
  format_bare = λ n _ _. record {
    ne_nil = format_uint-ne_nil n;
    unquoted = digit-bare (format_uint n) (format_uint-AllDigits n);
  };
  uint_number = λ n. ground arith;
}

abbrev tag : Bytes → Bytes → Tag
tag k v = record { key = k; value = v }

abbrev field : Bytes → Value ℕ → Field ℕ
field k v = record { key = k; value = v }

abbrev pub base_tags : List Tag
base_tags = tag (codes "host") (codes "h,1") ∷ tag (codes "role") (codes "db") ∷ []

abbrev call_tags : List Tag
call_tags =
    tag (codes "role") (codes "web") ∷ tag (codes "a") (codes "x y") ∷ tag (codes "e") [] ∷ []

abbrev call_fields : List (Field ℕ)
call_fields =
    field (codes "n") (float 0)
    ∷ field (codes "v") (int (negsuc 6))
    ∷ field (codes "s") (string (codes "a\"b\n"))
    ∷ field (codes "t") (bool true)
    ∷ []

abbrev pub epoch_second : ℕ
epoch_second = 62_135_596_801_000_000_000

point_runs :
    (point whole (new base_tags) (codes "m") call_tags call_fields epoch_second).buf
    ≡ codes "m,a=x\\ y,host=h\\,1,role=web v=-7i,s=\"a\\\"b \",t=T 1000000000\n"
unfolding point new sort_tags write_escaped field_valid write_value format_uint format_int unix_nano
    bytes_lt bytes_eq
point_runs = refl

ReadsAs-point_example :
    ReadsAs
      (point whole (new base_tags) (codes "m") call_tags call_fields epoch_second).buf
      ([] ++ written whole base_tags (codes "m") call_tags call_fields epoch_second)
unfolding new run
ReadsAs-point_example =
    ReadsAs-point whole whole-FormatsNumbers (new base_tags) [] (codes "m") call_tags call_fields
      epoch_second refl (ground arith) (ground arith) (ground arith) (ground arith)

point-tags_example :
    (l : Line) × ReadsAs
      (point whole (new base_tags) (codes "m") call_tags call_fields epoch_second).buf
      ([] ++ l ∷ [])
    × Ascending (read_tags l)
    × ((k : Bytes)
        → last_value k (read_tags l)
          ≡ or_else
              (last_value k (select tag_valid call_tags))
              (last_value k (select tag_valid base_tags)))
unfolding new run count_valid field_valid
point-tags_example =
    point-tags whole (new base_tags) [] (codes "m") call_tags call_fields epoch_second
      whole-FormatsNumbers refl refl refl (ground arith) (ground arith) (ground arith)
      (ground arith)

abbrev two_calls : List (Call ℕ)
two_calls =
    adds (codes "m") call_tags call_fields 0
    ∷ resets
    ∷ adds (codes "m\n") call_tags call_fields 0
    ∷ []

calls-new-points_example :
    (calls whole (new base_tags) two_calls).points
    ≡ newlines (calls whole (new base_tags) two_calls).buf % 2 ^ 64
calls-new-points_example = calls-new-points whole whole-FormatsNumbers base_tags two_calls

run-broken_value_example :
    run
      (reader in_tag_value [] (codes "k") blank_line [])
      (write_escaped [] (codes "a" ++ b'\n' ∷ codes "b") esc_tag ++ codes " v=1i\n")
    ≡ run
        (reader in_field_key [] []
          (record blank_line { tags = [] ++ (codes "k", codes "a") ∷ [] })
          [])
        (write_escaped [] (codes "b") esc_tag ++ codes " v=1i\n")
run-broken_value_example =
    run-broken_value (codes "a") (codes "b") (codes "k") (codes " v=1i\n") b'\n' blank_line [] refl
      (ground arith) refl
