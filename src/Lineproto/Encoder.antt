-- ===== src/Lineproto/Encoder.antt =====
-- internal/lineproto/lineproto.go: `Encoder` and its methods.
use observant_agent.Base.{
  ℕ, ◌+◌, ◌%◌, ◌^◌, Bool, true, false, not, ◌&&◌, List, [], ◌∷◌, ◌++◌, ◌==◌, if◌then◌else◌,
  is_empty, length, select,
}
use observant_agent.Base.Clock.{Time, is_zero, unix_nano}
use observant_agent.Base.Decimal.{format_int}
use observant_agent.Base.Text.{Bytes, bytes_eq, bytes_lt}
use observant_agent.Lineproto.Escape.{esc_measurement, esc_tag, write_escaped}
use observant_agent.Lineproto.Point.{Floats, Tag, Field, field_valid, write_value}

pub record Encoder : Type 0 where
  pub buf : Bytes
  pub base : List Tag
  pub points : ℕ
  pub scratch : List Tag

unfoldable pub new : List Tag → Encoder
new base = record { buf = []; base = base; points = 0; scratch = [] }

-- `t.Key != "" && t.Value != ""`.
abbrev pub tag_valid : Tag → Bool
tag_valid t = not (is_empty t.key) && not (is_empty t.value)

-- `sort.SliceStable` by key. The order that a stable sort leaves is unique, so the method of
-- sorting does not show.
unfoldable pub insert_tag : Tag → List Tag → List Tag
insert_tag t [] = t ∷ []
insert_tag t (u ∷ us) = if bytes_lt u.key t.key then u ∷ insert_tag t us else t ∷ u ∷ us

unfoldable pub sort_tags : List Tag → List Tag
unfolding insert_tag
sort_tags [] = []
sort_tags (t ∷ ts) = insert_tag t (sort_tags ts)

-- `i+1 < len(e.scratch) && e.scratch[i+1].Key == t.Key`, on the entries behind `t`.
unfoldable pub repeats : Tag → List Tag → Bool
repeats t [] = false
repeats t (u ∷ us) = bytes_eq u.key t.key

unfoldable pub write_tag : Bytes → Tag → Bytes
write_tag buf t =
    write_escaped (write_escaped (buf ++ b',' ∷ []) t.key esc_tag ++ b'=' ∷ []) t.value esc_tag

-- The loop over the sorted tags; `continue` leaves the buffer as it is.
unfoldable pub write_tags : Bytes → List Tag → Bytes
unfolding write_tag repeats
write_tags buf [] = buf
write_tags buf (t ∷ ts) = write_tags (if repeats t ts then buf else write_tag buf t) ts

module _ (fl : Floats) where
  unfoldable pub write_field : Bytes → Bool → Field fl.Float → Bytes
  write_field buf first f =
      write_value fl
        (write_escaped (if first then buf else buf ++ b',' ∷ []) f.key esc_tag ++ b'=' ∷ []) f.value

  -- The loop over the fields, with its variable `first`.
  unfoldable pub write_fields : Bytes → Bool → List (Field fl.Float) → Bytes
  unfolding write_field
  write_fields buf first [] = buf
  write_fields buf first (f ∷ fs) =
      let valid = field_valid fl f in
      write_fields (if valid then write_field buf first f else buf) (first && not valid) fs

  -- The first loop of `Point`: the number of valid fields.
  unfoldable pub count_valid : List (Field fl.Float) → ℕ
  count_valid fs = length (select (field_valid fl) fs)

  unfoldable pub write_time : Bytes → Time → Bytes
  write_time buf ts = if is_zero ts then buf else (buf ++ b' ' ∷ []) ++ format_int (unix_nano ts)

  -- `Encoder.Point`. The counter is the bit pattern of an `int`, which has 64 bits.
  unfoldable pub point : Encoder → Bytes → List Tag → List (Field fl.Float) → Time → Encoder
  unfolding write_tags write_fields count_valid write_time
  point e measurement tags fields ts =
      if is_empty measurement
      then e
      else if count_valid fields == 0
      then e
      else let scratch = sort_tags (select tag_valid e.base ++ select tag_valid tags) in
        let named = write_escaped e.buf measurement esc_measurement in
        let tagged = write_tags named scratch ++ b' ' ∷ [] in
        let filled = write_fields tagged true fields in
        let timed = write_time filled ts in
        record e { buf = timed ++ b'\n' ∷ []; points = (e.points + 1) % 2 ^ 64; scratch = scratch }

-- `Bytes`, `String`, `Len` and `Points` read the state.
abbrev pub bytes : Encoder → Bytes
bytes e = e.buf

unfoldable pub len : Encoder → ℕ
len e = length e.buf

abbrev pub points : Encoder → ℕ
points e = e.points

unfoldable pub reset : Encoder → Encoder
reset e = record e { buf = []; points = 0 }
