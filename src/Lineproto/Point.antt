-- ===== src/Lineproto/Point.antt =====
-- internal/lineproto/lineproto.go: tags, fields and their values, and `writeValue`.
use Prim.Native.String.{String}
use observant_agent.Base.{
  ℕ, ◌-◌, ◌^◌, Bool, true, false, not, ◌&&◌, [], ◌∷◌, ◌++◌, leb, if◌then◌else◌, is_empty,
}
use observant_agent.Base.Decimal.{ℤ, format_uint, format_int}
use observant_agent.Base.Text.{Bytes, codes}
use observant_agent.Lineproto.Escape.{esc_string, write_escaped}

-- `float64` with what the encoder uses of it: the tests of package math, the conversion of a
-- `uint64` and `strconv.FormatFloat(f, 'g', -1, 64)`.
pub record Floats : Type 1 where
  pub Float : Type 0
  pub is_nan : Float → Bool
  pub is_inf : Float → Bool
  pub of_uint64 : ℕ → Float
  pub format_float : Float → Bytes

pub record Tag : Type 0 where
  pub key : Bytes
  pub value : Bytes

-- The dynamic types that `writeValue` tells apart; `other` is a value of any other type.
pub data Value (F : Type 0) : Type 0 where
  float : F → Value F
  int : ℤ → Value F
  uint : ℕ → Value F
  bool : Bool → Value F
  string : Bytes → Value F
  nil : Value F
  other : Value F

pub record Field (F : Type 0) : Type 0 where
  pub key : Bytes
  pub value : Value F

-- `math.MaxInt64`.
abbrev pub max_int64 : ℕ
max_int64 = 2 ^ 63 - 1

module _ (fl : Floats) where
  open fl use {Float, is_nan, is_inf, of_uint64, format_float}

  -- The second half of `fieldValid`, behind the test of the key.
  abbrev pub value_valid : Value Float → Bool
  value_valid (float v) = not (is_nan v) && not (is_inf v)
  value_valid nil = false
  value_valid (int _) = true
  value_valid (uint _) = true
  value_valid (bool _) = true
  value_valid (string _) = true
  value_valid other = true

  unfoldable pub field_valid : Field Float → Bool
  field_valid f = if is_empty f.key then false else value_valid f.value

  unfoldable pub write_value : Bytes → Value Float → Bytes
  write_value buf (float v) = buf ++ format_float v
  write_value buf (int v) = (buf ++ format_int v) ++ b'i' ∷ []
  write_value buf (uint v) =
      if leb v max_int64
      then (buf ++ format_uint v) ++ b'i' ∷ []
      else buf ++ format_float (of_uint64 v)
  write_value buf (bool v) = if v then buf ++ b'T' ∷ [] else buf ++ b'F' ∷ []
  write_value buf (string v) = write_escaped (buf ++ b'"' ∷ []) v esc_string ++ b'"' ∷ []
  write_value buf nil = buf
  write_value buf other = buf

  -- The constructors `S`, `U`, `I` and `F`, with the key as a text.
  abbrev pub str : String → Bytes → Field Float
  str key v = record { key = codes key; value = string v }

  abbrev pub unsigned : String → ℕ → Field Float
  unsigned key v = record { key = codes key; value = uint v }

  abbrev pub signed : String → ℤ → Field Float
  signed key v = record { key = codes key; value = int v }

  abbrev pub real : String → Float → Field Float
  real key v = record { key = codes key; value = float v }
