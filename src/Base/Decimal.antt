-- ===== src/Base/Decimal.antt =====
-- `strconv.FormatUint(n, 10)` and `strconv.FormatInt(n, 10)`, and the reading of decimal digits.
use mathlib.Core.Bool.{Bool, true, false, ◌&&◌}
use mathlib.Core.List.{[], ◌∷◌}
use mathlib.Core.Option.{Option, none, some}
use mathlib.Core.Option
use mathlib.Core.Path.{◌≡◌, refl}
use Prim.Native.Nat.{ℕ, zero, suc, ◌+◌, ◌-◌, ◌*◌, ◌/◌, ◌%◌, ◌<◌}
use native.Mathlib.Omega.{arith}
use observant_agent.Base.Lists.{All, is_empty}
use observant_agent.Base.Tests.{◌==◌, leb, ltb, if◌then◌else◌}
use observant_agent.Base.Text.{Bytes}

-- `negsuc n` is -(n + 1).
pub data ℤ : Type 0 where
  pos : ℕ → ℤ
  negsuc : ℕ → ℤ

-- The digits of `n` in front of `acc`. The fuel is spent one unit a digit.
digits_onto : ℕ → ℕ → Bytes → Bytes
digits_onto zero n acc = acc
digits_onto (suc f) n acc =
    let rest = digits_onto f (n / 10) ((b'0' + n % 10) ∷ acc) in
    if ltb n 10 then (b'0' + n) ∷ acc else rest

unfoldable pub format_uint : ℕ → Bytes
unfolding digits_onto
format_uint n = digits_onto (suc n) n []

unfoldable pub format_int : ℤ → Bytes
unfolding format_uint
format_int (pos n) = format_uint n
format_int (negsuc n) = b'-' ∷ format_uint (suc n)

abbrev pub is_digit : ℕ → Bool
is_digit c = leb b'0' c && leb c b'9'

-- Reads digits to the end of the text.
unfoldable pub parse_digits : ℕ → Bytes → Option ℕ
parse_digits n [] = some n
parse_digits n (c ∷ cs) = if is_digit c then parse_digits (n * 10 + (c - b'0')) cs else none

-- The decimal text of an integer, read back: an optional sign, then digits.
unfoldable pub parse_int : Bytes → Option ℤ
unfolding parse_digits
parse_int [] = none
parse_int (c ∷ cs) =
    if c == b'-'
    then Option.map (λ n. negsuc (n - 1)) (parse_digits 0 cs)
    else Option.map pos (parse_digits 0 (c ∷ cs))

parse_digits-digits_onto :
    (f n : ℕ) (acc : Bytes) → n < f → parse_digits 0 (digits_onto f n acc) ≡ parse_digits n acc
unfolding parse_digits digits_onto
parse_digits-digits_onto zero n acc h = elim h [ ]
parse_digits-digits_onto (suc f) n acc h =
    ground (arith, parse_digits-digits_onto f (n / 10) ((b'0' + n % 10) ∷ acc))

pub parse_digits-format_uint : (n : ℕ) → parse_digits 0 (format_uint n) ≡ some n
unfolding format_uint parse_digits
parse_digits-format_uint n = parse_digits-digits_onto (suc n) n [] (omega arith)

abbrev pub AllDigits : Bytes → Type 0
AllDigits = All (λ c. is_digit c ≡ true)

digits_onto-AllDigits : (f n : ℕ) (acc : Bytes) → AllDigits acc → AllDigits (digits_onto f n acc)
unfolding digits_onto
digits_onto-AllDigits zero n acc h = h
digits_onto-AllDigits (suc f) n acc h =
    ground (arith, digits_onto-AllDigits f (n / 10) ((b'0' + n % 10) ∷ acc))

pub format_uint-AllDigits : (n : ℕ) → AllDigits (format_uint n)
unfolding format_uint
format_uint-AllDigits n = digits_onto-AllDigits (suc n) n [] tt

digits_onto-ne_nil :
    (f n : ℕ) (acc : Bytes) → is_empty acc ≡ false → is_empty (digits_onto f n acc) ≡ false
unfolding digits_onto
digits_onto-ne_nil zero n acc h = h
digits_onto-ne_nil (suc f) n acc h =
    ground (arith, digits_onto-ne_nil f (n / 10) ((b'0' + n % 10) ∷ acc))

pub format_uint-ne_nil : (n : ℕ) → is_empty (format_uint n) ≡ false
unfolding format_uint
format_uint-ne_nil n = ground (arith, digits_onto-ne_nil n (n / 10) ((b'0' + n % 10) ∷ []) refl)
