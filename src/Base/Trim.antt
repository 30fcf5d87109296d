-- ===== src/Base/Trim.antt =====
-- `strings.TrimSpace` on UTF-8 bytes: the code points that `unicode.IsSpace` accepts.
use mathlib.Core.Bool.{Bool, ◌&&◌, ◌||◌}
use mathlib.Core.List.{[], ◌∷◌, reverse}
use mathlib.Core.Option.{Option, none, some}
use Prim.Native.Nat.{ℕ, zero, suc}
use observant_agent.Base.Lists.{length}
use observant_agent.Base.Tests.{◌==◌, leb, if◌then◌else◌}
use observant_agent.Base.Text.{Bytes}

-- '\t', '\n', '\v', '\f', '\r' and ' '.
abbrev pub is_ascii_space : ℕ → Bool
is_ascii_space c = (leb 9 c && leb c 13) || c == b' '

-- U+0085 and U+00A0, in two bytes.
abbrev pub is_space_2 : ℕ → ℕ → Bool
is_space_2 a b = a == 0xc2 && (b == 0x85 || b == 0xa0)

-- U+1680, U+2000 to U+200A, U+2028, U+2029, U+202F, U+205F and U+3000, in three bytes.
abbrev pub is_space_3 : ℕ → ℕ → ℕ → Bool
is_space_3 a b c =
    (a == 0xe1 && b == 0x9a && c == 0x80)
    || (a == 0xe2
        && b == 0x80
        && ((leb 0x80 c && leb c 0x8a) || c == 0xa8 || c == 0xa9 || c == 0xaf))
    || (a == 0xe2 && b == 0x81 && c == 0x9f)
    || (a == 0xe3 && b == 0x80 && c == 0x80)

-- The text behind one white space at its start.
unfoldable pub strip_left : Bytes → Option Bytes
strip_left [] = none
strip_left (a ∷ []) = if is_ascii_space a then some [] else none
strip_left (a ∷ b ∷ []) =
    if is_ascii_space a then some (b ∷ []) else if is_space_2 a b then some [] else none
strip_left (a ∷ b ∷ c ∷ s) =
    if is_ascii_space a
    then some (b ∷ c ∷ s)
    else if is_space_2 a b
    then some (c ∷ s)
    else if is_space_3 a b c
    then some s
    else none

-- The same at the end of a text that is given from its end.
unfoldable pub strip_right : Bytes → Option Bytes
strip_right [] = none
strip_right (c ∷ []) = if is_ascii_space c then some [] else none
strip_right (c ∷ b ∷ []) =
    if is_ascii_space c then some (b ∷ []) else if is_space_2 b c then some [] else none
strip_right (c ∷ b ∷ a ∷ s) =
    if is_ascii_space c
    then some (b ∷ a ∷ s)
    else if is_space_2 b c
    then some (a ∷ s)
    else if is_space_3 a b c
    then some s
    else none

-- Every round takes a byte at least, so the length of the text is fuel enough.
unfoldable pub strip_all : ℕ → (Bytes → Option Bytes) → Bytes → Bytes
strip_all zero strip s = s
strip_all (suc f) strip s = elim (strip s) [ none ↦ s | some r ↦ strip_all f strip r ]

unfoldable pub trim_space : Bytes → Bytes
unfolding strip_left strip_right strip_all
trim_space s =
    let left = strip_all (length s) strip_left s in
    reverse (strip_all (length left) strip_right (reverse left))
