-- ===== src/Base/Results.antt =====
-- A value or an error, for chains of calls that may fail.
use mathlib.Core.Bool.{Bool, true, false}
use mathlib.Core.Path.{◌≡◌, refl, ap, ◌∙◌}

pub data Result (E : Type 0) (V : Type 0) : Type 0 where
  ok : V → Result E V
  err : E → Result E V

-- `if err != nil { return err }`, then go on with the value.
infixl 5 ◌>>=◌
abbrev pub ◌>>=◌ : {E V W : Type 0} → Result E V → (V → Result E W) → Result E W
err failure >>= next = err failure
ok value >>= next = next value

infixl 5 ◌>>◌
abbrev pub ◌>>◌ : {E W : Type 0} → Result E (Unit {0}) → Result E W → Result E W
check >> next = check >>= (λ done. next)

-- `if !test { return failure }`.
abbrev pub require : {E : Type 0} → Bool → E → Result E (Unit {0})
require true failure = ok tt
require false failure = err failure

pub require-eq-ok :
    {E : Type 0} (b : Bool) (failure : E) {u : Unit {0}} → require b failure ≡ ok u → b ≡ true
require-eq-ok true failure h = refl
require-eq-ok false failure h = cc

pub require-ok : {E : Type 0} (b : Bool) (failure : E) → b ≡ true → require b failure ≡ ok tt
require-ok true failure h = refl
require-ok false failure h = cc

pub ok_injective : {E V : Type 0} {v w : V} → ◌≡◌ {A = Result E V} (ok v) (ok w) → v ≡ w
ok_injective h = cc

-- Where the whole chain succeeds, so does its first call.
pub >>=-split :
    {E V W : Type 0} (first : Result E V) (next : V → Result E W) {w : W}
    → (first >>= next) ≡ ok w
    → (v : V) × (first ≡ ok v) × (next v ≡ ok w)
>>=-split (err failure) next h = cc
>>=-split (ok v) next h = (v, refl, h)

-- A chain whose first call succeeds goes on with its value.
pub >>=-ok :
    {E V W : Type 0} (first : Result E V) (next : V → Result E W) {v : V} {r : Result E W}
    → first ≡ ok v
    → next v ≡ r
    → (first >>= next) ≡ r
>>=-ok (err failure) next h k = cc
>>=-ok (ok v) next h k = ap next (ok_injective h) ∙ k
