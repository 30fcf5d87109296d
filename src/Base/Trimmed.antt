-- ===== src/Base/Trimmed.antt =====
-- The rounds of `trim_space` are enough: what it returns has no white space at either end.
use mathlib.Core.List.{reverse, reverse-append, reverse-cons, append_assoc, reverse-reverse}
use observant_agent.Base.Lists.{length, length-append}
use Prim.Native.Nat.{ℕ, zero, suc, ◌≤◌, ◌<◌}
use mathlib.Core.List.{[], ◌∷◌, ◌++◌}
use mathlib.Core.Logic.{inl, inr}
use mathlib.Core.Option.{Option, none, some}
use mathlib.Core.Path.{◌≡◌, refl, sym, subst, ◌∙◌, ap}
use native.Mathlib.Omega.{arith}
use observant_agent.Base.Tests.{Option-cases, Bool-cases}
use observant_agent.Base.Text.{Bytes}
use observant_agent.Base.Trim.{
  strip_left, strip_right, strip_all, trim_space, is_ascii_space, is_space_2,
}

abbrev pub Trimmed : Bytes → Type 0
Trimmed s = (strip_left s ≡ none) × (strip_right (reverse s) ≡ none)

-- What is stripped off stands in front of the rest.
abbrev Strips : (Bytes → Option Bytes) → Type 0
Strips f = (s r : Bytes) → f s ≡ some r → (x : Bytes) × (s ≡ x ++ r) × (0 < length x)

strip_left-Strips : Strips strip_left
unfolding strip_left
strip_left-Strips [] r h = cc
strip_left-Strips (a ∷ []) r h = (a ∷ [], ground arith, omega arith)
strip_left-Strips (a ∷ b ∷ []) r h = elim (Bool-cases (is_ascii_space a)) [
  | inl one ↦ (a ∷ [], ground arith, omega arith)
  | inr more ↦ (a ∷ b ∷ [], ground arith, omega arith)
]
strip_left-Strips (a ∷ b ∷ c ∷ s) r h = elim (Bool-cases (is_ascii_space a)) [
  | inl one ↦ (a ∷ [], ground arith, omega arith)
  | inr more ↦ elim (Bool-cases (is_space_2 a b)) [
    | inl two ↦ (a ∷ b ∷ [], ground arith, omega arith)
    | inr most ↦ (a ∷ b ∷ c ∷ [], ground arith, omega arith)
  ]
]

strip_right-Strips : Strips strip_right
unfolding strip_right
strip_right-Strips [] r h = cc
strip_right-Strips (a ∷ []) r h = (a ∷ [], ground arith, omega arith)
strip_right-Strips (a ∷ b ∷ []) r h = elim (Bool-cases (is_ascii_space a)) [
  | inl one ↦ (a ∷ [], ground arith, omega arith)
  | inr more ↦ (a ∷ b ∷ [], ground arith, omega arith)
]
strip_right-Strips (a ∷ b ∷ c ∷ s) r h = elim (Bool-cases (is_ascii_space a)) [
  | inl one ↦ (a ∷ [], ground arith, omega arith)
  | inr more ↦ elim (Bool-cases (is_space_2 b a)) [
    | inl two ↦ (a ∷ b ∷ [], ground arith, omega arith)
    | inr most ↦ (a ∷ b ∷ c ∷ [], ground arith, omega arith)
  ]
]

strip_left-prefix : (p q : Bytes) → strip_left (p ++ q) ≡ none → strip_left p ≡ none
unfolding strip_left
strip_left-prefix [] q h = refl
strip_left-prefix (a ∷ []) [] h = h
strip_left-prefix (a ∷ []) (b ∷ []) h = ground arith
strip_left-prefix (a ∷ []) (b ∷ c ∷ q) h = ground arith
strip_left-prefix (a ∷ b ∷ []) [] h = h
strip_left-prefix (a ∷ b ∷ []) (c ∷ q) h = ground arith
strip_left-prefix (a ∷ b ∷ c ∷ p) q h = ground arith

module _ (strip : Bytes → Option Bytes) (strips : Strips strip) where
  strip_nil : strip [] ≡ none
  strip_nil = elim (Option-cases (strip [])) [
    | inl stop ↦ stop
    | inr (r, more) ↦
        let (x, e, p) = strips [] r more in absurd (omega (arith, ap length e, length-append x r))
  ]

  strip_all-stops : (f : ℕ) (s : Bytes) → length s ≤ f → strip (strip_all f strip s) ≡ none
  unfolding strip_all
  strip_all-stops zero [] h = strip_nil
  strip_all-stops zero (c ∷ s) h = absurd (omega arith)
  strip_all-stops (suc f) s h = elim (Option-cases (strip s)) [
    | inl stop ↦ rw (stop, strip_all) stop
    | inr (r, more) ↦
        let (x, e, p) = strips s r more in
        rw (more, strip_all) (strip_all-stops f r (omega (arith, ap length e, length-append x r)))
  ]

  strip_all-suffix : (f : ℕ) (s : Bytes) → (x : Bytes) × (s ≡ x ++ strip_all f strip s)
  unfolding strip_all
  strip_all-suffix zero s = ([], refl)
  strip_all-suffix (suc f) s = elim (Option-cases (strip s)) [
    | inl stop ↦ ([], rw (stop, strip_all) refl)
    | inr (r, more) ↦
        let (x, e, p) = strips s r more in
        let (y, d) = strip_all-suffix f r in
        (x ++ y, rw (more, strip_all) (e ∙ ap (λ t. x ++ t) d ∙ sym (append_assoc x y _)))
  ]

length-reverse : (s : Bytes) → length (reverse s) ≡ length s
length-reverse [] = refl
length-reverse (c ∷ s) =
    ap length (reverse-cons c s)
    ∙ omega (arith, length-append (reverse s) (c ∷ []), length-reverse s)

pub trim_space-Trimmed : (s : Bytes) → Trimmed (trim_space s)
unfolding trim_space
trim_space-Trimmed s =
    let left = strip_all (length s) strip_left s in
    let right = strip_all (length left) strip_right (reverse left) in
    let (x, e) = strip_all-suffix strip_right strip_right-Strips (length left) (reverse left) in
    let whole : left ≡ reverse right ++ reverse x =
      sym (reverse-reverse left) ∙ ap reverse e ∙ reverse-append x right in
    let stuck : strip_left (reverse right ++ reverse x) ≡ none =
      subst (λ t. strip_left t ≡ none) whole
        (strip_all-stops strip_left strip_left-Strips (length s) s (omega arith)) in
    (
      strip_left-prefix (reverse right) (reverse x) stuck,
      subst (λ t. strip_right t ≡ none) (sym (reverse-reverse right))
          (strip_all-stops strip_right strip_right-Strips (length left) (reverse left)
            (omega (arith, length-reverse left))),
    )
