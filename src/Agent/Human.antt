-- ===== src/Agent/Human.antt =====
-- cmd/observant-agent/main.go: `human`, which prints a number of bytes with its unit.
use observant_agent.Base.{
  ℕ, zero, suc, ◌+◌, ◌*◌, ◌/◌, ◌%◌, ◌^◌, ◌≤◌, ◌<◌, ◌&&◌, [], ◌∷◌, ◌++◌, Option, none, some, ◌≡◌,
  refl, ◌⊎◌, inl, inr, arith, ltb, leb, if◌then◌else◌, Bool-cases,
}
use observant_agent.Base.Decimal.{format_uint}
use observant_agent.Base.Text.{Bytes, codes}
use observant_agent.Docker.Sample.{Arith}

-- `for n := b / unit; n >= unit && exp < 4; n /= unit`, with fuel; `none` means that it ran out.
unfoldable pub scale : ℕ → ℕ → ℕ → ℕ → Option (ℕ × ℕ)
scale zero n div exp = none
scale (suc fuel) n div exp =
    let rest = scale fuel (n / 1024) (div * 1024 % 2 ^ 64) (exp + 1) in
    if leb 1024 n && ltb exp 4 then rest else some (div, exp)

-- `"KMGTP"[exp]`.
abbrev pub unit_letter : ℕ → ℕ
unit_letter zero = b'K'
unit_letter (suc zero) = b'M'
unit_letter (suc (suc zero)) = b'G'
unit_letter (suc (suc (suc zero))) = b'T'
unit_letter (suc (suc (suc (suc n)))) = b'P'

-- The loop ends within five rounds, at the largest unit that is at most the number.
scale_total :
    (b : ℕ)
    → 1024 ≤ b
    → (exp : ℕ) × (exp ≤ 4)
      × (1024 ^ (exp + 1) ≤ b)
      × ((exp ≡ 4) ⊎ (b < 1024 ^ (exp + 2)))
      × (scale 5 (b / 1024) 1024 0 ≡ some (1024 ^ (exp + 1), exp))
unfolding scale
scale_total b h = elim (Bool-cases (ltb b (1024 ^ 2))) [
  | inl k ↦ (0, omega arith, ground arith, inr (ground arith), ground arith)
  | inr m ↦ elim (Bool-cases (ltb b (1024 ^ 3))) [
    | inl k ↦ (1, omega arith, ground arith, inr (ground arith), ground arith)
    | inr g ↦ elim (Bool-cases (ltb b (1024 ^ 4))) [
      | inl k ↦ (2, omega arith, ground arith, inr (ground arith), ground arith)
      | inr t ↦ elim (Bool-cases (ltb b (1024 ^ 5))) [
        | inl k ↦ (3, omega arith, ground arith, inr (ground arith), ground arith)
        | inr p ↦ (4, omega arith, ground arith, inl refl, ground arith)
      ]
    ]
  ]
]

module _ (ar : Arith) (fixed : ℕ → ar.floats.Float → Bytes) where
  open ar use {floats, div}
  open floats use {of_uint64}

  -- `fmt.Sprintf("%.1f %ciB", …)`; `fixed n` prints a float with `n` digits behind the point.
  abbrev pub scaled_text : ℕ → ℕ → ℕ → Bytes
  scaled_text b unit exp =
      fixed 1 (div (of_uint64 b) (of_uint64 unit)) ++ (b' ' ∷ unit_letter exp ∷ codes "iB")

  abbrev pub scaled : ℕ → Option (ℕ × ℕ) → Bytes
  scaled b none = []
  scaled b (some (unit, exp)) = scaled_text b unit exp

  -- The loop ends after four rounds.
  unfoldable pub human : ℕ → Bytes
  unfolding scale
  human b = if ltb b 1024 then format_uint b ++ codes " B" else scaled b (scale 5 (b / 1024) 1024 0)

  -- `human` prints the bytes as they are below 1024; otherwise it ends with the largest of the five
  -- units, from 1024 to 1024^5 bytes, that is at most the number.
  pub human_lem :
      (b : ℕ)
      → ((b < 1024) × (human b ≡ format_uint b ++ codes " B"))
        ⊎ ((exp : ℕ) × (exp ≤ 4)
            × (1024 ^ (exp + 1) ≤ b)
            × ((exp ≡ 4) ⊎ (b < 1024 ^ (exp + 2)))
            × (human b ≡ scaled_text b (1024 ^ (exp + 1)) exp))
  unfolding human
  human_lem b = elim (Bool-cases (ltb b 1024)) [
    | inl small ↦ inl (ground arith, rw small)
    | inr big ↦
        let (exp, few, fits, largest, found) = scale_total b (ground arith) in
        inr (exp, few, fits, largest, rw (big, found) refl)
  ]
