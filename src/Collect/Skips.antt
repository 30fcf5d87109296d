-- ===== src/Collect/Skips.antt =====
-- What the filters of mounts and interfaces let through.
use mathlib.Core.List.{append-nil}
use observant_agent.Base.{
  ℕ, Bool, true, false, ◌&&◌, ◌||◌, List, [], ◌∷◌, ◌++◌, ◌≡◌, refl, sym, ap, ◌∙◌, ◌⊎◌, inl, inr,
  ◌↔◌, arith, any, length, drop, Bool-cases,
}
use observant_agent.Base.Decimal.{AllDigits}
use observant_agent.Base.Text.{Bytes, codes, bytes_eq, bytes_eq_iff, has_prefix, has_prefix_iff}
use observant_agent.Collect.Filters.{
  skip_mount_prefixes, skip_mount, skip_iface_prefixes, skip_iface_any_prefixes, is_digits,
  skip_interface,
}

-- An element of the list has the property.
abbrev pub Some {ℓ} : {A : Type ℓ} → (A → Type 0) → List A → Type 0
Some P [] = ⊥
Some P (x ∷ xs) = P x ⊎ Some P xs

or_iff : (a b : Bool) (P Q : Type 0) → (a ≡ true) ↔ P → (b ≡ true) ↔ Q → ((a || b) ≡ true) ↔ (P ⊎ Q)
or_iff true b P Q h k = ((λ _. inl (h.0 refl)), λ _. refl)
or_iff false b P Q h k =
    ((λ e. inr (k.0 e)), λ either. elim either [ inl p ↦ absurd (cc (h.1 p)) | inr q ↦ k.1 q ])

any_iff :
    (f : Bytes → Bool) (P : Bytes → Type 0)
    → ((p : Bytes) → (f p ≡ true) ↔ P p)
    → (ps : List Bytes) → (any f ps ≡ true) ↔ Some P ps
any_iff f P h [] = ground arith
any_iff f P h (p ∷ ps) = or_iff (f p) (any f ps) (P p) (Some P ps) (h p) (any_iff f P h ps)

-- Behind the test of the empty text.
behind_empty :
    (c : ℕ) (s : Bytes) (b : Bool) (P : Type 0) → (b ≡ true) ↔ P → (b ≡ true) ↔ ((c ∷ s ≡ []) ⊎ P)
behind_empty c s b P h =
    ((λ e. inr (h.0 e)), λ either. elim either [ inl e ↦ absurd (cc e) | inr p ↦ h.1 p ])

drop-append : (p r : Bytes) → drop (length p) (p ++ r) ≡ r
drop-append [] r = refl
drop-append (c ∷ p) r = drop-append p r

is_digits_iff : (s : Bytes) → (is_digits s ≡ true) ↔ AllDigits s
unfolding is_digits
is_digits_iff [] = ((λ _. tt), λ _. refl)
is_digits_iff (c ∷ s) = ground (arith, is_digits_iff s)

-- `p` and a number, which may be missing.
abbrev pub Numbered : Bytes → Bytes → Type 0
Numbered name p = (r : Bytes) × (name ≡ p ++ r) × AllDigits r

-- The text starts with `p`.
abbrev pub StartsWith : Bytes → Bytes → Type 0
StartsWith s p = (r : Bytes) × (s ≡ p ++ r)

Numbered-iff :
    (name p : Bytes)
    → ((bytes_eq name p || (has_prefix name p && is_digits (drop (length p) name))) ≡ true)
      ↔ Numbered name p
Numbered-iff name p = (
  (λ e. elim (Bool-cases (bytes_eq name p)) [
    | inl same ↦ ([], (bytes_eq_iff name p).0 same ∙ sym (append-nil p), tt)
    | inr differ ↦
        let (r, split) = (has_prefix_iff name p).0 (ground arith) in
        let digits : is_digits (drop (length p) name) ≡ true = ground arith in
        (
          r,
          split,
          (is_digits_iff r).0
              (sym (ap is_digits (ap (drop (length p)) split ∙ drop-append p r)) ∙ digits),
        )
  ]),
  λ (r, split, digits).
      let front : has_prefix name p ≡ true = (has_prefix_iff name p).1 (r, split) in
      let back : is_digits (drop (length p) name) ≡ true =
        ap is_digits (ap (drop (length p)) split ∙ drop-append p r) ∙ (is_digits_iff r).1 digits in
      ground arith,
)

-- `SkipInterface` skips an interface exactly where it has no name, its name is one of the eight
-- names with or without a number, or its name starts with one of the ten prefixes.
pub skip_interface_iff :
    (name : Bytes)
    → (skip_interface name ≡ true) ↔ (
        (name ≡ [])
        ⊎ (Some (Numbered name) skip_iface_prefixes
            ⊎ Some (StartsWith name) skip_iface_any_prefixes))
unfolding skip_interface
skip_interface_iff [] = ((λ _. inl refl), λ _. refl)
skip_interface_iff (c ∷ s) =
    let name : Bytes = c ∷ s in
    behind_empty c s _ _ (
      or_iff _ _ _ _ (any_iff _ (Numbered name) (Numbered-iff name) skip_iface_prefixes)
        (any_iff _ (StartsWith name) (has_prefix_iff name) skip_iface_any_prefixes))

-- The path is `p` or lies below it.
abbrev pub Within : Bytes → Bytes → Type 0
Within m p = (m ≡ p) ⊎ StartsWith m (p ++ codes "/")

Within-iff : (m p : Bytes) → ((bytes_eq m p || has_prefix m (p ++ codes "/")) ≡ true) ↔ Within m p
Within-iff m p = or_iff _ _ _ _ (bytes_eq_iff m p) (has_prefix_iff m (p ++ codes "/"))

-- `SkipMount` skips a mountpoint exactly where it is the empty text, or the path that `path.Clean`
-- makes of it is the root of one of the sixteen trees or lies below one.
pub skip_mount_iff :
    (clean : Bytes → Bytes) (mount : Bytes)
    → (skip_mount clean mount ≡ true)
      ↔ ((mount ≡ []) ⊎ Some (Within (clean mount)) skip_mount_prefixes)
unfolding skip_mount
skip_mount_iff clean [] = ((λ _. inl refl), λ _. refl)
skip_mount_iff clean (c ∷ s) =
    let m : Bytes = clean (c ∷ s) in
    behind_empty c s _ _ (any_iff _ (Within m) (Within-iff m) skip_mount_prefixes)
