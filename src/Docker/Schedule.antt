-- ===== src/Docker/Schedule.antt =====
-- When a running container is inspected again.
use native.Mathlib.Nat.{mod-lt, mod-eq_of_lt, mod-add-mod, mod-eq-sub-mod, mod_self}
use observant_agent.Base.{
  ℕ, ◌+◌, ◌-◌, ◌*◌, ◌%◌, ◌^◌, ◌≤◌, ◌<◌, true, false, ◌&&◌, some, ◌≡◌, refl, sym, ◌∙◌, ◌⊎◌, inl, inr,
  arith, ltb, leb, ◌==◌, if◌then◌else◌, Bool-cases,
}
use observant_agent.Base.Decimal.{ℤ, pos, negsuc}
use observant_agent.Base.Dict.{lookup}
use observant_agent.Base.Text.{Bytes}
use observant_agent.Docker.Restart.{Client, RestartSample, every_of, slot, due, needs_inspect}

-- The sum of two numbers below `e` is a multiple of `e` only if it is 0 or `e`.
small_multiple : (r j e : ℕ) → r < e → j < e → (r + j) % e ≡ 0 → (r + j ≡ 0) ⊎ (r + j ≡ e)
small_multiple r j e h k m = elim (Bool-cases (ltb (r + j) e)) [
  | inl below ↦ inl (sym (mod-eq_of_lt (ground arith)) ∙ m)
  | inr above ↦
      let le : e ≤ r + j = ground arith in
      let small : r + j - e < e = omega arith in
      inr (omega (arith, mod-eq-sub-mod le, mod-eq_of_lt small))
]

-- The distance from `x` to the next multiple of `e`.
unfoldable pub distance : ℕ → ℕ → ℕ
distance x e = if x % e == 0 then 0 else e - x % e

distance-lt : (x e : ℕ) → 0 < e → distance x e < e
unfolding distance
distance-lt x e h = ground (arith, mod-lt x {m = e} h)

distance_multiple : (x e : ℕ) → 0 < e → (x + distance x e) % e ≡ 0
unfolding distance
distance_multiple x e h = elim (Bool-cases (x % e == 0)) [
  | inl z ↦ rw z (ground arith)
  | inr n ↦ rw n (
      let whole : x % e + (e - x % e) ≡ e = omega (arith, mod-lt x {m = e} h) in
      sym (mod-add-mod x e (e - x % e)) ∙ rw whole (mod_self e))
]

distance_unique : (x e j : ℕ) → 0 < e → j < e → (x + j) % e ≡ 0 → j ≡ distance x e
unfolding distance
distance_unique x e j h k m =
    let r = mod-lt x {m = e} h in
    elim (small_multiple (x % e) j e r k (mod-add-mod x e j ∙ m)) [
      | inl none_left ↦ ground arith
      | inr full ↦ ground arith
    ]

-- The test of `needsInspect` while no number reaches 2^63.
due_plain :
    (id : Bytes) (every seen cycle : ℕ)
    → seen ≤ cycle
    → cycle + slot id every < 2 ^ 63
    → due id every seen cycle ≡ (leb every (cycle - seen) && (cycle + slot id every) % every == 0)
unfolding due
due_plain id every seen cycle h k =
    let d : (cycle + 2 ^ 64 - seen) % 2 ^ 64 ≡ cycle - seen = omega arith in
    let s : (cycle + slot id every) % 2 ^ 64 ≡ cycle + slot id every = omega arith in
    rw (due, d, s) (ground arith)

every_of_pos : (n : ℤ) → 0 < every_of n
every_of_pos (pos n) = omega arith
every_of_pos (negsuc n) = omega arith

slot-lt : (id : Bytes) (every : ℕ) → 0 < every → slot id every < every
unfolding slot
slot-lt id every h = mod-lt _ h

-- The cycle of the next inspect call of a container that was inspected in cycle `seen`.
unfoldable pub next_due : Bytes → ℕ → ℕ → ℕ
next_due id every seen = seen + every + distance (seen + every + slot id every) every

module _ (id : Bytes) (every seen : ℕ) (positive : 0 < every)
    (small : seen + 3 * every < 2 ^ 63) where
  due-next_due : due id every seen (next_due id every seen) ≡ true
  unfolding next_due
  due-next_due =
      let x = seen + every + slot id every in
      let near = distance-lt x every positive in
      let low = slot-lt id every positive in
      let regroup : seen + every + distance x every + slot id every ≡ x + distance x every =
        omega arith in
      let multiple : (seen + every + distance x every + slot id every) % every ≡ 0 =
        rw regroup (distance_multiple x every positive) in
      rw (due_plain id every seen (seen + every + distance x every) (omega arith) (omega arith))
        (ground arith)

  due_early : (cycle : ℕ) → seen ≤ cycle → cycle < seen + every → due id every seen cycle ≡ false
  due_early cycle h k = ground (arith, due_plain id every seen cycle h, slot-lt id every positive)

  due_unique :
      (cycle : ℕ)
      → seen + every ≤ cycle
      → cycle < seen + 2 * every
      → due id every seen cycle ≡ true
      → cycle ≡ next_due id every seen
  unfolding next_due
  due_unique cycle h k d =
      let x = seen + every + slot id every in
      let low = slot-lt id every positive in
      let plain = due_plain id every seen cycle (omega arith) (omega arith) in
      let multiple : (cycle + slot id every) % every ≡ 0 = ground arith in
      let regroup : x + (cycle - seen - every) ≡ cycle + slot id every = omega arith in
      let step =
        distance_unique x every (cycle - seen - every) positive (omega arith)
          (rw regroup multiple) in
      omega arith

next_due_bounds :
    (id : Bytes) (every seen : ℕ)
    → 0 < every
    → (seen + every ≤ next_due id every seen) × (next_due id every seen < seen + 2 * every)
unfolding next_due
next_due_bounds id every seen h =
    let near = distance-lt (seen + every + slot id every) every h in (omega arith, omega arith)

due-eq-next_due :
    (id : Bytes) (every seen : ℕ)
    → 0 < every
    → seen + 3 * every < 2 ^ 63
    → (k : ℕ) → seen ≤ k
    → k < seen + 2 * every
    → due id every seen k ≡ (k == next_due id every seen)
due-eq-next_due id every seen positive small k from until =
    let (low, high) = next_due_bounds id every seen positive in
    elim (Bool-cases (due id every seen k)) [
      | inl yes_due ↦ elim (Bool-cases (ltb k (seen + every))) [
        | inl early ↦ ground (arith, due_early id every seen positive small k from)
        | inr late ↦
            let same = due_unique id every seen positive small k (ground arith) until yes_due in
            rw yes_due (ground arith)
      ]
      | inr not_due ↦ elim (Bool-cases (k == next_due id every seen)) [
        | inl same ↦
            let at : k ≡ next_due id every seen = ground arith in
            absurd (ground (arith, rw (← at) at (due-next_due id every seen positive small)))
        | inr other ↦ rw (not_due, other) refl
      ]
    ]

needs_inspect-due :
    (c : Client) (id : Bytes) (r : RestartSample)
    → lookup id c.restart ≡ some r
    → (k : ℕ) → needs_inspect c id k ≡ due id (every_of c.inspect_every) r.cycle k
unfolding needs_inspect
needs_inspect-due c id r found k = rw (found, needs_inspect)

-- A running container with a restart sample of cycle `seen`, while the numbers of the cycles stay
-- below 2^63: in the two times `inspectEvery` cycles from `seen` on, the one cycle in which the
-- container is to be inspected is `next_due`, and that stands in the second half of them.
pub needs_inspect-next_due :
    (c : Client) (id : Bytes) (r : RestartSample) (k : ℕ)
    → lookup id c.restart ≡ some r
    → r.cycle + 3 * every_of c.inspect_every < 2 ^ 63
    → r.cycle ≤ k
    → k < r.cycle + 2 * every_of c.inspect_every
    → let every = every_of c.inspect_every in
      let next = next_due id every r.cycle in
      (needs_inspect c id k ≡ (k == next)) × (r.cycle + every ≤ next) × (next < r.cycle + 2 * every)
needs_inspect-next_due c id r k found small from until =
    let every = every_of c.inspect_every in
    let positive = every_of_pos c.inspect_every in
    let (low, high) = next_due_bounds id every r.cycle positive in
    (
      needs_inspect-due c id r found k
          ∙ due-eq-next_due id every r.cycle positive small k from until,
      low,
      high,
    )
