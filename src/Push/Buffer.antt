-- ===== src/Push/Buffer.antt =====
-- The buffer of dropped batches.
use Prim.Native.Nat.{min}
use observant_agent.Base.{
  suc, List, [], ◌∷◌, ◌++◌, ◌≡◌, refl, ap, inl, inr, arith, ltb, length, length-append, Bool-cases,
}
use observant_agent.Push.Pusher.{Pusher, Batch, drop_oldest, buffer, max_buffered}

-- `kept` is the tail of `before` that leaves room for one more batch.
pub record Keeps (before kept : List Batch) : Type 0 where
  pub old : List Batch
  pub tail : before ≡ old ++ kept
  pub room : length kept ≡ min 3 (length before)

drop_oldest-Keeps :
    (bs : List Batch) (b : Batch)
    → (kept : List Batch) × Keeps bs kept × (drop_oldest (bs ++ b ∷ []) ≡ kept ++ b ∷ [])
unfolding drop_oldest
drop_oldest-Keeps [] b = ([], record { old = []; tail = refl; room = omega arith }, refl)
drop_oldest-Keeps (x ∷ bs) b = elim (Bool-cases (ltb max_buffered (suc (length (bs ++ b ∷ []))))) [
  | inl full ↦
      let (kept, k, e) = drop_oldest-Keeps bs b in
      (
        kept,
        record {
          old = x ∷ k.old;
          tail = ap (λ l. x ∷ l) k.tail;
          room = ground (arith, length-append bs (b ∷ []), k.room);
        },
        rw full e,
      )
  | inr room ↦ (
    x ∷ bs,
    record { old = []; tail = refl; room = ground (arith, length-append bs (b ∷ [])) },
    rw room refl,
  )
]

-- The new batch goes to the end of the buffer, and in front of it stay the newest of the buffered
-- batches, three at most, in order.
pub buffer-Keeps :
    (p : Pusher) (b : Batch)
    → (kept : List Batch) × Keeps p.pending kept × ((buffer p b).pending ≡ kept ++ b ∷ [])
unfolding buffer
buffer-Keeps p b = drop_oldest-Keeps p.pending b

pub buffer-stats : (p : Pusher) (b : Batch) → (buffer p b).stats ≡ p.stats
unfolding buffer
buffer-stats p b = refl
