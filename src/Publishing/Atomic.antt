-- ===== src/Publishing/Atomic.antt =====
-- Two indexers (assistant/knowledge/store/embedded.py): a delta made against a release that is no
-- longer the current one is refused.
use technical_knowledge_assi.Prelude.{
  String, true, false, Option, none, some, List, ◌≡◌, ◌≢◌, refl, ◌==◌, string_eq, Bool-cases, inl,
  inr, ==-refl, ap, eq_of_==,
}
use technical_knowledge_assi.Publishing.{
  DocumentUpdate, Snapshot, Store, mismatch, committed, same_parent, snapshot_of, apply_delta,
  delta, insert_snapshot,
}

same_parent_refl : (o : Option String) → same_parent o o ≡ true
same_parent_refl none = refl
same_parent_refl (some a) = ==-refl a

same_parent-other : (o : Option String) (a : String) → o ≢ some a → same_parent o (some a) ≡ false
same_parent-other none a h = refl
same_parent-other (some b) a h = elim (Bool-cases (b == a)) [
  | inl same ↦ absurd (h (ap (λ c. some c) (eq_of_== same)))
  | inr other ↦ other
]

snapshot_of-delta :
    (updates : List DocumentUpdate) (removed : List String) (snapshot : Snapshot)
    (excluded : Option (List String)) (st : Store)
    → snapshot_of (delta updates removed snapshot excluded st) ≡ some snapshot.snapshot_id
unfolding delta insert_snapshot
snapshot_of-delta updates removed snapshot excluded st = refl

-- Of two deltas made against one release, the first that is applied publishes a release with a new
-- id, and the second is refused and leaves the store as the first one made it.
pub second_indexer_is_refused :
    (updates updates' : List DocumentUpdate) (removed removed' : List String)
    (first second : Snapshot) (excluded excluded' : Option (List String)) (st : Store)
    → first.parent_snapshot ≡ some (snapshot_of st)
    → second.parent_snapshot ≡ some (snapshot_of st)
    → snapshot_of st ≢ some first.snapshot_id
    → (next : Store) × (apply_delta updates removed first excluded st ≡ committed next)
      × (apply_delta updates' removed' second excluded' next ≡ mismatch next)
unfolding apply_delta
second_indexer_is_refused updates updates' removed removed' first second excluded excluded' st p q
      new =
    (
      delta updates removed first excluded st,
      rw (p, same_parent_refl (snapshot_of st)),
      rw (
        q,
        snapshot_of-delta updates removed first excluded st,
        same_parent-other (snapshot_of st) first.snapshot_id new,
      ),
    )
