-- ===== src/AnswerCache/Lru.antt =====
-- The bound of the cache (assistant/cache.py) and what a lookup after a store returns.
use technical_knowledge_assi.Prelude.{
  ◌≤◌, ◌<◌, ◌≡◌, some, arith, Eq, length, Option-cases, inl, inr, ◌∙◌,
}
use technical_knowledge_assi.Prelude.Dict
use technical_knowledge_assi.Prelude.Dict.{Dict, IsDistinct}
use technical_knowledge_assi.AnswerCache.{Cache, get, put}

module _ {ℓ} {K V : Type ℓ} ⦃o : Eq K⦄ where
  pub record IsSound (c : Cache K V) : Type ℓ where
    pub distinct : IsDistinct c.entries
    pub bounded : length c.entries ≤ c.max_entries

  pub put-IsSound : (k : K) (v : V) {c : Cache K V} → IsSound c → IsSound (put k v c)
  unfolding put
  put-IsSound k v {c} h = record {
    distinct =
        Dict.IsDistinct-evict c.max_entries _
          (Dict.IsDistinct-move_to_end k _ (Dict.IsDistinct-insert k v c.entries h.distinct));
    bounded = Dict.length-evict-le c.max_entries _;
  }

  pub get-IsSound : (k : K) {c : Cache K V} → IsSound c → IsSound (get k c).1
  unfolding get
  get-IsSound k {c} h = elim (Option-cases (Dict.lookup k c.entries)) [
    | inl e ↦ rw (e, get) (record { distinct = h.distinct; bounded = h.bounded })
    | inr (v, e) ↦
        rw (e, get)
          (record {
            distinct = Dict.IsDistinct-move_to_end k c.entries h.distinct;
            bounded = rw (Dict.length-move_to_end k c.entries) h.bounded;
          })
  ]

  pub get-eq-lookup : (k : K) (c : Cache K V) → (get k c).0 ≡ Dict.lookup k c.entries
  unfolding get
  get-eq-lookup k c = ground arith

  -- With room for one entry, what was just put is what the next lookup of that key returns.
  pub get-put :
      (k : K) (v : V) (c : Cache K V)
      → IsDistinct c.entries
      → 0 < c.max_entries
      → (get k (put k v c)).0 ≡ some v
  unfolding put
  get-put k v c d h =
      get-eq-lookup k (put k v c)
      ∙ rw Dict.insert-move_to_end (
          Dict.lookup-evict_newest c.max_entries k v (Dict.remove k (Dict.insert k v c.entries)) h
            (Dict.lookup-remove_self k _ (Dict.IsDistinct-insert k v c.entries d)))
