-- ===== src/Retrieval/Distinct.antt =====
-- No passage is returned twice (assistant/retrieval/retrieve.py, `_distinct`).
use technical_knowledge_assi.Prelude.{
  String, List, [], ◌∷◌, mem, map, string_eq, ◌≡◌, Bool-cases, inl, inr, refl, unique, unique_from,
  ap,
}
use technical_knowledge_assi.Retrieval.{Row, text_key, distinct_from, distinct}

abbrev pub keys : List Row → List String
keys rows = map (λ r. text_key r.content) rows

keys-distinct_from :
    (seen : List String) (rows : List Row)
    → keys (distinct_from seen rows) ≡ unique_from seen (keys rows)
unfolding distinct_from unique_from
keys-distinct_from seen [] = refl
keys-distinct_from seen (r ∷ rows) = elim (Bool-cases (mem (text_key r.content) seen)) [
  | inl e ↦ rw e (keys-distinct_from seen rows)
  | inr e ↦
      rw e
        (ap (λ ks. text_key r.content ∷ ks) (keys-distinct_from (text_key r.content ∷ seen) rows))
]

-- The texts of the rows that are kept, without regard to spaces and case, are those of all rows, each
-- of them once, at the place where it comes first: a dropped row's text is still there.
pub keys-distinct : (rows : List Row) → keys (distinct rows) ≡ unique (keys rows)
unfolding distinct unique
keys-distinct rows = keys-distinct_from [] rows
