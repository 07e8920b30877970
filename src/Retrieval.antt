-- ===== src/Retrieval.antt =====
-- The passages for a question: the embedded store's ranking (assistant/knowledge/store/embedded.py),
-- the match of product names (assistant/knowledge/repository.py) and the retriever above it
-- (assistant/retrieval/retrieve.py). The similarity of each row to the question is a parameter.
mod Access
mod Capped
mod Ranking
mod Distinct
mod Opening
mod Tests
use technical_knowledge_assi.Prelude.{
  ℕ, zero, suc, ◌+◌, ◌-◌, ◌*◌, String, Bool, true, false, ◌&&◌, ◌||◌, not, Option, none, some, List,
  [], ◌∷◌, map, mem, keep, any, take, ltb, leb, lower, strip, collapse, contains, text_le, sorted,
  length, if◌then◌else◌, ◌==◌, string_eq, nat_eq,
}
use technical_knowledge_assi.Prelude.Dict
use technical_knowledge_assi.Prelude.Dict.{Dict}

-- Scores count in units of a thousandth of the bonus of one rank of authority, so that every constant
-- is whole: TIE_BAND is 0.02 and PRODUCT_BAND is 0.15.
abbrev pub authority_spread : ℕ
authority_spread = 6

abbrev pub authority_bonus : ℕ
authority_bonus = 1000

abbrev pub tie_band : ℕ
tie_band = authority_spread * authority_bonus

abbrev pub product_band : ℕ
product_band = 45000

-- One row of the joined tables, of active versions.
pub record Row : Type 0 where
  pub chunk_id : String
  pub canonical_url : String
  pub section : String
  pub content : String
  pub audience : String
  pub row_product : String
  pub source_date : String
  pub authority : ℕ

pub record RetrievalRequest : Type 0 where
  pub audiences : List String
  pub top_k : ℕ
  pub per_document_cap : ℕ
  pub product : String

unfoldable pub product_matches : String → String → Bool
unfolding strip lower contains
product_matches named candidate =
    let n = lower (strip named) in
    let c = lower (strip candidate) in not (n == "" || c == "") && (contains n c || contains c n)

-- `max(1, min(authority, _AUTHORITY_SPREAD))`
unfoldable pub rank_of : ℕ → ℕ
rank_of authority =
    if leb authority 1
    then 1
    else if leb authority_spread authority
    then authority_spread
    else authority

-- `_effective`; a similarity is at least -1, so it is counted from there.
unfoldable pub effective : ℕ → ℕ → Bool → ℕ
unfolding rank_of
effective similarity authority named_product =
    similarity
    + (authority_spread - rank_of authority) * authority_bonus
    + (if named_product then product_band else 0)

-- `per_doc.get(url, 0)`
unfoldable pub count_of : String → Dict String ℕ → ℕ
unfolding Dict.lookup
count_of url per_doc = elim (Dict.lookup url per_doc) [ none ↦ 0 | some n ↦ n ]

-- The loop over the candidates: `n` is `len(out)`.
unfoldable pub cap_rows : ℕ → ℕ → ℕ → Dict String ℕ → List Row → List Row
unfolding count_of Dict.insert
cap_rows quota top_k n per_doc [] = []
cap_rows quota top_k n per_doc (r ∷ rows) =
    let skipped = cap_rows quota top_k n per_doc rows in
    let rest =
      cap_rows quota top_k (suc n)
        (Dict.insert r.canonical_url (suc (count_of r.canonical_url per_doc)) per_doc) rows in
    if leb quota (count_of r.canonical_url per_doc)
    then skipped
    else r ∷ (if leb top_k (suc n) then [] else rest)

-- `similarity` gives the cosine of a row with the question, in the units above, from -1.
module _ (similarity : Row → ℕ) where
  unfoldable pub score_of : RetrievalRequest → Row → ℕ
  unfolding effective product_matches
  score_of request r =
      effective (similarity r) r.authority (product_matches request.product r.row_product)

  -- The two sorts: newest first, and then stably the highest score first.
  unfoldable pub ranked : RetrievalRequest → List Row → List Row
  unfolding score_of sorted keep mem
  ranked request rows =
      sorted (λ r s. leb (score_of request s) (score_of request r))
        (sorted (λ r s. text_le s.source_date r.source_date)
          (keep (λ r. mem r.audience request.audiences) rows))

  unfoldable pub retrieve_for : RetrievalRequest → List Row → List Row
  unfolding ranked cap_rows
  retrieve_for request rows =
      cap_rows request.per_document_cap request.top_k 0 [] (ranked request rows)

-- `_COLLAPSE.sub(" ", content).strip().lower()`
unfoldable pub text_key : String → String
unfolding collapse strip lower
text_key content = lower (strip (collapse content))

unfoldable pub distinct_from : List String → List Row → List Row
unfolding text_key mem
distinct_from seen [] = []
distinct_from seen (r ∷ rows) =
    let skipped = distinct_from seen rows in
    let rest = distinct_from (text_key r.content ∷ seen) rows in
    if mem (text_key r.content) seen then skipped else r ∷ rest

-- `_distinct`
unfoldable pub distinct : List Row → List Row
unfolding distinct_from
distinct rows = distinct_from [] rows

abbrev pub overfetch : ℕ
overfetch = 2

-- `Retriever.search`, for the similarities of the expanded and embedded question.
unfoldable pub search : (Row → ℕ) → RetrievalRequest → List Row → List Row
unfolding retrieve_for distinct take
search similarity request rows =
    take request.top_k (
      distinct
        (retrieve_for similarity (record request { top_k = request.top_k * overfetch }) rows))

-- `above_threshold`, of the scores that the hits have
unfoldable pub above_threshold : (Row → ℕ) → ℕ → List Row → Bool
above_threshold similarity threshold [] = false
above_threshold similarity threshold (r ∷ hits) = leb threshold (similarity r)

abbrev pub has_term : Row → String → Bool
has_term r term =
    contains (lower (strip term)) (lower r.content)
    || contains (lower (strip term)) (lower r.section)

-- `find_passages`, on the rows in the order that the store gives them, for terms without `%` and `_`,
-- which SQL reads as wildcards.
unfoldable pub find_passages : String → List String → List String → ℕ → List Row → List Row
unfolding keep any mem product_matches take
find_passages product [] audiences limit rows = []
find_passages product (term ∷ terms) audiences limit rows =
    let found = keep (λ r. mem r.audience audiences && any (has_term r) (term ∷ terms)) rows in
    take limit
      (if product == "" then found else keep (λ r. product_matches product r.row_product) found)
