-- ===== src/Retrieval/Access.antt =====
-- Which rows a request may get at all (assistant/knowledge/store/embedded.py,
-- assistant/retrieval/retrieve.py).
use technical_knowledge_assi.Prelude.{
  ℕ, suc, ◌*◌, ◌≤◌, String, Bool, true, ◌&&◌, List, [], ◌∷◌, mem, keep, any, leb, if◌then◌else◌,
  ◌==◌, string_eq, ◌≡◌, arith, Bool-cases, inl, inr, All, All-map, All-keep, All-take, All-sorted,
  text_le, length, length-take-le, All-keep_both, refl,
}
use technical_knowledge_assi.Prelude.Dict.{Dict}
use technical_knowledge_assi.Retrieval.{
  Row, RetrievalRequest, product_matches, count_of, cap_rows, score_of, ranked, retrieve_for,
  text_key, distinct_from, distinct, overfetch, search, has_term, find_passages,
}

All-cap_rows :
    (P : Row → Type 0) (quota top_k n : ℕ) (per_doc : Dict String ℕ) (rows : List Row)
    → All P rows
    → All P (cap_rows quota top_k n per_doc rows)
unfolding cap_rows
All-cap_rows P quota top_k n per_doc [] h = tt
All-cap_rows P quota top_k n per_doc (r ∷ rows) h =
    elim (Bool-cases (leb quota (count_of r.canonical_url per_doc))) [
      | inl e ↦ rw e (All-cap_rows P quota top_k n per_doc rows h.1)
      | inr e ↦ rw e (
        h.0,
        elim (Bool-cases (leb top_k (suc n))) [
          | inl f ↦ rw f tt
          | inr f ↦ rw f (All-cap_rows P quota top_k (suc n) _ rows h.1)
        ],
      )
    ]

All-distinct_from :
    (P : Row → Type 0) (seen : List String) (rows : List Row)
    → All P rows
    → All P (distinct_from seen rows)
unfolding distinct_from
All-distinct_from P seen [] h = tt
All-distinct_from P seen (r ∷ rows) h = elim (Bool-cases (mem (text_key r.content) seen)) [
  | inl e ↦ rw e (All-distinct_from P seen rows h.1)
  | inr e ↦ rw e (h.0, All-distinct_from P (text_key r.content ∷ seen) rows h.1)
]

module _ (similarity : Row → ℕ) where
  pub All-ranked :
      (P : Row → Type 0) (request : RetrievalRequest) (rows : List Row)
      → All P (keep (λ r. mem r.audience request.audiences) rows)
      → All P (ranked similarity request rows)
  unfolding ranked
  All-ranked P request rows h =
      All-sorted (λ r s. leb (score_of similarity request s) (score_of similarity request r)) P _
        (All-sorted (λ r s. text_le s.source_date r.source_date) P _ h)

  All-retrieve_for :
      (P : Row → Type 0) (request : RetrievalRequest) (rows : List Row)
      → All P (keep (λ r. mem r.audience request.audiences) rows)
      → All P (retrieve_for similarity request rows)
  unfolding retrieve_for
  All-retrieve_for P request rows h =
      All-cap_rows P request.per_document_cap request.top_k 0 [] _ (All-ranked P request rows h)

  -- Whatever the rows, the scores and the named product, a search returns no row of an audience that
  -- the request may not read, and at most `top_k` rows.
  pub search_is_permitted :
      (request : RetrievalRequest) (rows : List Row)
      → All (λ r. mem r.audience request.audiences ≡ true) (search similarity request rows)
        × (length (search similarity request rows) ≤ request.top_k)
  unfolding search distinct
  search_is_permitted request rows =
      let found : List Row =
        retrieve_for similarity (record request { top_k = request.top_k * overfetch }) rows in
      (
        All-take (λ r. mem r.audience request.audiences ≡ true) request.top_k (distinct found)
            (All-distinct_from (λ r. mem r.audience request.audiences ≡ true) [] found
              (All-retrieve_for (λ r. mem r.audience request.audiences ≡ true)
                (record request { top_k = request.top_k * overfetch }) rows
                (All-keep (λ r. mem r.audience request.audiences) rows))),
        length-take-le request.top_k (distinct found),
      )

abbrev pub product_allows : String → Row → Bool
product_allows product r = if product == "" then true else product_matches product r.row_product

All-by_product :
    (P : Row → Type 0) (product : String) (found : List Row)
    → All P found
    → All
        (λ r. P r × (product_allows product r ≡ true))
        (if product == "" then found else keep (λ r. product_matches product r.row_product) found)
All-by_product P product found h = elim (Bool-cases (product == "")) [
  | inl e ↦ rw e (All-map P (λ r. P r × (true ≡ true)) (λ r p. (p, refl)) found h)
  | inr e ↦ rw e (All-keep_both P (λ r. product_matches product r.row_product) found h)
]

-- A passage that the targeted retrieval finds is of a permitted audience, has one of the terms in its
-- text or its section, and if a product is named, matches that product; there are at most `limit`.
pub find_passages_keeps_rules :
    (product : String) (terms audiences : List String) (limit : ℕ) (rows : List Row)
    → All
        (λ r.
          ((mem r.audience audiences && any (has_term r) terms) ≡ true)
          × (product_allows product r ≡ true))
        (find_passages product terms audiences limit rows)
      × (length (find_passages product terms audiences limit rows) ≤ limit)
unfolding find_passages
find_passages_keeps_rules product [] audiences limit rows = (tt, omega arith)
find_passages_keeps_rules product (term ∷ terms) audiences limit rows =
    let found : List Row =
      keep (λ r. mem r.audience audiences && any (has_term r) (term ∷ terms)) rows in
    (
      All-take _ limit _ (
          All-by_product (λ r. (mem r.audience audiences && any (has_term r) (term ∷ terms)) ≡ true)
            product found
            (All-keep (λ r. mem r.audience audiences && any (has_term r) (term ∷ terms)) rows)),
      length-take-le limit _,
    )
