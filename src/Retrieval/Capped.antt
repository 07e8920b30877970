-- ===== src/Retrieval/Capped.antt =====
-- One document does not crowd out the others (assistant/knowledge/store/embedded.py,
-- `per_document_cap`).
use technical_knowledge_assi.Prelude.{
  ℕ, zero, suc, ◌+◌, ◌*◌, ◌≤◌, String, Bool, true, List, [], ◌∷◌, leb, if◌then◌else◌, ◌==◌,
  string_eq, ◌≡◌, arith, Bool-cases, inl, inr, eq_iff, length, take, mem, ap, eq_of_==, any, ◌⊎◌,
  All, All-map, All-of_All, keep, subst, sym, All-of_sorted, text_le,
}
use technical_knowledge_assi.Prelude.Dict
use technical_knowledge_assi.Prelude.Dict.{Dict}
use technical_knowledge_assi.Retrieval.{
  Row, RetrievalRequest, count_of, cap_rows, ranked, retrieve_for, text_key, distinct_from,
  distinct, search, overfetch, score_of,
}

-- How many of the rows are of the document.
unfoldable pub of_document : String → List Row → ℕ
of_document url [] = 0
of_document url (r ∷ rows) =
    if r.canonical_url == url then suc (of_document url rows) else of_document url rows

count-insert :
    (url other : String) (n : ℕ) (per_doc : Dict String ℕ)
    → count_of other (Dict.insert url n per_doc)
      ≡ (if url == other then n else count_of other per_doc)
unfolding count_of
count-insert url other n per_doc =
    rw (Dict.lookup-insert url other n per_doc, count_of) (ground arith)

cap_rows-of_document :
    (quota top_k n : ℕ) (per_doc : Dict String ℕ) (rows : List Row) (url : String)
    → count_of url per_doc ≤ quota
    → of_document url (cap_rows quota top_k n per_doc rows) + count_of url per_doc ≤ quota
unfolding cap_rows of_document
cap_rows-of_document quota top_k n per_doc [] url h = omega (arith, h)
cap_rows-of_document quota top_k n per_doc (r ∷ rows) url h =
    let c : ℕ = count_of r.canonical_url per_doc in
    let per_doc' : Dict String ℕ = Dict.insert r.canonical_url (suc c) per_doc in
    let recount = count-insert r.canonical_url url (suc c) per_doc in
    let ih = cap_rows-of_document quota top_k (suc n) per_doc' rows url in
    elim (Bool-cases (leb quota c)) [
      | inl full ↦ rw full (cap_rows-of_document quota top_k n per_doc rows url h)
      | inr room ↦ rw room (elim (Bool-cases (r.canonical_url == url)) [
        | inl same ↦
            let e : c ≡ count_of url per_doc = ap (λ u. count_of u per_doc) (eq_of_== same) in
            rw same (elim (Bool-cases (leb top_k (suc n))) [
              | inl last ↦ rw last (ground (arith, room, e))
              | inr more ↦
                  let k = ih (ground (arith, recount, same, room)) in
                  rw more (ground (arith, recount, same, k, e))
            ])
        | inr other ↦ rw other (elim (Bool-cases (leb top_k (suc n))) [
          | inl last ↦ rw last (ground (arith, h))
          | inr more ↦
              let k = ih (ground (arith, recount, other, h)) in
              rw more (ground (arith, recount, other, k))
        ])
      ])
    ]

length-cap_rows :
    (quota top_k n : ℕ) (per_doc : Dict String ℕ) (rows : List Row)
    → suc n ≤ top_k
    → length (cap_rows quota top_k n per_doc rows) + n ≤ top_k
unfolding cap_rows
length-cap_rows quota top_k n per_doc [] h = omega (arith, h)
length-cap_rows quota top_k n per_doc (r ∷ rows) h =
    elim (Bool-cases (leb quota (count_of r.canonical_url per_doc))) [
      | inl full ↦ rw full (length-cap_rows quota top_k n per_doc rows h)
      | inr room ↦ rw room (elim (Bool-cases (leb top_k (suc n))) [
        | inl last ↦ rw last (ground (arith, h))
        | inr more ↦
            let k =
              length-cap_rows quota top_k (suc n)
                (Dict.insert r.canonical_url (suc (count_of r.canonical_url per_doc)) per_doc) rows
                (ground (arith, more)) in
            rw more (omega (arith, k))
      ])
    ]

abbrev pub is_in : Row → List Row → Bool
is_in r rows = any (λ s. s.chunk_id == r.chunk_id) rows

-- Why a row of the ranking is not missed: it is returned, or `top_k` rows are, or its document has its
-- quota; `n` rows and the counted ones are returned before.
abbrev pub IsServed : ℕ → ℕ → ℕ → Dict String ℕ → List Row → Row → Type 0
IsServed quota top_k n per_doc result r =
    (is_in r result ≡ true)
    ⊎ (top_k ≤ length result + n)
    ⊎ (quota ≤ of_document r.canonical_url result + count_of r.canonical_url per_doc)

IsServed-more :
    (quota top_k n : ℕ) (per_doc : Dict String ℕ) (result : List Row) (x r : Row)
    → IsServed quota top_k
        (suc n)
        (Dict.insert x.canonical_url (suc (count_of x.canonical_url per_doc)) per_doc)
        result
        r
    → IsServed quota top_k n per_doc (x ∷ result) r
unfolding any of_document
IsServed-more quota top_k n per_doc result x r (inl found) = inl (ground (arith, found))
IsServed-more quota top_k n per_doc result x r (inr (inl many)) = inr (inl (omega (arith, many)))
IsServed-more quota top_k n per_doc result x r (inr (inr full)) =
    let c : ℕ = count_of x.canonical_url per_doc in
    let recount = count-insert x.canonical_url r.canonical_url (suc c) per_doc in
    inr (
      inr (elim (Bool-cases (x.canonical_url == r.canonical_url)) [
        | inl same ↦
            let e : c ≡ count_of r.canonical_url per_doc =
              ap (λ u. count_of u per_doc) (eq_of_== same) in
            rw same (ground (arith, recount, same, full, e))
        | inr other ↦ rw other (ground (arith, recount, other, full))
      ]))

cap_rows-IsServed :
    (quota top_k n : ℕ) (per_doc : Dict String ℕ) (rows : List Row)
    → All (IsServed quota top_k n per_doc (cap_rows quota top_k n per_doc rows)) rows
unfolding cap_rows
cap_rows-IsServed quota top_k n per_doc [] = tt
cap_rows-IsServed quota top_k n per_doc (r ∷ rows) =
    let c : ℕ = count_of r.canonical_url per_doc in
    let per_doc' : Dict String ℕ = Dict.insert r.canonical_url (suc c) per_doc in
    let rest : List Row = cap_rows quota top_k (suc n) per_doc' rows in
    let all : List Row → Type 0 =
      λ result. All (IsServed quota top_k n per_doc result) (r ∷ rows) in
    elim (Bool-cases (leb quota c)) [
      | inl full ↦
          let e : cap_rows quota top_k n per_doc (r ∷ rows) ≡ cap_rows quota top_k n per_doc rows =
            rw full in
          subst all (sym e)
            (inr (inr (ground (arith, full))), cap_rows-IsServed quota top_k n per_doc rows)
      | inr room ↦ elim (Bool-cases (leb top_k (suc n))) [
        | inl last ↦
            let e : cap_rows quota top_k n per_doc (r ∷ rows) ≡ r ∷ [] = rw (room, last) in
            subst all (sym e) (
              All-of_All (IsServed quota top_k n per_doc (r ∷ []))
                (λ x. inr (inl (ground (arith, last)))) (r ∷ rows))
        | inr more ↦
            let e : cap_rows quota top_k n per_doc (r ∷ rows) ≡ r ∷ rest = rw (room, more) in
            subst all (sym e) (
              inl (unfold any in ground (arith, eq_iff r.chunk_id r.chunk_id)),
              All-map (IsServed quota top_k (suc n) per_doc' rest)
                  (IsServed quota top_k n per_doc (r ∷ rest))
                  (λ x served. IsServed-more quota top_k n per_doc rest r x served) rows
                  (cap_rows-IsServed quota top_k (suc n) per_doc' rows),
            )
      ]
    ]

-- A row is passed over only for a reason: each row of a permitted audience is returned, or `top_k`
-- rows are, or as many of the row's document as the request's cap.
pub retrieve_for_misses_nothing :
    (similarity : Row → ℕ) (request : RetrievalRequest) (rows : List Row)
    → All
        (IsServed request.per_document_cap request.top_k 0 []
          (retrieve_for similarity request rows))
        (keep (λ r. mem r.audience request.audiences) rows)
unfolding retrieve_for ranked
retrieve_for_misses_nothing similarity request rows =
    All-of_sorted (λ r s. text_le s.source_date r.source_date) _ _
      (All-of_sorted (λ r s. leb (score_of similarity request s) (score_of similarity request r)) _
        _
        (cap_rows-IsServed request.per_document_cap request.top_k 0 []
          (ranked similarity request rows)))

-- A request for `top_k` rows, at least one, gets at most that many, and of each document at most the
-- request's cap.
pub retrieve_for_is_capped :
    (similarity : Row → ℕ) (request : RetrievalRequest) (rows : List Row) (url : String)
    → 1 ≤ request.top_k
    → (of_document url (retrieve_for similarity request rows) ≤ request.per_document_cap)
      × (length (retrieve_for similarity request rows) ≤ request.top_k)
unfolding retrieve_for
retrieve_for_is_capped similarity request rows url h =
    let found : List Row = ranked similarity request rows in
    let few =
      cap_rows-of_document request.per_document_cap request.top_k 0 [] found url
        (unfold count_of Dict.lookup in omega arith) in
    let short = length-cap_rows request.per_document_cap request.top_k 0 [] found h in
    (omega (arith, few), omega (arith, short))

of_document-take :
    (url : String) (n : ℕ) (rows : List Row) → of_document url (take n rows) ≤ of_document url rows
unfolding take of_document
of_document-take url zero rows = omega arith
of_document-take url (suc n) [] = omega arith
of_document-take url (suc n) (r ∷ rows) = ground (arith, of_document-take url n rows)

of_document-distinct :
    (url : String) (seen : List String) (rows : List Row)
    → of_document url (distinct_from seen rows) ≤ of_document url rows
unfolding distinct_from of_document
of_document-distinct url seen [] = omega arith
of_document-distinct url seen (r ∷ rows) = ground (
  arith,
  of_document-distinct url seen rows,
  of_document-distinct url (text_key r.content ∷ seen) rows,
)

-- A search for at least one row returns of each document at most the request's cap, although it asks
-- the store for twice as many rows and drops doubles.
pub search_is_capped :
    (similarity : Row → ℕ) (request : RetrievalRequest) (rows : List Row) (url : String)
    → 1 ≤ request.top_k
    → of_document url (search similarity request rows) ≤ request.per_document_cap
unfolding search distinct
search_is_capped similarity request rows url h =
    let wide : RetrievalRequest = record request { top_k = request.top_k * overfetch } in
    let found : List Row = retrieve_for similarity wide rows in
    omega (
      arith,
      of_document-take url request.top_k (distinct_from [] found),
      of_document-distinct url [] found,
      (retrieve_for_is_capped similarity wide rows url (omega (arith, h))).0,
    )
