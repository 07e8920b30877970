-- ===== src/Retrieval/Tests.antt =====
-- Retrieval at concrete inputs (assistant/knowledge/store/embedded.py, assistant/retrieval/retrieve.py).
use technical_knowledge_assi.Prelude.{
  some, inl, inr, refl, ◌≡◌, ◌≤◌, ℕ, true, List, [], ◌∷◌, mem, All, length, keep, string_eq,
}
use technical_knowledge_assi.Retrieval.{Row, RetrievalRequest, retrieve_for, search}
use technical_knowledge_assi.Retrieval.Opening.{Build, verify, expand, built_with_dimensions}
use technical_knowledge_assi.Retrieval.Access.{search_is_permitted}
use technical_knowledge_assi.Retrieval.Capped.{IsServed, retrieve_for_misses_nothing}

abbrev datasheet : Row
datasheet = record {
  chunk_id = "c1";
  canonical_url = "ultra.pdf";
  section = "Application";
  content = "Apply  at 5 C";
  audience = "public";
  row_product = "Ultra";
  source_date = "2025-01-01";
  authority = 1;
}

abbrev copied : Row
copied = record datasheet {
  chunk_id = "c2";
  canonical_url = "ultra_1.pdf";
  content = "apply at 5 c ";
}

abbrev price_list : Row
price_list = record datasheet {
  chunk_id = "c3";
  canonical_url = "prices.pdf";
  audience = "staff";
  authority = 6;
}

abbrev rows : List Row
rows = price_list ∷ copied ∷ datasheet ∷ []

abbrev request : RetrievalRequest
request = record { audiences = "public" ∷ []; top_k = 2; per_document_cap = 1; product = "Ultra" }

abbrev similarity : Row → ℕ
similarity r = 400000

search_is_permitted_example :
    All (λ r. mem r.audience request.audiences ≡ true) (search similarity request rows)
    × (length (search similarity request rows) ≤ 2)
search_is_permitted_example = search_is_permitted similarity request rows

retrieve_for_misses_nothing_example :
    All
      (IsServed 1 2 0 [] (retrieve_for similarity request rows))
      (keep (λ r. mem r.audience request.audiences) rows)
retrieve_for_misses_nothing_example = retrieve_for_misses_nothing similarity request rows

abbrev engine : Build
engine = record {
  embedding_model = "qwen3-embedding:0.6b";
  embedding_dimensions = 1024;
  chunking_version = "structure-aware/1.0";
}

verify_configured : verify engine (some engine) ≡ inr engine
unfolding verify
verify_configured = refl

verify_smaller :
    verify engine (some (record engine { embedding_dimensions = 768 }))
    ≡ inl (built_with_dimensions 768)
unfolding verify
verify_smaller = refl

expand_bag :
    expand
      (("bag", "sack" ∷ "bag" ∷ [])
        ∷ ("_note", "ignored" ∷ [])
        ∷ ("big", "sack" ∷ "large" ∷ [])
        ∷ [])
      "A BIG Bag?"
    ≡ "A BIG Bag? sack large"
unfolding expand
expand_bag = refl
