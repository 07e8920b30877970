-- ===== src/Ledger/Tests.antt =====
-- The ledger after concrete fetches (assistant/indexing/crawl.py).
use technical_knowledge_assi.Prelude.{none, some, List, [], ◌∷◌, String, All}
use technical_knowledge_assi.Ledger.{Fetch}
use technical_knowledge_assi.Ledger.Numbering.{IsNumbered, after, after_fetches-IsNumbered}

abbrev fetched : String → String → Fetch
fetched digest stamp = record {
  url = "ultra.pdf";
  digest = digest;
  etag_header = some "tag";
  last_modified_header = none;
  stamp = stamp;
  archived = digest;
}

abbrev fetches : List Fetch
fetches = fetched "h2" "3" ∷ fetched "h1" "2" ∷ fetched "h1" "1" ∷ []

after_fetches-IsNumbered_example : All (λ entry. IsNumbered entry.1) (after fetches)
after_fetches-IsNumbered_example = after_fetches-IsNumbered fetches
