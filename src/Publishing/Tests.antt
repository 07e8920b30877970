-- ===== src/Publishing/Tests.antt =====
-- Deltas on concrete stores (assistant/knowledge/store/embedded.py).
use technical_knowledge_assi.Prelude.{◌≡◌, refl, none, some, List, [], ◌∷◌, String, string_eq}
use technical_knowledge_assi.Publishing.{
  DocumentUpdate, Snapshot, Store, mismatch, committed, apply_delta, delta, new_store,
}
use technical_knowledge_assi.Publishing.Rows.{IsConsistent}
use technical_knowledge_assi.Publishing.Active.{Delta, after, after_deltas-IsConsistent}
use technical_knowledge_assi.Publishing.Retained.{Extends, delta-Extends}
use technical_knowledge_assi.Publishing.Atomic.{second_indexer_is_refused}

abbrev release : String → Snapshot
release id = record {
  snapshot_id = id;
  created_at = "2026-01-01";
  parent_snapshot = some none;
  document_count = 0;
  chunk_count = 0;
}

abbrev sheet : String → DocumentUpdate
sheet content_hash = record {
  document = record { canonical_url = "ultra.pdf"; metadata = [] };
  version = record { content_hash = content_hash; source = [] };
  chunks = record { chunk_index = 0; content = content_hash } ∷ [];
  caveats = [];
}

abbrev deltas : List Delta
deltas =
    record {
      updates = [];
      removed = "ultra.pdf" ∷ [];
      new_snapshot = record (release "s3") { parent_snapshot = none };
      new_excluded = none;
    }
    ∷ record {
      updates = sheet "h2" ∷ [];
      removed = [];
      new_snapshot = record (release "s2") { parent_snapshot = some (some "s1") };
      new_excluded = none;
    }
    ∷ record {
      updates = sheet "h1" ∷ [];
      removed = [];
      new_snapshot = release "s1";
      new_excluded = none;
    }
    ∷ []

after_deltas-IsConsistent_example : IsConsistent (after deltas)
after_deltas-IsConsistent_example = after_deltas-IsConsistent deltas

delta-Extends_example : Extends (delta (sheet "h1" ∷ []) [] (release "s1") none new_store) (
    delta
      (sheet "h2" ∷ [])
      ("ultra.pdf" ∷ [])
      (release "s2")
      none
      (delta (sheet "h1" ∷ []) [] (release "s1") none new_store))
delta-Extends_example =
    delta-Extends (sheet "h2" ∷ []) ("ultra.pdf" ∷ []) (release "s2") none
      (delta (sheet "h1" ∷ []) [] (release "s1") none new_store)

second_indexer_is_refused_example :
    (next : Store) × (apply_delta (sheet "h1" ∷ []) [] (release "s1") none new_store
      ≡ committed next)
    × (apply_delta (sheet "h2" ∷ []) [] (release "s2") none next ≡ mismatch next)
second_indexer_is_refused_example =
    second_indexer_is_refused (sheet "h1" ∷ []) (sheet "h2" ∷ []) [] [] (release "s1")
      (release "s2") none none new_store refl refl (λ e. cc e)
