-- ===== src/Candidates/Tests.antt =====
-- A selection at concrete inputs (assistant/retrieval/candidates.py).
use technical_knowledge_assi.Prelude.{
  ◌≡◌, refl, true, false, none, List, [], ◌∷◌, ◌&&◌, not, String, All, string_eq,
}
use technical_knowledge_assi.Candidates.{
  Passage, Repository, Setting, assess, eligible, documented_rule, own_passages, is_no, is_empty,
  decide,
}
use technical_knowledge_assi.Requests.{ResolvedRequest, missing_facts}
use technical_knowledge_assi.Candidates.Evidence.{eligible-iff_own_evidence}
use technical_knowledge_assi.Candidates.Decision.{
  IsPublished, approved-IsPublished, asks, is_recommendation, decide-outcome,
}

abbrev ultra_passage : Passage
ultra_passage = record { chunk_id = "c1"; owner = "Lime Green Ultra"; content = "for brick" }

abbrev solo_passage : Passage
solo_passage = record { chunk_id = "c2"; owner = "Solo"; content = "for brick" }

abbrev repository : Repository
repository = record {
  find_passages = λ product terms. ultra_passage ∷ solo_passage ∷ [];
  manifest = none;
  caveats = λ url. none;
}

abbrev request : ResolvedRequest
request = record {
  product = "Ultra";
  objective = "plaster";
  substrate = "brick";
  location = "internal";
  exposure = "";
  candidate_products = "Duro" ∷ [];
  unsettled = [];
}

abbrev setting : Setting
setting = record {
  resolved = request;
  repo = repository;
  vocabulary = λ kind value. [];
  matrix = none;
}

abbrev registry : List String
registry = "Ultra" ∷ "Duro" ∷ []

-- Ultra has a passage of its own, Duro has none.
selected : (eligible (assess setting "Ultra") ≡ true) × (eligible (assess setting "Duro") ≡ false)
unfolding assess eligible
selected = (refl, refl)

eligible-iff_own_evidence_example : eligible (assess setting "Duro") ≡ (
    not (is_no (documented_rule none "Duro" request))
    && not (is_empty (own_passages repository setting.vocabulary request "Duro" "substrate")))
eligible-iff_own_evidence_example = eligible-iff_own_evidence setting "Duro"

approved-IsPublished_example :
    All (IsPublished setting registry) (decide setting (solo_passage ∷ []) registry).approved
approved-IsPublished_example = approved-IsPublished setting (solo_passage ∷ []) registry

decide-outcome_example :
    (asks (decide setting (solo_passage ∷ []) registry).outcome
      ≡ not (is_empty (missing_facts request)))
    × (is_recommendation (decide setting (solo_passage ∷ []) registry).outcome
        ≡ not (is_empty (decide setting (solo_passage ∷ []) registry).approved))
    × ((decide setting (solo_passage ∷ []) registry).missing ≡ missing_facts request)
decide-outcome_example = decide-outcome setting (solo_passage ∷ []) registry
