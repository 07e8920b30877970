-- ===== src/Router/Tests.antt =====
-- Runs of the router on small vocabularies.
use technical_knowledge_assi.Prelude.{
  ◌≡◌, ◌≢◌, ◌↔◌, refl, String, Bool, true, false, none, List, [], ◌∷◌, arith, string_eq, ◌==◌,
  contains, lower, split_on, prefix,
}
use technical_knowledge_assi.Prelude.Dict
use technical_knowledge_assi.Prelude.Dict.{Dict}
use technical_knowledge_assi.Retrieval.{Row}
use technical_knowledge_assi.Router.Detector.{
  Vocabulary, SlotSpec, detect, has_slot, primary_properties,
}
use technical_knowledge_assi.Router.Gates.{is_nil, unsupported_terms}
use technical_knowledge_assi.Router.Policy.{Routing, split_by_topic}
use technical_knowledge_assi.Router.Route.{
  extract, compose, ask_back, refuse, Rules, route_question, top_defers, slots_for, lacks,
  gate_terms, wall_for, needs_substrate, single_document, staff_only, asked_for,
}
use technical_knowledge_assi.Router.Best.{IsBest, detect-IsBest}
use technical_knowledge_assi.Router.Outcomes.{composes_iff}
use technical_knowledge_assi.Router.Evidence.{evidence-IsGated, IsGated}
use technical_knowledge_assi.Router.Agreement.{unsupported_terms-agree}
use technical_knowledge_assi.Router.Splitting.{split_needs_two_jobs, AreTwoJobs}

abbrev property_spec : SlotSpec
property_spec = record {
  values =
      ("coverage", "per bag" ∷ "coverage" ∷ [])
      ∷ ("water", "how much water" ∷ [])
      ∷ ("thickness", "thick" ∷ "thickness" ∷ [])
      ∷ ("compatibility", "suitable" ∷ [])
      ∷ [];
  ask_only = ("compatibility", "applied" ∷ []) ∷ [];
  is_load_bearing = false;
}

abbrev substrate_spec : SlotSpec
substrate_spec = record {
  values = ("brick", "brick" ∷ []) ∷ ("masonry", "masonry" ∷ []) ∷ [];
  ask_only = [];
  is_load_bearing = true;
}

abbrev calculation_spec : SlotSpec
calculation_spec = record {
  values = ("quantity", "how many" ∷ []) ∷ [];
  ask_only = [];
  is_load_bearing = false;
}

abbrev vocabulary : Vocabulary
vocabulary = record {
  spec =
      ("property_asked", property_spec)
      ∷ ("substrate", substrate_spec)
      ∷ ("calculation", calculation_spec)
      ∷ [];
  classes = ("brick", "masonry") ∷ [];
}

abbrev rules : Rules
rules = record {
  vocabulary = vocabulary;
  is_deferral = contains "ask us";
  asked_groups = λ q. [];
  on_wall = λ q. none;
  is_product_choice = contains "which plaster";
  is_strong_product_choice = contains "which plaster";
  is_comparison = contains "compare";
  is_about_my_building = contains "my";
}

abbrev passage : String → String → Row
passage url content = record {
  chunk_id = "c";
  canonical_url = url;
  section = "Use";
  content = content;
  audience = "public";
  row_product = "Solo";
  source_date = "2025";
  authority = 1;
}

abbrev sheets : List Row
sheets =
    passage "a" "Apply at a thickness of 10 mm on masonry."
    ∷ passage "b" "One bag: coverage 1 m2."
    ∷ []

abbrev public_only : List String
public_only = "public" ∷ []

-- The longer term wins over the one that is declared first.
detected :
    (detect vocabulary "How much water does Solo need per bag?" ≡ ("property_asked", "water") ∷ [])
    × (detect vocabulary "Can it be applied?" ≡ ("property_asked", "compatibility") ∷ [])
    × (primary_properties vocabulary "how much water per bag?" ≡ "water" ∷ "coverage" ∷ [])
unfolding detect primary_properties
detected = (refl, refl, refl)

paths :
    ((route_question rules "how thick is it?" sheets true public_only []).path ≡ compose)
    × ((route_question rules "how many for a wall?" sheets true public_only []).path ≡ extract)
    × ((route_question rules "how much water?" sheets true public_only []).path ≡ refuse)
    × ((route_question rules "which plaster on my wall?" sheets true public_only []).path
        ≡ ask_back)
    × ((route_question rules "is it suitable" sheets true public_only
          (("substrate", "cob") ∷ [])).step
        ≡ "4")
    × ((route_question rules "how thick is it?" sheets false public_only []).path ≡ refuse)
unfolding route_question
paths = (refl, refl, refl, refl, refl, refl)

composes_iff_example :
    (route_question rules "how thick is it?" sheets true public_only []).path ≡ compose
unfolding is_nil top_defers has_slot slots_for contains lacks gate_terms wall_for needs_substrate
    single_document staff_only asked_for
composes_iff_example =
    (composes_iff rules "how thick is it?" sheets true public_only []).1
      (refl, refl, refl, refl, refl, refl, refl, refl, refl, refl)

abbrev deferral : List Row
deferral = passage "a" "For thickness ask us." ∷ []

evidence-IsGated_example :
    IsGated (route_question rules "how thick, per bag?" sheets true public_only [])
evidence-IsGated_example = evidence-IsGated rules "how thick, per bag?" sheets true public_only []

unsupported_terms-agree_example :
    ((route_question rules "how much water?" sheets true public_only []).step ≡ "4") ↔ (
      unsupported_terms rules.asked_groups rules.on_wall rules.vocabulary "how much water?" sheets
        []
      ≢ [])
unfolding is_nil top_defers contains has_slot slots_for
unsupported_terms-agree_example =
    unsupported_terms-agree rules "how much water?" sheets true public_only [] refl refl refl refl

detect-IsBest_example :
    IsBest vocabulary "property_asked"
      (lower "how much water per bag?")
      property_spec.values
      (Dict.lookup "property_asked" (detect vocabulary "how much water per bag?"))
unfolding Dict.lookup prefix
detect-IsBest_example =
    detect-IsBest vocabulary "how much water per bag?" "property_asked" property_spec
      (refl, (refl, (refl, tt))) refl refl

-- A splitter that cuts at semicolons, and one instruction.
abbrev at_semicolons : String → List String
at_semicolons = split_on ";"

abbrev is_override : String → Bool
is_override part = part == "ignore the documents"

abbrev routing : Routing
routing = record { safety_precedence = []; topics = ("price", contains "cost") ∷ [] }

split_needs_two_jobs_example :
    AreTwoJobs at_semicolons is_override routing
      (split_by_topic at_semicolons is_override routing "what does it cost; how thick is it")
unfolding split_by_topic contains
split_needs_two_jobs_example =
    split_needs_two_jobs at_semicolons is_override routing "what does it cost; how thick is it"
      (omega arith)
