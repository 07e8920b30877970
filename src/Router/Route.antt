-- ===== src/Router/Route.antt =====
-- `Router.route` (assistant/answering/router.py): the ordered decision. The vocabulary and the
-- regular expressions of the class are the fields of `Rules`.
use technical_knowledge_assi.Prelude.{
  String, Bool, true, false, ◌&&◌, ◌||◌, not, Option, none, some, List, [], ◌∷◌, map, mem, unique,
  length, nat_eq, if◌then◌else◌, ◌==◌, string_eq,
}
use technical_knowledge_assi.Prelude.Dict
use technical_knowledge_assi.Prelude.Dict.{Dict}
use technical_knowledge_assi.Retrieval.{Row}
use technical_knowledge_assi.Router.Detector.{
  Vocabulary, class_of, detect, primary_properties, has_slot,
}
use technical_knowledge_assi.Router.Gates.{
  value_at, update, flatten, is_nil, present, asked_by_property, substrate_terms,
}

pub data RoutePath : Type 0 where
  route extract compose defer diagnosis ask_back select refuse : RoutePath

-- The fields that the router writes; `reason` is a text of the branch of `step`.
pub record Decision : Type 0 where
  pub path : RoutePath
  pub step : String
  pub slots : Dict String String
  pub hits : List Row
  pub missing_term : String
  pub asked_terms : List String
  pub per_option : Bool
  pub sum_refused : Bool
  pub photograph : Bool
  pub evidence_terms : Dict String (List String)
  pub substrate_class : String

pub record Rules : Type 0 where
  pub vocabulary : Vocabulary
  pub is_deferral : String → Bool
  pub asked_groups : String → List (Option String)
  pub on_wall : String → Option String
  pub is_product_choice : String → Bool
  pub is_strong_product_choice : String → Bool
  pub is_comparison : String → Bool
  pub is_about_my_building : String → Bool

abbrev pub location_sensitive : List String
location_sensitive =
    "coverage" ∷ "thickness" ∷ "coats" ∷ "drying" ∷ "finish" ∷ "painting" ∷ "temperature" ∷ []

-- `_single_document`
unfoldable pub single_document : List Row → Bool
unfolding unique
single_document hits = length (unique (map (λ h. h.canonical_url) hits)) == 1

-- `self._defers(hits[0].chunk.content)`, where there is a passage
unfoldable pub top_defers : (String → Bool) → List Row → Bool
top_defers is_deferral [] = false
top_defers is_deferral (h ∷ hits) = is_deferral h.content

-- `{p: by_property[p] for p in primary if p in by_property}`
unfoldable pub binding_of : List String → Dict String (List String) → Dict String (List String)
unfolding Dict.lookup
binding_of [] by_property = []
binding_of (p ∷ primary) by_property =
    let rest = binding_of primary by_property in
    elim (Dict.lookup p by_property) [ none ↦ rest | some terms ↦ (p, terms) ∷ rest ]

-- `binding or dict(by_property)`
unfoldable pub or_all :
    Dict String (List String) → Dict String (List String) → Dict String (List String)
or_all [] by_property = by_property
or_all (b ∷ binding) by_property = b ∷ binding

module _ (r : Rules) where
  unfoldable pub needs_substrate : String → Dict String String → Bool
  unfolding value_at primary_properties is_nil has_slot
  needs_substrate question slots =
      if not (r.is_product_choice question)
      then false
      else if r.is_comparison question
      then false
      else if not (value_at "product" slots == "")
          && not (r.is_strong_product_choice question)
          && not (is_nil (primary_properties r.vocabulary question))
      then false
      else r.is_about_my_building question
        || has_slot "symptom" slots
        || has_slot "photograph" slots

  unfoldable pub location_matters : String → Dict String String → Bool
  unfolding value_at mem
  location_matters question slots =
      r.is_product_choice question || mem (value_at "property_asked" slots) location_sensitive

  -- `{**(carried or {}), **self.slots.detect(question)}`
  unfoldable pub slots_for : String → Dict String String → Dict String String
  unfolding update detect
  slots_for question carried = update carried (detect r.vocabulary question)

  unfoldable pub asked_for : String → Dict String String → String × Dict String (List String)
  unfolding asked_by_property
  asked_for question slots = asked_by_property r.asked_groups r.on_wall r.vocabulary question slots

  -- `terms`: the gate's word list.
  unfoldable pub gate_terms : String → Dict String String → List String
  unfolding asked_for flatten unique
  gate_terms question slots = unique (flatten (asked_for question slots).1)

  unfoldable pub wall_for : String → Dict String String → String × List String
  unfolding substrate_terms
  wall_for question slots = substrate_terms r.asked_groups r.on_wall r.vocabulary question slots

  -- The decision of a branch, with the fields that all share.
  unfoldable pub decision : RoutePath → String → Dict String String → List Row → Decision
  unfolding has_slot
  decision path step slots hits = record {
    path = path;
    step = step;
    slots = slots;
    hits = hits;
    missing_term = "";
    asked_terms = [];
    per_option = false;
    sum_refused = false;
    photograph = has_slot "photograph" slots;
    evidence_terms = [];
    substrate_class = "";
  }

  -- A decision of a step past the gate: `carry`.
  unfoldable pub carrying : RoutePath → String → String → Dict String String → List Row → Decision
  unfolding decision gate_terms or_all binding_of primary_properties asked_for class_of value_at
  carrying path step question slots hits = record (decision path step slots hits) {
    asked_terms = gate_terms question slots;
    evidence_terms =
        or_all (binding_of (primary_properties r.vocabulary question) (asked_for question slots).1)
          (asked_for question slots).1;
    substrate_class = class_of r.vocabulary (value_at "substrate" slots);
  }

  unfoldable pub per_option_for : String → Dict String String → Bool
  unfolding has_slot location_matters
  per_option_for question slots = not (has_slot "location" slots) && location_matters question slots

  unfoldable pub staff_only : List String → Bool
  unfolding mem
  staff_only audiences = mem "staff" audiences && not (mem "public" audiences)

  unfoldable pub lacks : List String → List Row → Bool
  unfolding is_nil present
  lacks terms hits = not (is_nil terms) && not (present terms hits)

  -- The decisions of the steps that set a field of their own.
  unfoldable pub lacks_property : String → Dict String String → List Row → Decision
  unfolding decision asked_for
  lacks_property question slots hits = record (decision refuse "4" slots hits) {
    missing_term = (asked_for question slots).0;
  }

  unfoldable pub lacks_wall : String → Dict String String → List Row → Decision
  unfolding decision wall_for
  lacks_wall question slots hits = record (decision refuse "4s" slots hits) {
    missing_term = (wall_for question slots).0;
  }

  unfoldable pub refused_sum : String → Dict String String → List Row → Decision
  unfolding carrying per_option_for
  refused_sum question slots hits = record (carrying extract "6" question slots hits) {
    sum_refused = true;
    per_option = per_option_for question slots;
  }

  unfoldable pub printed : String → Dict String String → List Row → Decision
  unfolding carrying per_option_for
  printed question slots hits = record (carrying extract "7" question slots hits) {
    per_option = per_option_for question slots;
  }

  unfoldable pub composed : String → Dict String String → List Row → Decision
  unfolding carrying per_option_for
  composed question slots hits = record (carrying compose "8" question slots hits) {
    per_option = per_option_for question slots;
  }

  -- Steps 5 to 8.
  unfoldable pub past_gate : String → List Row → List String → Dict String String → Decision
  unfolding has_slot needs_substrate carrying refused_sum single_document asked_for printed
      staff_only composed
  past_gate question hits audiences slots =
      if not (has_slot "substrate" slots) && needs_substrate question slots
      then carrying ask_back "5" question slots hits
      else if has_slot "calculation" slots
      then refused_sum question slots hits
      else if single_document hits && not ((asked_for question slots).0 == "")
      then printed question slots hits
      else if staff_only audiences
      then carrying extract "7s" question slots hits
      else composed question slots hits

  unfoldable pub route_with : String → List Row → Bool → List String → Dict String String → Decision
  unfolding is_nil decision top_defers has_slot lacks gate_terms lacks_property wall_for lacks_wall
      past_gate
  route_with question hits above_threshold audiences slots =
      if not above_threshold || is_nil hits
      then decision refuse "1" slots hits
      else if top_defers r.is_deferral hits
      then decision defer "2" slots hits
      else if has_slot "cause_asked" slots
          || (has_slot "symptom" slots && has_slot "cause_asked" slots)
      then decision diagnosis "3" slots hits
      else if lacks (gate_terms question slots) hits
      then lacks_property question slots hits
      else if lacks (wall_for question slots).1 hits
      then lacks_wall question slots hits
      else past_gate question hits audiences slots

  unfoldable pub route_question :
      String → List Row → Bool → List String → Dict String String → Decision
  unfolding route_with slots_for
  route_question question hits above_threshold audiences carried =
      route_with question hits above_threshold audiences (slots_for question carried)
