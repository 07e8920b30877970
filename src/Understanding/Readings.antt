-- ===== src/Understanding/Readings.antt =====
-- How one turn is read (assistant/answering/understanding.py): `deterministic`, the model's reply and
-- `merge_understanding`. What the other functions of that file find in a question by regular
-- expressions is an argument (`Reader`), and so are the policy gate and the model's reply.
use technical_knowledge_assi.Prelude.{
  ℕ, String, Bool, true, false, ◌&&◌, ◌||◌, not, Option, none, some, List, [], ◌∷◌, ◌++◌, take,
  prefix, map, leb, ltb, if◌then◌else◌, ◌==◌, string_eq,
}
use technical_knowledge_assi.Prelude.Dict.{Dict}
use technical_knowledge_assi.Router.Detector.{Vocabulary, detect, detect_properties, has_slot}
use technical_knowledge_assi.Router.Gates.{value_at, is_nil}

pub data Intent : Type 0 where
  select lookup verify calculate understand troubleshoot find escalate unknown : Intent

-- Measurements count in hundredths.
abbrev pub Measurements : Type 0
Measurements = Dict String ℕ

pub record TurnUnderstanding : Type 0 where
  pub intent : Intent
  pub explicit_product : String
  pub candidate_products : List String
  pub objective : String
  pub substrate : String
  pub location : String
  pub requested_properties : List String
  pub measurements : Measurements
  pub new_subject : Bool
  pub policy_topic : String
  pub source : String
  pub error : String

abbrev pub no_reading : TurnUnderstanding
no_reading = record {
  intent = unknown;
  explicit_product = "";
  candidate_products = [];
  objective = "";
  substrate = "";
  location = "";
  requested_properties = [];
  measurements = [];
  new_subject = false;
  policy_topic = "";
  source = "deterministic";
  error = "";
}

-- `confident`
unfoldable pub is_confident : TurnUnderstanding → Bool
is_confident reading = elim reading.intent [ unknown ↦ false | _ ↦ true ]

-- What is found in a question.
pub record Reader : Type 0 where
  pub vocabulary : Vocabulary
  pub policy_of : String → Option String
  pub area_in : String → Option ℕ
  pub thickness_in : String → Option ℕ
  pub state_request_slot : String → String
  pub is_background_lookup : String → Bool
  pub is_select_shape : String → Bool
  pub topic_product : String → List String → String
  pub stated_product : String → List String → String
  pub compared_products : String → List String → List String
  pub compares_products : String → List String → Bool
  pub asserted_text : String → String
  pub is_scenario_ask : String → Bool
  pub is_suitability : String → Bool
  pub is_own_building : String → Bool
  pub negation_count : String → String → ℕ × ℕ

-- MAX_AREA_M2 and MAX_THICKNESS_MM, in hundredths
abbrev pub max_area : ℕ
max_area = 1000000

abbrev pub max_thickness : ℕ
max_thickness = 50000

unfoldable pub bounded_measure : String → ℕ → Option ℕ → Measurements
bounded_measure name limit none = []
bounded_measure name limit (some n) = if ltb 0 n && leb n limit then (name, n) ∷ [] else []

unfoldable pub measurements_in : Reader → String → Measurements
unfolding bounded_measure
measurements_in reader question =
    bounded_measure "area_m2" max_area (reader.area_in question)
    ++ bounded_measure "thickness_mm" max_thickness (reader.thickness_in question)

-- The intent, by the first test that holds.
unfoldable pub intent_of :
    Reader → String → List String → Dict String String → Measurements → Intent
unfolding has_slot is_nil
intent_of reader question registry slots measured =
    if not (reader.state_request_slot question == "")
    then lookup
    else if has_slot "cause_asked" slots || has_slot "symptom" slots
    then troubleshoot
    else if has_slot "calculation" slots || not (is_nil measured)
    then calculate
    else if reader.is_background_lookup question
    then lookup
    else if reader.is_select_shape question
    then (if not (reader.topic_product question registry == "")
          || not (is_nil (reader.compared_products question registry))
        then verify
        else select)
    else if has_slot "property_asked" slots
    then lookup
    else unknown

unfoldable pub deterministic_by : Reader → String → List String → Option String → TurnUnderstanding
unfolding detect measurements_in intent_of value_at detect_properties
deterministic_by reader question registry (some topic) = record no_reading {
  intent = escalate;
  policy_topic = topic;
  measurements = measurements_in reader question;
}
deterministic_by reader question registry none =
    let slots = detect reader.vocabulary question in
    record no_reading {
      intent = intent_of reader question registry slots (measurements_in reader question);
      objective = value_at "objective" slots;
      substrate = value_at "substrate" slots;
      location = value_at "location" slots;
      requested_properties = detect_properties reader.vocabulary question;
      measurements = measurements_in reader question;
    }

unfoldable pub deterministic : Reader → String → List String → TurnUnderstanding
unfolding deterministic_by
deterministic reader question registry =
    deterministic_by reader question registry (reader.policy_of question)

unfoldable pub is_ambiguous : TurnUnderstanding → Bool
is_ambiguous reading =
    if not (reading.policy_topic == "")
    then false
    else elim reading.intent [ select ↦ true | _ ↦ false ]

-- `a or b` on texts and on tuples
unfoldable pub or_text : String → String → String
or_text a b = if a == "" then b else a

unfoldable pub or_list : List String → List String → List String
or_list [] b = b
or_list (x ∷ a) b = x ∷ a

unfoldable pub merge_understanding : TurnUnderstanding → TurnUnderstanding → TurnUnderstanding
unfolding is_confident or_text or_list
merge_understanding base model = if not (base.policy_topic == "") then base else record {
  intent = if is_confident base then base.intent else model.intent;
  explicit_product = or_text base.explicit_product model.explicit_product;
  candidate_products = or_list model.candidate_products base.candidate_products;
  objective = or_text base.objective model.objective;
  substrate = or_text base.substrate model.substrate;
  location = or_text base.location model.location;
  requested_properties = or_list base.requested_properties model.requested_properties;
  measurements = base.measurements;
  new_subject = model.new_subject;
  policy_topic = base.policy_topic;
  source = model.source;
  error = model.error;
}

-- The fields of a decoded reply. An intent that is not one of the enumeration's is `none`.
pub record RawReading : Type 0 where
  pub raw_intent : Option Intent
  pub raw_product : String
  pub raw_candidates : List String
  pub raw_objective : String
  pub raw_substrate : String
  pub raw_location : String
  pub raw_properties : List String
  pub raw_new_subject : Bool

-- What the call of the model came to: an exception with its text, a reply that does not decode to an
-- object, or is an empty one, or the object.
pub data Reply : Type 0 where
  unavailable : String → Reply
  unparseable : Reply
  parsed : RawReading → Reply

unfoldable pub or_unknown : Option Intent → Intent
or_unknown none = unknown
or_unknown (some intent) = intent

unfoldable pub proposed : RawReading → TurnUnderstanding
unfolding or_unknown prefix take
proposed raw = record no_reading {
  intent = or_unknown raw.raw_intent;
  explicit_product = prefix 80 raw.raw_product;
  candidate_products = map (prefix 80) (take 5 raw.raw_candidates);
  objective = prefix 60 raw.raw_objective;
  substrate = prefix 60 raw.raw_substrate;
  location = prefix 60 raw.raw_location;
  requested_properties = map (prefix 40) (take 6 raw.raw_properties);
  new_subject = raw.raw_new_subject;
  source = "model";
}

unfoldable pub read_reply : TurnUnderstanding → Reply → TurnUnderstanding
unfolding merge_understanding proposed
read_reply base (unavailable text) = record base { source = "deterministic"; error = text }
read_reply base unparseable = record base { source = "model+fallback"; error = "unparseable reply" }
read_reply base (parsed raw) = merge_understanding base (proposed raw)

-- `understand`: the reply is that of the call, where one is made.
unfoldable pub understand_turn :
    Reader → String → List String → Bool → Bool → Reply → TurnUnderstanding
unfolding deterministic is_ambiguous read_reply
understand_turn reader question registry enabled force reply =
    let base = deterministic reader question registry in
    if not enabled || (not force && not (is_ambiguous base)) then base else read_reply base reply
