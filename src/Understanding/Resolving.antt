-- ===== src/Understanding/Resolving.antt =====
-- `resolve` (assistant/answering/understanding.py): the request that a reading and the conversation
-- make.
use technical_knowledge_assi.Prelude.{
  ℕ, String, Bool, true, false, ◌&&◌, ◌||◌, not, Option, none, some, List, [], ◌∷◌, keep, map,
  prefix, lower, strip, unique, ltb, if◌then◌else◌, ◌==◌, string_eq, nat_eq,
}
use technical_knowledge_assi.Prelude.Dict
use technical_knowledge_assi.Prelude.Dict.{Dict}
use technical_knowledge_assi.Conversation.{
  Provenance, stated, carried, observed, assumed, is_active, SessionFact, Facts,
}
use technical_knowledge_assi.Conversation.Cases.{unsettled_in}
use technical_knowledge_assi.Router.Words.{has_word}
use technical_knowledge_assi.Router.Detector.{detect, has_slot}
use technical_knowledge_assi.Router.Gates.{value_at}
use technical_knowledge_assi.Understanding.Readings.{
  Intent, Measurements, TurnUnderstanding, Reader, measurements_in,
}
use technical_knowledge_assi.Understanding.Denials.{building_slots, denials_in}
use technical_knowledge_assi.Understanding.Names.{registered}

pub record Resolved : Type 0 where
  pub intent : Intent
  pub raw_question : String
  pub product : String
  pub objective : String
  pub substrate : String
  pub location : String
  pub exposure : String
  pub requested_properties : List String
  pub measurements : Measurements
  pub candidate_products : List String
  pub policy_topic : String
  pub provenance : Dict String Provenance
  pub unsettled : List String
  pub transient : List String
  pub denied : Dict String String

unfoldable pub scenario_only : Reader → String → Bool
scenario_only reader question =
    reader.is_scenario_ask question
    && reader.is_suitability question
    && not (reader.is_own_building question)

-- The value that the vocabulary gives a word of the model that the question has.
unfoldable pub confirmed : Reader → String → String → String → String
unfolding has_word value_at detect lower strip
confirmed reader asserted slot model_value =
    let word = lower (strip model_value) in
    if not (word == "") && has_word word (lower asserted)
    then value_at slot (detect reader.vocabulary model_value)
    else ""

unfoldable pub taken_from : Option String → String → Option String
taken_from (some value) word = some value
taken_from none word = if word == "" then none else some word

-- `take`: the value that this turn states for the slot.
unfoldable pub take_slot :
    Reader → Dict String String → Dict String String → String → String → String → Option String
unfolding has_slot taken_from Dict.lookup confirmed
take_slot reader denied detected asserted slot model_value =
    if has_slot slot denied
    then none
    else taken_from (Dict.lookup slot detected) (confirmed reader asserted slot model_value)

-- The four slots of a request, with where the values come from.
pub record Building : Type 0 where
  pub about : String
  pub wall : String
  pub place : String
  pub weather : String
  pub origins : Dict String Provenance

unfoldable pub or_nothing : Option String → String
or_nothing none = ""
or_nothing (some value) = value

unfoldable pub note :
    String → Provenance → Option String → Dict String Provenance → Dict String Provenance
unfolding Dict.insert
note slot p none origins = origins
note slot p (some value) origins = Dict.insert slot p origins

abbrev pub is_stated : Option Provenance → Bool
is_stated (some stated) = true
is_stated _ = false

abbrev pub is_assumed : Option Provenance → Bool
is_assumed (some assumed) = true
is_assumed _ = false

-- `origin_of`
unfoldable pub origin_of : ℕ → SessionFact → Provenance
origin_of turn f = elim f.provenance [
  | stated ↦ if not (f.source_turn == 0) && ltb f.source_turn turn then carried else stated
  | carried ↦ carried
  | observed ↦ observed
  | assumed ↦ assumed
]

-- The loop over what the conversation holds: `compares` is `compares_products(question, registry)`.
unfoldable pub inherit_slot : Bool → String → String → Provenance → Building → Building
unfolding Dict.insert Dict.lookup
inherit_slot compares slot value origin b =
    if slot == "product"
      && not compares
      && (b.about == "" || b.about == value && is_assumed (Dict.lookup "product" b.origins))
    then record b { about = value; origins = Dict.insert "product" origin b.origins }
    else if slot == "substrate" && b.wall == ""
    then record b { wall = value; origins = Dict.insert "substrate" origin b.origins }
    else if slot == "location" && b.place == ""
    then record b { place = value; origins = Dict.insert "location" origin b.origins }
    else if slot == "exposure" && b.weather == ""
    then record b { weather = value; origins = Dict.insert "exposure" origin b.origins }
    else b

unfoldable pub inherit_facts : Bool → ℕ → Dict String String → Facts → Building → Building
unfolding has_slot inherit_slot origin_of
inherit_facts compares turn denied [] b = b
inherit_facts compares turn denied ((slot, h) ∷ rest) b = inherit_facts compares turn denied rest (
    if is_active h.current.status && not (has_slot slot denied)
    then inherit_slot compares slot h.current.value (origin_of turn h.current) b
    else b)

abbrev pub assumed_unless : Bool → Provenance
assumed_unless b = if b then stated else assumed

-- The product: the topic that the question names, or the one under discussion.
unfoldable pub topic_of :
    Reader
    → String
    → List String
    → String
    → Dict String Provenance
    → String × Dict String Provenance
unfolding Dict.insert
topic_of reader question registry active_product origins =
    let product = reader.topic_product question registry in
    if not (product == "")
    then (
      product,
      Dict.insert "product" (assumed_unless (reader.stated_product question registry == product))
          origins,
    )
    else if not (active_product == "") && not (reader.compares_products question registry)
    then (active_product, Dict.insert "product" assumed origins)
    else ("", origins)

-- What this turn states of the building.
unfoldable pub stated_building :
    Reader → TurnUnderstanding → String → List String → String → Building
unfolding take_slot denials_in detect note or_nothing topic_of
stated_building reader reading question registry active_product =
    let asserted = reader.asserted_text question in
    let detected = detect reader.vocabulary asserted in
    let denied = denials_in reader question in
    let substrate = take_slot reader denied detected asserted "substrate" reading.substrate in
    let location = take_slot reader denied detected asserted "location" reading.location in
    let exposure = take_slot reader denied detected asserted "exposure" "" in
    let origins =
      note "exposure" stated exposure
        (note "location" stated location (note "substrate" stated substrate [])) in
    let topic = topic_of reader question registry active_product origins in
    record {
      about = topic.0;
      wall = or_nothing substrate;
      place = or_nothing location;
      weather = or_nothing exposure;
      origins = topic.1;
    }

-- The building slots that a scenario supplies.
unfoldable pub transient_of : Reader → String → Dict String Provenance → List String
unfolding scenario_only keep Dict.lookup
transient_of reader question origins =
    if scenario_only reader question
    then keep (λ slot. is_stated (Dict.lookup slot origins)) building_slots
    else []

unfoldable pub note_measured : Measurements → Dict String Provenance → Dict String Provenance
unfolding Dict.insert
note_measured [] origins = origins
note_measured (m ∷ measured) origins = Dict.insert "measurements" stated origins

unfoldable pub resolve :
    Reader → TurnUnderstanding → String → List String → Facts → ℕ → String → Resolved
unfolding stated_building inherit_facts denials_in measurements_in note_measured unique registered
    unsettled_in transient_of strip lower prefix
resolve reader reading question registry held turn active_product =
    let said = stated_building reader reading question registry active_product in
    let b =
      inherit_facts (reader.compares_products question registry) turn (denials_in reader question)
        held said in
    let measured = measurements_in reader (reader.asserted_text question) in
    record {
      intent = reading.intent;
      raw_question = question;
      product = b.about;
      objective = prefix 60 (lower (strip reading.objective));
      substrate = b.wall;
      location = b.place;
      exposure = b.weather;
      requested_properties = reading.requested_properties;
      measurements = measured;
      candidate_products =
          unique (keep (λ p. not (p == "")) (map (registered registry) reading.candidate_products));
      policy_topic = reading.policy_topic;
      provenance = note_measured measured b.origins;
      unsettled = unsettled_in held;
      transient = transient_of reader question said.origins;
      denied = denials_in reader question;
    }
