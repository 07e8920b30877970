-- ===== src/Understanding/Testimony.antt =====
-- `facts_from` (assistant/answering/understanding.py): what of a turn becomes a fact of the
-- conversation.
use technical_knowledge_assi.Prelude.{
  ℕ, String, Bool, false, ◌&&◌, ◌||◌, not, Option, none, some, [], ◌∷◌, keep, map, mem, strip,
  if◌then◌else◌, ◌==◌, string_eq, nat_eq, unique, ◌++◌,
}
use technical_knowledge_assi.Prelude.Dict
use technical_knowledge_assi.Prelude.Dict.{Dict}
use technical_knowledge_assi.Conversation.{stated, active, SessionFact, Incoming, denial, fact}
use technical_knowledge_assi.Router.Detector.{detect}
use technical_knowledge_assi.Router.Policy.{is_some, join}
use technical_knowledge_assi.Understanding.Readings.{Reader}
use technical_knowledge_assi.Understanding.Denials.{denials_in}
use technical_knowledge_assi.Understanding.Resolving.{Resolved, is_stated}

-- `resolved.slots()`
unfoldable pub filled_slots : Dict String String → Dict String String
unfolding keep
filled_slots = keep (λ s. not (s.1 == ""))

unfoldable pub slots_of : Resolved → Dict String String
unfolding filled_slots
slots_of r = filled_slots (
    ("product", r.product)
    ∷ ("substrate", r.substrate)
    ∷ ("location", r.location)
    ∷ ("exposure", r.exposure)
    ∷ [])

-- `retrieval_query`
unfoldable pub retrieval_query : Resolved → String
unfolding keep unique join
retrieval_query r = join (
    unique (
      r.raw_question
        ∷ keep (λ v. not (v == ""))
            (r.product ∷ r.objective ∷ r.substrate ∷ r.location ∷ r.exposure ∷ [])
      ++ r.requested_properties))

abbrev pub denial_of : String × String → String × Incoming
denial_of d = (d.0, denial (record { slot = d.0; value = d.1 }))

abbrev pub stated_fact : String → String → ℕ → SessionFact
stated_fact slot value turn = record {
  slot = slot;
  value = value;
  provenance = stated;
  source_turn = turn;
  status = active;
  confidence = 1000;
  image_ref = "";
}

abbrev pub is_value : Option String → String → Bool
is_value none value = false
is_value (some v) value = v == value

-- What the loop adds for one slot.
unfoldable pub is_testimony :
    Resolved → Dict String Incoming → Dict String String → String → String → Bool
unfolding mem Dict.lookup is_some
is_testimony r out grounded slot value =
    not (mem slot r.transient)
    && not (is_some (Dict.lookup slot out))
    && is_stated (Dict.lookup slot r.provenance)
    && is_value (Dict.lookup slot grounded) value

unfoldable pub add_facts :
    Resolved
    → ℕ
    → Dict String String
    → Dict String String
    → Dict String Incoming
    → Dict String Incoming
unfolding is_testimony Dict.insert
add_facts r turn grounded [] out = out
add_facts r turn grounded ((slot, value) ∷ rest) out = add_facts r turn grounded rest (
    if is_testimony r out grounded slot value
    then Dict.insert slot (fact (stated_fact slot value turn)) out
    else out)

unfoldable pub ground_product : String → Dict String String → Dict String String
unfolding Dict.insert
ground_product product grounded =
    if product == "" then grounded else Dict.insert "product" product grounded

unfoldable pub facts_from : Reader → Resolved → ℕ → Dict String Incoming
unfolding denials_in strip add_facts ground_product detect slots_of
facts_from reader r turn =
    let out = map denial_of (denials_in reader r.raw_question) in
    let asserted = reader.asserted_text r.raw_question in
    if not (reader.state_request_slot r.raw_question == "") || strip asserted == ""
    then out
    else add_facts r turn
        (ground_product (reader.stated_product r.raw_question (r.product ∷ []))
          (detect reader.vocabulary asserted))
        (slots_of r) out
