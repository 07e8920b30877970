-- ===== src/Turn/Nodes.antt =====
-- The nodes of the graph (assistant/turn/graph.py), each as the state after its updates are merged;
-- `none` is an exception, which no node catches.
-- Spans, events and the trace are left out.
use Prim.Native.String.{◌++◌ as joined}
use technical_knowledge_assi.Prelude.{
  ℕ, String, Bool, true, false, not, Option, none, some, List, [], ◌∷◌, map, keep, if◌then◌else◌,
  ◌==◌, string_eq,
}
use technical_knowledge_assi.Prelude.Dict.{Dict}
use technical_knowledge_assi.Candidates.{Passage, RecommendationDecision, Outcome, decide}
use technical_knowledge_assi.Conversation.{
  observed, active, SessionFact, Incoming, fact, facts, new_case, merge_facts, merge_observations,
}
use technical_knowledge_assi.Conversation.Cases.{Boundary, opens_a_new_case}
use technical_knowledge_assi.Requests.{ResolvedRequest, missing_facts}
use technical_knowledge_assi.Router.Detector.{detect, has_slot}
use technical_knowledge_assi.Router.Gates.{is_nil}
use technical_knowledge_assi.Router.Policy.{join}
use technical_knowledge_assi.Understanding.Readings.{
  select, TurnUnderstanding, deterministic, understand_turn,
}
use technical_knowledge_assi.Understanding.Resolving.{Resolved, resolve}
use technical_knowledge_assi.Understanding.Testimony.{facts_from, stated_fact, retrieval_query}
use technical_knowledge_assi.Turn.State.{Answer, Perception, Sighting, TurnState, Services}

abbrev pub mandatory_topics : List String
mandatory_topics = "structural_judgement" ∷ "compliance_signoff" ∷ "health" ∷ []

unfoldable pub boundary_of : Services → TurnState → Option Answer
boundary_of s st = s.state_only_answer st.raw_question st.facts st.turn_index st.active_product

unfoldable pub reading_of : Services → String → Option Answer → TurnUnderstanding
unfolding deterministic understand_turn
reading_of s question (some a) = deterministic s.reader question s.registry
reading_of s question none =
    understand_turn s.reader question s.registry s.understanding_enabled false (s.reply_of question)

-- `understand_turn`: what describes one turn is reset.
unfoldable pub begin_turn : Services → TurnState → TurnState
unfolding boundary_of reading_of
begin_turn s st = record st {
  understanding = reading_of s st.raw_question (boundary_of s st);
  boundary_answer = boundary_of s st;
  decision = none;
  hits = [];
  missing = [];
  outcome = "";
  resumed_question = "";
  case_opened = none;
  answers = [];
  answer = none;
  perception = none;
}

abbrev pub stated_facts : ℕ → Dict String String → Dict String Incoming
stated_facts turn = map (λ e. (e.0, fact (stated_fact e.0 e.1 turn)))

unfoldable pub open_by : Services → TurnState → Bool × Boundary → TurnState
unfolding merge_facts merge_observations detect
open_by s st (false, why) = st
open_by s st (true, why) = record st {
  facts = merge_facts st.facts (
      new_case (record {
        keep =
            stated_facts st.turn_index
              (detect s.reader.vocabulary (s.reader.asserted_text st.raw_question));
        reason = "";
      }));
  active_product = "";
  observations = merge_observations st.observations none;
  case_opened = some why;
}

unfoldable pub case_boundary : Services → TurnState → TurnState
unfolding open_by opens_a_new_case
case_boundary s st =
    open_by s st
      (opens_a_new_case (s.reader.asserted_text st.raw_question) st.understanding.new_subject)

unfoldable pub request_of : Services → TurnState → Resolved
unfolding resolve
request_of s st =
    resolve s.reader st.understanding st.raw_question s.registry st.facts st.turn_index
      st.active_product

-- `topic or state.get("active_product", "")`
unfoldable pub topic_or : String → String → String
topic_or topic held = if topic == "" then held else topic

unfoldable pub resolve_state : Services → TurnState → TurnState
unfolding request_of facts_from merge_facts topic_or
resolve_state s st = record st {
  facts = merge_facts st.facts (facts (facts_from s.reader (request_of s st) st.turn_index));
  resolved = request_of s st;
  active_product = topic_or (s.reader.topic_product st.raw_question s.registry) st.active_product;
}

-- What `answer_state` adds on photographs that nothing looked at.
unfoldable pub with_perception : Option Perception → Answer → Answer
unfolding join
with_perception none a = a
with_perception (some p) a =
    if p.is_enabled then a else record a { text = joined a.text (joined "\n\n" (join p.summary)) }

unfoldable pub say : TurnState → Answer → TurnState
say st a = record st { answer = some a; answers = (st.raw_question, a) ∷ []; outcome = a.path }

-- The boundary answer, read again: `none` is the AttributeError of an answer that is there no more.
unfoldable pub say_boundary : TurnState → Option Answer → Option TurnState
unfolding say with_perception
say_boundary st none = none
say_boundary st (some a) = some (say st (with_perception st.perception a))

unfoldable pub answer_state : Services → TurnState → Option TurnState
unfolding boundary_of say_boundary
answer_state s st = say_boundary st (boundary_of s st)

abbrev pub observed_fact : ℕ → String × Sighting → String × Incoming
observed_fact turn (slot, s) = (
  slot,
  fact (record {
    slot = slot;
    value = s.seen;
    provenance = observed;
    source_turn = turn;
    status = active;
    confidence = s.certainty;
    image_ref = s.image;
  }),
)

abbrev pub fact_of : ℕ → String × Sighting → SessionFact
fact_of turn (slot, s) = record {
  slot = slot;
  value = s.seen;
  provenance = observed;
  source_turn = turn;
  status = active;
  confidence = s.certainty;
  image_ref = s.image;
}

abbrev pub failed : Perception
failed = record {
  is_enabled = true;
  summary = "Image reading failed. Answering from text only." ∷ [];
}

unfoldable pub see : Services → TurnState → Option (Dict String Sighting) → TurnState
unfolding merge_facts merge_observations
see s st none = record st {
  perception = some failed;
  facts = merge_facts st.facts (facts []);
  observations = merge_observations st.observations (some []);
}
see s st (some seen) = record st {
  facts = merge_facts st.facts (facts (map (observed_fact st.turn_index) seen));
  observations = merge_observations st.observations (some (map (fact_of st.turn_index) seen));
  perception = some (s.report seen);
}

-- A provider that is injected counts as enabled.
unfoldable pub analyse_images : Services → TurnState → TurnState
unfolding is_nil see
analyse_images s st =
    if is_nil st.images
    then st
    else if not s.is_vision_enabled
    then record st { perception = some s.disabled_report }
    else see s st (s.observe st.images)

-- The fields of a request that selection reads.
unfoldable pub selection : Resolved → ResolvedRequest
selection r = record {
  product = r.product;
  objective = r.objective;
  substrate = r.substrate;
  location = r.location;
  exposure = r.exposure;
  candidate_products = r.candidate_products;
  unsettled = r.unsettled;
}

unfoldable pub is_selection : Resolved → Bool
is_selection r = elim r.intent [ select ↦ true | _ ↦ false ]

unfoldable pub determine_missing : Services → TurnState → TurnState
unfolding request_of is_selection missing_facts selection
determine_missing s st = record st {
  resolved = request_of s st;
  missing =
      if is_selection (request_of s st) then missing_facts (selection (request_of s st)) else [];
}

-- `ask_back` from where the reply comes in.
unfoldable pub resume_with : Services → String → TurnState → TurnState
unfolding detect merge_facts has_slot keep
resume_with s reply st =
    let detected = detect s.reader.vocabulary (s.reader.asserted_text reply) in
    record st {
      facts = merge_facts st.facts (facts (stated_facts st.turn_index detected));
      missing = keep (λ m. not (has_slot m detected)) st.missing;
      resumed_question = st.raw_question;
    }

unfoldable pub search_for : Services → TurnState → Option (List Passage)
unfolding request_of retrieval_query
search_for s st =
    s.search (retrieval_query (request_of s st)) st.audiences (request_of s st).product

unfoldable pub holding : Services → TurnState → List Passage → TurnState
unfolding request_of
holding s st hits = record st { hits = hits; resolved = request_of s st }

unfoldable pub with_hits : Services → TurnState → Option (List Passage) → Option TurnState
unfolding holding
with_hits s st none = none
with_hits s st (some hits) = some (holding s st hits)

unfoldable pub retrieve_candidates : Services → TurnState → Option TurnState
unfolding search_for with_hits
retrieve_candidates s st = with_hits s st (search_for s st)

unfoldable pub outcome_text : Outcome → String
outcome_text o = elim o [
  | Outcome.supported_recommendation ↦ "supported_recommendation"
  | Outcome.conditional_recommendation ↦ "conditional_recommendation"
  | Outcome.need_more_information ↦ "need_more_information"
  | Outcome.no_supported_recommendation ↦ "no_supported_recommendation"
  | Outcome.handoff ↦ "handoff"
]

unfoldable pub decision_for : Services → TurnState → RecommendationDecision
unfolding decide selection
decision_for s st =
    decide
      (record {
        resolved = selection st.resolved;
        repo = s.repo;
        vocabulary = s.terms;
        matrix = s.matrix;
      })
      st.hits s.registry

unfoldable pub assess_evidence : Services → TurnState → TurnState
unfolding decision_for outcome_text
assess_evidence s st = record st {
  decision = some (decision_for s st);
  outcome = outcome_text (decision_for s st).outcome;
}
