-- ===== src/Turn/Tests.antt =====
-- Turns on a small corpus: a selection with its substrate, one that lacks it and is resumed, and a
-- lookup whose answer recommends a product that nobody asked about, a model server that does not
-- answer, and a message of two topics.
use technical_knowledge_assi.Prelude.{
  if◌then◌else◌, ◌≡◌, ◌⊎◌, refl, String, Bool, List, map, true, false, none, some, [], ◌∷◌,
  contains,
}
use technical_knowledge_assi.Candidates.{Passage, Repository}
use technical_knowledge_assi.Conversation.Cases.{introducers}
use technical_knowledge_assi.Router.Detector.{Vocabulary}
use technical_knowledge_assi.Router.Policy.{is_some, split_by_topic}
use technical_knowledge_assi.Understanding.Readings.{Reader, unparseable, no_reading}
use technical_knowledge_assi.Understanding.Resolving.{Resolved, resolve}
use technical_knowledge_assi.Turn.State.{Answer, TurnState, Services}
use technical_knowledge_assi.Turn.Guard.{verify}
use technical_knowledge_assi.Turn.Answers.{give}
use technical_knowledge_assi.Turn.Nodes.{
  begin_turn, case_boundary, resolve_state, determine_missing, holding, resume_with,
  assess_evidence, is_selection,
}
use technical_knowledge_assi.Turn.Graph.{
  Next, at, paused, ended, raised, recommending, delegating, understanding, boundary, resolving,
  images, missing_information, retrieving, assessing, run_turn, resume_turn, step, verifying,
}
use technical_knowledge_assi.Turn.Ending.{
  is_settled, turn_settles, IsAnswered, IsUnavailable, resume_turn-IsAnswered,
}
use technical_knowledge_assi.Turn.Verified.{IsVerified}
use technical_knowledge_assi.Turn.Reached.{
  Reached, begun, stepped, IsSupported, recommending-IsSupported, delegating_never_selects,
  ended-IsVerified,
}

abbrev vocabulary : Vocabulary
vocabulary = record {
  spec =
      (
        "substrate",
        record { values = ("brick", "brick" ∷ []) ∷ []; ask_only = []; is_load_bearing = true },
      )
      ∷ [];
  classes = [];
}

abbrev reader : Reader
reader = record {
  vocabulary = vocabulary;
  policy_of = λ q. none;
  area_in = λ q. none;
  thickness_in = λ q. none;
  state_request_slot = λ q. "";
  is_background_lookup = λ q. false;
  is_select_shape = contains "should i use";
  topic_product = λ q registry. "";
  stated_product = λ q registry. "";
  compared_products = λ q registry. [];
  compares_products = λ q registry. false;
  asserted_text = λ q. q;
  is_scenario_ask = λ q. false;
  is_suitability = λ q. false;
  is_own_building = λ q. true;
  negation_count = λ q term. (0, 1);
}

abbrev ultra : Passage
ultra = record { chunk_id = "c1"; owner = "Ultra"; content = "for brick" }

abbrev repository : Repository
repository = record {
  find_passages = λ product terms. ultra ∷ [];
  manifest = none;
  caveats = λ url. none;
}

abbrev reply_with : String → String → Bool → Answer
reply_with path text is_refused = record { path = path; text = text; is_refused = is_refused }

abbrev services : Services
services = record {
  reader = reader;
  registry = "Ultra" ∷ "Solo" ∷ [];
  repo = repository;
  terms = λ kind value. [];
  matrix = none;
  understanding_enabled = false;
  interruptible = true;
  reply_of = λ q. unparseable;
  state_only_answer = λ q held turn product. none;
  split = λ q. q ∷ [];
  is_instruction = λ part. false;
  routing = record { safety_precedence = []; topics = [] };
  search = λ query audiences product. some (ultra ∷ []);
  answer_part = λ part audiences r history. some (reply_with "compose" "Use Solo." false);
  recommend_from = λ r d hits history. some (reply_with "select" "Use Ultra." false);
  ask_for = λ r d. reply_with "ask_back" "What is the wall built of?" false;
  refuse_for = λ r d why. reply_with "refuse" why true;
  is_vision_enabled = false;
  observe = λ images. none;
  report = λ seen. record { is_enabled = true; summary = [] };
  disabled_report = record { is_enabled = false; summary = [] };
  sentences = λ text. text ∷ [];
  is_recommending = contains "Use";
  named_products = λ q registry. [];
}

abbrev no_request : Resolved
no_request = resolve reader no_reading "" [] [] 0 ""

abbrev message : String → TurnState
message question = record {
  raw_question = question;
  history = "";
  images = [];
  audiences = "public" ∷ [];
  turn_index = 1;
  facts = [];
  observations = [];
  perception = none;
  understanding = no_reading;
  resolved = no_request;
  missing = [];
  case_opened = none;
  resumed_question = "";
  hits = [];
  decision = none;
  answer = none;
  boundary_answer = none;
  active_product = "";
  answers = [];
  outcome = "";
}

abbrev path_of : Next → String
path_of (ended st) = elim st.answer [ none ↦ "" | some a ↦ a.path ]
path_of (paused st) = "paused"
path_of (at node st) = "running"
path_of raised = "raised"

abbrev state_of : Next → TurnState
state_of (ended st) = st
state_of (paused st) = st
state_of (at node st) = st
state_of raised = message ""

lookups : path_of (run_turn services (message "how does it work")) ≡ "refuse"
unfolding run_turn contains introducers
lookups = refl

pauses : path_of (run_turn services (message "what should i use")) ≡ "paused"
unfolding run_turn contains introducers
pauses = refl

selects : path_of (run_turn services (message "what should i use on brick")) ≡ "select"
unfolding run_turn contains introducers
selects = refl

resumes :
    path_of
      (resume_turn services "brick" (state_of (run_turn services (message "what should i use"))))
    ≡ "select"
unfolding run_turn resume_turn contains introducers
resumes = refl

turn_settles_example : is_settled (run_turn services (message "what should i use")) ≡ true
turn_settles_example = turn_settles services (message "what should i use")

resume_turn-IsAnswered_example :
    ((resume_turn services "brick" (message "what should i use") ≡ raised)
      × IsUnavailable services (resume_with services "brick" (message "what should i use")))
    ⊎ IsAnswered services (resume_turn services "brick" (message "what should i use"))
resume_turn-IsAnswered_example =
    resume_turn-IsAnswered services "brick" (message "what should i use")

-- A model server that does not answer.
abbrev unavailable : Services
unavailable = record services { search = λ query audiences product. none }

raises : path_of (run_turn unavailable (message "what should i use on brick")) ≡ "raised"
unfolding run_turn contains introducers
raises = refl

-- A message of two topics: the second answer recommends what nobody approved or asked about, and the
-- turn ends with it.
abbrev of_two : Services
of_two = record services {
  split = λ q. if contains ";" q then "tell me the price" ∷ "how is it done" ∷ [] else q ∷ [];
  routing = record { safety_precedence = []; topics = ("price", contains "price") ∷ [] };
  answer_part = λ part audiences r history.
      some (
        reply_with "compose" (if contains "price" part then "Ask a person." else "Use Solo.")
          false);
}

abbrev texts_of : Next → List String
texts_of next = map (λ e. e.1.text) (state_of next).answers

second_answer_unchecked :
    texts_of (run_turn of_two (message "tell me the price; how is it done"))
    ≡ "Ask a person." ∷ "Use Solo." ∷ []
unfolding run_turn contains introducers split_by_topic
second_answer_unchecked = refl

-- The states of a selection, node by node.
abbrev asked : TurnState
asked =
    resolve_state services
      (case_boundary services (begin_turn services (message "what should i use on brick")))

abbrev assessed : TurnState
assessed =
    assess_evidence services (holding services (determine_missing services asked) (ultra ∷ []))

asked-Reached : Reached services (at images asked)
unfolding step contains introducers
asked-Reached =
    stepped resolving _
      (stepped boundary _ (stepped understanding _ (begun (message "what should i use on brick"))))

assessed-Reached : Reached services (at recommending assessed)
unfolding step contains introducers
assessed-Reached =
    stepped assessing _
      (stepped retrieving _ (stepped missing_information _ (stepped images asked asked-Reached)))

recommending-IsSupported_example : IsSupported services assessed
recommending-IsSupported_example = recommending-IsSupported services assessed assessed-Reached

-- The end of the selection.
abbrev chosen : TurnState
chosen = give assessed (reply_with "select" "Use Ultra." false)

chosen-Reached : Reached services (ended (verify services chosen))
unfolding step
chosen-Reached = stepped verifying chosen (stepped recommending assessed assessed-Reached)

ended-IsVerified_example :
    (is_some (verify services chosen).boundary_answer ≡ true)
    ⊎ IsVerified services (verify services chosen)
ended-IsVerified_example = ended-IsVerified services (verify services chosen) chosen-Reached

-- A question that is no selection, handed to the other routes.
abbrev looked_up : TurnState
looked_up = determine_missing services (
    resolve_state services
      (case_boundary services (begin_turn services (message "how does it work"))))

looked_up-Reached : Reached services (at delegating looked_up)
unfolding step contains introducers
looked_up-Reached = stepped missing_information _ (
    stepped images _ (
      stepped resolving _
        (stepped boundary _ (stepped understanding _ (begun (message "how does it work"))))))

delegating_never_selects_example : is_selection looked_up.resolved ≡ false
delegating_never_selects_example = delegating_never_selects services looked_up looked_up-Reached
