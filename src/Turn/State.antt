-- ===== src/Turn/State.antt =====
-- The working set of a turn and what the nodes call (`TurnState` and `Services` of
-- assistant/turn/graph.py). The engine, the page's sentences, the retriever's search and the vision
-- provider are functions of the services; those that ask a model server may raise. The reads of the
-- repository are taken to return. Perception is kept as what `answer_state` reads of it.
use technical_knowledge_assi.Prelude.{ℕ, String, Bool, Option, List}
use technical_knowledge_assi.Prelude.Dict.{Dict}
use technical_knowledge_assi.Compatibility.{CompatibilityRule}
use technical_knowledge_assi.Candidates.{Passage, RecommendationDecision, Repository}
use technical_knowledge_assi.Candidates
use technical_knowledge_assi.Conversation.{Facts, SessionFact}
use technical_knowledge_assi.Conversation.Cases.{Boundary}
use technical_knowledge_assi.Router.Policy.{Routing}
use technical_knowledge_assi.Understanding.Readings.{Reader, Reply, TurnUnderstanding}
use technical_knowledge_assi.Understanding.Resolving.{Resolved}

pub record Answer : Type 0 where
  pub path : String
  pub text : String
  pub is_refused : Bool

pub record Perception : Type 0 where
  pub is_enabled : Bool
  pub summary : List String

-- One value read off the photographs, with its certainty in thousandths and the image.
pub record Sighting : Type 0 where
  pub seen : String
  pub certainty : ℕ
  pub image : String

pub record TurnState : Type 0 where
  pub raw_question : String
  pub history : String
  pub images : List String
  pub audiences : List String
  pub turn_index : ℕ
  pub facts : Facts
  pub observations : List SessionFact
  pub perception : Option Perception
  pub understanding : TurnUnderstanding
  pub resolved : Resolved
  pub missing : List String
  pub case_opened : Option Boundary
  pub resumed_question : String
  pub hits : List Passage
  pub decision : Option RecommendationDecision
  pub answer : Option Answer
  pub boundary_answer : Option Answer
  pub active_product : String
  pub answers : List (String × Answer)
  pub outcome : String

pub record Services : Type 0 where
  pub reader : Reader
  pub registry : List String
  pub repo : Repository
  pub terms : Candidates.Vocabulary
  pub matrix : Option (List CompatibilityRule)
  pub understanding_enabled : Bool
  pub interruptible : Bool
  -- what the call of the model for a question comes to
  pub reply_of : String → Reply
  pub state_only_answer : String → Facts → ℕ → String → Option Answer
  pub split : String → List String
  pub is_instruction : String → Bool
  pub routing : Routing
  -- the query, the audiences and the product; `none` is the exception of a model server that does not
  -- answer, which `Retriever.search` raises again
  pub search : String → List String → String → Option (List Passage)
  -- `none` where the retrieval or the generation of an answer raises
  pub answer_part : String → List String → Resolved → String → Option Answer
  pub recommend_from : Resolved → RecommendationDecision → List Passage → String → Option Answer
  -- these two write a text without a model
  pub ask_for : Resolved → RecommendationDecision → Answer
  pub refuse_for : Resolved → RecommendationDecision → String → Answer
  -- the provider, `none` for an exception, and its report; the flag of the provider by default
  pub is_vision_enabled : Bool
  pub observe : List String → Option (Dict String Sighting)
  pub report : Dict String Sighting → Perception
  pub disabled_report : Perception
  pub sentences : String → List String
  pub is_recommending : String → Bool
  pub named_products : String → List String → List String
