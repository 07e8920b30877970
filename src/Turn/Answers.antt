-- ===== src/Turn/Answers.antt =====
-- The nodes that make an answer with the engine (assistant/turn/graph.py).
use technical_knowledge_assi.Prelude.{
  String, Option, none, some, List, [], ◌∷◌, mem, if◌then◌else◌, string_eq,
}
use technical_knowledge_assi.Candidates.{RecommendationDecision, need_more_information}
use technical_knowledge_assi.Router.Policy.{split_by_topic}
use technical_knowledge_assi.Turn.State.{Answer, TurnState, Services}
use technical_knowledge_assi.Turn.Guard.{decision_or}
use technical_knowledge_assi.Turn.Nodes.{mandatory_topics, outcome_text}

-- A mandatory topic keeps the question whole.
unfoldable pub parts_of : Services → TurnState → List String
unfolding mem split_by_topic
parts_of s st =
    if mem st.resolved.policy_topic mandatory_topics
    then st.raw_question ∷ []
    else split_by_topic s.split s.is_instruction s.routing st.raw_question

unfoldable pub first_answer : List (String × Answer) → Option Answer
first_answer [] = none
first_answer ((part, a) ∷ rest) = some a

unfoldable pub path_of_answer : Option Answer → String
path_of_answer none = ""
path_of_answer (some a) = a.path

unfoldable pub put_answer :
    String → Option Answer → Option (List (String × Answer)) → Option (List (String × Answer))
put_answer part (some a) (some rest) = some ((part, a) ∷ rest)
put_answer part _ _ = none

-- One answer for each part; an exception of any of them leaves the loop.
unfoldable pub answer_parts : Services → TurnState → List String → Option (List (String × Answer))
unfolding put_answer
answer_parts s st [] = some []
answer_parts s st (part ∷ parts) =
    put_answer part (s.answer_part part st.audiences st.resolved st.history)
      (answer_parts s st parts)

unfoldable pub with_answers : TurnState → Option (List (String × Answer)) → Option TurnState
unfolding first_answer path_of_answer
with_answers st none = none
with_answers st (some answers) = some (record st {
  answers = answers;
  answer = first_answer answers;
  outcome = path_of_answer (first_answer answers);
})

unfoldable pub delegate : Services → TurnState → Option TurnState
unfolding parts_of answer_parts with_answers
delegate s st = with_answers st (answer_parts s st (parts_of s st))

-- `state["answer"]` and `state["answers"]`, of one answer to the whole question
unfoldable pub give : TurnState → Answer → TurnState
give st a = record st { answer = some a; answers = (st.raw_question, a) ∷ [] }

unfoldable pub recommendation : Services → TurnState → Option Answer
unfolding decision_or
recommendation s st = s.recommend_from st.resolved (decision_or st.decision) st.hits st.history

unfoldable pub give_or_raise : TurnState → Option Answer → Option TurnState
unfolding give
give_or_raise st none = none
give_or_raise st (some a) = some (give st a)

unfoldable pub recommend : Services → TurnState → Option TurnState
unfolding recommendation give_or_raise
recommend s st = give_or_raise st (recommendation s st)

-- `state.get("decision") or RecommendationDecision(...)`
unfoldable pub decision_or_ask :
    Option RecommendationDecision → List String → RecommendationDecision
decision_or_ask (some d) missing = d
decision_or_ask none missing = record {
  outcome = need_more_information;
  approved = [];
  rejected = [];
  missing = missing;
}

unfoldable pub ask_for_more : Services → TurnState → TurnState
unfolding give decision_or_ask outcome_text
ask_for_more s st =
    let d = decision_or_ask st.decision st.missing in
    record (give st (s.ask_for st.resolved d)) {
      decision = some d;
      outcome = outcome_text d.outcome;
    }

-- `refuse_for` with no reason of the turn's own
unfoldable pub refuse_support : Services → TurnState → TurnState
unfolding give decision_or
refuse_support s st = give st (s.refuse_for st.resolved (decision_or st.decision) "")
