-- ===== src/Turn/Graph.antt =====
-- The graph of assistant/turn/graph.py: its nodes, the edge out of each, and a turn as a run along
-- them. `ask_back` pauses the run, and the next message resumes it.
use technical_knowledge_assi.Prelude.{ℕ, zero, suc, String, not, Option, none, some, if◌then◌else◌}
use technical_knowledge_assi.Candidates.{RecommendationDecision, Outcome}
use technical_knowledge_assi.Router.Gates.{is_nil}
use technical_knowledge_assi.Router.Policy.{is_some}
use technical_knowledge_assi.Turn.State.{TurnState, Services}
use technical_knowledge_assi.Turn.Guard.{verify}
use technical_knowledge_assi.Turn.Nodes.{
  begin_turn, case_boundary, resolve_state, answer_state, analyse_images, determine_missing,
  resume_with, retrieve_candidates, assess_evidence, is_selection,
}
use technical_knowledge_assi.Turn.Answers.{delegate, recommend, ask_for_more, refuse_support}

pub data Node : Type 0 where
  understanding boundary resolving state_answer images missing_information asking : Node
  retrieving assessing delegating recommending asking_for_more unsupported verifying : Node

-- `after_resolve`
unfoldable pub after_resolve : TurnState → Node
unfolding is_some is_nil
after_resolve st =
    if is_some st.boundary_answer
    then (if is_nil st.images then state_answer else images)
    else images

-- `after_missing`
unfoldable pub after_missing : Services → TurnState → Node
unfolding is_some is_selection is_nil
after_missing s st =
    if is_some st.boundary_answer
    then state_answer
    else if not (is_selection st.resolved)
    then delegating
    else if is_nil st.missing
    then retrieving
    else if s.interruptible
    then asking
    else asking_for_more

unfoldable pub node_of : Outcome → Node
node_of o = elim o [
  | Outcome.need_more_information ↦ asking_for_more
  | Outcome.supported_recommendation ↦ recommending
  | Outcome.conditional_recommendation ↦ recommending
  | _ ↦ unsupported
]

-- `after_evidence`, where there is a decision
unfoldable pub after_evidence : Option RecommendationDecision → Node
unfolding node_of
after_evidence none = unsupported
after_evidence (some d) = node_of d.outcome

-- Where a step leads: to another node, to a pause for a reply, to the end, or to an exception.
pub data Next : Type 0 where
  at : Node → TurnState → Next
  paused : TurnState → Next
  ended : TurnState → Next
  raised : Next

unfoldable pub end_or_raise : Option TurnState → Next
end_or_raise none = raised
end_or_raise (some st) = ended st

unfoldable pub at_or_raise : Node → Option TurnState → Next
at_or_raise node none = raised
at_or_raise node (some st) = at node st

-- One node and its edge.
unfoldable pub step : Services → Node → TurnState → Next
unfolding begin_turn case_boundary resolve_state after_resolve end_or_raise at_or_raise answer_state
    analyse_images determine_missing after_missing retrieve_candidates assess_evidence
    after_evidence delegate recommend ask_for_more refuse_support verify
step s understanding st = at boundary (begin_turn s st)
step s boundary st = at resolving (case_boundary s st)
step s resolving st = let next = resolve_state s st in at (after_resolve next) next
step s state_answer st = end_or_raise (answer_state s st)
step s images st = at missing_information (analyse_images s st)
step s missing_information st = let next = determine_missing s st in at (after_missing s next) next
step s asking st = paused st
step s retrieving st = at_or_raise assessing (retrieve_candidates s st)
step s assessing st = let next = assess_evidence s st in at (after_evidence next.decision) next
step s delegating st = at_or_raise verifying (delegate s st)
step s recommending st = at_or_raise verifying (recommend s st)
step s asking_for_more st = at verifying (ask_for_more s st)
step s unsupported st = at verifying (refuse_support s st)
step s verifying st = ended (verify s st)

-- A run of at most so many steps.
unfoldable pub run_from : Services → ℕ → Next → Next
unfolding step
run_from s zero next = next
run_from s (suc n) (at node st) = run_from s n (step s node st)
run_from s (suc n) (paused st) = paused st
run_from s (suc n) (ended st) = ended st
run_from s (suc n) raised = raised

-- The longest way through the graph has nine nodes, and four after a pause.
unfoldable pub run_turn : Services → TurnState → Next
unfolding run_from
run_turn s st = run_from s 10 (at understanding st)

unfoldable pub resume_turn : Services → String → TurnState → Next
unfolding run_from resume_with
resume_turn s reply st = run_from s 4 (at retrieving (resume_with s reply st))
