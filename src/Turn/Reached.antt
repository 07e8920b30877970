-- ===== src/Turn/Reached.antt =====
-- What holds at the nodes that a turn reaches (assistant/turn/graph.py), by induction on the steps.
use technical_knowledge_assi.Prelude.{
  ◌≡◌, ◌⊎◌, inl, inr, refl, sym, ap, subst, ◌∙◌, String, Bool, true, false, not, Option, none, some,
  List, [], ◌∷◌, if◌then◌else◌, mem, Bool-cases, string_eq,
}
use technical_knowledge_assi.Candidates.{
  RecommendationDecision, Outcome, supported_recommendation, conditional_recommendation,
}
use technical_knowledge_assi.Router.Gates.{is_nil}
use technical_knowledge_assi.Router.Policy.{is_some}
use technical_knowledge_assi.Turn.State.{TurnState, Services, Answer}
use technical_knowledge_assi.Turn.Guard.{verify, verify_answer}
use technical_knowledge_assi.Turn.Nodes.{
  resolve_state, answer_state, determine_missing, resume_with, mandatory_topics, say, say_boundary,
  boundary_of, assess_evidence, is_selection, decision_for, retrieve_candidates,
}
use technical_knowledge_assi.Turn.Graph.{
  Node, understanding, boundary, resolving, state_answer, images, missing_information, asking,
  retrieving, assessing, delegating, recommending, asking_for_more, unsupported, verifying, Next,
  at, paused, ended, after_resolve, after_missing, after_evidence, node_of, end_or_raise, step,
  at_or_raise,
}
use technical_knowledge_assi.Router.Splitting.{split_by_topic_is_some}
use technical_knowledge_assi.Turn.Answers.{
  delegate, recommend, ask_for_more, refuse_support, give, first_answer, parts_of, put_answer,
  answer_parts, with_answers, give_or_raise, recommendation,
}
use technical_knowledge_assi.Turn.Verified.{IsFirst, IsGiven, IsVerified, verify_answer-IsVerified}

-- The configurations that a turn reaches, from the beginning of a message or by the reply to a pause.
pub data Reached (s : Services) : Next → Type 0 where
  begun : (st : TurnState) → Reached s (at understanding st)
  stepped : (node : Node) (st : TurnState) → Reached s (at node st) → Reached s (step s node st)
  resumed :
      (reply : String) (st : TurnState)
      → Reached s (paused st)
      → Reached s (at retrieving (resume_with s reply st))

resolve-holds :
    (P : Node → Type 0) (b c : Bool)
    → (b ≡ true → P state_answer)
    → P images
    → P (if b then (if c then state_answer else images) else images)
resolve-holds P true true h k = h refl
resolve-holds P true false h k = k
resolve-holds P false c h k = k

missing-holds :
    (P : Node → Type 0) (b selected nothing pauses : Bool)
    → (b ≡ true → P state_answer)
    → (selected ≡ false → P delegating)
    → P retrieving
    → (selected ≡ true → nothing ≡ false → P asking)
    → P asking_for_more
    → P (
        if b
        then state_answer
        else if not selected
        then delegating
        else if nothing
        then retrieving
        else if pauses
        then asking
        else asking_for_more)
missing-holds P true selected nothing pauses h k l m n = h refl
missing-holds P false false nothing pauses h k l m n = k refl
missing-holds P false true true pauses h k l m n = l
missing-holds P false true false true h k l m n = m refl refl
missing-holds P false true false false h k l m n = n

parts_of-some : (s : Services) (st : TurnState) → is_nil (parts_of s st) ≡ false
unfolding parts_of
parts_of-some s st = elim (Bool-cases (mem st.resolved.policy_topic mandatory_topics)) [
  | inl e ↦ rw (e, parts_of) (unfold is_nil in refl)
  | inr e ↦
      rw (e, parts_of) (split_by_topic_is_some s.split s.is_instruction s.routing st.raw_question)
]

-- What holds of a state, if there is one.
abbrev WhereSome : (TurnState → Type 0) → Option TurnState → Type 0
WhereSome P none = Unit
WhereSome P (some st) = P st

module _ (s : Services) where
  give-IsFirst : (st : TurnState) (a : Answer) → IsFirst s (give st a) a
  unfolding give
  give-IsFirst st a = (refl, st.raw_question, [], refl, inr refl)

  give_or_raise-IsGiven :
      (st : TurnState) (o : Option Answer) → WhereSome (IsGiven s) (give_or_raise st o)
  unfolding give_or_raise
  give_or_raise-IsGiven st none = tt
  give_or_raise-IsGiven st (some a) = (a, give-IsFirst st a)

  put_answer-IsGiven :
      (st : TurnState) (part : String) (o : Option Answer) (rest : Option (List (String × Answer)))
      → is_selection st.resolved ≡ false
      → WhereSome (IsGiven s) (with_answers st (put_answer part o rest))
  unfolding with_answers put_answer first_answer
  put_answer-IsGiven st part none rest h = tt
  put_answer-IsGiven st part (some a) none h = tt
  put_answer-IsGiven st part (some a) (some rest) h = (a, (refl, part, rest, refl, inl h))

  answer_parts-IsGiven :
      (st : TurnState) (parts : List String)
      → is_nil parts ≡ false
      → is_selection st.resolved ≡ false
      → WhereSome (IsGiven s) (with_answers st (answer_parts s st parts))
  unfolding answer_parts is_nil
  answer_parts-IsGiven st [] some_part h = cc
  answer_parts-IsGiven st (part ∷ parts) some_part h =
      put_answer-IsGiven st part (s.answer_part part st.audiences st.resolved st.history)
        (answer_parts s st parts) h

  -- The decision is that of the evidence at hand, and it supports a recommendation.
  abbrev pub IsSupported : TurnState → Type 0
  IsSupported st =
      (st.decision ≡ some (decision_for s st))
      × (((decision_for s st).outcome ≡ supported_recommendation)
          ⊎ ((decision_for s st).outcome ≡ conditional_recommendation))

  -- What holds at each node.
  abbrev Holds : Next → Type 0
  Holds (at state_answer st) = is_some st.boundary_answer ≡ true
  Holds (at delegating st) = is_selection st.resolved ≡ false
  Holds (at asking st) = (is_selection st.resolved ≡ true) × (is_nil st.missing ≡ false)
  Holds (at recommending st) = IsSupported st
  Holds (at verifying st) = IsGiven s st
  Holds (ended st) = (is_some st.boundary_answer ≡ true) ⊎ IsVerified s st
  Holds next = Unit

  after_resolve-Holds : (st : TurnState) → Holds (at (after_resolve st) st)
  unfolding after_resolve
  after_resolve-Holds st =
      resolve-holds (λ node. Holds (at node st)) (is_some st.boundary_answer) (is_nil st.images)
        (λ e. e) tt

  after_missing-Holds : (st : TurnState) → Holds (at (after_missing s st) st)
  unfolding after_missing
  after_missing-Holds st =
      missing-holds (λ node. Holds (at node st)) (is_some st.boundary_answer)
        (is_selection st.resolved) (is_nil st.missing) s.interruptible (λ e. e) (λ e. e) tt
        (λ e f. (e, f)) tt

  node_of-Holds :
      (d : RecommendationDecision) (st : TurnState)
      → st.decision ≡ some d
      → d ≡ decision_for s st
      → (o : Outcome) → d.outcome ≡ o
      → Holds (at (node_of o) st)
  unfolding node_of
  node_of-Holds d st e f Outcome.supported_recommendation g =
      (e ∙ ap some f, inl (ap (λ x. x.outcome) (sym f) ∙ g))
  node_of-Holds d st e f Outcome.conditional_recommendation g =
      (e ∙ ap some f, inr (ap (λ x. x.outcome) (sym f) ∙ g))
  node_of-Holds d st e f Outcome.need_more_information g = tt
  node_of-Holds d st e f Outcome.no_supported_recommendation g = tt
  node_of-Holds d st e f Outcome.handoff g = tt

  assessed-Holds :
      (st : TurnState)
      → Holds (at (after_evidence (assess_evidence s st).decision) (assess_evidence s st))
  unfolding assess_evidence after_evidence decision_for
  assessed-Holds st =
      node_of-Holds (decision_for s st) (assess_evidence s st) refl refl (decision_for s st).outcome
        refl

  verify_answer-Holds :
      (st : TurnState) (o : Option Answer)
      → st.answer ≡ o
      → IsGiven s st
      → IsVerified s (verify_answer s st o)
  verify_answer-Holds st none e (a, first) = absurd (cc (e, first.0))
  verify_answer-Holds st (some b) e (a, first) =
      let same : a ≡ b = cc (e, first.0) in
      verify_answer-IsVerified s st b (subst (IsFirst s st) same first)

  at_or_raise-Holds :
      (node : Node) (o : Option TurnState)
      → WhereSome (λ st. Holds (at node st)) o
      → Holds (at_or_raise node o)
  unfolding at_or_raise
  at_or_raise-Holds node none h = tt
  at_or_raise-Holds node (some st) h = h

  retrieved-Holds : (o : Option TurnState) → Holds (at_or_raise assessing o)
  unfolding at_or_raise
  retrieved-Holds none = tt
  retrieved-Holds (some st) = tt

  say_boundary-Holds :
      (st : TurnState) (o : Option Answer)
      → is_some st.boundary_answer ≡ true
      → Holds (end_or_raise (say_boundary st o))
  unfolding end_or_raise say_boundary say
  say_boundary-Holds st none h = tt
  say_boundary-Holds st (some a) h = inl h

  step-Holds : (node : Node) (st : TurnState) → Holds (at node st) → Holds (step s node st)
  unfolding step answer_state delegate recommend ask_for_more refuse_support give is_some verify
  step-Holds understanding st h = tt
  step-Holds boundary st h = tt
  step-Holds resolving st h = after_resolve-Holds (resolve_state s st)
  step-Holds state_answer st h = say_boundary-Holds st (boundary_of s st) h
  step-Holds images st h = tt
  step-Holds missing_information st h = after_missing-Holds (determine_missing s st)
  step-Holds asking st h = tt
  step-Holds retrieving st h = retrieved-Holds (retrieve_candidates s st)
  step-Holds assessing st h = assessed-Holds st
  step-Holds delegating st h =
      at_or_raise-Holds verifying (delegate s st)
        (answer_parts-IsGiven st (parts_of s st) (parts_of-some s st) h)
  step-Holds recommending st h =
      at_or_raise-Holds verifying (recommend s st) (give_or_raise-IsGiven st (recommendation s st))
  step-Holds asking_for_more st h = (_, (refl, st.raw_question, [], refl, inr refl))
  step-Holds unsupported st h = (_, give-IsFirst st _)
  step-Holds verifying st h = inr (verify_answer-Holds st st.answer refl h)

  Reached-Holds : {next : Next} → Reached s next → Holds next
  Reached-Holds (begun st) = tt
  Reached-Holds (stepped node st r) = step-Holds node st (Reached-Holds r)
  Reached-Holds (resumed reply st r) = tt

  -- A product is recommended only on evidence: a turn that reaches the recommendation has the decision
  -- of the evidence that it retrieved, and that decision supports one, with or without conditions.
  pub recommending-IsSupported : (st : TurnState) → Reached s (at recommending st) → IsSupported st
  recommending-IsSupported st r = Reached-Holds r

  -- A selection is never handed to the other routes: a turn that reaches them asks for no choice of a
  -- product.
  pub delegating_never_selects :
      (st : TurnState) → Reached s (at delegating st) → is_selection st.resolved ≡ false
  delegating_never_selects st r = Reached-Holds r

  -- Every turn that ends was answered from the conversation alone, or its first answer passed the last
  -- check: it is a refusal, or it recommends no product that is neither approved nor asked about and
  -- names none beyond the approved set. Where a product is to be chosen, it is the only answer; of
  -- the further answers to another message nothing is said.
  pub ended-IsVerified :
      (st : TurnState)
      → Reached s (ended st)
      → (is_some st.boundary_answer ≡ true) ⊎ IsVerified s st
  ended-IsVerified st r = Reached-Holds r
