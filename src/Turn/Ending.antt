-- ===== src/Turn/Ending.antt =====
-- A turn comes to an end (assistant/turn/graph.py): every edge leads on, so that the steps that a run
-- is given are enough.
use technical_knowledge_assi.Prelude.{
  ℕ, zero, suc, ◌≡◌, ◌≤◌, ◌⊎◌, inl, inr, List, [], refl, String, Bool, true, false, arith, ltb,
  Option, none, some,
}
use technical_knowledge_assi.Candidates.{Passage, RecommendationDecision, Outcome}
use technical_knowledge_assi.Turn.State.{TurnState, Services, Answer}
use technical_knowledge_assi.Turn.Guard.{verify, verify_answer}
use technical_knowledge_assi.Turn.Verified.{IsVerified, verify_answer-IsVerified}
use technical_knowledge_assi.Turn.Answers.{
  recommend, ask_for_more, refuse_support, give, delegate, recommendation, give_or_raise,
}
use technical_knowledge_assi.Turn.Nodes.{
  resolve_state, answer_state, determine_missing, resume_with, retrieve_candidates, assess_evidence,
  decision_for, search_for, with_hits, holding,
}
use technical_knowledge_assi.Turn.Graph.{
  Node, understanding, boundary, resolving, state_answer, images, missing_information, asking,
  retrieving, assessing, delegating, recommending, asking_for_more, unsupported, verifying, Next,
  at, paused, ended, raised, after_resolve, after_missing, after_evidence, node_of, end_or_raise,
  at_or_raise, step, run_from, run_turn, resume_turn,
}

-- The nodes that may still come, this one included.
unfoldable rank : Node → ℕ
rank understanding = 9
rank boundary = 8
rank resolving = 7
rank images = 6
rank missing_information = 5
rank retrieving = 4
rank assessing = 3
rank delegating = 2
rank recommending = 2
rank asking_for_more = 2
rank unsupported = 2
rank verifying = 1
rank asking = 1
rank state_answer = 1

-- No more than so many nodes come.
unfoldable is_within : ℕ → Next → Bool
unfolding rank
is_within n (at node st) = ltb (rank node) n
is_within n next = true

unfoldable pub is_settled : Next → Bool
is_settled (at node st) = false
is_settled (paused st) = true
is_settled (ended st) = true
is_settled raised = true

rank-after_resolve : (st : TurnState) → ltb (rank (after_resolve st)) 7 ≡ true
unfolding rank after_resolve
rank-after_resolve st = ground arith

rank-after_missing : (s : Services) (st : TurnState) → ltb (rank (after_missing s st)) 5 ≡ true
unfolding rank after_missing
rank-after_missing s st = ground arith

rank-node_of : (o : Outcome) → ltb (rank (node_of o)) 3 ≡ true
unfolding rank node_of
rank-node_of o = ground arith

rank-after_evidence : (d : Option RecommendationDecision) → ltb (rank (after_evidence d)) 3 ≡ true
unfolding rank after_evidence
rank-after_evidence none = refl
rank-after_evidence (some d) = rank-node_of d.outcome

end_or_raise-is_within : (n : ℕ) (o : Option TurnState) → is_within n (end_or_raise o) ≡ true
unfolding is_within end_or_raise
end_or_raise-is_within n none = refl
end_or_raise-is_within n (some st) = refl

at_or_raise-is_within :
    (n : ℕ) (node : Node) (o : Option TurnState)
    → ltb (rank node) n ≡ true
    → is_within n (at_or_raise node o) ≡ true
unfolding is_within at_or_raise
at_or_raise-is_within n node none h = refl
at_or_raise-is_within n node (some st) h = h

step-is_within :
    (s : Services) (node : Node) (st : TurnState) → is_within (rank node) (step s node st) ≡ true
unfolding is_within step rank
step-is_within s understanding st = refl
step-is_within s boundary st = refl
step-is_within s resolving st = rank-after_resolve (resolve_state s st)
step-is_within s state_answer st = end_or_raise-is_within 1 (answer_state s st)
step-is_within s images st = refl
step-is_within s missing_information st = rank-after_missing s (determine_missing s st)
step-is_within s asking st = refl
step-is_within s retrieving st = at_or_raise-is_within 4 assessing (retrieve_candidates s st) refl
step-is_within s assessing st = rank-after_evidence (assess_evidence s st).decision
step-is_within s delegating st = at_or_raise-is_within 2 verifying (delegate s st) refl
step-is_within s recommending st = at_or_raise-is_within 2 verifying (recommend s st) refl
step-is_within s asking_for_more st = refl
step-is_within s unsupported st = refl
step-is_within s verifying st = refl

within-weaken : (n m : ℕ) (next : Next) → n ≤ m → is_within n next ≡ true → is_within m next ≡ true
unfolding is_within
within-weaken n m (at node st) le h = ground arith
within-weaken n m (paused st) le h = refl
within-weaken n m (ended st) le h = refl
within-weaken n m raised le h = refl

rank-pos : (node : Node) → ltb (rank node) 1 ≡ false
unfolding rank
rank-pos node = ground arith

run_from-settles :
    (s : Services) (n : ℕ) (next : Next)
    → is_within (suc n) next ≡ true
    → is_settled (run_from s n next) ≡ true
unfolding run_from is_settled is_within
run_from-settles s zero (at node st) h = absurd (cc (h, rank-pos node))
run_from-settles s zero (paused st) h = refl
run_from-settles s zero (ended st) h = refl
run_from-settles s zero raised h = refl
run_from-settles s (suc n) (at node st) h =
    run_from-settles s n (step s node st)
      (within-weaken (rank node) (suc n) (step s node st) (ground arith) (step-is_within s node st))
run_from-settles s (suc n) (paused st) h = refl
run_from-settles s (suc n) (ended st) h = refl
run_from-settles s (suc n) raised h = refl

-- A turn never runs on: whatever the services answer, it ends, pauses for a reply, or raises.
pub turn_settles : (s : Services) (st : TurnState) → is_settled (run_turn s st) ≡ true
unfolding run_turn
turn_settles s st = run_from-settles s 10 (at understanding st) (unfold is_within rank in refl)

-- The reply to a pause: it raises where a model server does not answer, and is answered otherwise.
module _ (s : Services) where
  abbrev pub IsAnswered : Next → Type 0
  IsAnswered next = (st : TurnState) × (next ≡ ended st) × IsVerified s st

  -- The search raises, or the recommendation that is made from what it finds.
  abbrev pub IsUnavailable : TurnState → Type 0
  IsUnavailable st =
      (search_for s st ≡ none)
      ⊎ ((hits : List Passage) × (search_for s st ≡ some hits)
          × (recommendation s (assess_evidence s (holding s st hits)) ≡ none))

  given-IsAnswered :
      (st : TurnState) (a : Answer) → IsAnswered (run_from s 1 (at verifying (give st a)))
  unfolding run_from step verify give
  given-IsAnswered st a = (
    verify_answer s (give st a) (some a),
    refl,
    verify_answer-IsVerified s (give st a) a (refl, st.raw_question, [], refl, inr refl),
  )

  asked-IsAnswered : (st : TurnState) → IsAnswered (run_from s 1 (at verifying (ask_for_more s st)))
  unfolding run_from step verify ask_for_more give
  asked-IsAnswered st = (
    verify_answer s (ask_for_more s st) (ask_for_more s st).answer,
    refl,
    verify_answer-IsVerified s (ask_for_more s st) _ (refl, st.raw_question, [], refl, inr refl),
  )

  recommended-IsAnswered :
      (st : TurnState) (o : Option Answer)
      → ((run_from s 1 (at_or_raise verifying (give_or_raise st o)) ≡ raised) × (o ≡ none))
        ⊎ IsAnswered (run_from s 1 (at_or_raise verifying (give_or_raise st o)))
  unfolding at_or_raise give_or_raise run_from
  recommended-IsAnswered st none = inl (refl, refl)
  recommended-IsAnswered st (some a) = inr (given-IsAnswered st a)

  outcome-IsAnswered :
      (o : Outcome) (st : TurnState)
      → ((run_from s 2 (at (node_of o) st) ≡ raised) × (recommendation s st ≡ none))
        ⊎ IsAnswered (run_from s 2 (at (node_of o) st))
  unfolding run_from step node_of recommend refuse_support
  outcome-IsAnswered Outcome.supported_recommendation st =
      recommended-IsAnswered st (recommendation s st)
  outcome-IsAnswered Outcome.conditional_recommendation st =
      recommended-IsAnswered st (recommendation s st)
  outcome-IsAnswered Outcome.need_more_information st = inr (asked-IsAnswered st)
  outcome-IsAnswered Outcome.no_supported_recommendation st = inr (given-IsAnswered st _)
  outcome-IsAnswered Outcome.handoff st = inr (given-IsAnswered st _)

  retrieved-IsAnswered :
      (st : TurnState) (o : Option (List Passage))
      → search_for s st ≡ o
      → ((run_from s 3 (at_or_raise assessing (with_hits s st o)) ≡ raised) × IsUnavailable st)
        ⊎ IsAnswered (run_from s 3 (at_or_raise assessing (with_hits s st o)))
  unfolding at_or_raise with_hits run_from step assess_evidence after_evidence
  retrieved-IsAnswered st none e = inl (refl, inl e)
  retrieved-IsAnswered st (some hits) e =
      let st' : TurnState = assess_evidence s (holding s st hits) in
      elim (outcome-IsAnswered (decision_for s (holding s st hits)).outcome st') [
        | inl (out, no_answer) ↦ inl (out, inr (hits, e, no_answer))
        | inr answered ↦ inr answered
      ]

-- The reply to a question that paused the turn is answered: the run goes to its end, without another
-- pause, and the answer has passed the last check; unless the search, or the recommendation from
-- what it finds, raises, and then the turn raises.
pub resume_turn-IsAnswered :
    (s : Services) (reply : String) (st : TurnState)
    → ((resume_turn s reply st ≡ raised) × IsUnavailable s (resume_with s reply st))
      ⊎ IsAnswered s (resume_turn s reply st)
unfolding resume_turn run_from step retrieve_candidates
resume_turn-IsAnswered s reply st =
    retrieved-IsAnswered s (resume_with s reply st) (search_for s (resume_with s reply st)) refl
