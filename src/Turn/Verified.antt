-- ===== src/Turn/Verified.antt =====
-- What `verify` leaves of an answer (assistant/turn/graph.py).
use technical_knowledge_assi.Prelude.{
  ◌≡◌, ◌⊎◌, inl, inr, refl, String, Bool, true, false, not, some, List, [], ◌∷◌, if◌then◌else◌,
}
use technical_knowledge_assi.Router.Gates.{is_nil}
use technical_knowledge_assi.Turn.State.{TurnState, Services, Answer}
use technical_knowledge_assi.Turn.Nodes.{is_selection}
use technical_knowledge_assi.Turn.Guard.{
  verify_answer, refuse_turn, unapproved, strangers, decision_or, unapproved_reason,
  intruder_reason,
}

verify-holds :
    (P : TurnState → Type 0) (a b c : Bool) (x refused rejected : TurnState)
    → (a ≡ true → P x)
    → P refused
    → P rejected
    → (b ≡ false → c ≡ false → P x)
    → P (if a then x else if b then refused else if c then rejected else x)
verify-holds P true b c x refused rejected h k l m = h refl
verify-holds P false true c x refused rejected h k l m = k
verify-holds P false false true x refused rejected h k l m = l
verify-holds P false false false x refused rejected h k l m = m refl refl

nil_of : (xs : List String) → not (is_nil xs) ≡ false → xs ≡ []
unfolding is_nil
nil_of [] h = refl
nil_of (x ∷ xs) h = cc

module _ (s : Services) where
  -- The answer refuses, or is the engine's refusal for the turn, or recommends nothing that is neither
  -- approved nor asked about and names nothing beyond the approved set.
  abbrev pub IsContained : TurnState → Answer → Type 0
  IsContained st a =
      (a.is_refused ≡ true)
      ⊎ ((why : String) × (a ≡ s.refuse_for st.resolved (decision_or st.decision) why))
      ⊎ ((unapproved s st.decision st.resolved st.raw_question a.text ≡ [])
          × (strangers s st.decision a.text ≡ []))

  -- The answer is the first of the turn's answers, and the only one where a product is to be chosen.
  abbrev pub IsFirst : TurnState → Answer → Type 0
  IsFirst st a =
      (st.answer ≡ some a)
      × (part : String) × (rest : List (String × Answer)) × (st.answers ≡ (part, a) ∷ rest)
      × ((is_selection st.resolved ≡ false) ⊎ (rest ≡ []))

  abbrev pub IsGiven : TurnState → Type 0
  IsGiven st = (a : Answer) × IsFirst st a

  abbrev pub IsVerified : TurnState → Type 0
  IsVerified st = (a : Answer) × IsFirst st a × IsContained st a

  refuse_turn-IsVerified : (st : TurnState) (why : String) → IsVerified (refuse_turn s st why)
  unfolding refuse_turn
  refuse_turn-IsVerified st why = (
    s.refuse_for st.resolved (decision_or st.decision) why,
    (refl, st.raw_question, [], refl, inr refl),
    inr (inl (why, refl)),
  )

  pub verify_answer-IsVerified :
      (st : TurnState) (a : Answer) → IsFirst st a → IsVerified (verify_answer s st (some a))
  unfolding verify_answer
  verify_answer-IsVerified st a e =
      let products = unapproved s st.decision st.resolved st.raw_question a.text in
      let intruding = strangers s st.decision a.text in
      verify-holds IsVerified a.is_refused (not (is_nil products)) (not (is_nil intruding)) st
        (refuse_turn s st (unapproved_reason products))
        (refuse_turn s st (intruder_reason intruding)) (λ r. (a, e, inl r))
        (refuse_turn-IsVerified st (unapproved_reason products))
        (refuse_turn-IsVerified st (intruder_reason intruding))
        (λ p q. (a, e, inr (inr (nil_of products p, nil_of intruding q))))
