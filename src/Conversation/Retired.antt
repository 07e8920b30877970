-- ===== src/Conversation/Retired.antt =====
-- What forgetting the images does to a slot (assistant/turn/conversation.py,
-- `supersede_observations`), and how it meets a denial.
use technical_knowledge_assi.Prelude.{
  String, ◌≡◌, true, false, Option, none, some, [], ◌∷◌, ◌++◌, arith, ◌==◌, string_eq, nat_eq,
  Bool-cases, Option-cases, inl, inr, refl, eq_iff, ap, ◌∙◌, subst, sym, ==-refl,
}
use technical_knowledge_assi.Prelude.Dict
use technical_knowledge_assi.Prelude.Dict.{Dict, IsDistinct}
use technical_knowledge_assi.Conversation.{
  Provenance, observed, stated, carried, active, conflicting, SessionFact, from_person, FactHistory,
  Facts, Denial, denial, fact, retire, write, write_by, write_observed, assumed,
}
use technical_knowledge_assi.Conversation.Cases.{
  forget_images, forget_all, is_observed, ConversationState, supersede_observations, keep_slot,
}
use technical_knowledge_assi.Conversation.Slots.{next_of, or_kept}
use technical_knowledge_assi.Conversation.Rules.{denial_retires}

abbrev pub forgotten : Option FactHistory → Option FactHistory
forgotten none = none
forgotten (some h) = forget_images h

lookup-forget_all-none :
    (slot : String) (d : Facts) → Dict.lookup slot d ≡ none → Dict.lookup slot (forget_all d) ≡ none
unfolding forget_all keep_slot Dict.lookup
lookup-forget_all-none slot [] e = refl
lookup-forget_all-none slot ((j, h) ∷ d) e = elim (Option-cases (forget_images h)) [
  | inl gone ↦ rw gone (lookup-forget_all-none slot d (ground arith))
  | inr (h', kept) ↦ rw kept (ground (arith, lookup-forget_all-none slot d))
]

lookup-forget_all :
    (slot : String) (d : Facts)
    → IsDistinct d
    → Dict.lookup slot (forget_all d) ≡ forgotten (Dict.lookup slot d)
unfolding forget_all keep_slot Dict.lookup
lookup-forget_all slot [] h = refl
lookup-forget_all slot ((j, f) ∷ d) h = elim (Bool-cases (j == slot)) [
  | inl same ↦ elim (Option-cases (forget_images f)) [
    | inl gone ↦
        rw (gone, same)
          (lookup-forget_all-none slot d
              (subst (λ i. Dict.lookup i d ≡ none) ((eq_iff j slot).0 same) h.0)
            ∙ sym gone)
    | inr (f', kept) ↦ rw (kept, same) (sym kept)
  ]
  | inr other ↦ elim (Option-cases (forget_images f)) [
    | inl gone ↦ rw (gone, other) (lookup-forget_all slot d h.1)
    | inr (f', kept) ↦ rw (kept, other) (lookup-forget_all slot d h.1)
  ]
]

-- Forgetting the images removes a slot that a photograph filled, settles one that a photograph
-- contradicted in favour of the person, and leaves every other slot as it was.
pub supersede_observations-exact :
    (st : ConversationState) (slot : String)
    → IsDistinct st.current_case.case_facts
    → Dict.lookup slot (supersede_observations st).current_case.case_facts
      ≡ forgotten (Dict.lookup slot st.current_case.case_facts)
unfolding supersede_observations
supersede_observations-exact st slot d = lookup-forget_all slot st.current_case.case_facts d

person-is_observed :
    (p : Provenance)
    → elim p [ stated ↦ true | carried ↦ true | _ ↦ false ] ≡ true
    → is_observed p ≡ false
person-is_observed stated h = refl
person-is_observed carried h = refl
person-is_observed observed h = cc h
person-is_observed assumed h = refl

-- A value that the person took back comes back: after a denial of the held value, a photograph of
-- a later turn that shows another value, and a forgetting of the images, the slot's fact is active
-- again with the denied value.
pub denied_value_returns :
    (d : Denial) (f : SessionFact) (prior : FactHistory)
    → from_person prior.current ≡ true
    → d.value ≡ prior.current.value
    → f.provenance ≡ observed
    → (prior.current.value == f.value) ≡ false
    → (prior.current.source_turn == f.source_turn) ≡ false
    → (h : FactHistory) × (forgotten
          (next_of (some (fact f)) (next_of (some (denial d)) (some prior)))
        ≡ some h)
      × (h.current.value ≡ d.value)
      × (h.current.status ≡ active)
unfolding write write_by write_observed forget_images
denied_value_returns d f prior person denied shown differs later =
    let gone : FactHistory = record {
      current = retire prior.current;
      superseded_facts = prior.superseded_facts ++ retire prior.current ∷ [];
      contradicted_by = [];
    } in
    let at_denial : next_of (some (denial d)) (some prior) ≡ some gone =
      (denial_retires d prior).1 ∙ rw (denied, ==-refl prior.current.value) (ground arith) in
    let seen : FactHistory = record {
      current = record prior.current { status = conflicting };
      superseded_facts = gone.superseded_facts;
      contradicted_by = f ∷ [];
    } in
    let at_photograph : next_of (some (fact f)) (some gone) ≡ some seen =
      ap (λ p. or_kept (write_by p f gone) (some gone)) shown
      ∙ rw (differs, later, person, write_observed) in
    rw (at_denial, at_photograph)
      (
        record seen { current = record prior.current { status = active }; contradicted_by = [] },
        rw (person-is_observed prior.current.provenance person, forget_images),
        sym denied,
        refl,
      )
