-- ===== src/Conversation/Tests.antt =====
-- Conversations at concrete inputs (assistant/turn/conversation.py).
use technical_knowledge_assi.Prelude.{
  ℕ, ◌≡◌, refl, true, none, some, [], ◌∷◌, String, arith, string_eq, nat_eq, ◌||◌, ◌&&◌, not,
}
use technical_knowledge_assi.Prelude.Dict
use technical_knowledge_assi.Prelude.Dict.{Dict}
use technical_knowledge_assi.Conversation.{
  Provenance, stated, observed, active, conflicting, SessionFact, FactHistory, Incoming, fact,
  denial, Facts, facts, merge_facts,
}
use technical_knowledge_assi.Conversation.Cases.{
  ConversationState, first_case, active_slots, open_case, opens_a_new_case, padded,
}
use technical_knowledge_assi.Conversation.Slots.{next_of, lookup-merge_facts}
use technical_knowledge_assi.Conversation.Rules.{photograph_never_overrules}
use technical_knowledge_assi.Conversation.Isolation.{value_if_active, opened_case_reads_its_turn}
use technical_knowledge_assi.Conversation.Retired.{forgotten, denied_value_returns}
use technical_knowledge_assi.Conversation.Boundaries.{
  names_new_subject, is_correction, opens_a_new_case_iff,
}

abbrev told : Provenance → String → ℕ → SessionFact
told provenance value turn = record {
  slot = "substrate";
  value = value;
  provenance = provenance;
  source_turn = turn;
  status = active;
  confidence = 1000;
  image_ref = "";
}

abbrev brick : FactHistory
brick = record { current = told stated "brick" 1; superseded_facts = []; contradicted_by = [] }

abbrev known : Facts
known = ("substrate", brick) ∷ []

abbrev stone_now : Dict String Incoming
stone_now = ("substrate", fact (told stated "stone" 2)) ∷ []

abbrev brick_case : ConversationState
brick_case = record {
  current_case = record first_case { case_facts = known };
  retired = [];
  turn_index = 1;
}

lookup-merge_facts_example :
    Dict.lookup "substrate" (merge_facts known (facts stone_now))
    ≡ next_of (Dict.lookup "substrate" stone_now) (Dict.lookup "substrate" known)
lookup-merge_facts_example =
    lookup-merge_facts known stone_now "substrate" (unfold Dict.lookup in (refl, tt)) (omega arith)

photograph_never_overrules_example :
    (h : FactHistory) × (next_of (some (fact (told observed "stone" 2))) (some brick) ≡ some h)
    × (h.current.value ≡ "brick")
    × (h.current.provenance ≡ stated)
    × (h.current.source_turn ≡ 1)
    × (h.superseded_facts ≡ [])
    × (h.contradicted_by ≡ told observed "stone" 2 ∷ [])
    × (h.current.status ≡ conflicting)
photograph_never_overrules_example =
    photograph_never_overrules (told observed "stone" 2) brick refl refl

opened_case_reads_its_turn_example :
    (Dict.lookup "location" (active_slots (open_case 3 "another wall" stone_now brick_case))
      ≡ value_if_active (next_of (Dict.lookup "location" stone_now) none))
    × ((open_case 3 "another wall" stone_now brick_case).retired
        ≡ record first_case { case_facts = known } ∷ [])
opened_case_reads_its_turn_example =
    opened_case_reads_its_turn 3 "another wall" stone_now brick_case "location"
      (unfold Dict.lookup in (refl, tt)) (omega arith)

opens_a_new_case_iff_example : (opens_a_new_case "Actually it is stone" true).0 ≡ (
    names_new_subject (padded "Actually it is stone")
    || (not (is_correction (padded "Actually it is stone")) && true))
opens_a_new_case_iff_example = opens_a_new_case_iff "Actually it is stone" true

denied_value_returns_example :
    (h : FactHistory) × (forgotten (
        next_of
          (some (fact (told observed "stone" 3)))
          (next_of (some (denial (record { slot = "substrate"; value = "brick" }))) (some brick)))
      ≡ some h)
    × (h.current.value ≡ "brick")
    × (h.current.status ≡ active)
denied_value_returns_example =
    denied_value_returns (record { slot = "substrate"; value = "brick" }) (told observed "stone" 3)
      brick refl refl refl refl refl
