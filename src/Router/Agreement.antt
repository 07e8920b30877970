-- ===== src/Router/Agreement.antt =====
-- `unsupported_terms` and step 4 of `route` (assistant/answering/router.py): the two ends of the gate.
use technical_knowledge_assi.Prelude.{
  ◌≡◌, ◌≢◌, ◌↔◌, refl, String, Bool, true, false, ◌&&◌, ◌||◌, not, List, [], ◌∷◌, arith,
  if◌then◌else◌, string_eq, ne_of_==,
}
use technical_knowledge_assi.Prelude.Dict.{Dict}
use technical_knowledge_assi.Retrieval.{Row}
use technical_knowledge_assi.Router.Detector.{has_slot}
use technical_knowledge_assi.Router.Gates.{is_nil, present, unsupported_terms, asked_terms}
use technical_knowledge_assi.Router.Evidence.{late_steps}
use technical_knowledge_assi.Router.Route.{
  Decision, Rules, top_defers, slots_for, asked_for, gate_terms, wall_for, lacks, route_question,
  route_with, past_gate, carrying, decision, refused_sum, printed, composed, lacks_property,
  lacks_wall,
}

past_gate_never_4 :
    (r : Rules) (question : String) (hits : List Row) (audiences : List String)
    (slots : Dict String String)
    → (past_gate r question hits audiences slots).step ≢ "4"
unfolding carrying decision refused_sum printed composed
past_gate_never_4 r question hits audiences slots =
    late_steps r question hits slots (λ d. d.step ≢ "4") audiences
      (ne_of_== {a = "5"} {b = "4"} refl) (λ e. ne_of_== {a = "6"} {b = "4"} refl)
      (λ e. (
        ne_of_== {a = "7"} {b = "4"} refl,
        ne_of_== {a = "7s"} {b = "4"} refl,
        ne_of_== {a = "8"} {b = "4"} refl,
      ))

-- The fourth step, where the three before it do not fire.
fourth_step_iff :
    (lacking no_wall : Bool) (x3 x4 x5 : Decision)
    → x3.step ≡ "4"
    → x4.step ≢ "4"
    → x5.step ≢ "4"
    → ((if lacking then x3 else if no_wall then x4 else x5).step ≡ "4") ↔ (lacking ≡ true)
fourth_step_iff true no_wall x3 x4 x5 e3 e4 e5 = (λ p. refl, λ p. e3)
fourth_step_iff false true x3 x4 x5 e3 e4 e5 = (λ p. absurd (e4 p), λ p. cc)
fourth_step_iff false false x3 x4 x5 e3 e4 e5 = (λ p. absurd (e5 p), λ p. cc)

after_three_iff :
    (a b c lacking no_wall : Bool) (x0 x1 x2 x3 x4 x5 : Decision)
    → a ≡ false
    → b ≡ false
    → c ≡ false
    → x3.step ≡ "4"
    → x4.step ≢ "4"
    → x5.step ≢ "4"
    → ((if a
          then x0
          else if b
          then x1
          else if c
          then x2
          else if lacking
          then x3
          else if no_wall
          then x4
          else x5).step
        ≡ "4")
      ↔ (lacking ≡ true)
after_three_iff a b c lacking no_wall x0 x1 x2 x3 x4 x5 ea eb ec e3 e4 e5 =
    rw (ea, eb, ec) (fourth_step_iff lacking no_wall x3 x4 x5 e3 e4 e5)

unless_nil :
    (terms : List String) (is_present : Bool)
    → ((if is_nil terms || is_present then [] else terms) ≢ [])
      ↔ ((not (is_nil terms) && not is_present) ≡ true)
unfolding is_nil
unless_nil [] is_present = (λ h. absurd (h refl), λ p. cc)
unless_nil (t ∷ terms) true = (λ h. absurd (h refl), λ p. cc)
unless_nil (t ∷ terms) false = (λ h. refl, λ p e. cc)

module _ (r : Rules) (question : String) (hits : List Row) (carried : Dict String String) where
  unsupported_iff :
      (unsupported_terms r.asked_groups r.on_wall r.vocabulary question hits carried ≢ [])
      ↔ (lacks r (gate_terms r question (slots_for r question carried)) hits ≡ true)
  unfolding unsupported_terms asked_terms gate_terms asked_for slots_for lacks
  unsupported_iff =
      unless_nil (gate_terms r question (slots_for r question carried))
        (present (gate_terms r question (slots_for r question carried)) hits)

  fourth_iff :
      (above_threshold : Bool) (audiences : List String)
      → above_threshold ≡ true
      → is_nil hits ≡ false
      → top_defers r.is_deferral hits ≡ false
      → has_slot "cause_asked" (slots_for r question carried) ≡ false
      → ((route_question r question hits above_threshold audiences carried).step ≡ "4")
        ↔ (lacks r (gate_terms r question (slots_for r question carried)) hits ≡ true)
  unfolding route_question route_with lacks_property lacks_wall decision
  fourth_iff above_threshold audiences above some_hits plain no_cause =
      after_three_iff (not above_threshold || is_nil hits) (top_defers r.is_deferral hits)
        (has_slot "cause_asked" (slots_for r question carried)
          || has_slot "symptom" (slots_for r question carried)
            && has_slot "cause_asked" (slots_for r question carried))
        (lacks r (gate_terms r question (slots_for r question carried)) hits)
        (lacks r (wall_for r question (slots_for r question carried)).1 hits) _ _ _ _
        (lacks_wall r question (slots_for r question carried) hits)
        (past_gate r question hits audiences (slots_for r question carried)) (rw (above, some_hits))
        plain (rw no_cause (ground arith)) refl (ne_of_== {a = "4s"} {b = "4"} refl)
        (past_gate_never_4 r question hits audiences (slots_for r question carried))

-- Where the first three steps pass a question on, step 4 refuses it exactly if `unsupported_terms`,
-- which the engine calls before it routes, names a term: the two ends of the gate agree.
pub unsupported_terms-agree :
    (r : Rules) (question : String) (hits : List Row) (above_threshold : Bool)
    (audiences : List String) (carried : Dict String String)
    → above_threshold ≡ true
    → is_nil hits ≡ false
    → top_defers r.is_deferral hits ≡ false
    → has_slot "cause_asked" (slots_for r question carried) ≡ false
    → ((route_question r question hits above_threshold audiences carried).step ≡ "4")
      ↔ (unsupported_terms r.asked_groups r.on_wall r.vocabulary question hits carried ≢ [])
unsupported_terms-agree r question hits above_threshold audiences carried above some_hits plain
      no_cause =
    let fourth =
      fourth_iff r question hits carried above_threshold audiences above some_hits plain no_cause in
    let unsupported = unsupported_iff r question hits carried in
    (λ e. unsupported.1 (fourth.0 e), λ e. fourth.1 (unsupported.0 e))
