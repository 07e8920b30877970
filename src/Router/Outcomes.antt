-- ===== src/Router/Outcomes.antt =====
-- Which questions take which path of `Router.route` (assistant/answering/router.py).
use technical_knowledge_assi.Prelude.{
  ◌≡◌, ◌≢◌, ◌↔◌, refl, String, Bool, true, false, ◌&&◌, ◌||◌, not, List, arith, if◌then◌else◌,
  string_eq, ◌==◌,
}
use technical_knowledge_assi.Prelude.Dict.{Dict}
use technical_knowledge_assi.Retrieval.{Row}
use technical_knowledge_assi.Router.Detector.{has_slot}
use technical_knowledge_assi.Router.Gates.{is_nil}
use technical_knowledge_assi.Router.Route.{
  RoutePath, route, extract, compose, defer, diagnosis, ask_back, select, refuse, Decision, Rules,
  top_defers, needs_substrate, slots_for, asked_for, gate_terms, wall_for, lacks, single_document,
  staff_only, route_question, route_with, past_gate, carrying, decision, refused_sum, printed,
  composed, lacks_property, lacks_wall,
}

-- The guards of the steps, in their order.
abbrev pub Guards : Type 0
Guards = Bool × Bool × Bool × Bool × Bool × Bool × Bool × Bool × Bool

unfoldable pub path_of : Guards → RoutePath
path_of (true, _, _, _, _, _, _, _, _) = refuse
path_of (false, true, _, _, _, _, _, _, _) = defer
path_of (false, false, true, _, _, _, _, _, _) = diagnosis
path_of (false, false, false, true, _, _, _, _, _) = refuse
path_of (false, false, false, false, true, _, _, _, _) = refuse
path_of (false, false, false, false, false, true, _, _, _) = ask_back
path_of (false, false, false, false, false, false, true, _, _) = extract
path_of (false, false, false, false, false, false, false, true, _) = extract
path_of (false, false, false, false, false, false, false, false, true) = extract
path_of (false, false, false, false, false, false, false, false, false) = compose

-- The table at guards of the form that `route` has: the first is of two tests, and so is the third.
module _ (above nil b cause symptom d e f g h i : Bool) where
  abbrev tests : Guards
  tests = (not above || nil, b, cause || symptom && cause, d, e, f, g, h, i)

  tests-compose : (path_of tests ≡ compose) ↔ (
      (above ≡ true)
      × (nil ≡ false)
      × (b ≡ false)
      × (cause ≡ false)
      × (d ≡ false)
      × (e ≡ false)
      × (f ≡ false)
      × (g ≡ false)
      × (h ≡ false)
      × (i ≡ false))
  unfolding path_of
  tests-compose = ground arith

  tests-refuse :
      (path_of tests ≡ refuse) ↔ ((not above || nil || (not b && not cause && (d || e))) ≡ true)
  unfolding path_of
  tests-refuse = ground arith

  tests-defer : (path_of tests ≡ defer) ↔ ((above ≡ true) × (nil ≡ false) × (b ≡ true))
  unfolding path_of
  tests-defer = ground arith

  tests-extract : (path_of tests ≡ extract) ↔ (
      (path_of tests ≢ refuse)
      × (b ≡ false)
      × (cause ≡ false)
      × (f ≡ false)
      × ((g || h || i) ≡ true))
  unfolding path_of
  tests-extract = ground arith

  tests_never_route : (path_of tests ≢ route) × (path_of tests ≢ select)
  unfolding path_of
  tests_never_route = ground arith

-- The chains of steps, whatever the decisions are.
late_steps-path :
    (f g h i : Bool) (x0 x1 x2 x3 x4 : Decision)
    → x0.path ≡ ask_back
    → x1.path ≡ extract
    → x2.path ≡ extract
    → x3.path ≡ extract
    → x4.path ≡ compose
    → (if f then x0 else if g then x1 else if h then x2 else if i then x3 else x4).path
      ≡ path_of (false, false, false, false, false, f, g, h, i)
unfolding path_of
late_steps-path true g h i x0 x1 x2 x3 x4 e0 e1 e2 e3 e4 = e0
late_steps-path false true h i x0 x1 x2 x3 x4 e0 e1 e2 e3 e4 = e1
late_steps-path false false true i x0 x1 x2 x3 x4 e0 e1 e2 e3 e4 = e2
late_steps-path false false false true x0 x1 x2 x3 x4 e0 e1 e2 e3 e4 = e3
late_steps-path false false false false x0 x1 x2 x3 x4 e0 e1 e2 e3 e4 = e4

early_steps-path :
    (a b c d e f g h i : Bool) (x0 x1 x2 x3 x4 x5 : Decision)
    → x0.path ≡ refuse
    → x1.path ≡ defer
    → x2.path ≡ diagnosis
    → x3.path ≡ refuse
    → x4.path ≡ refuse
    → x5.path ≡ path_of (false, false, false, false, false, f, g, h, i)
    → (if a
        then x0
        else if b
        then x1
        else if c
        then x2
        else if d
        then x3
        else if e
        then x4
        else x5).path
      ≡ path_of (a, b, c, d, e, f, g, h, i)
unfolding path_of
early_steps-path true b c d e f g h i x0 x1 x2 x3 x4 x5 e0 e1 e2 e3 e4 e5 = e0
early_steps-path false true c d e f g h i x0 x1 x2 x3 x4 x5 e0 e1 e2 e3 e4 e5 = e1
early_steps-path false false true d e f g h i x0 x1 x2 x3 x4 x5 e0 e1 e2 e3 e4 e5 = e2
early_steps-path false false false true e f g h i x0 x1 x2 x3 x4 x5 e0 e1 e2 e3 e4 e5 = e3
early_steps-path false false false false true f g h i x0 x1 x2 x3 x4 x5 e0 e1 e2 e3 e4 e5 = e4
early_steps-path false false false false false f g h i x0 x1 x2 x3 x4 x5 e0 e1 e2 e3 e4 e5 = e5

module _ (r : Rules) (question : String) (hits : List Row) (above_threshold : Bool)
    (audiences : List String) (slots : Dict String String) where
  abbrev pub guards : Guards
  guards = (
    not above_threshold || is_nil hits,
    top_defers r.is_deferral hits,
    has_slot "cause_asked" slots || has_slot "symptom" slots && has_slot "cause_asked" slots,
    lacks r (gate_terms r question slots) hits,
    lacks r (wall_for r question slots).1 hits,
    not (has_slot "substrate" slots) && needs_substrate r question slots,
    has_slot "calculation" slots,
    single_document hits && not ((asked_for r question slots).0 == ""),
    staff_only r audiences,
  )

  past_gate-path :
      (past_gate r question hits audiences slots).path
      ≡ path_of (false, false, false, false, false, guards.5, guards.6, guards.7, guards.8)
  unfolding past_gate carrying decision refused_sum printed composed
  past_gate-path =
      late_steps-path guards.5 guards.6 guards.7 guards.8 _ _ _ _ _ refl refl refl refl refl

  route_with-path :
      (route_with r question hits above_threshold audiences slots).path ≡ path_of guards
  unfolding route_with decision lacks_property lacks_wall
  route_with-path =
      early_steps-path guards.0 guards.1 guards.2 guards.3 guards.4 guards.5 guards.6 guards.7
        guards.8 _ _ _ _ _ (past_gate r question hits audiences slots) refl refl refl refl refl
        past_gate-path

module _ (r : Rules) (question : String) (hits : List Row) (above_threshold : Bool)
    (audiences : List String) (carried : Dict String String) where
  route_question-path :
      (route_question r question hits above_threshold audiences carried).path
      ≡ path_of (guards r question hits above_threshold audiences (slots_for r question carried))
  unfolding route_question
  route_question-path =
      route_with-path r question hits above_threshold audiences (slots_for r question carried)

  -- `route` decides for the path compose exactly if all of this holds: something was found and is close
  -- enough,
  -- the first passage does not refer the reader to a person, no cause is asked, the passages name what
  -- was asked (where the question says what) and the wall (where it is needed), the substrate is not
  -- one that must be asked for, no quantity is asked, it is not a factual question that one document
  -- answers, and the audience is not the staff alone.
  pub composes_iff :
      let slots = slots_for r question carried in
      ((route_question r question hits above_threshold audiences carried).path ≡ compose) ↔ (
        (above_threshold ≡ true)
        × (is_nil hits ≡ false)
        × (top_defers r.is_deferral hits ≡ false)
        × (has_slot "cause_asked" slots ≡ false)
        × (lacks r (gate_terms r question slots) hits ≡ false)
        × (lacks r (wall_for r question slots).1 hits ≡ false)
        × ((not (has_slot "substrate" slots) && needs_substrate r question slots) ≡ false)
        × (has_slot "calculation" slots ≡ false)
        × ((single_document hits && not ((asked_for r question slots).0 == "")) ≡ false)
        × (staff_only r audiences ≡ false))
  composes_iff = rw route_question-path (
      tests-compose above_threshold (is_nil hits) (top_defers r.is_deferral hits)
        (has_slot "cause_asked" (slots_for r question carried))
        (has_slot "symptom" (slots_for r question carried)) _ _ _ _ _ _)

  -- The path is never the referral before retrieval nor the selection of a product: those are decided
  -- elsewhere.
  pub never_routes_or_selects :
      ((route_question r question hits above_threshold audiences carried).path ≢ route)
      × ((route_question r question hits above_threshold audiences carried).path ≢ select)
  never_routes_or_selects = rw route_question-path (
      tests_never_route above_threshold (is_nil hits) (top_defers r.is_deferral hits)
        (has_slot "cause_asked" (slots_for r question carried))
        (has_slot "symptom" (slots_for r question carried)) _ _ _ _ _ _)

  -- The published deferral is quoted exactly if something was found, is close enough, and its first
  -- passage refers the reader to a person: whatever else is asked, a quantity included.
  pub defers_iff :
      ((route_question r question hits above_threshold audiences carried).path ≡ defer)
      ↔ ((above_threshold ≡ true) × (is_nil hits ≡ false) × (top_defers r.is_deferral hits ≡ true))
  defers_iff = rw route_question-path (
      tests-defer above_threshold (is_nil hits) (top_defers r.is_deferral hits)
        (has_slot "cause_asked" (slots_for r question carried))
        (has_slot "symptom" (slots_for r question carried)) _ _ _ _ _ _)

  -- The answer is refused exactly if nothing close enough was found, or if the first passage refers to
  -- nobody, no cause is asked, and the passages lack what was asked or the wall.
  pub refuses_iff :
      let slots = slots_for r question carried in
      ((route_question r question hits above_threshold audiences carried).path ≡ refuse) ↔ (
        (not above_threshold
          || is_nil hits
          || (not (top_defers r.is_deferral hits)
              && not (has_slot "cause_asked" slots)
              && (lacks r (gate_terms r question slots) hits
                  || lacks r (wall_for r question slots).1 hits)))
        ≡ true)
  refuses_iff = rw route_question-path (
      tests-refuse above_threshold (is_nil hits) (top_defers r.is_deferral hits)
        (has_slot "cause_asked" (slots_for r question carried))
        (has_slot "symptom" (slots_for r question carried)) _ _ _ _ _ _)
