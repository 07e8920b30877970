-- ===== src/Router/Evidence.antt =====
-- What a decision of `Router.route` carries to the steps after it (assistant/answering/router.py).
use technical_knowledge_assi.Prelude.{
  ◌≡◌, ◌↔◌, inl, inr, refl, ◌∙◌, String, Bool, true, false, ◌&&◌, ◌||◌, not, List, [], ◌∷◌, ◌++◌,
  arith, if◌then◌else◌, Option-cases, string_eq, ◌==◌, mem, mem-append, mem-unique, unique, All,
  All-map, All-mem,
}
use technical_knowledge_assi.Prelude.Dict
use technical_knowledge_assi.Prelude.Dict.{Dict}
use technical_knowledge_assi.Retrieval.{Row}
use technical_knowledge_assi.Router.Detector.{has_slot, primary_properties}
use technical_knowledge_assi.Router.Gates.{is_nil, flatten}
use technical_knowledge_assi.Router.Route.{
  extract, Decision, Rules, top_defers, needs_substrate, slots_for, asked_for, gate_terms, wall_for,
  lacks, single_document, staff_only, route_question, route_with, past_gate, carrying, decision,
  binding_of, or_all, refused_sum, printed, composed, lacks_property, lacks_wall, refuse, defer,
  diagnosis, ask_back,
}

-- A property of every branch is one of the decision; the guards before a late branch are false.
late_steps-holds :
    (P : Decision → Type 0) (f g h i : Bool) (x0 x1 x2 x3 x4 : Decision)
    → P x0
    → (g ≡ true → P x1)
    → (g ≡ false → P x2)
    → (g ≡ false → P x3)
    → (g ≡ false → P x4)
    → P (if f then x0 else if g then x1 else if h then x2 else if i then x3 else x4)
late_steps-holds P true g h i x0 x1 x2 x3 x4 e0 e1 e2 e3 e4 = e0
late_steps-holds P false true h i x0 x1 x2 x3 x4 e0 e1 e2 e3 e4 = e1 refl
late_steps-holds P false false true i x0 x1 x2 x3 x4 e0 e1 e2 e3 e4 = e2 refl
late_steps-holds P false false false true x0 x1 x2 x3 x4 e0 e1 e2 e3 e4 = e3 refl
late_steps-holds P false false false false x0 x1 x2 x3 x4 e0 e1 e2 e3 e4 = e4 refl

early_steps-holds :
    (P : Decision → Type 0) (a b c d e : Bool) (x0 x1 x2 x3 x4 x5 : Decision)
    → P x0
    → P x1
    → P x2
    → P x3
    → P x4
    → P x5
    → P (
        if a
        then x0
        else if b
        then x1
        else if c
        then x2
        else if d
        then x3
        else if e
        then x4
        else x5)
early_steps-holds P true b c d e x0 x1 x2 x3 x4 x5 e0 e1 e2 e3 e4 e5 = e0
early_steps-holds P false true c d e x0 x1 x2 x3 x4 x5 e0 e1 e2 e3 e4 e5 = e1
early_steps-holds P false false true d e x0 x1 x2 x3 x4 x5 e0 e1 e2 e3 e4 e5 = e2
early_steps-holds P false false false true e x0 x1 x2 x3 x4 x5 e0 e1 e2 e3 e4 e5 = e3
early_steps-holds P false false false false true x0 x1 x2 x3 x4 x5 e0 e1 e2 e3 e4 e5 = e4
early_steps-holds P false false false false false x0 x1 x2 x3 x4 x5 e0 e1 e2 e3 e4 e5 = e5

-- Every term of every entry is one of the words.
abbrev pub IsWithin : List String → Dict String (List String) → Type 0
IsWithin words entries = All (λ e. All (λ t. mem t words ≡ true) e.1) entries

mem_late : (t : String) (xs ys : List String) → mem t ys ≡ true → mem t (xs ++ ys) ≡ true
mem_late t xs ys k = rw (mem-append t xs ys, k) (ground arith)

flatten-IsWithin : (d : Dict String (List String)) → IsWithin (flatten d) d
unfolding flatten
flatten-IsWithin [] = tt
flatten-IsWithin ((p, terms) ∷ rest) = (
  All-map (λ t. mem t terms ≡ true) (λ t. mem t (terms ++ flatten rest) ≡ true)
      (λ t k. rw (mem-append t terms (flatten rest), k)) terms (All-mem terms),
  All-map (λ e. All (λ t. mem t (flatten rest) ≡ true) e.1)
      (λ e. All (λ t. mem t (terms ++ flatten rest) ≡ true) e.1)
      (λ e.
        All-map (λ t. mem t (flatten rest) ≡ true) (λ t. mem t (terms ++ flatten rest) ≡ true)
          (λ t k. mem_late t terms (flatten rest) k) e.1)
      rest (flatten-IsWithin rest),
)

binding_of-IsWithin :
    (words primary : List String) (d : Dict String (List String))
    → IsWithin words d
    → IsWithin words (binding_of primary d)
unfolding binding_of
binding_of-IsWithin words [] d h = tt
binding_of-IsWithin words (p ∷ primary) d h = elim (Option-cases (Dict.lookup p d)) [
  | inl e ↦ rw (e, binding_of) (binding_of-IsWithin words primary d h)
  | inr (terms, e) ↦
      rw (e, binding_of)
        (
          Dict.All-lookup (λ x. All (λ t. mem t words ≡ true) x.1) p d h e,
          binding_of-IsWithin words primary d h,
        )
]

or_all-IsWithin :
    (words : List String) (b d : Dict String (List String))
    → IsWithin words b
    → IsWithin words d
    → IsWithin words (or_all b d)
unfolding or_all
or_all-IsWithin words [] d h k = k
or_all-IsWithin words (x ∷ b) d h k = h

unique-IsWithin :
    (words : List String) (d : Dict String (List String))
    → IsWithin words d
    → IsWithin (unique words) d
unique-IsWithin words d h =
    All-map (λ e. All (λ t. mem t words ≡ true) e.1)
      (λ e. All (λ t. mem t (unique words) ≡ true) e.1)
      (λ e.
        All-map (λ t. mem t words ≡ true) (λ t. mem t (unique words) ≡ true)
          (λ t k. mem-unique t words ∙ k) e.1)
      d h

abbrev pub IsGated : Decision → Type 0
IsGated d = IsWithin d.asked_terms d.evidence_terms

-- The sum is refused in the branch of a quantity, and in no other.
abbrev IsHonest : Bool → Decision → Type 0
IsHonest quantity d = (d.sum_refused ≡ true) ↔ ((d.path ≡ extract) × (quantity ≡ true))

module _ (r : Rules) (question : String) (hits : List Row) (slots : Dict String String) where
  carry-IsGated : IsWithin (gate_terms r question slots) (
      or_all
        (binding_of (primary_properties r.vocabulary question) (asked_for r question slots).1)
        (asked_for r question slots).1)
  unfolding gate_terms
  carry-IsGated =
      let d = (asked_for r question slots).1 in
      unique-IsWithin (flatten d) _ (
        or_all-IsWithin (flatten d) _ d (binding_of-IsWithin (flatten d) _ d (flatten-IsWithin d))
          (flatten-IsWithin d))

  pub late_steps :
      (P : Decision → Type 0) (audiences : List String)
      → P (carrying r ask_back "5" question slots hits)
      → (has_slot "calculation" slots ≡ true → P (refused_sum r question slots hits))
      → (has_slot "calculation" slots ≡ false
          → P (printed r question slots hits)
            × P (carrying r extract "7s" question slots hits)
            × P (composed r question slots hits))
      → P (past_gate r question hits audiences slots)
  unfolding past_gate
  late_steps P audiences asked sum others =
      late_steps-holds P (not (has_slot "substrate" slots) && needs_substrate r question slots)
        (has_slot "calculation" slots)
        (single_document hits && not ((asked_for r question slots).0 == ""))
        (staff_only r audiences) (carrying r ask_back "5" question slots hits)
        (refused_sum r question slots hits) (printed r question slots hits)
        (carrying r extract "7s" question slots hits) (composed r question slots hits) asked sum
        (λ e. (others e).0) (λ e. (others e).1) (λ e. (others e).2)

  -- A property of the decision of every step, given that it holds of those past the gate.
  all_steps :
      (P : Decision → Type 0) (above_threshold : Bool) (audiences : List String)
      → P (decision r refuse "1" slots hits)
      → P (decision r defer "2" slots hits)
      → P (decision r diagnosis "3" slots hits)
      → P (lacks_property r question slots hits)
      → P (lacks_wall r question slots hits)
      → P (past_gate r question hits audiences slots)
      → P (route_with r question hits above_threshold audiences slots)
  unfolding route_with
  all_steps P above_threshold audiences e0 e1 e2 e3 e4 e5 =
      early_steps-holds P (not above_threshold || is_nil hits) (top_defers r.is_deferral hits)
        (has_slot "cause_asked" slots || has_slot "symptom" slots && has_slot "cause_asked" slots)
        (lacks r (gate_terms r question slots) hits) (lacks r (wall_for r question slots).1 hits) _
        _ _ _ _ _ e0 e1 e2 e3 e4 e5

  past_gate-IsGated :
      (audiences : List String) → IsGated (past_gate r question hits audiences slots)
  unfolding carrying decision refused_sum printed composed
  past_gate-IsGated audiences =
      late_steps IsGated audiences carry-IsGated (λ e. carry-IsGated)
        (λ e. (carry-IsGated, carry-IsGated, carry-IsGated))

  past_gate-IsHonest :
      (audiences : List String)
      → IsHonest (has_slot "calculation" slots) (past_gate r question hits audiences slots)
  unfolding carrying decision refused_sum printed composed
  past_gate-IsHonest audiences =
      late_steps (IsHonest (has_slot "calculation" slots)) audiences (λ p. cc, λ p. cc)
        (λ e. (λ p. (refl, e), λ p. refl))
        (λ e. ((λ p. cc, λ p. cc), (λ p. cc p, λ p. cc (e, p.1)), (λ p. cc, λ p. cc)))

  pub route_with-IsGated :
      (above_threshold : Bool) (audiences : List String)
      → IsGated (route_with r question hits above_threshold audiences slots)
  unfolding decision lacks_property lacks_wall
  route_with-IsGated above_threshold audiences =
      all_steps IsGated above_threshold audiences tt tt tt tt tt (past_gate-IsGated audiences)

  pub route_with-IsHonest :
      (above_threshold : Bool) (audiences : List String)
      → IsHonest
          (has_slot "calculation" slots)
          (route_with r question hits above_threshold audiences slots)
  unfolding decision lacks_property lacks_wall
  route_with-IsHonest above_threshold audiences =
      all_steps (IsHonest (has_slot "calculation" slots)) above_threshold audiences
        (λ p. cc, λ p. cc) (λ p. cc p, λ p. cc p.0) (λ p. cc p, λ p. cc p.0) (λ p. cc, λ p. cc)
        (λ p. cc p, λ p. cc p.0) (past_gate-IsHonest audiences)

module _ (r : Rules) (question : String) (hits : List Row) (above_threshold : Bool)
    (audiences : List String) (carried : Dict String String) where
  -- Every word that may bind a claim of the answer to a passage is one that the gate accepts: what the
  -- decision carries by property is within its list of all the words.
  pub evidence-IsGated : IsGated (route_question r question hits above_threshold audiences carried)
  unfolding route_question
  evidence-IsGated =
      route_with-IsGated r question hits (slots_for r question carried) above_threshold audiences

  -- The sum is refused exactly if a passage is printed and a quantity is asked, in this question or in
  -- what it carries on.
  pub sum_refused_iff :
      ((route_question r question hits above_threshold audiences carried).sum_refused ≡ true) ↔ (
        ((route_question r question hits above_threshold audiences carried).path ≡ extract)
        × (has_slot "calculation" (slots_for r question carried) ≡ true))
  unfolding route_question
  sum_refused_iff =
      route_with-IsHonest r question hits (slots_for r question carried) above_threshold audiences
