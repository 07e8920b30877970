-- ===== src/Router/Detector.antt =====
-- `SlotDetector` (assistant/answering/router.py): the slots that a question names, by the terms of
-- a vocabulary. The vocabulary (config/vocabularies.json) is an argument, and so is the regular
-- expression _ASKS_SOMETHING, as its test.
use technical_knowledge_assi.Prelude.{
  ℕ, ◌+◌, ◌*◌, String, Bool, true, false, ◌&&◌, ◌||◌, not, none, some, List, [], ◌∷◌, chars, leb,
  ltb, lower, strip, prefix, text_le, split_on, sorted, keep, any, map, length, if◌then◌else◌, ◌==◌,
  string_eq, nat_eq, collapse,
}
use technical_knowledge_assi.Prelude.Dict
use technical_knowledge_assi.Prelude.Dict.{Dict}
use technical_knowledge_assi.Router.Words.{has_term}

pub record SlotSpec : Type 0 where
  pub values : Dict String (List String)
  pub ask_only : Dict String (List String)
  pub is_load_bearing : Bool

pub record Vocabulary : Type 0 where
  pub spec : Dict String SlotSpec
  pub classes : Dict String String

-- `dict.get(key, [])`
unfoldable pub terms_at : String → Dict String (List String) → List String
unfolding Dict.lookup
terms_at key d = elim (Dict.lookup key d) [ none ↦ [] | some terms ↦ terms ]

-- `self.spec.get(slot, {}).get("values", {})`
unfoldable pub values_of : Vocabulary → String → Dict String (List String)
unfolding Dict.lookup
values_of v slot = elim (Dict.lookup slot v.spec) [ none ↦ [] | some s ↦ s.values ]

-- `_ask_only`
unfoldable pub ask_only : Vocabulary → String → String → List String
unfolding Dict.lookup terms_at
ask_only v slot value = elim (Dict.lookup slot v.spec) [
  | none ↦ []
  | some s ↦ terms_at value s.ask_only
]

-- `sum(len(t) for t in terms if re.search(...))`
unfoldable pub matched_length : List String → String → ℕ
unfolding has_term
matched_length [] lowered = 0
matched_length (t ∷ terms) lowered =
    let rest = matched_length terms lowered in if has_term t lowered then chars t + rest else rest

-- `_score`
unfoldable pub score : Vocabulary → String → String → List String → String → ℕ
unfolding matched_length ask_only
score v slot value terms lowered =
    let own = matched_length terms lowered in
    if own == 0 then matched_length (ask_only v slot value) lowered else own

-- `class_of`
unfoldable pub class_of : Vocabulary → String → String
unfolding Dict.lookup lower strip
class_of v substrate = elim (Dict.lookup (lower (strip substrate)) v.classes) [
  | none ↦ ""
  | some found ↦ if found == substrate then "" else found
]

-- The values that match, each with its score, in the vocabulary's order.
unfoldable pub scored : Vocabulary → String → String → Dict String (List String) → List (ℕ × String)
unfolding score
scored v slot lowered [] = []
scored v slot lowered ((value, terms) ∷ rest) =
    let others = scored v slot lowered rest in
    let n = score v slot value terms lowered in if n == 0 then others else (n, value) ∷ others

-- The order of `sort(reverse=True)` on pairs: the higher score first, then the later text.
abbrev pub is_better : ℕ × String → ℕ × String → Bool
is_better a b = ltb b.0 a.0 || a.0 == b.0 && text_le b.1 a.1

unfoldable pub best_first : Vocabulary → String → String → Dict String (List String) → List String
unfolding scored sorted
best_first v slot lowered values = map (λ s. s.1) (sorted is_better (scored v slot lowered values))

-- `found[slot] = scored[0][1]`, if there is one
unfoldable pub set_best : String → List String → Dict String String → Dict String String
unfolding Dict.insert
set_best slot [] found = found
set_best slot (value ∷ others) found = Dict.insert slot value found

-- The loop of `detect`.
unfoldable pub detect_in :
    Vocabulary → String → Dict String SlotSpec → Dict String String → Dict String String
unfolding set_best best_first prefix
detect_in v lowered [] found = found
detect_in v lowered ((slot, s) ∷ rest) found =
    if prefix 1 slot == "_"
    then detect_in v lowered rest found
    else detect_in v lowered rest (set_best slot (best_first v slot lowered s.values) found)

unfoldable pub detect : Vocabulary → String → Dict String String
unfolding detect_in lower
detect v question = detect_in v (lower question) v.spec []

unfoldable pub detect_properties : Vocabulary → String → List String
unfolding best_first values_of lower
detect_properties v question =
    best_first v "property_asked" (lower question) (values_of v "property_asked")

-- A property that matched: its score, whether one of its own terms did, and its name.
pub record Match : Type 0 where
  pub points : ℕ
  pub by_value : Bool
  pub property : String

unfoldable pub matches : Vocabulary → String → Dict String (List String) → List Match
unfolding score any has_term
matches v lowered [] = []
matches v lowered ((value, terms) ∷ rest) =
    let others = matches v lowered rest in
    let n = score v "property_asked" value terms lowered in
    if n == 0
    then others
    else record { points = n; by_value = any (λ t. has_term t lowered) terms; property = value }
      ∷ others

-- `max(score for ...)`
unfoldable pub best_points : List Match → ℕ
best_points [] = 0
best_points (m ∷ ms) = let n = best_points ms in if leb n m.points then m.points else n

-- PROPERTY_BAND is a half.
abbrev pub is_primary : ℕ → Match → Bool
is_primary best m = leb best (2 * m.points) && (m.by_value || m.points == best)

unfoldable pub primary_properties : Vocabulary → String → List String
unfolding matches best_points sorted keep values_of lower
primary_properties v question =
    let ms = matches v (lower question) (values_of v "property_asked") in
    map (λ m. m.property)
      (keep (is_primary (best_points ms)) (sorted (λ a b. leb b.points a.points) ms))

-- `load_bearing`
unfoldable pub load_bearing : Vocabulary → List String
unfolding keep prefix
load_bearing v =
    map (λ s. s.0) (keep (λ s. not (prefix 1 s.0 == "_") && s.1.is_load_bearing) v.spec)

-- `terms_for`
unfoldable pub terms_for : Vocabulary → String → String → List String
unfolding terms_at values_of
terms_for v slot value = terms_at value (values_of v slot)

-- `slot in slots`
unfoldable pub has_slot : String → Dict String String → Bool
unfolding Dict.lookup
has_slot slot slots = elim (Dict.lookup slot slots) [ none ↦ false | some value ↦ true ]

-- `len(question.split())`
unfoldable pub word_count : String → ℕ
unfolding split_on keep collapse
word_count text = length (keep (λ w. not (w == "")) (split_on " " (collapse text)))

module _ (asks_something : String → Bool) where
  unfoldable pub is_answer_to_askback : Vocabulary → String → Bool
  unfolding word_count detect has_slot
  is_answer_to_askback v question =
      let detected = detect v question in
      not (ltb 10 (word_count question))
      && not (asks_something question)
      && (has_slot "substrate" detected
          || has_slot "location" detected
          || has_slot "exposure" detected)
