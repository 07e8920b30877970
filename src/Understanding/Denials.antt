-- ===== src/Understanding/Denials.antt =====
-- `denials_in` (assistant/answering/understanding.py): the building slots that a turn takes back.
use technical_knowledge_assi.Prelude.{
  ℕ, ◌+◌, String, Bool, ◌&&◌, not, List, [], ◌∷◌, if◌then◌else◌, ◌==◌, string_eq, nat_eq,
}
use technical_knowledge_assi.Prelude.Dict.{Dict}
use technical_knowledge_assi.Router.Detector.{detect, terms_for}
use technical_knowledge_assi.Router.Gates.{value_at}
use technical_knowledge_assi.Understanding.Readings.{Reader}

abbrev pub building_slots : List String
building_slots = "substrate" ∷ "location" ∷ "exposure" ∷ []

-- The occurrences of the terms that are negated, and all of them.
unfoldable pub count_negations : Reader → String → List String → ℕ × ℕ
count_negations reader question [] = (0, 0)
count_negations reader question (term ∷ terms) =
    let rest = count_negations reader question terms in
    let here = reader.negation_count question term in (here.0 + rest.0, here.1 + rest.1)

-- Every occurrence is negated, and there is one.
unfoldable pub all_negated : ℕ × ℕ → Bool
all_negated counts = not (counts.1 == 0) && counts.0 == counts.1

unfoldable pub denials_among :
    Reader → String → Dict String String → List String → Dict String String
unfolding value_at all_negated count_negations terms_for
denials_among reader question detected [] = []
denials_among reader question detected (slot ∷ slots) =
    let rest = denials_among reader question detected slots in
    let value = value_at slot detected in
    if not (value == "")
      && all_negated (count_negations reader question (terms_for reader.vocabulary slot value))
    then (slot, value) ∷ rest
    else rest

-- `denials_in(question, detector.detect(question), detector)`
unfoldable pub denials_in : Reader → String → Dict String String
unfolding denials_among detect
denials_in reader question =
    denials_among reader question (detect reader.vocabulary question) building_slots
