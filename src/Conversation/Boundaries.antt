-- ===== src/Conversation/Boundaries.antt =====
-- When a turn opens a new case (assistant/turn/conversation.py, `opens_a_new_case`).
use technical_knowledge_assi.Prelude.{
  String, Bool, true, false, Option, none, some, List, [], ◌∷◌, ◌≡◌, inl, inr, ◌&&◌, ◌||◌, not, any,
  arith, refl, Option-cases, ◌∙◌, first,
}
use technical_knowledge_assi.Conversation.Cases.{
  Boundary, introducers, subjects, corrections, padded, introduces, names_subject, first_subject,
  correct_or_model, opens_a_new_case, decide_boundary,
}
use technical_knowledge_assi.Prelude.{contains}

abbrev pub is_found {ℓ} : {A : Type ℓ} → Option A → Bool
is_found none = false
is_found (some _) = true

first-any {ℓ} : {A : Type ℓ} (p : A → Bool) (xs : List A) → is_found (first p xs) ≡ any p xs
unfolding first any
first-any p [] = refl
first-any p (x ∷ xs) = ground (arith, first-any p xs)

-- The padded question has one of the introducing words and one of the subjects.
abbrev pub names_new_subject : String → Bool
names_new_subject lowered =
    any (introduces lowered) introducers && any (names_subject lowered) subjects

abbrev pub is_correction : String → Bool
is_correction lowered = any (λ m. contains m lowered) corrections

first_subject-any :
    (lowered : String) (words : List String)
    → is_found (first_subject lowered words)
      ≡ (any (introduces lowered) words && any (names_subject lowered) subjects)
unfolding first_subject any
first_subject-any lowered [] = refl
first_subject-any lowered (word ∷ words) =
    let here = first-any (names_subject lowered) subjects in
    let rest = first_subject-any lowered words in
    elim (Option-cases (first (names_subject lowered) subjects)) [
      | inl e ↦ ground (arith, here, rest, e)
      | inr (s, e) ↦ ground (arith, here, rest, e)
    ]

decide_boundary-found :
    (why : Option Boundary) (marker : Option String) (model_says : Bool)
    → (decide_boundary why marker model_says).0
      ≡ (is_found why || (not (is_found marker) && model_says))
unfolding decide_boundary correct_or_model
decide_boundary-found (some why) marker model_says = refl
decide_boundary-found none (some marker) model_says = refl
decide_boundary-found none none true = refl
decide_boundary-found none none false = refl

-- A turn opens a new case exactly if it pairs an introducing word with a subject, or the model says
-- so and no correction marker is there: the marker vetoes the model and not the words.
pub opens_a_new_case_iff :
    (question : String) (model_says : Bool)
    → (opens_a_new_case question model_says).0 ≡ (
        names_new_subject (padded question)
        || (not (is_correction (padded question)) && model_says))
unfolding opens_a_new_case
opens_a_new_case_iff question model_says =
    decide_boundary-found (first_subject (padded question) introducers)
      (first (λ m. contains m (padded question)) corrections) model_says
    ∙ rw (
      first_subject-any (padded question) introducers,
      first-any (λ m. contains m (padded question)) corrections,
    )
