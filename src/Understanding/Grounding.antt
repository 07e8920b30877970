-- ===== src/Understanding/Grounding.antt =====
-- Where the slots of a resolved request come from (assistant/answering/understanding.py).
use technical_knowledge_assi.Prelude.{
  ℕ, ◌≡◌, ◌⊎◌, String, Bool, true, false, Option, none, some, string_eq, lower, strip,
}
use technical_knowledge_assi.Prelude.Dict
use technical_knowledge_assi.Prelude.Dict.{Dict}
use technical_knowledge_assi.Conversation.{Provenance, Facts}
use technical_knowledge_assi.Router.Words.{has_word}
use technical_knowledge_assi.Router.Detector.{detect, has_slot}
use technical_knowledge_assi.Router.Gates.{value_at}
use technical_knowledge_assi.Understanding.Readings.{Reader}
use technical_knowledge_assi.Understanding.Denials.{denials_in}
use technical_knowledge_assi.Understanding.Inheritance.{is_held}
use technical_knowledge_assi.Understanding.Resolving.{Building, take_slot, or_nothing, inherit_slot}

module _ (reader : Reader) (question : String) (held : Facts) where
  abbrev detected : Dict String String
  detected = detect reader.vocabulary (reader.asserted_text question)

  -- The person said it in this turn: in the vocabulary's words, or, where those are missing, in the
  -- model's, which stand in what the question asserts and which the vocabulary knows.
  abbrev pub IsSaid : String → String → String → Type 0
  IsSaid slot word value =
      (has_slot slot (denials_in reader question) ≡ false)
      × ((Dict.lookup slot detected ≡ some value)
          ⊎ ((Dict.lookup slot detected ≡ none)
              × (has_word (lower (strip word)) (lower (reader.asserted_text question)) ≡ true)
              × (value_at slot (detect reader.vocabulary word) ≡ value)))

  -- The conversation holds it, the turn does not deny it and says no other.
  abbrev pub IsRemembered : String → String → Type 0
  IsRemembered slot value =
      (has_slot slot (denials_in reader question) ≡ false)
      × ((Dict.lookup slot detected ≡ none) ⊎ (Dict.lookup slot detected ≡ some ""))
      × (is_held held slot value ≡ true)

  abbrev pub IsGrounded : String → String → String → Type 0
  IsGrounded slot word value = (value ≡ "") ⊎ IsSaid slot word value ⊎ IsRemembered slot value

  taken : String → String → Option String
  taken slot word =
      take_slot reader (denials_in reader question) detected (reader.asserted_text question) slot
        word

  -- What a slot has after any part of the loop: what was said, or, if nothing was, what is remembered.
  abbrev IsDue : String → String → String → Type 0
  IsDue slot word value =
      (value ≡ or_nothing (taken slot word))
      ⊎ ((or_nothing (taken slot word) ≡ "") × IsRemembered slot value)

  -- One slot of the loop, `get`, which changes only from nothing, and to what is inherited for it.
  module _ (compares : Bool) (turn : ℕ) (get : Building → String) (name word : String) where
    abbrev ChangesFromNothing : Type 0
    ChangesFromNothing =
        (slot value : String) (origin : Provenance) (b : Building)
        → (get (inherit_slot compares slot value origin b) ≡ get b)
          ⊎ ((slot ≡ name)
              × (get b ≡ "")
              × (get (inherit_slot compares slot value origin b) ≡ value))
